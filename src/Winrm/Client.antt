-- ===== src/Winrm/Client.antt =====
-- plugin/windows-winrm/winrm/client.go: Client. The library for WinRM is the record `Library`. A text
-- of an error is left out where it is the library's.
use nmslite.Common.{
  ℤ, pos, ◌==◌, Bool, true, false, Option, none, some, [], ◌∷◌, ◌++◌, if◌then◌else◌,
}
use nmslite.Common.Results.{Result, ok, err}
use nmslite.Winrm.{Text, Credentials}
use nmslite.Protocols.Schemas.{codes}

pub record Library : Type 1 where
  pub Connection : Type 0
  -- winrm.NewClient, which reads the shared DefaultParameters: whether they have the decorator for
  -- NTLM, then target, port, user and password; and NewClientWithParameters with the decorator
  pub new_client : Bool → Text → ℤ → Text → Text → Option Connection
  pub new_client_ntlm : Text → ℤ → Text → Text → Option Connection
  -- RunWithString: what is printed, the errors that are printed, and the exit code
  pub run_with_string : Connection → Text → Option (Text × Text × ℤ)
  pub trim_space : Text → Text

pub data ClientError : Type 0 where
  not_created not_executed : ClientError
  -- the exit code, and what was printed
  command_failed : ℤ → Text → ClientError

module _ (l : Library) where
  open l use {Connection, new_client, new_client_ntlm, run_with_string, trim_space}

  abbrev pub created : Option Connection → Result ClientError Connection
  created none = err not_created
  created (some client) = ok client

  -- NewClient: NTLM where there is a domain, which then stands in front of the user. The decorator for
  -- NTLM is set on DefaultParameters itself, a pointer, so it stays: the Boolean says whether it is set.
  unfoldable pub make_client : Bool → Text → ℤ → Credentials → Result ClientError Connection × Bool
  make_client decorated target port creds = elim creds.domain [
    | [] ↦ (created (new_client decorated target port creds.username creds.password), decorated)
    | c ∷ cs ↦ (
      created (new_client_ntlm target port ((c ∷ cs) ++ b'\\' ∷ creds.username) creds.password),
      true,
    )
  ]

  -- strings.ReplaceAll of a quote by a backquote and a quote.
  unfoldable escape : Text → Text
  escape [] = []
  escape (c ∷ t) = let rest = escape t in if c == b'"' then b'`' ∷ b'"' ∷ rest else c ∷ rest

  abbrev pub is_zero : ℤ → Bool
  is_zero (pos n) = n == 0
  is_zero n = false

  -- RunPowerShellRaw, and the end of RunPowerShell.
  unfoldable run_raw : Connection → Text → Result ClientError Text
  run_raw client script = elim (run_with_string client script) [
    | none ↦ err not_executed
    | some (stdout, stderr, exit_code) ↦
        if is_zero exit_code then ok (trim_space stdout) else err (command_failed exit_code stderr)
  ]

  -- RunPowerShell
  unfoldable pub run_power_shell : Connection → Text → Result ClientError Text
  unfolding escape run_raw
  run_power_shell client script = run_raw client (
      codes "powershell.exe -NoProfile -NonInteractive -Command "
      ++ b'"' ∷ escape script
      ++ b'"' ∷ [])
