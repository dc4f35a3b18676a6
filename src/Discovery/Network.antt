-- ===== src/Discovery/Network.antt =====
-- internal/discovery/handshake.go: what the libraries for SSH, WinRM and SNMP do, and what the device
-- answers.
use nmslite.Common.{ℕ, ℤ, String, ◌⊎◌, Bool, true, false, Option, List}
use nmslite.Discovery.Addresses.{Text}
use nmslite.Discovery.World.{Handshake}

pub data Level : Type 0 where
  no_auth_no_priv auth_no_priv auth_priv : Level

-- gosnmp's constants; `none_set` is its zero value of each type, which leaves a field out.
pub data AuthProtocol : Type 0 where
  none_set md5 sha sha224 sha256 sha384 sha512 : AuthProtocol

pub data PrivProtocol : Type 0 where
  none_set no_priv des aes aes192 aes256 : PrivProtocol

-- gosnmp.UsmSecurityParameters
pub record Usm : Type 0 where
  pub user_name : String
  pub authentication_protocol : AuthProtocol
  pub authentication_passphrase : String
  pub privacy_protocol : PrivProtocol
  pub privacy_passphrase : String

-- gosnmp.GoSNMP; the security is that of version 3.
pub record Snmp : Type 0 where
  pub target : Text
  pub port : ℕ
  pub community : String
  pub timeout : ℤ
  pub security : Option (Level × Usm)

pub record Network : Type 1 where
  -- fmt.Sprintf("%d", …) and strings.TrimSpace
  pub decimal : ℤ → Text
  pub trim_space : String → String
  -- ssh.ParsePrivateKey and ssh.ParsePrivateKeyWithPassphrase
  pub Signer : Type 0
  pub parse_private_key : String → Option Signer
  pub parse_private_key_with_passphrase : String → String → Option Signer
  -- ssh.Dial, for an address, a user, passwords and keys in order, and a timeout
  pub SshClient : Type 0
  pub dial : Text → String → List (String ⊎ Signer) → ℤ → Option SshClient
  -- what the command hostname prints, if a session can be had and the command succeeds
  pub ssh_hostname : SshClient → Option String
  -- winrm.NewClient, CreateShell and RunWithString
  pub WinrmClient : Type 0
  pub new_client : Text → ℤ → ℤ → String → String → Option WinrmClient
  pub create_shell : WinrmClient → Bool
  pub winrm_hostname : WinrmClient → Option String
  -- Connect, and Get with the names and the shown values that it answers with
  pub connect : Snmp → Bool
  pub get : Snmp → List String → Option (List (String × String))

abbrev pub failure : Handshake
failure = record { success = false; hostname = "" }

abbrev pub success_as : String → Handshake
success_as hostname = record { success = true; hostname = hostname }
