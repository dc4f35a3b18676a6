-- ===== src/Discovery/Tests/Handshakes.antt =====
-- The theorems on handshakes, applied to one device.
use nmslite.Common.{pos, String, str_eq_iff, ◌≡◌, refl, inl, inr, true, none, some, [], ◌∷◌, arith}
use nmslite.Auth.Credentials.{Credentials, credentials_by}
use nmslite.Discovery.World.{Handshake}
use nmslite.Protocols.Usable.{Usable}
use nmslite.Discovery.Handshake.{validate_protocol}
use nmslite.Discovery.Network.{Network}
use nmslite.Discovery.Handshake.Accepted.{Tried, validate_protocol-Usable}

-- A device that takes everything, behind libraries that read every key.
abbrev open_network : Network
open_network = record {
  decimal = λ n. b'1' ∷ [];
  trim_space = λ t. t;
  Signer = String;
  parse_private_key = λ t. some t;
  parse_private_key_with_passphrase = λ t p. some t;
  SshClient = Unit;
  dial = λ a u ms t. some tt;
  ssh_hostname = λ c. some "host";
  WinrmClient = Unit;
  new_client = λ t p s u w. some tt;
  create_shell = λ c. true;
  winrm_hostname = λ c. none;
  connect = λ g. true;
  get = λ g names. some [];
}

abbrev values : String → String
values t = "authPriv"

abbrev everything : Credentials
everything = record (credentials_by values) { auth_protocol = "SHA"; priv_protocol = "" }

everything-Usable_ssh : Usable "ssh" everything
unfolding Usable
everything-Usable_ssh = inr (
    inl (
      refl,
      (λ e. ground (arith, (str_eq_iff "authPriv" "").1 e)),
      inl (λ e. ground (arith, (str_eq_iff "authPriv" "").1 e)),
    ))

validate_protocol-Usable_example :
    (result : Handshake) × (validate_protocol open_network "ssh"
        (b'h' ∷ [])
        (pos 22)
        everything
        (pos 5)
      ≡ some result)
    × Tried open_network "ssh" (b'h' ∷ []) (pos 22) everything (pos 5) result
validate_protocol-Usable_example =
    validate_protocol-Usable open_network "ssh" (b'h' ∷ []) (pos 22) everything (pos 5)
      everything-Usable_ssh
      (inr ("authPriv", inr (λ e. ground (arith, (str_eq_iff "authPriv" "").1 e), refl)))
