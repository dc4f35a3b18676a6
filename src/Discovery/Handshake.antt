-- ===== src/Discovery/Handshake.antt =====
-- internal/discovery/handshake.go: the handshakes that validateTarget of worker.go makes. What the
-- libraries for SSH, WinRM and SNMP do, and what the device answers, is the record `Network`; closing a
-- connection is left out. No function here returns an error, so a handshake is its result.
pub mod Security
pub mod Accepted
use nmslite.Common.{
  ℕ, suc, ◌-◌, ◌%◌, ℤ, pos, negsuc, String, str_eq, ◌⊎◌, inl, inr, Bool, true, false, Option, none,
  some, List, [], ◌∷◌, ◌++◌, if◌then◌else◌,
}
use nmslite.Auth.Credentials.{Credentials}
use nmslite.Discovery.Addresses.{Text}
use nmslite.Discovery.World.{Handshake}
use nmslite.Discovery.Network.{
  Level, no_auth_no_priv, auth_no_priv, auth_priv, AuthProtocol, none_set, md5, sha, sha224, sha256,
  sha384, sha512, PrivProtocol, no_priv, des, aes, aes192, aes256, Usm, Snmp, Network, failure,
  success_as,
}

module _ (w : Network) where
  open w use {
    decimal, trim_space, Signer, parse_private_key, parse_private_key_with_passphrase, dial,
    ssh_hostname, new_client, create_shell, winrm_hostname, connect, get,
  }

  abbrev pub address : Text → ℤ → Text
  address target port = target ++ b':' ∷ decimal port

  abbrev pub shown : Option String → String
  shown none = ""
  shown (some out) = trim_space out

  unfoldable pub parse_key : Credentials → Option Signer
  parse_key creds =
      if str_eq creds.passphrase ""
      then parse_private_key creds.private_key
      else parse_private_key_with_passphrase creds.private_key creds.passphrase

  abbrev pub password_methods : Credentials → List (String ⊎ Signer)
  password_methods creds = if str_eq creds.password "" then [] else inl creds.password ∷ []

  -- authMethods, or none where the key is not read.
  unfoldable pub auth_methods : Credentials → Option (List (String ⊎ Signer))
  auth_methods creds =
      if str_eq creds.private_key ""
      then some (password_methods creds)
      else elim (parse_key creds) [
        | none ↦ none
        | some key ↦ some (password_methods creds ++ inr key ∷ [])
      ]

  abbrev pub dialed : Option w.SshClient → Handshake
  dialed none = failure
  dialed (some client) = success_as (shown (ssh_hostname client))

  -- ValidateSSH
  unfoldable pub validate_ssh : Text → ℤ → Credentials → ℤ → Handshake
  unfolding auth_methods
  validate_ssh target port creds timeout = elim (auth_methods creds) [
    | none ↦ failure
    | some [] ↦ failure
    | some (m ∷ ms) ↦ dialed (dial (address target port) creds.username (m ∷ ms) timeout)
  ]

  -- ValidateWinRM
  unfoldable pub validate_winrm : Text → ℤ → Credentials → ℤ → Handshake
  validate_winrm target port creds timeout =
      elim (new_client target port timeout creds.username creds.password) [
        | none ↦ failure
        | some client ↦
            if create_shell client then success_as (shown (winrm_hostname client)) else failure
      ]

  abbrev pub oids : List String
  oids = "1.3.6.1.2.1.1.1.0" ∷ "1.3.6.1.2.1.1.5.0" ∷ []

  -- The loop over the variables.
  unfoldable sys_name : List (String × String) → String → String
  sys_name [] hostname = hostname
  sys_name ((name, value) ∷ rest) hostname =
      sys_name rest (if str_eq name ".1.3.6.1.2.1.1.5.0" then value else hostname)

  -- Connect and Get, as both SNMP handshakes end.
  unfoldable pub ask_device : Snmp → Handshake
  unfolding sys_name
  ask_device g =
      if connect g
      then elim (get g oids) [
        | none ↦ failure
        | some variables ↦ success_as (sys_name variables "")
      ]
      else failure

  -- uint16(port)
  abbrev pub u16 : ℤ → ℕ
  u16 (pos n) = n % 65536
  u16 (negsuc n) = 65535 - n % 65536

  -- ValidateSNMPv2c
  unfoldable pub validate_snmp_v2c : Text → ℤ → Credentials → ℤ → Handshake
  unfolding ask_device
  validate_snmp_v2c target port creds timeout = ask_device (record {
    target = target;
    port = u16 port;
    community = creds.community;
    timeout = timeout;
    security = none;
  })

  unfoldable pub security_level : String → Option Level
  security_level t =
      if str_eq t "noAuthNoPriv"
      then some no_auth_no_priv
      else if str_eq t "authNoPriv"
      then some auth_no_priv
      else if str_eq t "authPriv"
      then some auth_priv
      else none

  unfoldable pub auth_protocol : String → AuthProtocol
  auth_protocol t =
      if str_eq t "MD5"
      then md5
      else if str_eq t "SHA"
      then sha
      else if str_eq t "SHA224"
      then sha224
      else if str_eq t "SHA256"
      then sha256
      else if str_eq t "SHA384"
      then sha384
      else if str_eq t "SHA512"
      then sha512
      else md5

  unfoldable pub priv_protocol : String → PrivProtocol
  priv_protocol t =
      if str_eq t "DES"
      then des
      else if str_eq t "AES"
      then aes
      else if str_eq t "AES192"
      then aes192
      else if str_eq t "AES256"
      then aes256
      else no_priv

  unfoldable pub usm : Level → Credentials → Usm
  unfolding auth_protocol priv_protocol
  usm no_auth_no_priv creds = record {
    user_name = creds.security_name;
    authentication_protocol = none_set;
    authentication_passphrase = "";
    privacy_protocol = none_set;
    privacy_passphrase = "";
  }
  usm auth_no_priv creds = record {
    user_name = creds.security_name;
    authentication_protocol = auth_protocol creds.auth_protocol;
    authentication_passphrase = creds.auth_password;
    privacy_protocol = none_set;
    privacy_passphrase = "";
  }
  usm auth_priv creds = record {
    user_name = creds.security_name;
    authentication_protocol = auth_protocol creds.auth_protocol;
    authentication_passphrase = creds.auth_password;
    privacy_protocol = priv_protocol creds.priv_protocol;
    privacy_passphrase = creds.priv_password;
  }

  -- ValidateSNMPv3
  unfoldable pub validate_snmp_v3 : Text → ℤ → Credentials → ℤ → Handshake
  unfolding security_level usm ask_device
  validate_snmp_v3 target port creds timeout = elim (security_level creds.security_level) [
    | none ↦ failure
    | some level ↦ ask_device (record {
      target = target;
      port = u16 port;
      community = "";
      timeout = timeout;
      security = some (level, usm level creds);
    })
  ]

  -- The switch of validateTarget.
  unfoldable pub validate_protocol : String → Text → ℤ → Credentials → ℤ → Option Handshake
  unfolding validate_ssh validate_winrm validate_snmp_v2c validate_snmp_v3
  validate_protocol protocol target port creds timeout =
      if str_eq protocol "ssh"
      then some (validate_ssh target port creds timeout)
      else if str_eq protocol "windows-winrm"
      then some (validate_winrm target port creds timeout)
      else if str_eq protocol "snmp-v2c"
      then some (validate_snmp_v2c target port creds timeout)
      else if str_eq protocol "snmp-v3"
      then some (validate_snmp_v3 target port creds timeout)
      else none
