-- ===== src/Discovery/Handshake/Security.antt =====
-- internal/discovery/handshake.go: the security that ValidateSNMPv3 asks for.
use nmslite.Common.{
  ℤ, String, str_eq, str_eq_iff, lookup, Names, ◌≡◌, ◌≢◌, refl, ap, subst, ◌⊎◌, inl, inr, true,
  some, List, [], ◌∷◌, arith, Bool-cases,
}
use nmslite.Auth.Credentials.{Credentials}
use nmslite.Discovery.Addresses.{Text}
use nmslite.Protocols.Schemas.{has_string, security_levels, auth_protocols, priv_protocols}
use nmslite.Protocols.Usable.{Usable}
use nmslite.Discovery.Handshake.{
  security_level, auth_protocol, priv_protocol, usm, validate_snmp_v3, ask_device, u16,
}
use nmslite.Discovery.Network.{
  Level, no_auth_no_priv, auth_no_priv, auth_priv, AuthProtocol, md5, sha, sha224, sha256, sha384,
  sha512, PrivProtocol, no_priv, des, aes, aes192, aes256, Usm, Snmp, Network,
}

-- What the names stand for.
abbrev pub levels : Names Level
levels =
    ("noAuthNoPriv", no_auth_no_priv) ∷ ("authNoPriv", auth_no_priv) ∷ ("authPriv", auth_priv) ∷ []

abbrev auths : Names AuthProtocol
auths =
    ("MD5", md5)
    ∷ ("SHA", sha)
    ∷ ("SHA224", sha224)
    ∷ ("SHA256", sha256)
    ∷ ("SHA384", sha384)
    ∷ ("SHA512", sha512)
    ∷ []

abbrev privs : Names PrivProtocol
privs = ("DES", des) ∷ ("AES", aes) ∷ ("AES192", aes192) ∷ ("AES256", aes256) ∷ []

-- The security that the credentials name at a level: no secret leaves below the level that calls for
-- it, a protocol is the one that is named, and for a name that is left out MD5, or no privacy.
pub record IsNamed (c : Credentials) (level : Level) (u : Usm) : Type 0 where
  pub user : u.user_name ≡ c.security_name
  pub open_level :
      level ≡ no_auth_no_priv → (u.authentication_passphrase ≡ "") × (u.privacy_passphrase ≡ "")
  pub no_secret : level ≡ auth_no_priv → u.privacy_passphrase ≡ ""
  pub auth :
      level ≢ no_auth_no_priv
      → (u.authentication_passphrase ≡ c.auth_password)
        × ((lookup c.auth_protocol auths ≡ some u.authentication_protocol)
            ⊎ ((c.auth_protocol ≡ "") × (u.authentication_protocol ≡ md5)))
  pub priv :
      level ≡ auth_priv
      → (u.privacy_passphrase ≡ c.priv_password)
        × ((lookup c.priv_protocol privs ≡ some u.privacy_protocol)
            ⊎ ((c.priv_protocol ≡ "") × (u.privacy_protocol ≡ no_priv)))

abbrev Each : (String → Type 0) → List String → Type 0
Each P [] = Unit
Each P (s ∷ ss) = P s × Each P ss

-- What holds of each of some texts holds of a text that is among them.
has_string-Each :
    (P : String → Type 0) (ss : List String) (t : String) → Each P ss → has_string ss t ≡ true → P t
has_string-Each P [] t all h = absurd (ground (arith, h))
has_string-Each P (s ∷ ss) t all h = elim (Bool-cases (str_eq s t)) [
  | inl e ↦ subst P ((str_eq_iff s t).0 e) all.0
  | inr e ↦ has_string-Each P ss t all.1 (ground (arith, e, h))
]

module _ (w : Network) where
  pub level_lem :
      (t : String)
      → has_string security_levels t ≡ true
      → (l : Level) × (security_level w t ≡ some l) × (lookup t levels ≡ some l)
  unfolding security_level
  level_lem t h =
      has_string-Each
        (λ t. (l : Level) × (security_level w t ≡ some l) × (lookup t levels ≡ some l))
        security_levels t
        ((no_auth_no_priv, refl, refl), ((auth_no_priv, refl, refl), ((auth_priv, refl, refl), tt)))
        h

  auth_lem :
      (t : String)
      → (t ≡ "") ⊎ (has_string auth_protocols t ≡ true)
      → (lookup t auths ≡ some (auth_protocol w t)) ⊎ ((t ≡ "") × (auth_protocol w t ≡ md5))
  unfolding auth_protocol
  auth_lem t (inl e) = inr (e, ap (auth_protocol w) e)
  auth_lem t (inr h) = inl (
      has_string-Each (λ t. lookup t auths ≡ some (auth_protocol w t)) auth_protocols t
        (refl, (refl, (refl, (refl, (refl, (refl, tt)))))) h)

  priv_lem :
      (t : String)
      → (t ≡ "") ⊎ (has_string priv_protocols t ≡ true)
      → (lookup t privs ≡ some (priv_protocol w t)) ⊎ ((t ≡ "") × (priv_protocol w t ≡ no_priv))
  unfolding priv_protocol
  priv_lem t (inl e) = inr (e, ap (priv_protocol w) e)
  priv_lem t (inr h) = inl (
      has_string-Each (λ t. lookup t privs ≡ some (priv_protocol w t)) priv_protocols t
        (refl, (refl, (refl, (refl, tt)))) h)

  usm-IsNamed :
      (level : Level) (c : Credentials)
      → (c.auth_protocol ≡ "") ⊎ (has_string auth_protocols c.auth_protocol ≡ true)
      → (c.priv_protocol ≡ "") ⊎ (has_string priv_protocols c.priv_protocol ≡ true)
      → IsNamed c level (usm w level c)
  unfolding usm
  usm-IsNamed no_auth_no_priv c a p = record {
    user = refl;
    open_level = λ e. (refl, refl);
    no_secret = λ e. refl;
    auth = λ e. absurd (e refl);
    priv = λ e. absurd (ground (arith, e));
  }
  usm-IsNamed auth_no_priv c a p = record {
    user = refl;
    open_level = λ e. absurd (ground (arith, e));
    no_secret = λ e. refl;
    auth = λ e. (refl, auth_lem c.auth_protocol a);
    priv = λ e. absurd (ground (arith, e));
  }
  usm-IsNamed auth_priv c a p = record {
    user = refl;
    open_level = λ e. absurd (ground (arith, e));
    no_secret = λ e. absurd (ground (arith, e));
    auth = λ e. (refl, auth_lem c.auth_protocol a);
    priv = λ e. (refl, priv_lem c.priv_protocol p);
  }

  -- What ValidateSNMPv3 sends, for a level and its security.
  abbrev pub snmp_v3 : Text → ℤ → ℤ → Level → Usm → Snmp
  snmp_v3 target port timeout level u = record {
    target = target;
    port = u16 w port;
    community = "";
    timeout = timeout;
    security = some (level, u);
  }

  pub validate_snmp_v3-asks :
      (target : Text) (port : ℤ) (c : Credentials) (timeout : ℤ) (level : Level)
      → security_level w c.security_level ≡ some level
      → validate_snmp_v3 w target port c timeout
        ≡ ask_device w (snmp_v3 target port timeout level (usm w level c))
  unfolding validate_snmp_v3
  validate_snmp_v3-asks target port c timeout level e = rw (e, validate_snmp_v3) refl

  -- For SNMPv3 credentials that validation accepts, the handshake asks the device at the level that they
  -- name, with the security that they name: a protocol is the one that is named, MD5 where none is
  -- named to authenticate, none where none is named for privacy; and a passphrase is given to the
  -- connection at no level below the one that calls for it.
  pub validate_snmp_v3-IsNamed :
      (target : Text) (port : ℤ) (c : Credentials) (timeout : ℤ)
      → Usable "snmp-v3" c
      → (level : Level) × (u : Usm) × (lookup c.security_level levels ≡ some level)
        × IsNamed c level u
        × (validate_snmp_v3 w target port c timeout
            ≡ ask_device w (snmp_v3 target port timeout level u))
  unfolding Usable
  validate_snmp_v3-IsNamed target port c timeout h = elim h [
    | inl e ↦ absurd (ground (arith, e.0, str_eq_iff "snmp-v3" "windows-winrm"))
    | inr (inl e) ↦ absurd (ground (arith, e.0, str_eq_iff "snmp-v3" "ssh"))
    | inr (inr (inl e)) ↦ absurd (ground (arith, e.0, str_eq_iff "snmp-v3" "snmp-v2c"))
    | inr (inr (inr (e, named, known, auth, priv))) ↦
        let (level, f, g) = level_lem c.security_level known in
        (
          level,
          usm w level c,
          g,
          usm-IsNamed level c auth priv,
          validate_snmp_v3-asks target port c timeout level f,
        )
  ]
