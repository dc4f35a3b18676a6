-- ===== src/Discovery/Handshake/Accepted.antt =====
-- internal/discovery/handshake.go: credentials that validation accepts are tried on the network.
use mathlib.Core.List.{append-nil}
use nmslite.Common.{
  ℕ, suc, ◌+◌, ◌*◌, ◌<◌, ◌/◌, ℤ, pos, negsuc, String, str_eq, str_eq_iff, lookup, ◌≡◌, ◌≢◌, refl,
  ◌∙◌, sym, ap, ◌⊎◌, inl, inr, Bool, false, ◌&&◌, Option, none, some, List, [], ◌∷◌, ◌++◌, arith,
  Bool-cases, Option-cases,
}
use nmslite.Auth.Credentials.{Credentials}
use nmslite.Database.Tables.{is_some}
use nmslite.Discovery.Addresses.{Text}
use nmslite.Discovery.World.{Handshake}
use nmslite.Protocols.Usable.{Usable}
use nmslite.Discovery.Handshake.{
  dialed, parse_key, password_methods, auth_methods, ask_device, u16, validate_ssh, validate_winrm,
  validate_snmp_v2c, validate_snmp_v3, validate_protocol,
}
use nmslite.Discovery.Network.{Level, Usm, Snmp, Network}
use nmslite.Discovery.Handshake.Security.{levels, IsNamed, validate_snmp_v3-IsNamed}

-- The port as 16 bits: the number below 65536 that differs from it by a multiple of 65536.
abbrev IsPort : ℤ → ℕ → Type 0
IsPort (pos m) n = (n < 65536) × ((k : ℕ) × (m ≡ n + 65536 * k))
IsPort (negsuc m) n = (n < 65536) × ((k : ℕ) × (n + suc m ≡ 65536 * k))

module _ (w : Network) where
  -- What the private key reads as, with the passphrase if there is one.
  abbrev pub KeyOf : Credentials → w.Signer → Type 0
  KeyOf c key =
      ((c.passphrase ≡ "") × (w.parse_private_key c.private_key ≡ some key))
      ⊎ ((c.passphrase ≢ "")
          × (w.parse_private_key_with_passphrase c.private_key c.passphrase ≡ some key))

  -- The private key, if there is one, is read.
  abbrev pub IsReadable : Credentials → Type 0
  IsReadable c = (c.private_key ≡ "") ⊎ ((key : w.Signer) × KeyOf c key)

  -- The password if there is one, and then the key if there is one.
  pub record Offers (c : Credentials) (ms : List (String ⊎ w.Signer)) : Type 0 where
    pub passwords : List (String ⊎ w.Signer)
    pub keys : List (String ⊎ w.Signer)
    pub order : ms ≡ passwords ++ keys
    pub password :
        ((c.password ≡ "") × (passwords ≡ []))
        ⊎ ((c.password ≢ "") × (passwords ≡ inl c.password ∷ []))
    pub private_key :
        ((c.private_key ≡ "") × (keys ≡ []))
        ⊎ ((c.private_key ≢ "") × ((key : w.Signer) × KeyOf c key × (keys ≡ inr key ∷ [])))

  -- The device answers with its description and its name.
  abbrev answers : Snmp → Bool
  answers g = w.connect g && is_some (w.get g ("1.3.6.1.2.1.1.1.0" ∷ "1.3.6.1.2.1.1.5.0" ∷ []))

  abbrev opens_shell : Option w.WinrmClient → Bool
  opens_shell none = false
  opens_shell (some client) = w.create_shell client

  abbrev snmp_v2c_of : Text → ℕ → ℤ → Credentials → Snmp
  snmp_v2c_of target port timeout c = record {
    target = target;
    port = port;
    community = c.community;
    timeout = timeout;
    security = none;
  }

  abbrev snmp_v3_of : Text → ℕ → ℤ → Level → Usm → Snmp
  snmp_v3_of target port timeout level u = record {
    target = target;
    port = port;
    community = "";
    timeout = timeout;
    security = some (level, u);
  }

  -- How the credentials are tried, by protocol, and whether the device takes them by what the
  -- libraries say of it: an SSH server is dialled with what the credentials offer, a shell is opened
  -- over WinRM, and an SNMP device is asked with the community, or at the level that is named with the
  -- security that is named.
  pub data Tried (p : String) (target : Text) (port : ℤ) (c : Credentials) (timeout : ℤ)
      (result : Handshake) : Type 0 where
    ssh :
        (ms : List (String ⊎ w.Signer))
        → p ≡ "ssh"
        → Offers c ms
        → result.success ≡ is_some (w.dial (target ++ b':' ∷ w.decimal port) c.username ms timeout)
        → Tried p target port c timeout result
    winrm :
        p ≡ "windows-winrm"
        → result.success ≡ opens_shell (w.new_client target port timeout c.username c.password)
        → Tried p target port c timeout result
    snmp_v2c :
        (n : ℕ)
        → p ≡ "snmp-v2c"
        → IsPort port n
        → result.success ≡ answers (snmp_v2c_of target n timeout c)
        → Tried p target port c timeout result
    snmp_v3_at :
        (n : ℕ) (level : Level) (u : Usm)
        → p ≡ "snmp-v3"
        → IsPort port n
        → lookup c.security_level levels ≡ some level
        → IsNamed c level u
        → result.success ≡ answers (snmp_v3_of target n timeout level u)
        → Tried p target port c timeout result

  u16-IsPort : (port : ℤ) → IsPort port (u16 w port)
  u16-IsPort (pos m) = (omega arith, (m / 65536, omega arith))
  u16-IsPort (negsuc m) = (omega arith, (suc (m / 65536), omega arith))

  ask_device_lem : (g : Snmp) → (ask_device w g).success ≡ answers g
  unfolding ask_device
  ask_device_lem g = elim (Bool-cases (w.connect g)) [
    | inl e ↦ elim (Option-cases (w.get g ("1.3.6.1.2.1.1.1.0" ∷ "1.3.6.1.2.1.1.5.0" ∷ []))) [
      | inl f ↦ rw (e, f, ask_device) refl
      | inr (vs, f) ↦ rw (e, f, ask_device) refl
    ]
    | inr e ↦ rw (e, ask_device) refl
  ]

  parse_key_lem : (c : Credentials) (key : w.Signer) → KeyOf c key → parse_key w c ≡ some key
  unfolding parse_key
  parse_key_lem c key (inl (e, h)) = ground (arith, (str_eq_iff c.passphrase "").1 e, h)
  parse_key_lem c key (inr (e, h)) = elim (Bool-cases (str_eq c.passphrase "")) [
    | inl f ↦ absurd (e ((str_eq_iff c.passphrase "").0 f))
    | inr f ↦ rw (f, parse_key) h
  ]

  password_lem :
      (c : Credentials)
      → ((c.password ≡ "") × (password_methods w c ≡ []))
        ⊎ ((c.password ≢ "") × (password_methods w c ≡ inl c.password ∷ []))
  password_lem c = elim (Bool-cases (str_eq c.password "")) [
    | inl e ↦ inl ((str_eq_iff c.password "").0 e, rw e refl)
    | inr e ↦ inr (λ q. absurd (ground (arith, e, (str_eq_iff c.password "").1 q)), rw e refl)
  ]

  -- The methods that ValidateSSH gathers are what the credentials offer.
  auth_methods-Offers :
      (c : Credentials)
      → IsReadable c
      → (ms : List (String ⊎ w.Signer)) × (auth_methods w c ≡ some ms) × Offers c ms
  unfolding auth_methods
  auth_methods-Offers c h = elim (Bool-cases (str_eq c.private_key "")) [
    | inl e ↦ (
      password_methods w c,
      rw (e, auth_methods) refl,
      record {
        passwords = password_methods w c;
        keys = [];
        order = sym (append-nil (password_methods w c));
        password = password_lem c;
        private_key = inl ((str_eq_iff c.private_key "").0 e, refl);
      },
    )
    | inr e ↦ elim h [
      | inl f ↦ absurd (ground (arith, e, (str_eq_iff c.private_key "").1 f))
      | inr (key, f) ↦ (
        password_methods w c ++ inr key ∷ [],
        rw (e, parse_key_lem c key f, auth_methods) refl,
        record {
          passwords = password_methods w c;
          keys = inr key ∷ [];
          order = refl;
          password = password_lem c;
          private_key =
              inr (
                λ q. absurd (ground (arith, e, (str_eq_iff c.private_key "").1 q)),
                (key, f, refl),
              );
        },
      )
    ]
  ]

  -- With a password or a key, something is offered.
  Offers-some :
      (c : Credentials) (ms : List (String ⊎ w.Signer))
      → (c.password ≢ "") ⊎ (c.private_key ≢ "")
      → Offers c ms
      → ms ≢ []
  Offers-some c ms k o q = elim o.password [
    | inr (e, f) ↦ absurd (ground (arith, o.order, f, q))
    | inl (e, f) ↦ elim o.private_key [
      | inr (g, (key, r, l)) ↦ absurd (ground (arith, o.order, f, l, q))
      | inl (g, l) ↦ elim k [ inl x ↦ x e | inr x ↦ x g ]
    ]
  ]

  dialed_lem : (o : Option w.SshClient) → (dialed w o).success ≡ is_some o
  dialed_lem none = refl
  dialed_lem (some client) = refl

  validate_ssh_lem :
      (target : Text) (port : ℤ) (c : Credentials) (timeout : ℤ) (ms : List (String ⊎ w.Signer))
      → auth_methods w c ≡ some ms
      → ms ≢ []
      → (validate_ssh w target port c timeout).success
        ≡ is_some (w.dial (target ++ b':' ∷ w.decimal port) c.username ms timeout)
  unfolding validate_ssh
  validate_ssh_lem target port c timeout [] e h = absurd (h refl)
  validate_ssh_lem target port c timeout (m ∷ ms) e h =
      rw (e, validate_ssh)
        (dialed_lem (w.dial (target ++ b':' ∷ w.decimal port) c.username (m ∷ ms) timeout))

  validate_ssh-Tried :
      (target : Text) (port : ℤ) (c : Credentials) (timeout : ℤ)
      → IsReadable c
      → (c.password ≢ "") ⊎ (c.private_key ≢ "")
      → Tried "ssh" target port c timeout (validate_ssh w target port c timeout)
  validate_ssh-Tried target port c timeout h k =
      let (ms, e, o) = auth_methods-Offers c h in
      ssh ms refl o (validate_ssh_lem target port c timeout ms e (Offers-some c ms k o))

  validate_winrm_lem :
      (target : Text) (port : ℤ) (c : Credentials) (timeout : ℤ)
      → (validate_winrm w target port c timeout).success
        ≡ opens_shell (w.new_client target port timeout c.username c.password)
  unfolding validate_winrm
  validate_winrm_lem target port c timeout =
      elim (Option-cases (w.new_client target port timeout c.username c.password)) [
        | inl e ↦ rw (e, validate_winrm) refl
        | inr (client, e) ↦ elim (Bool-cases (w.create_shell client)) [
          | inl f ↦ rw (e, f, validate_winrm) refl
          | inr f ↦ rw (e, f, validate_winrm) refl
        ]
      ]

  validate_snmp_v2c-Tried :
      (target : Text) (port : ℤ) (c : Credentials) (timeout : ℤ)
      → Tried "snmp-v2c" target port c timeout (validate_snmp_v2c w target port c timeout)
  unfolding validate_snmp_v2c
  validate_snmp_v2c-Tried target port c timeout =
      snmp_v2c (u16 w port) refl (u16-IsPort port)
        (ask_device_lem (snmp_v2c_of target (u16 w port) timeout c))

  validate_snmp_v3-Tried :
      (target : Text) (port : ℤ) (c : Credentials) (timeout : ℤ)
      → Usable "snmp-v3" c
      → Tried "snmp-v3" target port c timeout (validate_snmp_v3 w target port c timeout)
  validate_snmp_v3-Tried target port c timeout h =
      let (level, u, known, named, e) = validate_snmp_v3-IsNamed w target port c timeout h in
      snmp_v3_at (u16 w port) level u refl (u16-IsPort port) known named (
        ap (λ (r : Handshake). r.success) e
        ∙ ask_device_lem (snmp_v3_of target (u16 w port) timeout level u))

  -- For credentials that validation accepts, with a private key that is read if there is one: the
  -- handshake of their protocol is tried on the network, and succeeds exactly if the device takes them.
  -- An SSH server is offered the password and the key that there are; WinRM opens a shell with the name and the
  -- password; SNMPv2c asks with the community; and SNMPv3 asks at the level that is named, with the security that is
  -- named, both at the port as 16 bits.
  pub validate_protocol-Usable :
      (p : String) (target : Text) (port : ℤ) (c : Credentials) (timeout : ℤ)
      → Usable p c
      → IsReadable c
      → (result : Handshake) × (validate_protocol w p target port c timeout ≡ some result)
        × Tried p target port c timeout result
  unfolding Usable validate_protocol
  validate_protocol-Usable p target port c timeout h readable = elim h [
    | inl (e, named, worded) ↦ (
      validate_winrm w target port c timeout,
      rw (e, validate_protocol) refl,
      winrm e (validate_winrm_lem target port c timeout),
    )
    | inr (inl (e, named, method)) ↦ (
      validate_ssh w target port c timeout,
      rw (e, validate_protocol) refl,
      rw e (validate_ssh-Tried target port c timeout readable method),
    )
    | inr (inr (inl (e, named))) ↦ (
      validate_snmp_v2c w target port c timeout,
      rw (e, validate_protocol) refl,
      rw e (validate_snmp_v2c-Tried target port c timeout),
    )
    | inr (inr (inr (e, named, known, auth, priv))) ↦ (
      validate_snmp_v3 w target port c timeout,
      rw (e, validate_protocol) refl,
      rw e (
          validate_snmp_v3-Tried target port c timeout
            (inr (inr (inr (refl, named, known, auth, priv))))),
    )
  ]
