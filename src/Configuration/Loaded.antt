-- ===== src/Configuration/Loaded.antt =====
-- internal/globals/config.go with internal/api/auth: what a configuration that Load returns is good
-- for (cmd/server/main.go makes the service from it).
use Prim.Native.String.{len}
use nmslite.Common.{
  ℤ, ◌≡◌, ◌≢◌, refl, sym, subst, String, str_eq, str_eq_iff, true, false, Option, none, some,
  length, ltb, ◌==◌, ◌≤◌, arith, Option-cases, inl, inr,
}
use nmslite.Common.Results.{Result, ok, err}
use nmslite.Auth.Security.{Bytes, Service, Jwt, AuthError, invalid_credentials, new_service, login}
use nmslite.Configuration.{
  Config, Environment, ConfigError, validate, checked, load, apply_env_overrides,
}

validate_lem :
    (c : Config)
    → validate c ≡ none
    → (32 ≤ len c.auth.jwt_secret)
      × (len c.auth.encryption_key ≡ 32)
      × (c.auth.admin_password ≢ "")
      × (c.auth.admin_password ≢ "changeme")
unfolding validate
validate_lem c h = (
  ground arith,
  ground arith,
  ground (arith, str_eq_iff c.auth.admin_password ""),
  ground (arith, str_eq_iff c.auth.admin_password "changeme"),
)

checked-valid :
    (c' : Config) (o : Option ConfigError) (c : Config)
    → o ≡ validate c'
    → checked c' o ≡ ok c
    → validate c ≡ none
checked-valid c' none c e h =
    let same : c' ≡ c = ground arith in subst (λ d. validate d ≡ none) same (sym e)
checked-valid c' (some x) c e h = absurd (ground arith)

load-valid :
    (e : Environment) (parse : String → Option Config) (file : Option String) (c : Config)
    → load e parse file ≡ ok c
    → validate c ≡ none
unfolding load
load-valid e parse none c h = ground arith
load-valid e parse (some t) c h = elim (Option-cases (parse t)) [
  | inl f ↦ ground arith
  | inr (parsed, f) ↦
      let c' = apply_env_overrides e parsed in
      checked-valid c' (validate c') c refl (rw (f, load) at (h))
]

-- initAuthService of cmd/server/main.go, with the bytes of a string and the expiry of the tokens.
unfoldable pub init_auth_service : (String → Bytes) → (ℤ → ℤ) → Config → Result AuthError Service
unfolding new_service
init_auth_service bytes hours c =
    new_service (bytes c.auth.jwt_secret) (bytes c.auth.encryption_key) c.auth.admin_username
      c.auth.admin_password (hours c.auth.jwt_expiry_hours)

-- A configuration that Load returns, whatever the file, the environment and the reader of YAML,
-- starts the service: NewService makes one of it. And with this service no login succeeds that gives
-- an empty password, or the password "changeme".
pub load-starts :
    (e : Environment) (parse : String → Option Config) (file : Option String) (c : Config)
    (bytes : String → Bytes) (hours : ℤ → ℤ)
    → ((t : String) → length (bytes t) ≡ len t)
    → load e parse file ≡ ok c
    → (s : Service) × (init_auth_service bytes hours c ≡ ok s)
      × ((j : Jwt) (user : String) (now later : ℤ)
          → (login j s user "" now later ≡ err invalid_credentials)
            × (login j s user "changeme" now later ≡ err invalid_credentials))
unfolding init_auth_service new_service login
load-starts e parse file c bytes hours same h =
    let (long, full, some_password, own_password) = validate_lem c (load-valid e parse file c h) in
    let secret : ltb (length (bytes c.auth.jwt_secret)) 32 ≡ false =
      ground (arith, same c.auth.jwt_secret) in
    let key : (length (bytes c.auth.encryption_key) == 32) ≡ true =
      ground (arith, same c.auth.encryption_key) in
    let refused : (t : String)
        → c.auth.admin_password ≢ t
        → str_eq t c.auth.admin_password ≡ false =
      λ t other. ground (arith, str_eq_iff t c.auth.admin_password) in
    (
      record {
        jwt_secret = bytes c.auth.jwt_secret;
        encryption_key = bytes c.auth.encryption_key;
        token_expiry = hours c.auth.jwt_expiry_hours;
        admin_username = c.auth.admin_username;
        admin_password = c.auth.admin_password;
      },
      rw (secret, key) refl,
      λ j user now later. (
        ground (arith, refused "" some_password),
        ground (arith, refused "changeme" own_password),
      ),
    )
