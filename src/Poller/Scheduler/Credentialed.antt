-- ===== src/Poller/Scheduler/Credentialed.antt =====
-- internal/poller/scheduler.go: what ensureCredentials changes.
use nmslite.Common.{
  ℕ, ◌<◌, ◌≡◌, ◌⊎◌, refl, inl, inr, Option, some, List, ◌∷◌, List-cases, Option-cases, length,
}
use nmslite.Auth.Credentials.{Credentials}
use nmslite.Poller.Scheduler.{Scheduler, object, modify}
use nmslite.Poller.Scheduler.Batch.{ensure_credentials}
use nmslite.Poller.Scheduler.Invariant.{IsValid, modify-IsValid}

-- ensureCredentials changes nothing, or caches the credentials of its monitor.
pub ensure_credentials_cases :
    (secret : List ℕ → Option Credentials) (s : Scheduler) (a : ℕ)
    → ((ensure_credentials secret s a).1 ≡ s)
      ⊎ ((cred : Credentials) × ((ensure_credentials secret s a).1
            ≡ modify s a (record (object s a) { credentials = some cred })))
unfolding ensure_credentials
ensure_credentials_cases secret s a = elim (Option-cases (object s a).credentials) [
  | inr (cred, e) ↦ inl (rw (e, ensure_credentials))
  | inl e ↦ elim (List-cases (object s a).encrypted_credentials) [
    | inl f ↦ inl (rw (e, f, ensure_credentials))
    | inr (b, bs, f) ↦ elim (Option-cases (secret (b ∷ bs))) [
      | inl g ↦ inl (rw (e, f, g, ensure_credentials))
      | inr (cred, g) ↦ inr (cred, rw (e, f, g, ensure_credentials) (rw (← f) refl))
    ]
  ]
]

pub ensure_credentials-IsValid :
    (secret : List ℕ → Option Credentials) (s : Scheduler) (a : ℕ)
    → a < length s.objects
    → IsValid s
    → IsValid (ensure_credentials secret s a).1
ensure_credentials-IsValid secret s a h v = elim (ensure_credentials_cases secret s a) [
  | inl e ↦ rw e v
  | inr (cred, e) ↦ rw e (
      modify-IsValid s a (record (object s a) { credentials = some cred }) v h refl
        (λ p t. v.up (object s a).monitor.id a t p))
]
