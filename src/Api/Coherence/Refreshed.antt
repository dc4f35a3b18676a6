-- ===== src/Api/Coherence/Refreshed.antt =====
-- internal/api/handlers/credentialHandlers.go: each request on credential profiles keeps the
-- scheduler's cache in agreement with the tables.
use nmslite.Common.{
  ℕ, suc, ◌<◌, ◌≤◌, ℤ, String, str_eq, not, ◌&&◌, ◌≡◌, refl, ◌∙◌, sym, ap, subst, false, Option,
  some, ◌∷◌, find, insert, find-insert, inl, inr, arith, Bool-cases, Option-cases, find-erase,
  erase, List-cases,
}
use nmslite.Common.Results.{Result}
use nmslite.Database.{CredentialProfile}
use nmslite.Database.Tables.{
  Db, ask, find_row, join_row, get_monitors_with_credentials_by_credential_id, rows_with,
}
use nmslite.Database.Tables.Profiles.{
  is_null, create_credential_profile, update_credential_profile, delete_credential_profile,
  get_credential_profile, used_by_monitor, used_by_discovery,
}
use nmslite.Database.Joined.{
  active, active-refreshed, entry_after-rows_with, active-unused, refreshed,
}
use nmslite.Poller.Scheduler.{Scheduler}
use nmslite.Poller.Scheduler.Cached.{entry_after}
use nmslite.Api.Requests.{◌>>=◌, pure, and_then, Api, Action, Failure, send, query}
use nmslite.Api.Profiles.{
  Vault, Answer, push_rows, push_update, create, update, delete, has_payload,
}
use nmslite.Api.Profiles.{get as get_one}
use nmslite.Api.Coherence.{
  Synced, IsSound, IsCalm, Coherent, start, Coherent-asked, Coherent-update,
}
use nmslite.Api.Coherence.Served.{parse-cases}
use nmslite.Api.Coherence.Quiet.{
  Quiet, decode_json-Quiet, parse_id-Quiet, check_credentials-Quiet, encrypt_payload-Quiet,
  if-Quiet, pure-Quiet, require_names-Quiet,
}

get_rows_lem :
    (db : Db) (id : ℕ)
    → IsCalm db
    → get_monitors_with_credentials_by_credential_id id db
      ≡ (Result.ok (rows_with db id db.monitors), record db { asked = suc db.asked })
unfolding get_monitors_with_credentials_by_credential_id ask
get_rows_lem db id calm = rw (calm db.asked) refl

module _ (clock : ℕ → ℤ) (db : Db) (s : Scheduler) (v : Synced db s) where
  -- The tables with a profile that is stored.
  abbrev with_profile : ℕ → ℕ → CredentialProfile → Db
  with_profile n next c = record db {
    asked = n;
    profiles = insert c.id c db.profiles;
    next_profile = next;
  }

  refreshed_lem :
      (n next : ℕ) (c : CredentialProfile) (id : ℕ)
      → let db' = with_profile n next c in
        entry_after (rows_with db' c.id db.monitors) id (active db id) ≡ active db' id
  unfolding active find_row join_row rows_with
  refreshed_lem n next c id =
      entry_after-rows_with (with_profile n next c) c c.id db.monitors id (active db id)
        v.sound.keyed (ground (arith, find-insert c.id c.id c db.profiles))
      ∙ sym (active-refreshed db c id)

  with_profile-IsSound :
      (n next : ℕ) (c : CredentialProfile)
      → db.next_profile ≤ next
      → c.id < next
      → IsSound (with_profile n next c)
  with_profile-IsSound n next c h k = record {
    keyed = v.sound.keyed;
    calm = v.sound.calm;
    known = λ id u f. ground (arith, find-insert c.id id c db.profiles, v.sound.known id u);
    fresh = λ id m f. omega (arith, v.sound.fresh id m f);
  }

  -- A profile that is stored, when its monitors are sent.
  told-Coherent :
      (n next : ℕ) (c : CredentialProfile)
      → db.next_profile ≤ next
      → c.id < next
      → let db' = with_profile n next c in
        Coherent clock s (
          push_rows
            (start db')
            (Result.ok (rows_with db' c.id db.monitors), with_profile (suc n) next c))
  unfolding push_rows send active find_row join_row
  told-Coherent n next c h k =
      let rows = rows_with (with_profile n next c) c.id db.monitors in
      let told = refreshed_lem n next c in
      elim (List-cases rows) [
        | inl e ↦ rw e (record {
          valid = v.valid;
          sound = with_profile-IsSound (suc n) next c h k;
          agrees = λ id.
              v.agrees id
              ∙ subst (λ rs. entry_after rs id (active db id) ≡ active (with_profile n next c) id) e
                  (told id);
        })
        | inr (row, rest, e) ↦ rw e (
            Coherent-update clock db s v (with_profile (suc n) next c) (row ∷ rest)
              (with_profile-IsSound (suc n) next c h k)
              (λ id.
                subst (λ rs. entry_after rs id (active db id) ≡ active (with_profile n next c) id) e
                  (told id)))
      ]

  pub get-Coherent :
      (vault : Vault) (parse_int : String → Option ℕ) (param : String)
      → Coherent clock s (get_one vault parse_int param (start db)).1
  unfolding get_one query get_credential_profile ask
  get-Coherent vault parse_int param = elim (parse-cases parse_int param) [
    | inr (x, e) ↦ rw (e (start db), get_one) (Coherent-asked clock db s v db.asked)
    | inl (id, e) ↦ elim (Option-cases (find id db.profiles)) [
      | inl f ↦
          rw (e (start db), v.sound.calm db.asked, f, get_one)
            (Coherent-asked clock db s v (suc db.asked))
      | inr (m, f) ↦
          rw (e (start db), v.sound.calm db.asked, f, get_one)
            (Coherent-asked clock db s v (suc db.asked))
    ]
  ]

  -- What follows an action that ends quietly starts where it started.
  bind-Coherent :
      {A B : Type 0} (m : Action A) (k : A → Action B)
      → Quiet m
      → ((x : A) → Coherent clock s (k x (start db)).1)
      → Coherent clock s ((m >>= k) (start db)).1
  unfolding Quiet
  bind-Coherent m k (inl (x, e)) h =
      subst (λ p. Coherent clock s (and_then p k).1) (sym (e (start db))) (h x)
  bind-Coherent m k (inr (f, e)) h =
      subst (λ p. Coherent clock s (and_then p k).1) (sym (e (start db)))
        (Coherent-asked clock db s v db.asked)

  -- A new profile, which no monitor has.
  new_profile-Coherent :
      (n : ℕ) (c : CredentialProfile)
      → c.id ≡ db.next_profile
      → Coherent clock s (start (with_profile n (suc db.next_profile) c))
  unfolding active find_row join_row
  new_profile-Coherent n c e = record {
    valid = v.valid;
    sound = with_profile-IsSound n (suc db.next_profile) c (omega arith) (omega arith);
    agrees = λ id. v.agrees id ∙ sym (refreshed-other id) ∙ sym (active-refreshed db c id);
  }
    where
      refreshed-other :
          (id : ℕ) → refreshed c.id c (active db id) (find id db.monitors) ≡ active db id
      refreshed-other id = elim (Option-cases (find id db.monitors)) [
        | inl f ↦ rw f refl
        | inr (m, f) ↦ ground (arith, v.sound.fresh id m f)
      ]

  pub create-Coherent :
      (vault : Vault) (body : Option CredentialProfile)
      → Coherent clock s (create vault body (start db)).1
  unfolding create query create_credential_profile ask
  create-Coherent vault body = bind-Coherent _ _ (decode_json-Quiet body) (λ input.
      bind-Coherent _ _ (require_names-Quiet vault input) (λ u.
        bind-Coherent _ _ (check_credentials-Quiet vault input.protocol input.payload) (λ w.
          bind-Coherent _ _ (encrypt_payload-Quiet vault input.payload) (λ payload.
            elim (Bool-cases (is_null payload)) [
              | inl e ↦ rw (v.sound.calm db.asked, e) (Coherent-asked clock db s v (suc db.asked))
              | inr e ↦
                  rw (v.sound.calm db.asked, e)
                    (new_profile-Coherent (suc db.asked)
                      (record input {
                        id = db.next_profile;
                        payload = payload;
                        created_at = some db.now;
                        updated_at = some db.now;
                      })
                      refl)
            ]))))

  -- UpdateCredentialProfile, and pushUpdate of the profile.
  abbrev store : (vault : Vault) → CredentialProfile → Action (Answer vault)
  store vault c = do
    p ← query "Credential Profile" (update_credential_profile c)
    _ ← push_update c.id
    pure (200, some p)

  store-Coherent :
      (vault : Vault) (c : CredentialProfile) → Coherent clock s (store vault c (start db)).1
  unfolding query update_credential_profile ask push_update
  store-Coherent vault c = elim (Option-cases (find c.id db.profiles)) [
    | inl f ↦ rw (v.sound.calm db.asked, f) (Coherent-asked clock db s v (suc db.asked))
    | inr (old, f) ↦ elim (Bool-cases (is_null c.payload)) [
      | inl g ↦ rw (v.sound.calm db.asked, f, g) (Coherent-asked clock db s v (suc db.asked))
      | inr g ↦
          let row : CredentialProfile = record c {
            created_at = old.created_at;
            updated_at = some db.now;
          } in
          let db' : Db = with_profile (suc db.asked) db.next_profile row in
          let rest = λ (u : Unit). pure {A = Answer vault} (200, some row) in
          let run : store vault c (start db) ≡ and_then (push_update c.id (start db')) rest =
            rw (v.sound.calm db.asked, f, g) refl in
          let pushed : push_update c.id (start db') ≡ (
            Result.ok tt,
            push_rows (start db') (
              Result.ok (rows_with db' c.id db.monitors),
              with_profile (suc (suc db.asked)) db.next_profile row,
            ),
          ) =
            rw (get_rows_lem db' c.id v.sound.calm) refl in
          subst (λ (r : Result Failure (Answer vault) × Api). Coherent clock s r.1)
            (sym (run ∙ ap (λ p. and_then p rest) pushed))
            (told-Coherent (suc db.asked) db.next_profile row (omega arith)
              (v.sound.known c.id old f))
    ]
  ]

  -- A profile that is deleted, which no monitor has.
  unused-Coherent :
      (n id : ℕ)
      → used_by_monitor id db.monitors ≡ false
      → Coherent clock s (start (record db { asked = n; profiles = erase id db.profiles }))
  unfolding active find_row join_row
  unused-Coherent n id e = record {
    valid = v.valid;
    sound = record {
      keyed = v.sound.keyed;
      calm = v.sound.calm;
      known = λ j c f. ground (arith, find-erase id j db.profiles, v.sound.known j c);
      fresh = v.sound.fresh;
    };
    agrees = λ j. v.agrees j ∙ sym (active-unused db id j e);
  }

  module _ (vault : Vault) (parse_int : String → Option ℕ) where
    pub update-Coherent :
        (param : String) (body : Option CredentialProfile)
        → Coherent clock s (update vault parse_int param body (start db)).1
    unfolding update
    update-Coherent param body = bind-Coherent _ _ (parse_id-Quiet parse_int param) (λ id.
        bind-Coherent _ _ (decode_json-Quiet body) (λ input.
          bind-Coherent _ _
            (if-Quiet (not (str_eq input.protocol "") && has_payload vault input) _ _
              (check_credentials-Quiet vault input.protocol input.payload) (pure-Quiet tt))
            (λ w.
              bind-Coherent _ _
                (if-Quiet (has_payload vault input) _ _ (encrypt_payload-Quiet vault input.payload)
                  (pure-Quiet input.payload))
                (λ payload. store-Coherent vault (record input { id = id; payload = payload })))))

    pub delete-Coherent :
        (param : String) → Coherent clock s (delete vault parse_int param (start db)).1
    unfolding delete query delete_credential_profile ask
    delete-Coherent param = bind-Coherent _ _ (parse_id-Quiet parse_int param) (λ id.
        elim (Bool-cases (used_by_monitor id db.monitors)) [
          | inl e ↦ rw (v.sound.calm db.asked, e) (Coherent-asked clock db s v (suc db.asked))
          | inr e ↦ elim (Bool-cases (used_by_discovery id db.discoveries)) [
            | inl f ↦ rw (v.sound.calm db.asked, e, f) (Coherent-asked clock db s v (suc db.asked))
            | inr f ↦ rw (v.sound.calm db.asked, e, f) (unused-Coherent (suc db.asked) id e)
          ]
        ])
