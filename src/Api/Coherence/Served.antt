-- ===== src/Api/Coherence/Served.antt =====
-- internal/api/handlers/monitors.go: each request on monitors keeps the scheduler's
-- cache in agreement with the tables.
use nmslite.Common.{
  ℕ, suc, ℤ, String, str_eq, ◌≡◌, refl, ◌∙◌, sym, ap, subst, Option, none, some, [], ◌∷◌, find,
  insert, find-insert, ◌⊎◌, inl, inr, arith, Bool-cases, Option-cases, erase,
}
use nmslite.Common.Results.{Result, err}
use nmslite.Database.{Monitor, MonitorRow, CredentialProfile}
use nmslite.Database.Tables.{
  Db, no_rows, ask, find_row, join_row, joined, get_monitor, get_monitor_with_credentials,
  delete_monitor,
}
use nmslite.Poller.Scheduler.{Scheduler}
use nmslite.Api.Requests.{pure, and_then, Api, Failure, send, query, parse_id_param, decode_json}
use nmslite.Api.Monitors.{
  Answer, push_update, push_row, push_delete, validate_monitor_input, create_params, create, update,
  delete, merge,
}
use nmslite.Api.Monitors.{get as get_one}
use nmslite.Api.Coherence.{
  Synced, IsCalm, Coherent, start, update_event, Coherent-asked, Coherent-stored, Coherent-deleted,
  refused, stored, create_monitor-Stored, update_monitor-Stored,
}

pub get_row_lem :
    (db : Db) (id : ℕ) (row : MonitorRow)
    → IsCalm db
    → find_row db id ≡ some row
    → get_monitor_with_credentials id db ≡ (Result.ok row, record db { asked = suc db.asked })
unfolding get_monitor_with_credentials ask find_row
get_row_lem db id row calm e = rw (calm db.asked, e) refl

push_update_lem :
    (db : Db) (id : ℕ) (row : MonitorRow)
    → IsCalm db
    → find_row db id ≡ some row
    → push_update id (start db) ≡ (
      Result.ok tt,
      record {
        db = record db { asked = suc db.asked };
        sent = some (update_event (row ∷ []) ∷ []);
      },
    )
unfolding push_update push_row send
push_update_lem db id row calm e = rw (get_row_lem db id row calm e) refl

-- The joined row of a monitor that was stored.
pub find_row-stored :
    (db : Db) (n next : ℕ) (m : Monitor) (c : CredentialProfile)
    → find m.credential_profile_id db.profiles ≡ some c
    → find_row
        (record db { asked = n; monitors = insert m.id m db.monitors; next_monitor = next })
        m.id
      ≡ some (joined m c)
unfolding find_row join_row
find_row-stored db n next m c e = ground (arith, find-insert m.id m.id m db.monitors)

pub parse-cases :
    (parse_int : String → Option ℕ) (param : String)
    → ((id : ℕ) × ((a : Api) → parse_id_param parse_int param a ≡ (Result.ok id, a)))
      ⊎ ((x : Failure) × ((a : Api) → parse_id_param parse_int param a ≡ (err x, a)))
unfolding parse_id_param
parse-cases parse_int param = elim (Bool-cases (str_eq param "")) [
  | inl e ↦ inr (
    record { status = 400; code = "MISSING_ID"; message = "Missing ID parameter" },
    λ a. rw e refl,
  )
  | inr e ↦ elim (Option-cases (parse_int param)) [
    | inl f ↦ inr (
      record { status = 400; code = "INVALID_ID"; message = "Invalid ID format" },
      λ a. rw (e, f) refl,
    )
    | inr (id, f) ↦ inl (id, λ a. rw (e, f) refl)
  ]
]

get_monitor-cases :
    (db : Db) (id : ℕ)
    → IsCalm db
    → (get_monitor id db ≡ (err no_rows, record db { asked = suc db.asked }))
      ⊎ ((m : Monitor) × (get_monitor id db ≡ (Result.ok m, record db { asked = suc db.asked })))
unfolding get_monitor ask
get_monitor-cases db id calm = elim (Option-cases (find id db.monitors)) [
  | inl e ↦ inl (rw (calm db.asked, e) refl)
  | inr (m, e) ↦ inr (m, rw (calm db.asked, e) refl)
]

delete_monitor_lem :
    (db : Db) (id : ℕ)
    → IsCalm db
    → delete_monitor id db
      ≡ (Result.ok tt, record db { asked = suc db.asked; monitors = erase id db.monitors })
unfolding delete_monitor ask
delete_monitor_lem db id calm = rw (calm db.asked) refl

module _ (clock : ℕ → ℤ) (db : Db) (s : Scheduler) (v : Synced db s) where
  -- A handler that ends with pushUpdate of a monitor that it has stored.
  told-Coherent :
      (m : Monitor) (c : CredentialProfile) (n next : ℕ) (answer : Answer)
      (result : Result Failure Answer × Api)
      → find m.credential_profile_id db.profiles ≡ some c
      → result
        ≡ and_then
            (push_update m.id (
              start (record db {
                asked = n;
                monitors = insert m.id m db.monitors;
                next_monitor = next;
              })))
            (λ u. pure answer)
      → Coherent clock s result.1
  told-Coherent m c n next answer result g run =
      let db' : Db = record db {
        asked = n;
        monitors = insert m.id m db.monitors;
        next_monitor = next;
      } in
      let told =
        push_update_lem db' m.id (joined m c) v.sound.calm (find_row-stored db n next m c g) in
      subst (λ (p : Result Failure Answer × Api). Coherent clock s p.1)
        (sym (run ∙ ap (λ p. and_then p (λ u. pure answer)) told))
        (Coherent-stored clock db s v (suc n) next m c g)

  pub create-Coherent : (body : Option Monitor) → Coherent clock s (create body (start db)).1
  unfolding create decode_json query
  create-Coherent none = Coherent-asked clock db s v db.asked
  create-Coherent (some input) = elim (Option-cases (validate_monitor_input input)) [
    | inr (message, e) ↦ rw (e, create) (Coherent-asked clock db s v db.asked)
    | inl e ↦ elim (create_monitor-Stored db (create_params input) v.sound.calm) [
      | refused x f ↦ rw (e, f, create) (Coherent-asked clock db s v (suc db.asked))
      | stored m c next g f ↦
          told-Coherent m c (suc db.asked) next (201, some m) (create (some input) (start db)) g
            (rw (e, f, create) refl)
    ]
  ]

  module _ (parse_int : String → Option ℕ) where
    pub update-Coherent :
        (param : String) (body : Option Monitor)
        → Coherent clock s (update parse_int param body (start db)).1
    unfolding update decode_json query
    update-Coherent param body = elim (parse-cases parse_int param) [
      | inr (x, e) ↦ rw (e (start db), update) (Coherent-asked clock db s v db.asked)
      | inl (id, e) ↦ elim (Option-cases body) [
        | inl q ↦ rw (e (start db), q, update) (Coherent-asked clock db s v db.asked)
        | inr (input, q) ↦ elim (get_monitor-cases db id v.sound.calm) [
          | inl f ↦ rw (e (start db), q, f, update) (Coherent-asked clock db s v (suc db.asked))
          | inr (old, f) ↦
              let db' : Db = record db { asked = suc db.asked } in
              elim (update_monitor-Stored db' (merge id old input) v.sound.calm) [
                | refused x g ↦
                    rw (e (start db), q, f, g, update)
                      (Coherent-asked clock db s v (suc (suc db.asked)))
                | stored m c next found g ↦
                    told-Coherent m c (suc (suc db.asked)) next (200, some m)
                      (update parse_int param body (start db)) found
                      (rw (e (start db), q, f, g, update) refl)
              ]
        ]
      ]
    ]

    pub delete-Coherent : (param : String) → Coherent clock s (delete parse_int param (start db)).1
    unfolding delete query push_delete send
    delete-Coherent param = elim (parse-cases parse_int param) [
      | inr (x, e) ↦ rw (e (start db), delete) (Coherent-asked clock db s v db.asked)
      | inl (id, e) ↦
          rw (e (start db), delete_monitor_lem db id v.sound.calm, delete)
            (Coherent-deleted clock db s v (suc db.asked) id)
    ]

    pub get-Coherent : (param : String) → Coherent clock s (get_one parse_int param (start db)).1
    unfolding get_one query
    get-Coherent param = elim (parse-cases parse_int param) [
      | inr (x, e) ↦ rw (e (start db), get_one) (Coherent-asked clock db s v db.asked)
      | inl (id, e) ↦ elim (get_monitor-cases db id v.sound.calm) [
        | inl f ↦ rw (e (start db), f, get_one) (Coherent-asked clock db s v (suc db.asked))
        | inr (m, f) ↦ rw (e (start db), f, get_one) (Coherent-asked clock db s v (suc db.asked))
      ]
    ]
