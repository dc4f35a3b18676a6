-- ===== src/Database/Joined.antt =====
-- internal/database/dbgen: what the statements on monitors and credential profiles do to the joined
-- rows, seen as what the scheduler is to cache of them.
use nmslite.Common.{
  ℕ, str_eq, ◌≡◌, refl, ◌∙◌, sym, subst, ==_iff, inl, inr, true, false, Option, none, some, [], ◌∷◌,
  ◌==◌, if◌then◌else◌, Assoc, find, insert, erase, find-insert, find-erase, arith, Bool-cases,
  Option-cases,
}
use nmslite.Database.{text, Monitor, MonitorRow, CredentialProfile}
use nmslite.Database.Tables.{Db, join_row, joined, find_row, rows_with, active_rows}
use nmslite.Database.Tables.Profiles.{used_by_monitor}
use nmslite.Poller.Scheduler.Cached.{Entry, entry_of_row, entry_after, all_active}

-- The entry of a joined row; none, where there is no row.
abbrev pub entry_of : Option MonitorRow → Option Entry
entry_of none = none
entry_of (some row) = entry_of_row row

-- What the scheduler is to hold under an identifier, by the tables.
unfoldable pub active : Db → ℕ → Option Entry
unfolding find_row
active db id = entry_of (find_row db id)

-- The keys of the table are the identifiers of its rows, and there is one row of each.
unfoldable pub Keyed : Assoc Monitor → Type 0
Keyed [] = Unit
Keyed ((k, m) ∷ rest) = (find k rest ≡ none) × (m.id ≡ k) × Keyed rest

find-id : (ms : Assoc Monitor) (k : ℕ) (m : Monitor) → Keyed ms → find k ms ≡ some m → m.id ≡ k
unfolding Keyed find
find-id [] k m v e = ground arith
find-id ((j, u) ∷ ms) k m v e = ground (arith, find-id ms k m)

pub Keyed-insert : (ms : Assoc Monitor) (m : Monitor) → Keyed ms → Keyed (insert m.id m ms)
unfolding Keyed insert find
Keyed-insert [] m v = (refl, refl, tt)
Keyed-insert ((k, u) ∷ ms) m v = elim (Bool-cases (k == m.id)) [
  | inl e ↦
      let (none_later, id, rest) = v in
      rw e (subst (λ i. find i ms ≡ none) ((==_iff k m.id).0 e) none_later, refl, rest)
  | inr e ↦
      let (none_later, id, rest) = v in
      rw e (ground (arith, find-insert m.id k m ms), id, Keyed-insert ms m rest)
]

pub Keyed-erase : (ms : Assoc Monitor) (id : ℕ) → Keyed ms → Keyed (erase id ms)
unfolding Keyed erase find
Keyed-erase [] id v = tt
Keyed-erase ((k, u) ∷ ms) id v =
    let (none_later, same, rest) = v in
    elim (Bool-cases (k == id)) [
      | inl e ↦ rw e (Keyed-erase ms id rest)
      | inr e ↦ rw e (ground (arith, find-erase id k ms), same, Keyed-erase ms id rest)
    ]

-- A row that is stored, and whose credential profile exists.
pub active-insert :
    (db : Db) (m : Monitor) (c : CredentialProfile) (j : ℕ)
    → find m.credential_profile_id db.profiles ≡ some c
    → active (record db { monitors = insert m.id m db.monitors }) j
      ≡ (if m.id == j then entry_of_row (joined m c) else active db j)
unfolding active find_row join_row
active-insert db m c j e = ground (arith, find-insert m.id j m db.monitors)

pub active-erase :
    (db : Db) (id j : ℕ)
    → active (record db { monitors = erase id db.monitors }) j
      ≡ (if id == j then none else active db j)
unfolding active find_row join_row
active-erase db id j = ground (arith, find-erase id j db.monitors)

-- The entry of a monitor, where it has this credential profile.
abbrev pub refreshed : ℕ → CredentialProfile → Option Entry → Option Monitor → Option Entry
refreshed id c e none = e
refreshed id c e (some m) = if m.credential_profile_id == id then entry_of_row (joined m c) else e

-- The rows of a credential profile, in the order of the table.
pub entry_after-rows_with :
    (db : Db) (c : CredentialProfile) (id : ℕ) (ms : Assoc Monitor) (j : ℕ) (e : Option Entry)
    → Keyed ms
    → find id db.profiles ≡ some c
    → entry_after (rows_with db id ms) j e ≡ refreshed id c e (find j ms)
unfolding rows_with join_row Keyed find joined
entry_after-rows_with db c id [] j e v f = refl
entry_after-rows_with db c id ((k, m) ∷ ms) j e v f =
    let (none_later, same, rest) = v in
    let later = λ (e' : Option Entry). entry_after-rows_with db c id ms j e' rest f in
    elim (Bool-cases (m.credential_profile_id == id)) [
      | inr q ↦ ground (arith, later e)
      | inl q ↦
          let found : find m.credential_profile_id db.profiles ≡ some c =
            subst (λ i. find i db.profiles ≡ some c) (sym ((==_iff m.credential_profile_id id).0 q))
              f in
          ground (
            arith,
            found,
            later (if m.id == j then entry_of_row (joined m c) else e),
            ==_iff k j,
            ==_iff m.id j,
          )
    ]

-- A credential profile that is stored: the monitors that have it change.
pub active-refreshed :
    (db : Db) (c : CredentialProfile) (j : ℕ)
    → active (record db { profiles = insert c.id c db.profiles }) j
      ≡ refreshed c.id c (active db j) (find j db.monitors)
unfolding active find_row join_row
active-refreshed db c j = elim (Option-cases (find j db.monitors)) [
  | inl e ↦ ground arith
  | inr (m, e) ↦ ground (arith, find-insert c.id m.credential_profile_id c db.profiles)
]

-- A credential profile that no monitor uses is of no account.
used_by_monitor-find :
    (c : ℕ) (ms : Assoc Monitor) (j : ℕ) (m : Monitor)
    → used_by_monitor c ms ≡ false
    → find j ms ≡ some m
    → (m.credential_profile_id == c) ≡ false
unfolding used_by_monitor find
used_by_monitor-find c [] j m u e = ground arith
used_by_monitor-find c ((k, n) ∷ ms) j m u e = ground (arith, used_by_monitor-find c ms j m)

pub active-unused :
    (db : Db) (c j : ℕ)
    → used_by_monitor c db.monitors ≡ false
    → active (record db { profiles = erase c db.profiles }) j ≡ active db j
unfolding active find_row join_row
active-unused db c j u = elim (Option-cases (find j db.monitors)) [
  | inl e ↦ ground arith
  | inr (m, e) ↦ ground (
    arith,
    find-erase c m.credential_profile_id db.profiles,
    used_by_monitor-find c db.monitors j m u e,
    ==_iff c m.credential_profile_id,
    ==_iff m.credential_profile_id c,
  )
]

-- The entry of a monitor, where it is active and has a row.
abbrev loaded : Db → Option Entry → Option Monitor → Option Entry
loaded db e none = e
loaded db e (some m) =
    if str_eq (text m.status) "active"
    then elim (join_row db m) [ none ↦ e | some row ↦ entry_of_row row ]
    else e

entry_after-loaded :
    (db : Db) (ms : Assoc Monitor) (j : ℕ) (e : Option Entry)
    → Keyed ms
    → entry_after (active_rows db ms) j e ≡ loaded db e (find j ms)
unfolding active_rows join_row Keyed find joined
entry_after-loaded db [] j e v = refl
entry_after-loaded db ((k, m) ∷ ms) j e v =
    let (none_later, same, rest) = v in
    let later = λ (e' : Option Entry). entry_after-loaded db ms j e' rest in
    elim (Bool-cases (str_eq (text m.status) "active")) [
      | inr q ↦ ground (arith, later e)
      | inl q ↦ elim (Option-cases (find m.credential_profile_id db.profiles)) [
        | inl f ↦ ground (arith, later e)
        | inr (c, f) ↦ ground (
          arith,
          later (if m.id == j then entry_of_row (joined m c) else e),
          ==_iff k j,
          ==_iff m.id j,
        )
      ]
    ]

-- The active rows hold the entries of all identifiers.
pub entry_after-active_rows :
    (db : Db) (j : ℕ)
    → Keyed db.monitors
    → entry_after (active_rows db db.monitors) j none ≡ active db j
unfolding active find_row join_row joined entry_of_row
entry_after-active_rows db j v =
    entry_after-loaded db db.monitors j none v
    ∙ elim (Option-cases (find j db.monitors)) [ inl f ↦ ground arith | inr (m, f) ↦ ground arith ]

-- Their monitors are active.
pub all_active-active_rows : (db : Db) (ms : Assoc Monitor) → all_active (active_rows db ms) ≡ true
unfolding active_rows join_row joined
all_active-active_rows db [] = refl
all_active-active_rows db ((k, m) ∷ ms) =
    elim (Option-cases (find m.credential_profile_id db.profiles)) [
      | inl f ↦ ground (arith, all_active-active_rows db ms)
      | inr (c, f) ↦ ground (arith, all_active-active_rows db ms)
    ]
