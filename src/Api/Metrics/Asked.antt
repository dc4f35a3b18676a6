-- ===== src/Api/Metrics/Asked.antt =====
-- internal/api/handlers/monitors.go, internal/database/dbgen/metrics.sql.go: the rows that a query of
-- metrics asks for.
use Prim.Native.String.{◌++◌ as append}
use nmslite.Common.{
  ℕ, ℤ, pos, negsuc, String, str_eq, str_eq_iff, ◌≡◌, ◌≢◌, refl, ◌⊎◌, inl, inr, Bool, true, ◌&&◌,
  Option, none, some, List, [], ◌∷◌, sym, subst, ◌==◌, ==_iff, Assoc, arith, Bool-cases,
}
use nmslite.Database.{Monitor}
use nmslite.Database.Tables.{Db, has_id, existing_ids}
use nmslite.Database.Metrics.{Metric, Sql, le_ℤ, is_since, is_until, of_group, within}
use nmslite.Database.Metrics.Grouped.{Le, group_iff}
use nmslite.Api.Metrics.{MetricsQueryRequest, pattern, window}

-- Some rows are those among others of which something holds, in their order.
pub data Selects (P : Metric → Type 0) : List Metric → List Metric → Type 0 where
  done : Selects P [] []
  kept :
      (row : Metric) (rows found : List Metric)
      → P row
      → Selects P rows found
      → Selects P (row ∷ rows) (row ∷ found)
  passed :
      (row : Metric) (rows found : List Metric)
      → ¬ (P row)
      → Selects P rows found
      → Selects P (row ∷ rows) found

abbrev pub In : ℕ → List ℕ → Type 0
In k [] = ⊥
In k (id ∷ ids) = (id ≡ k) ⊎ In k ids

abbrev pub IsKey : ℕ → Assoc Monitor → Type 0
IsKey k [] = ⊥
IsKey k ((id, m) ∷ rest) = (id ≡ k) ⊎ IsKey k rest

-- A bound that is not given stands before all times.
abbrev pub Since : Option ℤ → ℤ → Type 0
Since none t = Unit
Since (some start) t = Le start t

abbrev pub Until : Option ℤ → ℤ → Type 0
Until none t = ⊥
Until (some end) t = Le t end

-- A request asks for a row: one of a device that it names and that there is a monitor of, whose name is
-- LIKE the prefix and a dot, or any name without a prefix, from the start to the end.
pub record IsAsked (sql : Sql) (db : Db) (q : MetricsQueryRequest) (row : Metric) : Type 0 where
  pub named : In row.device_id q.device_ids
  pub exists : IsKey row.device_id db.monitors
  pub prefixed :
      ((q.prefix ≡ "") × (sql.like row.name "%" ≡ true))
      ⊎ ((q.prefix ≢ "") × (sql.like row.name (append q.prefix ".%") ≡ true))
  pub since : Since q.start row.timestamp
  pub until : Until q.end_time row.timestamp

-- A row is of a device and a name.
abbrev pub IsOf : ℕ → String → Metric → Type 0
IsOf id name row = (row.device_id ≡ id) × (row.name ≡ name)

le_ℤ_iff : (a b : ℤ) → (le_ℤ a b ≡ true → Le a b) × (Le a b → le_ℤ a b ≡ true)
le_ℤ_iff (pos m) (pos n) = (λ e. ground (arith, e), λ h. ground (arith, h))
le_ℤ_iff (pos m) (negsuc n) = (λ e. absurd (ground (arith, e)), λ h. absurd h)
le_ℤ_iff (negsuc m) (pos n) = (λ e. tt, λ h. refl)
le_ℤ_iff (negsuc m) (negsuc n) = (λ e. ground (arith, e), λ h. ground (arith, h))

is_since_iff :
    (o : Option ℤ) (t : ℤ) → (is_since o t ≡ true → Since o t) × (Since o t → is_since o t ≡ true)
is_since_iff none t = (λ e. tt, λ h. refl)
is_since_iff (some start) t = le_ℤ_iff start t

is_until_iff :
    (o : Option ℤ) (t : ℤ) → (is_until o t ≡ true → Until o t) × (Until o t → is_until o t ≡ true)
is_until_iff none t = (λ e. absurd (ground (arith, e)), λ h. absurd h)
is_until_iff (some end) t = le_ℤ_iff t end

has_id_iff :
    (k : ℕ) (ids : List ℕ) → (has_id k ids ≡ true → In k ids) × (In k ids → has_id k ids ≡ true)
has_id_iff k [] = (λ e. absurd (ground (arith, e)), λ h. absurd h)
has_id_iff k (id ∷ ids) =
    let (to, from) = has_id_iff k ids in
    elim (Bool-cases (id == k)) [
      | inl e ↦ (λ q. inl ((==_iff id k).0 e), λ h. rw e refl)
      | inr e ↦ (
        λ q. inr (to (ground (arith, q, e))),
        λ h. elim h [
          | inl p ↦ absurd (ground (arith, e, (==_iff id k).1 p))
          | inr p ↦ rw (e, from p) refl
        ],
      )
    ]

existing_ids_iff :
    (k : ℕ) (ms : Assoc Monitor) (ids : List ℕ)
    → (In k (existing_ids ms ids) → IsKey k ms × In k ids)
      × (IsKey k ms → In k ids → In k (existing_ids ms ids))
unfolding existing_ids
existing_ids_iff k [] ids = (λ h. absurd h, λ h i. absurd h)
existing_ids_iff k ((id, m) ∷ rest) ids =
    let (to, from) = existing_ids_iff k rest ids in
    let (has, there) = has_id_iff id ids in
    elim (Bool-cases (has_id id ids)) [
      | inl e ↦ rw e (
        λ h. elim h [
          | inl p ↦ (inl p, subst (λ i. In i ids) p (has e))
          | inr q ↦ (inr (to q).0, (to q).1)
        ],
        λ h i. elim h [ inl p ↦ inl p | inr q ↦ inr (from q i) ],
      )
      | inr e ↦ rw e (
        λ h. (inr (to h).0, (to h).1),
        λ h i. elim h [
          | inl p ↦ absurd (ground (arith, e, there (subst (λ i. In i ids) (sym p) i)))
          | inr q ↦ from q i
        ],
      )
    ]

-- The pattern of a prefix.
like_lem :
    (sql : Sql) (prefix name : String)
    → (sql.like name (pattern prefix) ≡ true
        → ((prefix ≡ "") × (sql.like name "%" ≡ true))
          ⊎ ((prefix ≢ "") × (sql.like name (append prefix ".%") ≡ true)))
      × (((prefix ≡ "") × (sql.like name "%" ≡ true))
            ⊎ ((prefix ≢ "") × (sql.like name (append prefix ".%") ≡ true))
          → sql.like name (pattern prefix) ≡ true)
like_lem sql prefix name = elim (Bool-cases (str_eq prefix "")) [
  | inl e ↦
      let same : prefix ≡ "" = (str_eq_iff prefix "").0 e in
      rw e (λ q. inl (same, q), λ h. elim h [ inl (p, q) ↦ q | inr (p, q) ↦ absurd (p same) ])
  | inr e ↦
      let other : prefix ≢ "" = λ p. absurd (ground (arith, e, (str_eq_iff prefix "").1 p)) in
      rw e (λ q. inr (other, q), λ h. elim h [ inl (p, q) ↦ absurd (other p) | inr (p, q) ↦ q ])
]

module _ (sql : Sql) (db : Db) (q : MetricsQueryRequest) where
  abbrev ids : List ℕ
  ids = existing_ids db.monitors q.device_ids

  -- The test of a row in both queries.
  abbrev test : Metric → Bool
  test row =
      has_id row.device_id ids
      && sql.like row.name (pattern q.prefix)
      && is_since q.start row.timestamp
      && is_until q.end_time row.timestamp

  test-IsAsked : (row : Metric) → test row ≡ true → IsAsked sql db q row
  test-IsAsked row e =
      let device : has_id row.device_id ids ≡ true = ground (arith, e) in
      let like : sql.like row.name (pattern q.prefix) ≡ true = ground (arith, e) in
      let start : is_since q.start row.timestamp ≡ true = ground (arith, e) in
      let end : is_until q.end_time row.timestamp ≡ true = ground (arith, e) in
      let (key, named) =
        (existing_ids_iff row.device_id db.monitors q.device_ids).0
          ((has_id_iff row.device_id ids).0 device) in
      record {
        named = named;
        exists = key;
        prefixed = (like_lem sql q.prefix row.name).0 like;
        since = (is_since_iff q.start row.timestamp).0 start;
        until = (is_until_iff q.end_time row.timestamp).0 end;
      }

  IsAsked-test : (row : Metric) → IsAsked sql db q row → test row ≡ true
  IsAsked-test row h =
      rw
        (
          (has_id_iff row.device_id ids).1
              ((existing_ids_iff row.device_id db.monitors q.device_ids).1 h.exists h.named),
          (like_lem sql q.prefix row.name).1 h.prefixed,
          (is_since_iff q.start row.timestamp).1 h.since,
          (is_until_iff q.end_time row.timestamp).1 h.until,
        )
        refl

  -- The queries find the rows that the request asks for.
  pub within-Selects :
      (table : List Metric) → Selects (IsAsked sql db q) table (within sql (window ids q) table)
  unfolding within
  within-Selects [] = done
  within-Selects (row ∷ rows) = elim (Bool-cases (test row)) [
    | inl e ↦ rw e (kept row rows _ (test-IsAsked row e) (within-Selects rows))
    | inr e ↦ rw e (
        passed row rows _ (λ h. absurd (ground (arith, e, IsAsked-test row h)))
          (within-Selects rows))
  ]

pub of_group-Selects :
    (id : ℕ) (name : String) (rows : List Metric)
    → Selects (IsOf id name) rows (of_group id name rows)
of_group-Selects id name [] = done
of_group-Selects id name (row ∷ rows) =
    elim (Bool-cases ((row.device_id == id) && str_eq row.name name)) [
      | inl e ↦ rw e (
          kept row rows _ (group_iff row.device_id id row.name name e)
            (of_group-Selects id name rows))
      | inr e ↦ rw e (
          passed row rows _
            (λ (p, r).
              absurd
                (ground (arith, e, (==_iff row.device_id id).1 p, (str_eq_iff row.name name).1 r)))
            (of_group-Selects id name rows))
    ]
