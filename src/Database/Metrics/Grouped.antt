-- ===== src/Database/Metrics/Grouped.antt =====
-- internal/database/dbgen/metrics.sql.go: the latest rows of each group are the latest of its rows.
use nmslite.Common.{
  ℕ, ℤ, pos, negsuc, zero, suc, ◌≤◌, String, str_eq, str_eq_iff, ◌≡◌, refl, sym, ap, ◌∙◌, ◌⊎◌, inl,
  inr, true, false, ◌&&◌, List, [], ◌∷◌, ◌++◌, ◌==◌, ==_iff, leb, take, total, if◌then◌else◌, arith,
  Bool-cases,
}
use mathlib.Core.List.{append-nil}
use nmslite.Database.Metrics.{Metric, Sql, of_group, has_group, groups_of, latest_of, top}

-- One time is not after another.
abbrev pub Le : ℤ → ℤ → Type 0
Le (pos m) (pos n) = m ≤ n
Le (pos m) (negsuc n) = ⊥
Le (negsuc m) (pos n) = Unit
Le (negsuc m) (negsuc n) = n ≤ m

-- No row is later than the one before it.
abbrev pub Descending : List Metric → Type 0
Descending [] = Unit
Descending (row ∷ []) = Unit
Descending (row ∷ next ∷ rows) = Le next.timestamp row.timestamp × Descending (next ∷ rows)

-- The orders keep what they order, as often; and the order by time is descending.
pub record IsSql (sql : Sql) : Type 0 where
  pub same_groups :
      (w : ℕ × String → ℕ) (gs : List (ℕ × String)) → total w (sql.by_name gs) ≡ total w gs
  pub same_rows :
      (w : Metric → ℕ) (rows : List Metric) → total w (sql.latest_first rows) ≡ total w rows
  pub descending : (rows : List Metric) → Descending (sql.latest_first rows)

-- 1 for a row of another group
abbrev other : ℕ → String → Metric → ℕ
other id name row = if (row.device_id == id) && str_eq row.name name then 0 else 1

abbrev same : ℕ → String → ℕ × String → ℕ
same id name (i, n) = if (i == id) && str_eq n name then 1 else 0

of_group-append :
    (id : ℕ) (name : String) (xs ys : List Metric)
    → of_group id name (xs ++ ys) ≡ of_group id name xs ++ of_group id name ys
of_group-append id name [] ys = refl
of_group-append id name (x ∷ xs) ys = ground (arith, of_group-append id name xs ys)

other-of_group :
    (id : ℕ) (name : String) (xs : List Metric) → total (other id name) (of_group id name xs) ≡ 0
other-of_group id name [] = refl
other-of_group id name (x ∷ xs) = ground (arith, other-of_group id name xs)

take-nil : (n : ℕ) → take {A = Metric} n [] ≡ []
take-nil zero = refl
take-nil (suc n) = refl

total-take : (w : Metric → ℕ) (n : ℕ) (xs : List Metric) → total w (take n xs) ≤ total w xs
total-take w zero xs = omega arith
total-take w (suc n) [] = omega arith
total-take w (suc n) (x ∷ xs) = omega (arith, total-take w n xs)

of_group-same :
    (id : ℕ) (name : String) (xs : List Metric)
    → total (other id name) xs ≡ 0
    → of_group id name xs ≡ xs
of_group-same id name [] h = refl
of_group-same id name (x ∷ xs) h = elim (Bool-cases ((x.device_id == id) && str_eq x.name name)) [
  | inl e ↦ ground (arith, e, of_group-same id name xs)
  | inr e ↦ absurd (ground (arith, e))
]

-- A group is what the test finds.
pub group_iff :
    (i id : ℕ) (n name : String) → ((i == id) && str_eq n name) ≡ true → (i ≡ id) × (n ≡ name)
group_iff i id n name e = elim (Bool-cases (i == id)) [
  | inl f ↦ ((==_iff i id).0 f, (str_eq_iff n name).0 (ground (arith, e, f)))
  | inr f ↦ absurd (ground (arith, e, f))
]

of_group-other :
    (id : ℕ) (name : String) (i : ℕ) (n : String) (xs : List Metric)
    → ((id == i) && str_eq name n) ≡ false
    → total (other id name) xs ≡ 0
    → of_group i n xs ≡ []
of_group-other id name i n [] d h = refl
of_group-other id name i n (x ∷ xs) d h =
    elim (Bool-cases ((x.device_id == id) && str_eq x.name name)) [
      | inl e ↦
          let (p, q) = group_iff x.device_id id x.name name e in
          rw (p, q, d) (of_group-other id name i n xs d (ground (arith, e)))
      | inr e ↦ absurd (ground (arith, e))
    ]

nothing : (xs : List Metric) → total (λ r. 1) xs ≡ 0 → xs ≡ []
nothing [] h = refl
nothing (x ∷ xs) h = absurd (omega (arith, h))

has_group_lem :
    (id : ℕ) (name : String) (gs : List (ℕ × String))
    → has_group id name gs ≡ leb 1 (total (same id name) gs)
has_group_lem id name [] = refl
has_group_lem id name ((i, n) ∷ gs) = ground (arith, has_group_lem id name gs)

-- A group stands among the groups of some rows once, or no row is of it.
groups_of_lem :
    (id : ℕ) (name : String) (rows : List Metric)
    → (total (same id name) (groups_of rows) ≡ 1)
      ⊎ ((total (same id name) (groups_of rows) ≡ 0) × (of_group id name rows ≡ []))
groups_of_lem id name [] = inr (refl, refl)
groups_of_lem id name (row ∷ rows) =
    elim (Bool-cases ((row.device_id == id) && str_eq row.name name)) [
      | inl e ↦
          let (p, q) = group_iff row.device_id id row.name name e in
          let there : has_group row.device_id row.name (groups_of rows)
              ≡ leb 1 (total (same id name) (groups_of rows)) =
            rw (p, q) (has_group_lem id name (groups_of rows)) in
          elim (groups_of_lem id name rows) [
            | inl once ↦ inl (ground (arith, once, there))
            | inr (never, none) ↦ inl (ground (arith, never, there, e))
          ]
      | inr e ↦ elim (groups_of_lem id name rows) [
        | inl once ↦ inl (ground (arith, once, e))
        | inr (never, none) ↦ inr (ground (arith, never, e), ground (arith, none, e))
      ]
    ]

pub take-latest_first : (sql : Sql) → IsSql sql → (n : ℕ) → take n (sql.latest_first []) ≡ []
take-latest_first sql laws n =
    ap (take n) (nothing (sql.latest_first []) (laws.same_rows (λ r. 1) [])) ∙ take-nil n

module _ (sql : Sql) (laws : IsSql sql) (n : ℕ) (rows : List Metric) where
  abbrev pick : ℕ → String → List Metric
  pick id name = take n (sql.latest_first (of_group id name rows))

  other-pick : (id : ℕ) (name : String) → total (other id name) (pick id name) ≡ 0
  other-pick id name = omega (
    arith,
    total-take (other id name) n (sql.latest_first (of_group id name rows)),
    laws.same_rows (other id name) (of_group id name rows),
    other-of_group id name rows,
  )

  of_group-latest_of-none :
      (id : ℕ) (name : String) (gs : List (ℕ × String))
      → total (same id name) gs ≡ 0
      → of_group id name (latest_of sql n rows gs) ≡ []
  unfolding latest_of
  of_group-latest_of-none id name [] h = refl
  of_group-latest_of-none id name ((i, m) ∷ gs) h = elim (Bool-cases ((i == id) && str_eq m name)) [
    | inl e ↦ absurd (ground (arith, e))
    | inr e ↦
        rw
          (
            of_group-append id name (pick i m) (latest_of sql n rows gs),
            of_group-other i m id name (pick i m) e (other-pick i m),
          )
          (of_group-latest_of-none id name gs (ground (arith, e)))
  ]

  of_group-latest_of :
      (id : ℕ) (name : String) (gs : List (ℕ × String))
      → total (same id name) gs ≡ 1
      → of_group id name (latest_of sql n rows gs) ≡ pick id name
  unfolding latest_of
  of_group-latest_of id name [] h = absurd (omega (arith, h))
  of_group-latest_of id name ((i, m) ∷ gs) h = elim (Bool-cases ((i == id) && str_eq m name)) [
    | inl e ↦
        let (p, q) = group_iff i id m name e in
        rw
          (
            p,
            q,
            of_group-append id name (pick id name) (latest_of sql n rows gs),
            of_group-same id name (pick id name) (other-pick id name),
            of_group-latest_of-none id name gs (ground (arith, e)),
          )
          (append-nil (pick id name))
    | inr e ↦
        rw
          (
            of_group-append id name (pick i m) (latest_of sql n rows gs),
            of_group-other i m id name (pick i m) e (other-pick i m),
          )
          (of_group-latest_of id name gs (ground (arith, e)))
  ]

  -- The latest rows of each group have, of each group, the latest.
  pub of_group-top : (id : ℕ) (name : String) → of_group id name (top sql n rows) ≡ pick id name
  of_group-top id name = elim (groups_of_lem id name rows) [
    | inl once ↦
        of_group-latest_of id name (sql.by_name (groups_of rows))
          (laws.same_groups (same id name) (groups_of rows) ∙ once)
    | inr (never, none) ↦
        of_group-latest_of-none id name (sql.by_name (groups_of rows))
          (laws.same_groups (same id name) (groups_of rows) ∙ never)
        ∙ sym (rw none (take-latest_first sql laws n))
  ]
