-- ===== src/Api/Metrics/Points.antt =====
-- internal/api/handlers/monitors.go: which rows the points of a response stand for.
use nmslite.Common.{
  ℕ, pos, String, str_eq, str_eq_iff, ◌≡◌, refl, sym, ◌&&◌, List, [], ◌∷◌, ◌++◌, ◌==◌, ==_iff,
  if◌then◌else◌, find, find-insert, Names, lookup, put, lookup-put, arith, Bool-cases, inl, inr,
}
use mathlib.Core.List.{append-nil, append_assoc}
use nmslite.Database.Metrics.{Metric, of_group}
use nmslite.Api.Metrics.{
  MetricDataPoint, Grouped, or_empty, points, point_of, empty_groups, add_row, group_rows,
}

abbrev pub times : List Metric → List MetricDataPoint
times [] = []
times (row ∷ rows) = record { timestamp = row.timestamp; value = pos 0 } ∷ times rows

points-add_row :
    (g : Grouped) (row : Metric) (id : ℕ) (name : String)
    → points (add_row g row) id name ≡ (
        if (row.device_id == id) && str_eq row.name name
        then points g id name ++ point_of row ∷ []
        else points g id name)
unfolding points add_row
points-add_row g row id name =
    let names = or_empty (find row.device_id g) in
    let ps = or_empty (lookup row.name names) ++ point_of row ∷ [] in
    elim (Bool-cases (row.device_id == id)) [
      | inr e ↦ ground (arith, find-insert row.device_id id (put row.name ps names) g)
      | inl e ↦
          let same : row.device_id ≡ id = (==_iff row.device_id id).0 e in
          elim (Bool-cases (str_eq row.name name)) [
            | inr f ↦ ground (
              arith,
              find-insert row.device_id id (put row.name ps names) g,
              lookup-put row.name name ps names,
            )
            | inl f ↦ ground (
              arith,
              find-insert row.device_id id (put row.name ps names) g,
              lookup-put row.name name ps names,
              str_eq_iff row.name name,
            )
          ]
    ]

pub points-empty_groups :
    (ids : List ℕ) (id : ℕ) (name : String) → points (empty_groups ids) id name ≡ []
unfolding points empty_groups find
points-empty_groups [] id name = refl
points-empty_groups (i ∷ ids) id name = ground (
  arith,
  find-insert {V = Names (List MetricDataPoint)} i id [] (empty_groups ids),
  points-empty_groups ids id name,
)

pub points-group_rows :
    (g : Grouped) (rows : List Metric) (id : ℕ) (name : String)
    → points (group_rows g rows) id name ≡ points g id name ++ times (of_group id name rows)
unfolding group_rows point_of
points-group_rows g [] id name = sym (append-nil (points g id name))
points-group_rows g (row ∷ rows) id name =
    let later = points-group_rows (add_row g row) rows id name in
    let step = points-add_row g row id name in
    elim (Bool-cases ((row.device_id == id) && str_eq row.name name)) [
      | inr e ↦ rw (later, step, e) refl
      | inl e ↦
          rw (later, step, e)
            (append_assoc (points g id name) (point_of row ∷ []) (times (of_group id name rows)))
    ]
