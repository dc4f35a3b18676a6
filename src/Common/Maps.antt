-- ===== src/Common/Maps.antt =====
-- A Go map as an association list. A write replaces the entry of its key; no operation depends on
-- the order of the entries.
use Prim.Native.Nat.{ℕ}
use Prim.Native.String.{String}
use text.Mathlib.Text.{◌==◌ as str_eq}
use text.Mathlib.TextEquality.{eq_iff as str_eq_iff}
use mathlib.Core.Path.{◌≡◌, refl}
use mathlib.Core.Option.{Option, none, some}
use mathlib.Core.List.{List, [], ◌∷◌}
use native.Mathlib.Omega.{arith}
use nmslite.Common.Tests.{◌==◌, if◌then◌else◌}

abbrev pub Assoc {ℓ} : Type ℓ → Type ℓ
Assoc V = List (ℕ × V)

module _ {ℓ} {V : Type ℓ} where
  -- m[k]
  unfoldable pub find : ℕ → Assoc V → Option V
  find k [] = none
  find k ((j, v) ∷ m) = if j == k then some v else find k m

  -- m[k] = v
  unfoldable pub insert : ℕ → V → Assoc V → Assoc V
  insert k v [] = (k, v) ∷ []
  insert k v ((j, u) ∷ m) = if j == k then (k, v) ∷ m else (j, u) ∷ insert k v m

  -- delete(m, k)
  unfoldable pub erase : ℕ → Assoc V → Assoc V
  erase k [] = []
  erase k ((j, u) ∷ m) = let rest = erase k m in if j == k then rest else (j, u) ∷ rest

  pub find-insert :
      (k j : ℕ) (v : V) (m : Assoc V)
      → find j (insert k v m) ≡ (if k == j then some v else find j m)
  unfolding find insert
  find-insert k j v [] = refl
  find-insert k j v ((i, u) ∷ m) = ground (arith, find-insert k j v m)

  pub find-erase :
      (k j : ℕ) (m : Assoc V) → find j (erase k m) ≡ (if k == j then none else find j m)
  unfolding find erase
  find-erase k j [] = ground arith
  find-erase k j ((i, u) ∷ m) = ground (arith, find-erase k j m)

-- A map with strings as keys.
abbrev pub Names {ℓ} : Type ℓ → Type ℓ
Names V = List (String × V)

module _ {ℓ} {V : Type ℓ} where
  abbrev pub lookup : String → Names V → Option V
  lookup k [] = none
  lookup k ((j, v) ∷ m) = if str_eq j k then some v else lookup k m

  abbrev pub put : String → V → Names V → Names V
  put k v [] = (k, v) ∷ []
  put k v ((j, u) ∷ m) = if str_eq j k then (k, v) ∷ m else (j, u) ∷ put k v m

  pub lookup-put :
      (k j : String) (v : V) (m : Names V)
      → lookup j (put k v m) ≡ (if str_eq k j then some v else lookup j m)
  lookup-put k j v [] = refl
  lookup-put k j v ((i, u) ∷ m) =
      ground (arith, lookup-put k j v m, str_eq_iff i k, str_eq_iff k j, str_eq_iff i j)
