-- ===== src/Discovery/Targets/Blocks.antt =====
-- internal/discovery/targets.go: the addresses that a CIDR block expands to, and their number.
use native.Mathlib.Nat.{
  div-eq_of_lt-le, div-lt_iff_lt-mul, pow-zero, pow-suc, one-le-pow, pow-le-pow_right,
}
use mathlib.Core.List.{append-nil, append_assoc}
use nmslite.Common.{
  pos, ℕ, zero, suc, ◌+◌, ◌-◌, ◌*◌, ◌/◌, ◌^◌, ◌≤◌, ◌<◌, ◌≡◌, ◌∙◌, refl, ap, sym, subst, inl, inr,
  Bool, true, false, ◌&&◌, Option, none, some, List, [], ◌∷◌, ◌++◌, length, take, length-append,
  ltb, ◌==◌, if◌then◌else◌, arith, Bool-cases,
}
use nmslite.Discovery.Addresses.{Addr, is4, next, Prefix, block, contains, masked}
use nmslite.Discovery.Targets.{
  ok, err, too_large, limit, expand_block, drop_last, expand_prefix, count_prefix,
}

-- `n` addresses from `a` on.
abbrev pub consecutive : Addr → ℕ → List Addr
consecutive a zero = []
consecutive a (suc n) = a ∷ consecutive (record a { value = a.value + 1 }) n

pub length-consecutive : (a : Addr) (n : ℕ) → length (consecutive a n) ≡ n
length-consecutive a zero = refl
length-consecutive a (suc n) =
    omega (arith, length-consecutive (record a { value = a.value + 1 }) n)

two_pow_add : (a b : ℕ) → 2 ^ (a + b) ≡ 2 ^ a * 2 ^ b
two_pow_add zero b = let e : 0 + b ≡ b = omega arith in rw e (grind (arith, pow-zero 2))
two_pow_add (suc a) b =
    let e : suc a + b ≡ suc (a + b) = omega arith in
    rw e (grind (arith, pow-suc 2 a, pow-suc 2 (a + b), two_pow_add a b))

-- What ParsePrefix returns: a value of the width, and no more bits than it.
pub record IsPrefix (p : Prefix) : Type 0 where
  pub bits : p.bits ≤ p.addr.width
  pub value : p.addr.value < 2 ^ p.addr.width

module _ (p : Prefix) (v : IsPrefix p) where
  abbrev index : ℕ
  index = p.addr.value / block p

  abbrev nth : ℕ → Addr
  nth x = record { width = p.addr.width; value = x; zone = [] }

  -- An address that Next can return.
  abbrev cursor : ℕ → Option Addr
  cursor x = if x == 2 ^ p.addr.width then none else some (nth x)

  block-pos : 0 < block p
  block-pos = one-le-pow (p.addr.width - p.bits) 2 (omega arith)

  space : 2 ^ p.addr.width ≡ 2 ^ p.bits * block p
  space = ap (λ n. 2 ^ n) (omega (arith, v.bits)) ∙ two_pow_add p.bits (p.addr.width - p.bits)

  inside_space : index * block p + block p ≤ 2 ^ p.addr.width
  inside_space =
      let below : index < 2 ^ p.bits =
        (div-lt_iff_lt-mul block-pos).1 (omega (arith, space, v.value)) in
      grind (arith, space, below)

  contains_in :
      (x : ℕ)
      → index * block p ≤ x
      → x < index * block p + block p
      → contains p (some (nth x)) ≡ true
  unfolding contains
  contains_in x h k =
      let same : x / block p ≡ index = div-eq_of_lt-le (block p) h (grind (arith, k)) in
      ground (arith, same)

  contains_end : contains p (some (nth (index * block p + block p))) ≡ false
  unfolding contains
  contains_end =
      let same : (index * block p + block p) / block p ≡ index + 1 =
        div-eq_of_lt-le (block p) (grind arith) (grind (arith, block-pos)) in
      ground (arith, same)

  cursor-next : (x : ℕ) → next (nth x) ≡ cursor (x + 1)
  unfolding next
  cursor-next x = refl

  expand_block_run :
      (k fuel x : ℕ) (ips : List Addr)
      → index * block p ≤ x
      → x + k ≡ index * block p + block p
      → length ips + k ≤ limit
      → k < fuel
      → expand_block fuel p (cursor x) ips ≡ some (ok (ips ++ consecutive (nth x) k))
  unfolding expand_block
  expand_block_run k zero x ips h e room f = absurd (omega arith)
  expand_block_run zero (suc fuel) x ips h e room f =
      let last : x ≡ index * block p + block p = omega (arith, e) in
      let stop : contains p (some (nth x)) ≡ false =
        subst (λ y. contains p (some (nth y)) ≡ false) (sym last) contains_end in
      elim (Bool-cases (x == 2 ^ p.addr.width)) [
        | inl g ↦ rw (g, append-nil ips, expand_block)
        | inr g ↦ rw (g, expand_block) (rw (stop, append-nil ips))
      ]
  expand_block_run (suc k) (suc fuel) x ips h e room f =
      let inner : (x == 2 ^ p.addr.width) ≡ false = ground (arith, e, inside_space) in
      let go : contains p (some (nth x)) ≡ true = contains_in x h (omega (arith, e)) in
      let len : length (ips ++ nth x ∷ []) ≡ length ips + 1 =
        omega (arith, length-append ips (nth x ∷ [])) in
      let fits : ltb limit (length (ips ++ nth x ∷ [])) ≡ false = ground (arith, len) in
      rw (inner, expand_block)
        (rw (go, fits)
          (expand_block_run k fuel (x + 1) (ips ++ nth x ∷ []) (omega arith) (omega (arith, e))
              (omega (arith, len)) (omega arith)
            ∙ rw (append_assoc ips (nth x ∷ [])) refl))

take-consecutive : (a : Addr) (n : ℕ) → take n (consecutive a (suc n)) ≡ consecutive a n
take-consecutive a zero = refl
take-consecutive a (suc n) =
    ap (λ xs. a ∷ xs) (take-consecutive (record a { value = a.value + 1 }) n)

drop_last-consecutive : (a : Addr) (n : ℕ) → drop_last (consecutive a (suc n)) ≡ consecutive a n
unfolding drop_last
drop_last-consecutive a n =
    let e : length (consecutive a (suc n)) - 1 ≡ n = omega (arith, length-consecutive a (suc n)) in
    rw e (take-consecutive a n)

-- The network and the broadcast address are left out.
abbrev skips : Prefix → Bool
skips p = is4 p.addr && ltb p.bits 31

-- The first address of an expansion.
abbrev pub first_of : Prefix → Addr
first_of p = record (masked p) {
  value = p.addr.value / block p * block p + (if skips p then 1 else 0);
}

-- How many of the addresses of a block are expanded.
abbrev pub usable : Prefix → ℕ
usable p = if skips p then block p - 2 else block p

count_prefix-usable : (p : Prefix) → p.addr.width - p.bits ≤ 16 → count_prefix p ≡ pos (usable p)
unfolding count_prefix
count_prefix-usable p h =
    let short : ltb (p.addr.width - p.bits) 63 ≡ true = ground (arith, h) in
    elim (Bool-cases (skips p)) [
      | inr e ↦ rw (short, e) refl
      | inl e ↦
          let four : 4 ≤ block p =
            pow-le-pow_right {n = 2} (omega arith) {i = 2} (ground (arith, e)) in
          rw (short, e) (ground (arith, four))
    ]

expand_prefix_small :
    (fuel : ℕ) (p : Prefix)
    → limit < fuel
    → IsPrefix p
    → p.addr.width - p.bits ≤ 16
    → (expand_prefix fuel p ≡ some (ok (consecutive (first_of p) (usable p))))
unfolding expand_prefix
expand_prefix_small fuel p f v h =
    let small : ltb 16 (p.addr.width - p.bits) ≡ false = ground (arith, h) in
    let start = index p v * block p in
    let size : block p ≤ 65536 = pow-le-pow_right {n = 2} (omega arith) h in
    elim (Bool-cases (skips p)) [
      | inr e ↦
          let inner : (start == 2 ^ p.addr.width) ≡ false =
            ground (arith, inside_space p v, block-pos p v) in
          let found =
            expand_block_run p v (block p) fuel start [] (omega arith) refl (omega (arith, size))
              (omega (arith, size, f)) in
          let begun : expand_block fuel p (some (masked p)) []
              ≡ some (ok (consecutive (masked p) (block p))) =
            rw inner at found in
          let plain : start + 0 ≡ start = omega arith in
          rw (small, e, begun, plain, expand_prefix) (rw e refl)
      | inl e ↦
          let four : 4 ≤ block p =
            pow-le-pow_right {n = 2} (omega arith) {i = 2} (ground (arith, e)) in
          let found =
            expand_block_run p v (block p - 1) fuel (start + 1) [] (omega arith)
              (omega (arith, four)) (omega (arith, size)) (omega (arith, size, f)) in
          let begun : expand_block fuel p (next (masked p)) []
              ≡ some (ok (consecutive (nth p v (start + 1)) (block p - 1))) =
            rw (cursor-next p v start) found in
          let less : block p - 1 ≡ suc (block p - 2) = omega (arith, four) in
          rw (small, e, begun, less, expand_prefix)
            (rw e
              (ap (λ xs. some (ok xs)) (drop_last-consecutive (nth p v (start + 1)) (block p - 2))))
    ]

-- A CIDR block of at most 16 host bits expands to consecutive addresses, as many as
-- countIPsInCIDR says, from the first of the block on (from the second, and without the last, for an
-- IPv4 block of more than two); 65537 rounds are enough.
pub expand_prefix-consecutive :
    (fuel : ℕ) (p : Prefix)
    → limit < fuel
    → IsPrefix p
    → p.addr.width - p.bits ≤ 16
    → (expand_prefix fuel p ≡ some (ok (consecutive (first_of p) (usable p))))
      × (count_prefix p ≡ pos (usable p))
expand_prefix-consecutive fuel p f v h = (expand_prefix_small fuel p f v h, count_prefix-usable p h)

-- A block of more than 16 host bits is refused.
pub expand_prefix-too_large :
    (fuel : ℕ) (p : Prefix)
    → 16 < p.addr.width - p.bits
    → expand_prefix fuel p ≡ some (err too_large)
unfolding expand_prefix
expand_prefix-too_large fuel p h =
    let large : ltb 16 (p.addr.width - p.bits) ≡ true = ground (arith, h) in
    rw (large, expand_prefix)
