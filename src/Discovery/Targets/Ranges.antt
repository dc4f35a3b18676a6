-- ===== src/Discovery/Targets/Ranges.antt =====
-- internal/discovery/targets.go: the addresses that a range expands to, and their number.
use mathlib.Core.List.{append_assoc}
use nmslite.Common.{
  ℕ, zero, suc, ◌+◌, ◌-◌, ◌^◌, ◌≤◌, ◌<◌, ◌≡◌, ◌∙◌, refl, inl, inr, true, false, some, List, [], ◌∷◌,
  ◌++◌, length, length-append, ltb, ◌==◌, if◌then◌else◌, arith, Bool-cases,
}
use nmslite.Discovery.Addresses.{Text, Addr, next, before, same, after, compare_text, compare_addr}
use nmslite.Discovery.Targets.{
  Result, ok, err, too_large, start_after_end, limit, expand_between, expand_ends, ipv4_number,
  count_ends,
}
use nmslite.Discovery.Targets.Blocks.{consecutive, length-consecutive}

compare_text_refl : (t : Text) → compare_text t t ≡ same
unfolding compare_text
compare_text_refl [] = refl
compare_text_refl (c ∷ t) = ground (arith, compare_text_refl t)

abbrev pub addr_of : ℕ → Text → ℕ → Addr
addr_of width zone x = record { width = width; value = x; zone = zone }

module _ (width : ℕ) (zone : Text) (last : ℕ) (inside : last < 2 ^ width) where
  abbrev addr : ℕ → Addr
  addr = addr_of width zone

  compare_below : (x : ℕ) → x < last → compare_addr (addr x) (addr last) ≡ before
  unfolding compare_addr
  compare_below x h = ground (arith, h)

  compare_last : (x : ℕ) → x ≡ last → compare_addr (addr x) (addr last) ≡ same
  unfolding compare_addr
  compare_last x e = ground (arith, e, compare_text_refl zone)

  compare_above : (x : ℕ) → last < x → compare_addr (addr x) (addr last) ≡ after
  unfolding compare_addr
  compare_above x h = ground (arith, h)

  next_below : (x : ℕ) → x < last → next (addr x) ≡ some (addr (x + 1))
  unfolding next
  next_below x h = ground (arith, h, inside)

  expand_between_over :
      (fuel x : ℕ) (ips : List Addr)
      → ltb limit (length (ips ++ addr x ∷ [])) ≡ true
      → expand_between (suc fuel) (addr x) (addr last) ips ≡ some (err too_large)
  unfolding expand_between
  expand_between_over fuel x ips h = rw (h, expand_between)

  expand_between_end :
      (fuel x : ℕ) (ips : List Addr)
      → x ≡ last
      → ltb limit (length (ips ++ addr x ∷ [])) ≡ false
      → expand_between (suc fuel) (addr x) (addr last) ips ≡ some (ok (ips ++ addr x ∷ []))
  unfolding expand_between
  expand_between_end fuel x ips e h = rw (h, compare_last x e, expand_between)

  expand_between_step :
      (fuel x : ℕ) (ips : List Addr)
      → x < last
      → ltb limit (length (ips ++ addr x ∷ [])) ≡ false
      → expand_between (suc fuel) (addr x) (addr last) ips
        ≡ expand_between fuel (addr (x + 1)) (addr last) (ips ++ addr x ∷ [])
  unfolding expand_between
  expand_between_step fuel x ips p h = rw (h, compare_below x p, next_below x p, expand_between)

  expand_between_run :
      (k fuel x : ℕ) (ips : List Addr)
      → x + k ≡ last
      → length ips ≤ limit
      → limit < fuel + length ips
      → expand_between fuel (addr x) (addr last) ips
        ≡ some (
            if ltb limit (length ips + k + 1)
            then err too_large
            else ok (ips ++ consecutive (addr x) (k + 1)))
  expand_between_run k zero x ips e f g = absurd (omega arith)
  expand_between_run zero (suc fuel) x ips e f g =
      let len = length-append ips (addr x ∷ []) in
      elim (Bool-cases (ltb limit (length (ips ++ addr x ∷ [])))) [
        | inl h ↦
            let over : ltb limit (length ips + 0 + 1) ≡ true = ground (arith, h, len) in
            rw over (expand_between_over fuel x ips h)
        | inr h ↦
            let fits : ltb limit (length ips + 0 + 1) ≡ false = ground (arith, h, len) in
            rw fits (expand_between_end fuel x ips (omega (arith, e)) h)
      ]
  expand_between_run (suc k) (suc fuel) x ips e f g =
      let len = length-append ips (addr x ∷ []) in
      elim (Bool-cases (ltb limit (length (ips ++ addr x ∷ [])))) [
        | inl h ↦
            let over : ltb limit (length ips + suc k + 1) ≡ true = ground (arith, h, len) in
            rw over (expand_between_over fuel x ips h)
        | inr h ↦
            let count : length (ips ++ addr x ∷ []) + k + 1 ≡ length ips + suc k + 1 =
              omega (arith, len) in
            let two : suc k + 1 ≡ suc (k + 1) = omega arith in
            let later =
              expand_between_run k fuel (x + 1) (ips ++ addr x ∷ []) (omega (arith, e))
                (ground (arith, h)) (omega (arith, g, len)) in
            expand_between_step fuel x ips (omega (arith, e)) h
            ∙ rw two (rw (count, append_assoc ips (addr x ∷ [])) at later)
      ]

-- A range of addresses of one family and zone, from `start` to `last`, with enough fuel, expands to
-- the consecutive addresses from `start` on, both ends included, when there are at most 65536 of
-- them, and is refused otherwise; it is refused when it ends before it starts.
pub expand_ends_lem :
    (width start last fuel : ℕ) (zone : Text)
    → last < 2 ^ width
    → limit < fuel
    → expand_ends fuel (addr_of width zone start) (addr_of width zone last)
      ≡ some (
          if ltb last start
          then err start_after_end
          else if ltb limit (last - start + 1)
          then err too_large
          else ok (consecutive (addr_of width zone start) (last - start + 1)))
unfolding expand_ends
expand_ends_lem width start last fuel zone h f =
    let known : (width == width) ≡ true = ground arith in
    elim (Bool-cases (ltb last start)) [
      | inl e ↦
          rw (compare_above width zone last h start (ground (arith, e)), known, e, expand_ends)
      | inr e ↦
          let run =
            expand_between_run width zone last h (last - start) fuel start [] (ground (arith, e))
              (omega arith) (omega (arith, f)) in
          let plain : 0 + (last - start) ≡ last - start = omega arith in
          elim (Bool-cases (start == last)) [
            | inl g ↦
                rw (compare_last width zone last h start (ground (arith, g)), known, e, expand_ends)
                  (rw plain at run)
            | inr g ↦
                rw
                  (
                    compare_below width zone last h start (ground (arith, e, g)),
                    known,
                    e,
                    expand_ends,
                  )
                  (rw plain at run)
          ]
    ]

ipv4_number_lem : (value : ℕ) → value < 4294967296 → ipv4_number value ≡ value
unfolding ipv4_number
ipv4_number_lem value h = omega arith

count_ends-consecutive :
    (start last fuel : ℕ) (zone : Text)
    → start < 4294967296
    → last < 4294967296
    → count_ends fuel (addr_of 32 zone start) (addr_of 32 zone last)
      ≡ some (
          if ltb last start
          then err start_after_end
          else ok (length (consecutive (addr_of 32 zone start) (last - start + 1))))
unfolding count_ends
count_ends-consecutive start last fuel zone h k =
    let n = length-consecutive (addr_of 32 zone start) (last - start + 1) in
    let a = ipv4_number_lem start h in
    let b = ipv4_number_lem last k in
    elim (Bool-cases (ltb last start)) [
      | inl e ↦ rw (compare_above 32 zone last k start (ground (arith, e)), e, count_ends)
      | inr e ↦ elim (Bool-cases (start == last)) [
        | inl g ↦ rw (compare_last 32 zone last k start (ground (arith, g)), e, n, a, b, count_ends)
        | inr g ↦
            rw (compare_below 32 zone last k start (ground (arith, e, g)), e, n, a, b, count_ends)
      ]
    ]

-- How many addresses a range has, by its expansion, or the number given where that is too large.
abbrev pub counted_as : ℕ → Result (List Addr) → Result ℕ
counted_as n (ok ips) = ok (length ips)
counted_as n (err too_large) = ok n
counted_as n (err e) = err e

-- For the ends of a range of IPv4 addresses, with enough fuel for the expansion: where expandRange lists
-- addresses, countIPsInRange counts exactly those; where it refuses the ends, countIPsInRange refuses
-- them as well; and where it refuses the range as too large, countIPsInRange, which has no
-- limit, gives the distance of the ends and one more.
pub count_ends_lem :
    (start last fuel fuel' : ℕ) (zone : Text)
    → start < 4294967296
    → last < 4294967296
    → limit < fuel
    → (r : Result (List Addr)) × (expand_ends fuel (addr_of 32 zone start) (addr_of 32 zone last)
        ≡ some r)
      × (count_ends fuel' (addr_of 32 zone start) (addr_of 32 zone last)
          ≡ some (counted_as (last - start + 1) r))
count_ends_lem start last fuel fuel' zone h k f =
    let expanded = expand_ends_lem 32 start last fuel zone k f in
    let counted = count_ends-consecutive start last fuel' zone h k in
    let n = length-consecutive (addr_of 32 zone start) (last - start + 1) in
    elim (Bool-cases (ltb last start)) [
      | inl e ↦ (err start_after_end, rw (expanded, e) refl, rw (counted, e) refl)
      | inr e ↦ elim (Bool-cases (ltb limit (last - start + 1))) [
        | inl g ↦ (err too_large, rw (expanded, e, g) refl, rw (counted, e, n) refl)
        | inr g ↦ (
          ok (consecutive (addr_of 32 zone start) (last - start + 1)),
          rw (expanded, e, g) refl,
          rw (counted, e) refl,
        )
      ]
    ]
