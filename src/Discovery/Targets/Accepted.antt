-- ===== src/Discovery/Targets/Accepted.antt =====
-- internal/discovery/targets.go: which targets are accepted.
use nmslite.Common.{
  ℕ, ◌<◌, ◌≡◌, ◌∙◌, refl, ap, inl, inr, Bool, true, false, some, List, map, ltb, arith, Bool-cases,
  ◌-◌, if◌then◌else◌,
}
use nmslite.Discovery.Addresses.{Text, Addr, Prefix}
use nmslite.Discovery.Targets.{
  Netip, Result, ok, err, too_large, limit, expand_prefix, shown, expand_cidr,
}
use nmslite.Discovery.Targets.Blocks.{
  IsPrefix, usable, consecutive, first_of, expand_prefix-consecutive, expand_prefix-too_large,
}

if_true : (b : Bool) → b ≡ true → (x y : Result (List Addr)) → some x ≡ some (if b then x else y)
if_true b h x y = rw h refl

if_false : (b : Bool) → b ≡ false → (x y : Result (List Addr)) → some y ≡ some (if b then x else y)
if_false b h x y = rw h refl

expand_prefix_cases :
    (fuel : ℕ) (p : Prefix)
    → limit < fuel
    → IsPrefix p
    → expand_prefix fuel p
      ≡ some (
          if ltb 16 (p.addr.width - p.bits)
          then err too_large
          else ok (consecutive (first_of p) (usable p)))
expand_prefix_cases fuel p f v = elim (Bool-cases (ltb 16 (p.addr.width - p.bits))) [
  | inl h ↦
      expand_prefix-too_large fuel p (ground (arith, h))
      ∙ if_true (ltb 16 (p.addr.width - p.bits)) h _ _
  | inr h ↦
      (expand_prefix-consecutive fuel p f v (ground (arith, h))).0
      ∙ if_false (ltb 16 (p.addr.width - p.bits)) h _ _
]

shown-if :
    (ip : Netip) (b : Bool) (ips : List Addr)
    → shown ip (some (if b then err too_large else ok ips))
      ≡ some (if b then err too_large else ok (map ip.show ips))
unfolding shown
shown-if ip true ips = refl
shown-if ip false ips = refl

-- A value that is a CIDR block without padding, of at most 16 host bits, expands to as many texts as
-- are usable, the prints of consecutive addresses; a larger block is refused. This holds
-- for every parser that returns well-formed prefixes.
expand_cidr_lem :
    (ip : Netip) (fuel : ℕ) (value : Text) (p : Prefix)
    → limit < fuel
    → ip.parse_prefix value ≡ some p
    → IsPrefix p
    → expand_cidr ip fuel value
      ≡ some (
          if ltb 16 (p.addr.width - p.bits)
          then err too_large
          else ok (map ip.show (consecutive (first_of p) (usable p))))
unfolding expand_cidr shown
expand_cidr_lem ip fuel value p f e v =
    let opened : expand_cidr ip fuel value ≡ shown ip (expand_prefix fuel p) =
      rw (e, expand_cidr) in
    opened
    ∙ ap (shown ip) (expand_prefix_cases fuel p f v)
    ∙ shown-if ip (ltb 16 (p.addr.width - p.bits)) (consecutive (first_of p) (usable p))
