-- ===== src/Discovery/Addresses.antt =====
-- net/netip, as internal/discovery/targets.go uses it: addresses, their order, prefixes. An address
-- has a width of 32 or 128 bits, a value below 2 ^ width, and a zone (empty for IPv4). The zero
-- Addr, which Next returns past the last address, is `none`. Texts are lists of code points.
use nmslite.Common.{
  ℕ, ◌+◌, ◌-◌, ◌*◌, ◌/◌, ◌^◌, Bool, true, false, ◌&&◌, Option, none, some, List, [], ◌∷◌, ltb, ◌==◌,
  if◌then◌else◌,
}

abbrev pub Text : Type 0
Text = List ℕ

pub record Addr : Type 0 where
  pub width : ℕ
  pub value : ℕ
  pub zone : Text

abbrev pub is4 : Addr → Bool
is4 a = a.width == 32

unfoldable pub next : Addr → Option Addr
next a = if a.value + 1 == 2 ^ a.width then none else some (record a { value = a.value + 1 })

pub data Order : Type 0 where
  before same after : Order

abbrev pub order : ℕ → ℕ → Order
order a b = if ltb a b then before else if a == b then same else after

abbrev then_order : Order → Order → Order
then_order same o = o
then_order before o = before
then_order after o = after

unfoldable pub compare_text : Text → Text → Order
compare_text [] [] = same
compare_text [] (c ∷ t) = before
compare_text (c ∷ s) [] = after
compare_text (c ∷ s) (d ∷ t) = then_order (order c d) (compare_text s t)

-- Addr.Compare
unfoldable pub compare_addr : Addr → Addr → Order
unfolding compare_text
compare_addr a b =
    then_order (order a.width b.width)
      (then_order (order a.value b.value) (compare_text a.zone b.zone))

pub record Prefix : Type 0 where
  pub addr : Addr
  pub bits : ℕ

-- 2 ^ the number of host bits.
abbrev pub block : Prefix → ℕ
block p = 2 ^ (p.addr.width - p.bits)

abbrev no_zone : Text → Bool
no_zone [] = true
no_zone (c ∷ t) = false

-- Prefix.Contains: no address with a zone, none of the other family.
unfoldable pub contains : Prefix → Option Addr → Bool
contains p none = false
contains p (some a) =
    no_zone a.zone && a.width == p.addr.width && a.value / block p == p.addr.value / block p

-- Prefix.Masked().Addr()
abbrev pub masked : Prefix → Addr
masked p = record { width = p.addr.width; value = p.addr.value / block p * block p; zone = [] }
