-- ===== src/Discovery/Targets.antt =====
-- internal/discovery/targets.go: the kind of a target, and the addresses it stands for. A text is
-- parsed by functions of net/netip, which are arguments (`Netip`): nothing here depends on the
-- grammar of addresses. An expansion returns addresses, which the code prints one by one.
-- The loops run on fuel: they give up past 65536 addresses, so 65538 rounds are enough.
pub mod Blocks
pub mod Ranges
pub mod Accepted
use nmslite.Common.{
  ℤ, pos, negsuc, ◌+ℤ◌, ℕ, zero, suc, ◌+◌, ◌-◌, ◌*◌, ◌/◌, ◌%◌, ◌^◌, Bool, true, false, not, ◌&&◌,
  ◌||◌, Option, none, some, List, [], ◌∷◌, ◌++◌, length, map, take, ltb, leb, ◌==◌, if◌then◌else◌,
}
use nmslite.Discovery.Addresses.{
  Text, Addr, is4, next, Order, before, same, after, compare_addr, Prefix, contains, masked,
}
use nmslite.Discovery.Strings.{is_space, trim_left, trim_right, trim, has_char, split, two_parts}

pub record Netip : Type 0 where
  pub parse_addr : Text → Option Addr
  pub parse_prefix : Text → Option Prefix
  -- Addr.String
  pub show : Addr → Text

pub data TargetType : Type 0 where
  cidr range single unknown : TargetType

-- `not_a_target` is ValidateTarget's error for a value of no kind, `invalid_target` ExpandTarget's.
pub data TargetError : Type 0 where
  invalid_target not_a_target invalid_cidr too_large invalid_range invalid_start invalid_end :
      TargetError
  version_mismatch start_after_end overflow : TargetError

pub data Result {ℓ} (A : Type ℓ) : Type ℓ where
  ok : A → Result A
  err : TargetError → Result A

module _ (ip : Netip) where
  abbrev is_addr : Text → Bool
  is_addr t = elim (ip.parse_addr t) [ none ↦ false | some a ↦ true ]

  abbrev is_prefix : Text → Bool
  is_prefix t = elim (ip.parse_prefix t) [ none ↦ false | some p ↦ true ]

  abbrev is_range : Text → Bool
  is_range t = elim (two_parts t) [
    | none ↦ false
    | some (start, end) ↦ is_addr start && is_addr end
  ]

  -- DetectTargetType
  unfoldable pub detect_target_type : Text → TargetType
  unfolding two_parts has_char
  detect_target_type value =
      let value' = trim value in
      if has_char b'/' value' && is_prefix value'
      then cidr
      else if has_char b'-' value' && is_range value'
      then range
      else if is_addr value'
      then single
      else unknown

abbrev pub limit : ℕ
limit = 65536

-- The loop of expandCIDR; `none` means that the fuel ran out.
unfoldable pub expand_block : ℕ → Prefix → Option Addr → List Addr → Option (Result (List Addr))
unfolding contains next
expand_block zero p cur ips = none
expand_block (suc fuel) p none ips = some (ok ips)
expand_block (suc fuel) p (some a) ips =
    let ips' = ips ++ a ∷ [] in
    let rest = expand_block fuel p (next a) ips' in
    if not (contains p (some a))
    then some (ok ips)
    else if ltb limit (length ips')
    then some (err too_large)
    else rest

-- `ips[:len(ips)-1]`, if there are any.
unfoldable pub drop_last : List Addr → List Addr
drop_last ips = take (length ips - 1) ips

-- expandCIDR on a parsed prefix.
unfoldable pub expand_prefix : ℕ → Prefix → Option (Result (List Addr))
unfolding expand_block drop_last
expand_prefix fuel p =
    let skip = is4 p.addr && ltb p.bits 31 in
    let first = masked p in
    let found = expand_block fuel p (if skip then next first else some first) [] in
    if ltb 16 (p.addr.width - p.bits) then some (err too_large) else elim found [
      | none ↦ none
      | some (err e) ↦ some (err e)
      | some (ok ips) ↦ some (ok (if skip then drop_last ips else ips))
    ]

-- countIPsInCIDR on a parsed prefix: the shift wraps around at 64 bits.
unfoldable pub count_prefix : Prefix → ℤ
unfolding ◌+ℤ◌
count_prefix p =
    let host = p.addr.width - p.bits in
    let count =
      if ltb host 63
      then pos (2 ^ host)
      else if host == 63
      then negsuc 9_223_372_036_854_775_807
      else pos 0 in
    if is4 p.addr && ltb p.bits 31 then count +ℤ negsuc 1 else count

-- The loop of expandRange.
unfoldable pub expand_between : ℕ → Addr → Addr → List Addr → Option (Result (List Addr))
unfolding next compare_addr
expand_between zero cur last ips = none
expand_between (suc fuel) cur last ips =
    let ips' = ips ++ cur ∷ [] in
    if ltb limit (length ips') then some (err too_large) else elim (compare_addr cur last) [
      | same ↦ some (ok ips')
      | before ↦ elim (next cur) [
        | none ↦ some (err overflow)
        | some cur' ↦ expand_between fuel cur' last ips'
      ]
      | after ↦ elim (next cur) [
        | none ↦ some (err overflow)
        | some cur' ↦ expand_between fuel cur' last ips'
      ]
    ]

-- expandRange on the parsed ends.
unfoldable pub expand_ends : ℕ → Addr → Addr → Option (Result (List Addr))
unfolding expand_between
expand_ends fuel start last =
    if not (start.width == last.width)
    then some (err version_mismatch)
    else elim (compare_addr start last) [
      | after ↦ some (err start_after_end)
      | before ↦ expand_between fuel start last []
      | same ↦ expand_between fuel start last []
    ]

-- The bytes of As4, put together again by countIPsInRange.
unfoldable pub ipv4_number : ℕ → ℕ
ipv4_number value =
    value / 16777216 % 256 * 16777216
    + value / 65536 % 256 * 65536
    + value / 256 % 256 * 256
    + value % 256

-- The loop that countIPsInRange runs for IPv6, from a count on. Past the last address the invalid
-- Addr compares as the least, so the loop goes on to its limit.
unfoldable count_between : ℕ → Option Addr → Addr → ℕ → Option (Result ℕ)
unfolding compare_addr next
count_between zero cur last count = none
count_between (suc fuel) cur last count =
    let further : Option Addr = elim cur [ none ↦ none | some a ↦ next a ] in
    let position : Order = elim cur [ none ↦ before | some a ↦ compare_addr a last ] in
    let rest = count_between fuel further last (count + 1) in
    elim position [
      | same ↦ some (ok count)
      | after ↦ some (ok count)
      | before ↦ if ltb limit (count + 1) then some (err too_large) else rest
    ]

-- countIPsInRange on the parsed ends.
unfoldable pub count_ends : ℕ → Addr → Addr → Option (Result ℕ)
unfolding ipv4_number count_between
count_ends fuel start last =
    let counted = count_between fuel (some start) last 1 in
    if not (start.width == last.width)
    then some (err version_mismatch)
    else elim (compare_addr start last) [
      | after ↦ some (err start_after_end)
      | before ↦
          if is4 start
          then some (ok (ipv4_number last.value - ipv4_number start.value + 1))
          else counted
      | same ↦
          if is4 start
          then some (ok (ipv4_number last.value - ipv4_number start.value + 1))
          else counted
    ]

-- The texts of a list of addresses.
unfoldable pub shown : Netip → Option (Result (List Addr)) → Option (Result (List Text))
shown ip none = none
shown ip (some (err e)) = some (err e)
shown ip (some (ok ips)) = some (ok (map ip.show ips))

abbrev error_of : Option (Result (List Text)) → Option (Option TargetError)
error_of none = none
error_of (some (ok texts)) = some none
error_of (some (err e)) = some (some e)

module _ (ip : Netip) (fuel : ℕ) where
  -- expandCIDR: the value is parsed as it is given.
  unfoldable pub expand_cidr : Text → Option (Result (List Text))
  unfolding expand_prefix shown
  expand_cidr value = elim (ip.parse_prefix value) [
    | none ↦ some (err invalid_cidr)
    | some p ↦ shown ip (expand_prefix fuel p)
  ]

  -- expandRange
  unfoldable expand_range : Text → Option (Result (List Text))
  unfolding two_parts expand_ends shown
  expand_range value = elim (two_parts value) [
    | none ↦ some (err invalid_range)
    | some (start, end) ↦ elim (ip.parse_addr start) [
      | none ↦ some (err invalid_start)
      | some a ↦ elim (ip.parse_addr end) [
        | none ↦ some (err invalid_end)
        | some b ↦ shown ip (expand_ends fuel a b)
      ]
    ]
  ]

  -- ExpandTarget
  unfoldable pub expand_target : Text → Option (Result (List Text))
  unfolding detect_target_type expand_cidr expand_range
  expand_target value = elim (detect_target_type ip value) [
    | cidr ↦ expand_cidr value
    | range ↦ expand_range value
    | single ↦ some (ok (trim value ∷ []))
    | unknown ↦ some (err invalid_target)
  ]

  -- ValidateTarget: the error, if there is one.
  unfoldable pub validate_target : Text → Option (Option TargetError)
  unfolding expand_target
  validate_target value =
      let expanded = expand_target value in
      elim (detect_target_type ip value) [
        | unknown ↦ some (some not_a_target)
        | cidr ↦ error_of expanded
        | range ↦ error_of expanded
        | single ↦ error_of expanded
      ]
