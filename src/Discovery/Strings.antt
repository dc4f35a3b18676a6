-- ===== src/Discovery/Strings.antt =====
-- internal/discovery/targets.go: what it takes from the package strings.
use nmslite.Common.{
  ℕ, Bool, false, ◌&&◌, ◌||◌, Option, none, some, List, [], ◌∷◌, leb, ◌==◌, if◌then◌else◌,
}
use nmslite.Discovery.Addresses.{Text}

-- White space, as strings.TrimSpace cuts it off (unicode.IsSpace).
unfoldable pub is_space : ℕ → Bool
is_space c =
    c == 32
    || (leb 9 c && leb c 13)
    || c == 133
    || c == 160
    || c == 5760
    || (leb 8192 c && leb c 8202)
    || c == 8232
    || c == 8233
    || c == 8239
    || c == 8287
    || c == 12288

unfoldable pub trim_left : Text → Text
unfolding is_space
trim_left [] = []
trim_left (c ∷ t) = if is_space c then trim_left t else c ∷ t

unfoldable pub trim_right : Text → Text
unfolding is_space
trim_right [] = []
trim_right (c ∷ t) = elim (trim_right t) [
  | [] ↦ if is_space c then [] else c ∷ []
  | d ∷ u ↦ c ∷ d ∷ u
]

unfoldable pub trim : Text → Text
unfolding trim_left trim_right
trim t = trim_right (trim_left t)

unfoldable pub has_char : ℕ → Text → Bool
has_char c [] = false
has_char c (d ∷ t) = d == c || has_char c t

-- strings.Split at one character: the first part and the others.
unfoldable pub split : ℕ → Text → Text × List Text
split c [] = ([], [])
split c (d ∷ t) =
    let (part, parts) = split c t in if d == c then ([], part ∷ parts) else (d ∷ part, parts)

-- Split at "-" into exactly two parts, both trimmed.
unfoldable pub two_parts : Text → Option (Text × Text)
unfolding trim split
two_parts value =
    let (first, others) = split b'-' value in
    elim others [
      | [] ↦ none
      | second ∷ more ↦ elim more [ [] ↦ some (trim first, trim second) | part ∷ parts ↦ none ]
    ]
