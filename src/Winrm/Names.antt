-- ===== src/Winrm/Names.antt =====
-- plugin/windows-winrm/collector/collector.go: sanitizeInterfaceName, and the names that it makes.
use nmslite.Common.{
  ℕ, ◌+◌, leb, ◌==◌, ◌≡◌, ◌≢◌, refl, sym, ◌∙◌, ap, subst, ◌⊎◌, inl, inr, Bool, true, false, not,
  ◌&&◌, ◌||◌, [], ◌∷◌, if◌then◌else◌, arith, Bool-cases, List-cases,
}
use nmslite.Winrm.{Text}

abbrev is_lower : ℕ → Bool
is_lower c = leb b'a' c && leb c b'z'

abbrev is_upper : ℕ → Bool
is_upper c = leb b'A' c && leb c b'Z'

abbrev is_digit : ℕ → Bool
is_digit c = leb b'0' c && leb c b'9'

unfoldable pub is_word : ℕ → Bool
is_word c = is_lower c || is_upper c || is_digit c

-- The regular expression: each run of other characters becomes an underscore. The flag says that one
-- has been written for the run that is being read.
unfoldable pub collapse : Bool → Text → Text
collapse inside [] = []
collapse inside (c ∷ t) =
    let in_run = collapse true t in
    let after = collapse false t in
    if is_word c then c ∷ after else if inside then in_run else b'_' ∷ in_run

-- strings.Trim of underscores, at the left and at the right end.
unfoldable pub trim_left : Text → Text
trim_left [] = []
trim_left (c ∷ t) = let rest = trim_left t in if c == b'_' then rest else c ∷ t

unfoldable pub trim_right : Text → Text
trim_right [] = []
trim_right (c ∷ t) = elim (trim_right t) [
  | [] ↦ if c == b'_' then [] else c ∷ []
  | d ∷ ds ↦ c ∷ d ∷ ds
]

-- strings.ToLower, of a text in ASCII
unfoldable pub to_lower : Text → Text
to_lower [] = []
to_lower (c ∷ t) = (if is_upper c then c + 32 else c) ∷ to_lower t

-- sanitizeInterfaceName
unfoldable pub sanitize_interface_name : Text → Text
sanitize_interface_name name = to_lower (trim_right (trim_left (collapse false name)))

-- Words of such characters, separated by single underscores, where the flag says that a word has begun.
abbrev spells : (ℕ → Bool) → Bool → Text → Bool
spells is_char begun [] = begun
spells is_char begun (c ∷ t) =
    let in_word = spells is_char true t in
    let after = spells is_char false t in
    if is_char c then in_word else (c == b'_') && begun && after

abbrev is_small : ℕ → Bool
is_small c = is_lower c || is_digit c

-- The text is empty, or lower case words of letters and digits, separated by single underscores.
abbrev pub is_name : Text → Bool
is_name [] = true
is_name (c ∷ t) = spells is_small false (c ∷ t)

-- No two underscores stand together, and where the flag is set none stands first.
abbrev single : Bool → Text → Bool
single behind [] = true
single behind (c ∷ t) =
    let in_word = single false t in
    let after = single true t in if is_word c then in_word else (c == b'_') && not behind && after

collapse-single : (b : Bool) (t : Text) → single b (collapse b t) ≡ true
unfolding collapse is_word
collapse-single b [] = refl
collapse-single true (c ∷ t) = ground (arith, collapse-single true t, collapse-single false t)
collapse-single false (c ∷ t) = ground (arith, collapse-single true t, collapse-single false t)

trim_left-single : (b : Bool) (t : Text) → single b t ≡ true → single true (trim_left t) ≡ true
unfolding trim_left is_word
trim_left-single b [] h = refl
trim_left-single b (c ∷ t) h = ground (arith, h, trim_left-single true t)

spells-cons :
    (b : Bool) (c : ℕ) (t : Text)
    → single b (c ∷ t) ≡ true
    → (single false t ≡ true → (trim_right t ≡ []) ⊎ (spells is_word true (trim_right t) ≡ true))
    → (single true t ≡ true → (trim_right t ≡ []) ⊎ (spells is_word false (trim_right t) ≡ true))
    → trim_right t ≢ []
    → spells is_word (not b) (c ∷ trim_right t) ≡ true
spells-cons b c t h word gap some_left = ground (arith, h, word, gap, some_left)

trim_right-spells :
    (b : Bool) (t : Text)
    → single b t ≡ true
    → (trim_right t ≡ []) ⊎ (spells is_word (not b) (trim_right t) ≡ true)
unfolding trim_right
trim_right-spells b [] h = inl refl
trim_right-spells b (c ∷ t) h = elim (List-cases (trim_right t)) [
  | inl e ↦ elim (Bool-cases (c == b'_')) [
    | inl f ↦ inl (rw (e, f) refl)
    | inr f ↦ inr (rw (e, f) (ground (arith, h, f)))
  ]
  | inr (d, ds, e) ↦ inr (
      rw e (
        subst (λ r. spells is_word (not b) (c ∷ r) ≡ true) e
          (spells-cons b c t h (trim_right-spells false t) (trim_right-spells true t)
            (λ q. absurd (ground (arith, sym e ∙ q))))))
]

to_lower-spells :
    (b : Bool) (t : Text) → spells is_word b t ≡ true → spells is_small b (to_lower t) ≡ true
unfolding to_lower is_word
to_lower-spells b [] h = h
to_lower-spells b (c ∷ t) h = ground (arith, h, to_lower-spells true t, to_lower-spells false t)

small-is_word :
    (c : ℕ) → is_small c ≡ true → (is_word c ≡ true) × (is_upper c ≡ false) × ((c == b'_') ≡ false)
unfolding is_word
small-is_word c h = ground (arith, h)

collapse-spells : (b : Bool) (t : Text) → spells is_small b t ≡ true → collapse (not b) t ≡ t
unfolding collapse is_word
collapse-spells b [] h = refl
collapse-spells b (c ∷ t) h = ground (arith, h, collapse-spells true t, collapse-spells false t)

collapse-start :
    (c : ℕ) (t : Text) → spells is_small false (c ∷ t) ≡ true → collapse false (c ∷ t) ≡ c ∷ t
unfolding collapse
collapse-start c t h = ground (arith, h, small-is_word c, collapse-spells true t)

trim_right-fixed :
    (b : Bool) (c : ℕ) (t : Text) → spells is_small b (c ∷ t) ≡ true → trim_right (c ∷ t) ≡ c ∷ t
unfolding trim_right
trim_right-fixed b c [] h = ground (arith, h, small-is_word c)
trim_right-fixed b c (d ∷ t) h = elim (Bool-cases (is_small c)) [
  | inl e ↦ rw (trim_right-fixed true d t (ground (arith, h, e))) refl
  | inr e ↦ rw (trim_right-fixed false d t (ground (arith, h, e))) refl
]

trim_left-fixed :
    (c : ℕ) (t : Text) → spells is_small false (c ∷ t) ≡ true → trim_left (c ∷ t) ≡ c ∷ t
unfolding trim_left
trim_left-fixed c t h = ground (arith, h, small-is_word c)

to_lower-fixed : (b : Bool) (t : Text) → spells is_small b t ≡ true → to_lower t ≡ t
unfolding to_lower
to_lower-fixed b [] h = refl
to_lower-fixed b (c ∷ t) h =
    ground (arith, h, small-is_word c, to_lower-fixed true t, to_lower-fixed false t)

is_name_of : (t : Text) → (t ≡ []) ⊎ (spells is_small false t ≡ true) → is_name t ≡ true
is_name_of [] h = refl
is_name_of (c ∷ t) (inl e) = absurd (ground (arith, e))
is_name_of (c ∷ t) (inr h) = h

sanitize-is_name : (name : Text) → is_name (sanitize_interface_name name) ≡ true
unfolding sanitize_interface_name to_lower
sanitize-is_name name =
    is_name_of (sanitize_interface_name name)
      (elim (trim_right-spells true (trim_left (collapse false name))
        (trim_left-single false (collapse false name) (collapse-single false name))) [
          | inl e ↦ inl (ap to_lower e)
          | inr h ↦ inr (to_lower-spells false (trim_right (trim_left (collapse false name))) h)
        ])

sanitize-nil : sanitize_interface_name [] ≡ []
unfolding sanitize_interface_name to_lower trim_left trim_right collapse
sanitize-nil = refl

sanitize-fixed : (t : Text) → is_name t ≡ true → sanitize_interface_name t ≡ t
unfolding sanitize_interface_name
sanitize-fixed [] h = sanitize-nil
sanitize-fixed (c ∷ t) h =
    ap (λ u. to_lower (trim_right (trim_left u))) (collapse-start c t h)
    ∙ ap (λ u. to_lower (trim_right u)) (trim_left-fixed c t h)
    ∙ ap to_lower (trim_right-fixed false c t h)
    ∙ to_lower-fixed false (c ∷ t) h

-- For every name of an interface, the part of a metric's name that is made of it is empty, or lower case
-- words of letters and digits that single underscores separate. A text that is so already stays as
-- it is, so that making the part again changes nothing.
pub sanitize_interface_name_lem :
    (name : Text)
    → (is_name (sanitize_interface_name name) ≡ true)
      × (is_name name ≡ true → sanitize_interface_name name ≡ name)
      × (sanitize_interface_name (sanitize_interface_name name) ≡ sanitize_interface_name name)
sanitize_interface_name_lem name = (
  sanitize-is_name name,
  sanitize-fixed name,
  sanitize-fixed (sanitize_interface_name name) (sanitize-is_name name),
)
