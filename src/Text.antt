-- ===== src/Text.antt =====
-- Go strings and what the program uses of the package `strings`. A text is the list of the bytes
-- of an ASCII string: `trim_space` and `to_lower` treat the ASCII white space and letters, and
-- bytes from 128 on, which Go would decode as UTF-8, are outside the model.
pub mod Equality
pub mod Trim
pub mod Case
pub mod Search
pub mod Pieces
pub mod Collapse
use Prim.Native.Char.{code}
use kube_op.Prelude.{
  ℕ, ◌+◌, ◌-◌, String, Bool, true, false, ◌&&◌, ◌||◌, List, [], ◌∷◌, ◌++◌, map, Option, none, some,
  leb, ◌==◌, if◌then◌else◌,
}

abbrev pub Text : Type 0
Text = List ℕ

-- The bytes of a literal.
abbrev pub text : String → Text
text String.[] = []
text (String.◌∷◌ c s) = code c ∷ text s

-- `s == ""`
abbrev pub is_empty : Text → Bool
is_empty [] = true
is_empty (c ∷ s) = false

-- `s == t`
unfoldable pub same : Text → Text → Bool
same [] [] = true
same [] (d ∷ t) = false
same (c ∷ s) [] = false
same (c ∷ s) (d ∷ t) = c == d && same s t

-- The white space that `strings.TrimSpace` removes: tab, newline, \v, \f, \r and blank.
abbrev pub is_space : ℕ → Bool
is_space c = c == 32 || (leb 9 c && leb c 13)

-- Removal of a set of bytes at either end: `strings.Trim`, `strings.TrimSpace`.
unfoldable pub trim_left : (ℕ → Bool) → Text → Text
trim_left test [] = []
trim_left test (c ∷ s) = if test c then trim_left test s else c ∷ s

-- A byte goes if it passes the test and nothing is left behind it.
abbrev pub trim_end : (ℕ → Bool) → ℕ → Text → Text
trim_end test c [] = if test c then [] else c ∷ []
trim_end test c (d ∷ s) = c ∷ d ∷ s

unfoldable pub trim_right : (ℕ → Bool) → Text → Text
trim_right test [] = []
trim_right test (c ∷ s) = trim_end test c (trim_right test s)

unfoldable pub trim : (ℕ → Bool) → Text → Text
unfolding trim_left trim_right
trim test s = trim_right test (trim_left test s)

unfoldable pub trim_space : Text → Text
unfolding trim
trim_space s = trim is_space s

-- `strings.ToLower`
abbrev pub lower : ℕ → ℕ
lower c = if leb b'A' c && leb c b'Z' then c + 32 else c

unfoldable pub to_lower : Text → Text
to_lower s = map lower s

-- `strings.EqualFold`
unfoldable pub equal_fold : Text → Text → Bool
unfolding same to_lower
equal_fold s t = same (to_lower s) (to_lower t)

-- What follows the prefix, if the text begins with it.
unfoldable pub strip_prefix? : Text → Text → Option Text
strip_prefix? s [] = some s
strip_prefix? [] (d ∷ p) = none
strip_prefix? (c ∷ s) (d ∷ p) = if c == d then strip_prefix? s p else none

abbrev pub is_some {ℓ} : {A : Type ℓ} → Option A → Bool
is_some none = false
is_some (some a) = true

abbrev pub or_else {ℓ} : {A : Type ℓ} → Option A → A → A
or_else none d = d
or_else (some a) d = a

-- `strings.HasPrefix(s, p)` and `strings.TrimPrefix(s, p)`
unfoldable pub has_prefix : Text → Text → Bool
unfolding strip_prefix?
has_prefix s p = is_some (strip_prefix? s p)

unfoldable pub trim_prefix : Text → Text → Text
unfolding strip_prefix?
trim_prefix s p = or_else (strip_prefix? s p) s

-- `strings.HasSuffix(s, p)`
unfoldable pub has_suffix : Text → Text → Bool
unfolding same
has_suffix [] p = is_empty p
has_suffix (c ∷ s) p = same (c ∷ s) p || has_suffix s p

-- The text without its last byte.
unfoldable pub drop_last : Text → Text
drop_last [] = []
drop_last (c ∷ []) = []
drop_last (c ∷ d ∷ s) = c ∷ drop_last (d ∷ s)

-- `strings.Contains(s, p)`
unfoldable pub contains : Text → Text → Bool
unfolding has_prefix
contains [] p = is_empty p
contains (c ∷ s) p = has_prefix (c ∷ s) p || contains s p

-- `strings.ContainsRune(s, c)`
unfoldable pub has_byte : ℕ → Text → Bool
has_byte c [] = false
has_byte c (d ∷ s) = d == c || has_byte c s

-- `strings.Split(s, sep)` for a separator of one byte.
abbrev pub onto_first : ℕ → List Text → List Text
onto_first c [] = (c ∷ []) ∷ []
onto_first c (p ∷ ps) = (c ∷ p) ∷ ps

unfoldable pub split : ℕ → Text → List Text
split sep [] = [] ∷ []
split sep (c ∷ s) = let rest = split sep s in if c == sep then [] ∷ rest else onto_first c rest

-- `strings.Join(parts, sep)` for a separator of one byte.
unfoldable pub join : ℕ → List Text → Text
join sep [] = []
join sep (p ∷ []) = p
join sep (p ∷ q ∷ ps) = p ++ (sep ∷ join sep (q ∷ ps))

-- `strings.ReplaceAll(s, old, new)` for single bytes.
unfoldable pub replace_byte : ℕ → ℕ → Text → Text
replace_byte old new s = map (λ c. if c == old then new else c) s
