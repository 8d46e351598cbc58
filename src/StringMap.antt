-- ===== src/StringMap.antt =====
-- Go's `map[string]string`, as it is read: the keys are literals of the program.
-- A missing key reads as "".
use text.Mathlib.Text.{◌==◌ as str_eq}
use text.Mathlib.TextEquality.{eq_iff}
use kube_op.Prelude.{String, ◌≡◌, refl, List, [], ◌∷◌, Option, none, some, if◌then◌else◌, arith}
use kube_op.Text.{Text, or_else}

abbrev pub StringMap : Type 0
StringMap = List (String × Text)

-- `v, ok := m[key]`
unfoldable pub lookup : String → StringMap → Option Text
lookup key [] = none
lookup key ((k, v) ∷ m) = if str_eq k key then some v else lookup key m

-- `m[key]`, also of a nil map (`none`).
unfoldable pub get : Option StringMap → String → Text
unfolding lookup
get none key = []
get (some m) key = or_else (lookup key m) []

-- `m[key] = v`
unfoldable pub insert : String → Text → StringMap → StringMap
insert key v [] = (key, v) ∷ []
insert key v ((k, w) ∷ m) = if str_eq k key then (k, v) ∷ m else (k, w) ∷ insert key v m

pub lookup-insert :
    (key other : String) (v : Text) (m : StringMap)
    → lookup other (insert key v m) ≡ (if str_eq key other then some v else lookup other m)
unfolding lookup insert
lookup-insert key other v [] = refl
lookup-insert key other v ((k, w) ∷ m) =
    ground (arith, eq_iff key other, eq_iff k key, eq_iff k other, lookup-insert key other v m)
