-- ===== src/KubeNames/Tests.antt =====
-- Derived names on concrete apps.
use kube_op.Prelude.{ℕ, ◌≤◌, ◌≡◌, refl, false, List, [], ◌∷◌, ◌++◌, length}
use kube_op.Text.{Text, text, is_empty, trim_space}
use kube_op.UsageWriter.Labels.{IsLabel}
use kube_op.KubeNames.{slugify, derive_kube_name}
use kube_op.KubeNames.Derived.{derive_kube_name-IsLabel}

-- A digest of 20 bytes.
abbrev counted : Text → List ℕ
counted s =
    1 ∷ 2 ∷ 3 ∷ 4 ∷ 5 ∷ 6 ∷ 7 ∷ 8 ∷ 9 ∷ 10 ∷ 11 ∷ 12 ∷ 13 ∷ 14 ∷ 15 ∷ 16 ∷ 17 ∷ 18 ∷ 19 ∷ 250 ∷ []

length-counted : (s : Text) → length (counted s) ≡ 20
length-counted s = refl

abbrev sixty : Text
sixty = text "aaaaaaaaaaaaaaaaaaaaaaaaaaaaaaaaaaaaaaaaaaaaaaaaaaaaaaaaaaaa"

-- A slug that is cut at a dash ends with it.
slugs :
    (slugify (text " My App! ") ≡ text "my-app")
    × (slugify (text "--") ≡ text "ns")
    × (slugify (sixty ++ text "aa b") ≡ sixty ++ text "aa-")
unfolding slugify
slugs = (refl, refl, refl)

derived : derive_kube_name counted (text "My App") (text "id-1") ≡ text "my-app-010203040-aydqq"
unfolding derive_kube_name
derived = refl

has_id : is_empty (trim_space (text "id-1")) ≡ false
unfolding trim_space
has_id = refl

derive_kube_name-IsLabel_example :
    IsLabel (derive_kube_name counted (text "My App") (text "id-1"))
    × (length (derive_kube_name counted (text "My App") (text "id-1")) ≤ 63)
derive_kube_name-IsLabel_example =
    derive_kube_name-IsLabel counted (text "My App") (text "id-1") length-counted has_id
