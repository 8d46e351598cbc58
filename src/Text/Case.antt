-- ===== src/Text/Case.antt =====
-- Lower case: applying it again changes nothing, it keeps the length and commutes with trimming.
use kube_op.Prelude.{
  ℕ, suc, ◌≡◌, refl, ap, Bool, [], ◌∷◌, map, arith, length, ◌∙◌, Bool-cases, inl, inr,
}
use kube_op.Text.{
  Text, lower, to_lower, is_space, trim_left, trim_right, trim_end, trim, trim_space,
}

pub lower_idem : (c : ℕ) → lower (lower c) ≡ lower c
lower_idem c = ground arith

pub to_lower_idem : (s : Text) → to_lower (to_lower s) ≡ to_lower s
unfolding to_lower
to_lower_idem [] = refl
to_lower_idem (c ∷ s) = simp (lower_idem c, to_lower_idem s)

pub length-to_lower : (s : Text) → length (to_lower s) ≡ length s
unfolding to_lower
length-to_lower [] = refl
length-to_lower (c ∷ s) = ap suc (length-to_lower s)

-- A change of single bytes that the test does not see commutes with trimming.
module _ (test : ℕ → Bool) (f : ℕ → ℕ) (same_test : (c : ℕ) → test (f c) ≡ test c) where
  trim_left-map : (s : Text) → trim_left test (map f s) ≡ map f (trim_left test s)
  unfolding trim_left
  trim_left-map [] = refl
  trim_left-map (c ∷ s) = elim (Bool-cases (test c)) [
    | inl e ↦ rw (same_test c, e) (trim_left-map s)
    | inr e ↦ rw (same_test c, e) refl
  ]

  trim_end-map : (c : ℕ) (s : Text) → trim_end test (f c) (map f s) ≡ map f (trim_end test c s)
  trim_end-map c [] = elim (Bool-cases (test c)) [
    | inl e ↦ rw (same_test c, e) refl
    | inr e ↦ rw (same_test c, e) refl
  ]
  trim_end-map c (d ∷ s) = refl

  trim_right-map : (s : Text) → trim_right test (map f s) ≡ map f (trim_right test s)
  unfolding trim_right
  trim_right-map [] = refl
  trim_right-map (c ∷ s) =
      ap (trim_end test (f c)) (trim_right-map s) ∙ trim_end-map c (trim_right test s)

  pub trim-map : (s : Text) → trim test (map f s) ≡ map f (trim test s)
  unfolding trim
  trim-map s = ap (trim_right test) (trim_left-map s) ∙ trim_right-map (trim_left test s)

is_space-lower : (c : ℕ) → is_space (lower c) ≡ is_space c
is_space-lower c = ground arith

pub trim_space-to_lower : (s : Text) → trim_space (to_lower s) ≡ to_lower (trim_space s)
unfolding trim_space to_lower
trim_space-to_lower s = trim-map is_space lower is_space-lower s
