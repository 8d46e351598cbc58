-- ===== src/Text/Trim.antt =====
-- What trimming leaves: no byte of the set at either end, and nothing new.
use kube_op.Prelude.{ℕ, suc, ◌≤◌, ◌≡◌, refl, ap, Bool, false, [], ◌∷◌, arith, length, All, ◌∙◌}
use kube_op.Text.{Text, trim_left, trim_right, trim_end, trim, trim_space, is_space}

module _ (test : ℕ → Bool) where
  -- The first byte, if any, fails the test.
  abbrev pub Begins : Text → Type 0
  Begins [] = Unit
  Begins (c ∷ s) = test c ≡ false

  -- The last byte, if any, fails the test.
  abbrev pub Ends : Text → Type 0
  Ends [] = Unit
  Ends (c ∷ []) = test c ≡ false
  Ends (c ∷ d ∷ s) = Ends (d ∷ s)

  trim_left-Begins : (s : Text) → Begins (trim_left test s)
  unfolding trim_left
  trim_left-Begins [] = tt
  trim_left-Begins (c ∷ s) = ground (arith, trim_left-Begins s)

  trim_left_of_Begins : (s : Text) → Begins s → trim_left test s ≡ s
  unfolding trim_left
  trim_left_of_Begins [] h = refl
  trim_left_of_Begins (c ∷ s) h = ground arith

  trim_end-Ends : (c : ℕ) (s : Text) → Ends s → Ends (trim_end test c s)
  trim_end-Ends c [] h = ground arith
  trim_end-Ends c (d ∷ s) h = h

  trim_right-Ends : (s : Text) → Ends (trim_right test s)
  unfolding trim_right
  trim_right-Ends [] = tt
  trim_right-Ends (c ∷ s) = trim_end-Ends c (trim_right test s) (trim_right-Ends s)

  trim_right_of_Ends : (s : Text) → Ends s → trim_right test s ≡ s
  unfolding trim_right
  trim_right_of_Ends [] h = refl
  trim_right_of_Ends (c ∷ []) h = ground arith
  trim_right_of_Ends (c ∷ d ∷ s) h = ap (trim_end test c) (trim_right_of_Ends (d ∷ s) h)

  trim_end-Begins : (c : ℕ) (s : Text) → test c ≡ false → Begins (trim_end test c s)
  trim_end-Begins c [] h = ground arith
  trim_end-Begins c (d ∷ s) h = h

  trim_right-Begins : (s : Text) → Begins s → Begins (trim_right test s)
  unfolding trim_right
  trim_right-Begins [] h = tt
  trim_right-Begins (c ∷ s) h = trim_end-Begins c (trim_right test s) h

  pub trim-Begins : (s : Text) → Begins (trim test s)
  unfolding trim
  trim-Begins s = trim_right-Begins (trim_left test s) (trim_left-Begins s)

  pub trim-Ends : (s : Text) → Ends (trim test s)
  unfolding trim
  trim-Ends s = trim_right-Ends (trim_left test s)

  -- A text with neither end in the set is left alone.
  pub trim_of_Ends : (s : Text) → Begins s → Ends s → trim test s ≡ s
  unfolding trim
  trim_of_Ends s h k = ap (trim_right test) (trim_left_of_Begins s h) ∙ trim_right_of_Ends s k

  pub trim_idem : (s : Text) → trim test (trim test s) ≡ trim test s
  trim_idem s = trim_of_Ends (trim test s) (trim-Begins s) (trim-Ends s)

  trim_left-length : (s : Text) → length (trim_left test s) ≤ length s
  unfolding trim_left
  trim_left-length [] = omega arith
  trim_left-length (c ∷ s) = ground (arith, trim_left-length s)

  trim_end-length : (c : ℕ) (s : Text) → length (trim_end test c s) ≤ suc (length s)
  trim_end-length c [] = ground arith
  trim_end-length c (d ∷ s) = omega arith

  trim_right-length : (s : Text) → length (trim_right test s) ≤ length s
  unfolding trim_right
  trim_right-length [] = omega arith
  trim_right-length (c ∷ s) =
      omega (arith, trim_right-length s, trim_end-length c (trim_right test s))

  pub trim-length : (s : Text) → length (trim test s) ≤ length s
  unfolding trim
  trim-length s = omega (arith, trim_right-length (trim_left test s), trim_left-length s)

  trim_left-All : (P : ℕ → Type 0) (s : Text) → All P s → All P (trim_left test s)
  unfolding trim_left
  trim_left-All P [] h = tt
  trim_left-All P (c ∷ s) h = ground (arith, trim_left-All P s)

  trim_end-All : (P : ℕ → Type 0) (c : ℕ) (s : Text) → P c → All P s → All P (trim_end test c s)
  trim_end-All P c [] h k = ground arith
  trim_end-All P c (d ∷ s) h k = (h, k)

  trim_right-All : (P : ℕ → Type 0) (s : Text) → All P s → All P (trim_right test s)
  unfolding trim_right
  trim_right-All P [] h = tt
  trim_right-All P (c ∷ s) h = trim_end-All P c (trim_right test s) h.0 (trim_right-All P s h.1)

  pub trim-All : (P : ℕ → Type 0) (s : Text) → All P s → All P (trim test s)
  unfolding trim
  trim-All P s h = trim_right-All P (trim_left test s) (trim_left-All P s h)

pub trim_space_idem : (s : Text) → trim_space (trim_space s) ≡ trim_space s
unfolding trim_space
trim_space_idem s = trim_idem is_space s
