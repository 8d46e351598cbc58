-- ===== src/Text/Equality.antt =====
-- Equality of texts as a test.
use kube_op.Prelude.{◌≡◌, ◌≢◌, refl, true, false, ◌↔◌, ◌∷◌, [], arith}
use kube_op.Text.{Text, same, is_empty}

pub same_iff : (s t : Text) → (same s t ≡ true) ↔ (s ≡ t)
unfolding same
same_iff [] [] = ground arith
same_iff [] (d ∷ t) = ground arith
same_iff (c ∷ s) [] = ground arith
same_iff (c ∷ s) (d ∷ t) = ground (arith, same_iff s t)

pub same_refl : (s : Text) → same s s ≡ true
same_refl s = (same_iff s s).1 refl

pub is_empty_iff : (s : Text) → (is_empty s ≡ true) ↔ (s ≡ [])
is_empty_iff [] = ground arith
is_empty_iff (c ∷ s) = ground arith

pub differ : (s t : Text) → same s t ≡ false → s ≢ t
differ s t h e = cc ((same_iff s t).1 e)
