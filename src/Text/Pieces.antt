-- ===== src/Text/Pieces.antt =====
-- Splitting at a byte and joining again.
use kube_op.Prelude.{
  ℕ, ◌≡◌, ◌≢◌, refl, ap, ◌∙◌, inl, inr, List, [], ◌∷◌, ◌++◌, arith, All, Bool-cases, ◌==◌,
}
use kube_op.Text.{Text, split, join, onto_first}

join-onto_first : (sep c : ℕ) (ps : List Text) → join sep (onto_first c ps) ≡ c ∷ join sep ps
unfolding join
join-onto_first sep c [] = refl
join-onto_first sep c (p ∷ []) = refl
join-onto_first sep c (p ∷ q ∷ ps) = refl

split-ne-nil : (sep : ℕ) (s : Text) → split sep s ≢ []
unfolding split
split-ne-nil sep [] = cc
split-ne-nil sep (c ∷ s) = ground (arith, onto_first-ne-nil c (split sep s))
  where
    onto_first-ne-nil : (c : ℕ) (ps : List Text) → onto_first c ps ≢ []
    onto_first-ne-nil c [] = cc
    onto_first-ne-nil c (p ∷ ps) = cc

join-nil : (sep : ℕ) (ps : List Text) → ps ≢ [] → join sep ([] ∷ ps) ≡ sep ∷ join sep ps
unfolding join
join-nil sep [] h = absurd (h refl)
join-nil sep (p ∷ ps) h = refl

-- Joining what was split gives the text back.
pub join-split : (sep : ℕ) (s : Text) → join sep (split sep s) ≡ s
unfolding split
join-split sep [] = unfold join in refl
join-split sep (c ∷ s) = ground (
  arith,
  join-split sep s,
  join-nil sep (split sep s) (split-ne-nil sep s),
  join-onto_first sep c (split sep s),
)

-- No piece holds the separator.
abbrev pub Without : ℕ → Text → Type 0
Without sep s = All (λ c. c ≢ sep) s

onto_first-Without :
    (sep c : ℕ) (ps : List Text)
    → c ≢ sep
    → All (Without sep) ps
    → All (Without sep) (onto_first c ps)
onto_first-Without sep c [] h k = ((h, tt), tt)
onto_first-Without sep c (p ∷ ps) h k = ((h, k.0), k.1)

pub split-Without : (sep : ℕ) (s : Text) → All (Without sep) (split sep s)
unfolding split
split-Without sep [] = (tt, tt)
split-Without sep (c ∷ s) = elim (Bool-cases (c == sep)) [
  | inl e ↦ rw e (tt, split-Without sep s)
  | inr e ↦ rw e (onto_first-Without sep c (split sep s) (ground arith) (split-Without sep s))
]

-- Splitting what was joined from pieces without the separator.
split-piece : (sep : ℕ) (p : Text) → Without sep p → split sep p ≡ p ∷ []
unfolding split
split-piece sep [] w = refl
split-piece sep (c ∷ p) w = elim (Bool-cases (c == sep)) [
  | inl e ↦ absurd (w.0 (ground arith))
  | inr e ↦ rw (e, split-piece sep p w.1) refl
]

split-append : (sep : ℕ) (p s : Text) → Without sep p → split sep (p ++ (sep ∷ s)) ≡ p ∷ split sep s
unfolding split
split-append sep [] s w = ground arith
split-append sep (c ∷ p) s w = elim (Bool-cases (c == sep)) [
  | inl e ↦ absurd (w.0 (ground arith))
  | inr e ↦ rw (e, split-append sep p s w.1) refl
]

pub split-join :
    (sep : ℕ) (p : Text) (ps : List Text)
    → All (Without sep) (p ∷ ps)
    → split sep (join sep (p ∷ ps)) ≡ p ∷ ps
unfolding join
split-join sep p [] w = split-piece sep p w.0
split-join sep p (q ∷ ps) w =
    split-append sep p (join sep (q ∷ ps)) w.0 ∙ ap (λ rest. p ∷ rest) (split-join sep q ps w.1)
