-- ===== src/Text/Collapse.antt =====
-- Runs of bytes outside a set become one dash: the loop of `sanitizeName`, and what
-- `regexp.ReplaceAllString` does for `[^a-z0-9]+`.
use kube_op.Prelude.{
  ℕ, ◌≤◌, ◌≡◌, refl, Bool, true, false, not, ◌||◌, ◌&&◌, ◌⊎◌, inl, inr, [], ◌∷◌, arith, length, All,
  Bool-cases, if◌then◌else◌, leb, ◌==◌,
}
use kube_op.Text.{Text}

abbrev pub is_alnum : ℕ → Bool
is_alnum c = (leb b'a' c && leb c b'z') || (leb b'0' c && leb c b'9')

abbrev pub is_dash : ℕ → Bool
is_dash c = c == b'-'

abbrev pub dash_unless : Bool → Text → Text
dash_unless last s = if last then s else b'-' ∷ s

-- `last` tells that the byte before became a dash.
unfoldable pub collapse : Bool → Text → Text
collapse last [] = []
collapse last (c ∷ s) =
    let rest = collapse (not (is_alnum c)) s in
    if is_alnum c then c ∷ rest else dash_unless last rest

-- A byte of a DNS-1123 label.
abbrev pub IsLabelByte : ℕ → Type 0
IsLabelByte c = (is_alnum c ≡ true) ⊎ (c ≡ b'-')

pub collapse-All : (last : Bool) (s : Text) → All IsLabelByte (collapse last s)
unfolding collapse
collapse-All last [] = tt
collapse-All last (c ∷ s) = elim (Bool-cases (is_alnum c)) [
  | inl e ↦ rw e (inl e, collapse-All false s)
  | inr e ↦ rw e (dash_unless-All last (collapse true s) (collapse-All true s))
]
  where
    dash_unless-All :
        (last : Bool) (s : Text) → All IsLabelByte s → All IsLabelByte (dash_unless last s)
    dash_unless-All true s h = h
    dash_unless-All false s h = (inr refl, h)

pub length-collapse : (last : Bool) (s : Text) → length (collapse last s) ≤ length s
unfolding collapse
length-collapse last [] = omega arith
length-collapse last (c ∷ s) = ground (arith, length-collapse (not (is_alnum c)) s)
