-- ===== src/KubeNames/Labels.antt =====
-- Slugs, and bases that are cut to make room: when they are DNS-1123 labels.
use kube_op.Prelude.{
  ℕ, ◌≤◌, ◌≡◌, refl, true, false, inl, inr, [], ◌∷◌, arith, length, take, ltb, All, All-take,
  length-take, length-take-le, Bool-cases,
}
use kube_op.Text.{Text, text, trim, trim_space, to_lower}
use kube_op.Text.Trim.{Begins, Ends, trim-All, trim-Begins, trim-Ends, trim-length}
use kube_op.Text.Collapse.{collapse, is_dash, IsLabelByte, collapse-All}
use kube_op.UsageWriter.Names.{or_text}
use kube_op.UsageWriter.Labels.{IsLabel}
use kube_op.KubeNames.{slugify, capped, cut_base}

IsLabel-ns : IsLabel (text "ns")
IsLabel-ns = record {
  nonempty = refl;
  bytes = (inl refl, (inl refl, tt));
  begins = refl;
  ends = refl;
}

pub IsLabel-app : IsLabel (text "app")
IsLabel-app = record {
  nonempty = refl;
  bytes = (inl refl, (inl refl, (inl refl, tt)));
  begins = refl;
  ends = refl;
}

IsLabel-or_text :
    (s d : Text)
    → All IsLabelByte s
    → Begins is_dash s
    → Ends is_dash s
    → IsLabel d
    → IsLabel (or_text s d)
IsLabel-or_text [] d h b e k = k
IsLabel-or_text (c ∷ s) d h b e k = record { nonempty = refl; bytes = h; begins = b; ends = e }

or_text-All : (P : ℕ → Type 0) (s d : Text) → All P s → All P d → All P (or_text s d)
or_text-All P [] d h k = k
or_text-All P (c ∷ s) d h k = h

-- A text that is cut keeps its bytes; one that is not is a label, if it has no dash at its ends.
capped-All : (t : Text) → All IsLabelByte t → All IsLabelByte (capped t)
capped-All t h = elim (Bool-cases (ltb 63 (length t))) [
  | inl e ↦ rw e (
      or_text-All IsLabelByte (take 63 t) (text "ns") (All-take IsLabelByte 63 t h)
        IsLabel-ns.bytes)
  | inr e ↦ rw e (or_text-All IsLabelByte t (text "ns") h IsLabel-ns.bytes)
]

length-capped : (c : ℕ) (t : Text) → ltb 63 (length (c ∷ t)) ≡ true → length (capped (c ∷ t)) ≡ 63
length-capped c t e = rw e (length-take 63 (c ∷ t) (ground arith))

capped-IsLabel :
    (t : Text)
    → All IsLabelByte t
    → Begins is_dash t
    → Ends is_dash t
    → length (capped t) ≤ 62
    → IsLabel (capped t)
capped-IsLabel [] h b e k = IsLabel-ns
capped-IsLabel (c ∷ t) h b e k = elim (Bool-cases (ltb 63 (length (c ∷ t)))) [
  | inl long ↦ absurd (omega (arith, length-capped c t long))
  | inr short ↦ rw short (IsLabel-or_text (c ∷ t) (text "ns") h b e IsLabel-ns)
]

module _ (s : Text) where
  abbrev run : Text
  run = collapse false (to_lower (trim_space s))

  pub slugify-IsLabel : length (slugify s) ≤ 62 → IsLabel (slugify s)
  unfolding slugify
  slugify-IsLabel =
      capped-IsLabel (trim is_dash run)
        (trim-All is_dash IsLabelByte run (collapse-All false (to_lower (trim_space s))))
        (trim-Begins is_dash run) (trim-Ends is_dash run)

  pub slugify-All : All IsLabelByte (slugify s)
  unfolding slugify
  slugify-All =
      capped-All (trim is_dash run)
        (trim-All is_dash IsLabelByte run (collapse-All false (to_lower (trim_space s))))

-- The base of a name with a suffix.
pub or_text-All-app : (s : Text) → All IsLabelByte s → All IsLabelByte (or_text s (text "app"))
or_text-All-app s h = or_text-All IsLabelByte s (text "app") h IsLabel-app.bytes

pub cut_base-IsLabel :
    (base : Text) (n : ℕ)
    → All IsLabelByte base
    → (length base ≤ n → IsLabel base)
    → IsLabel (cut_base base n)
unfolding cut_base
cut_base-IsLabel base n h k = elim (Bool-cases (ltb n (length base))) [
  | inl e ↦ rw e (
      IsLabel-or_text (trim is_dash (take n base)) (text "app")
        (trim-All is_dash IsLabelByte (take n base) (All-take IsLabelByte n base h))
        (trim-Begins is_dash (take n base)) (trim-Ends is_dash (take n base)) IsLabel-app)
  | inr e ↦ rw e (k (ground arith))
]

length-or_text-app : (s : Text) (n : ℕ) → length s ≤ n → 3 ≤ n → length (or_text s (text "app")) ≤ n
length-or_text-app [] n h k = k
length-or_text-app (c ∷ s) n h k = h

pub length-cut_base : (base : Text) (n : ℕ) → 3 ≤ n → length (cut_base base n) ≤ n
unfolding cut_base
length-cut_base base n k = elim (Bool-cases (ltb n (length base))) [
  | inl e ↦ rw e (
      length-or_text-app (trim is_dash (take n base)) n
        (omega (arith, trim-length is_dash (take n base), length-take-le n base)) k)
  | inr e ↦ rw e (ground arith)
]
