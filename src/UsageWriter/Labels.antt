-- ===== src/UsageWriter/Labels.antt =====
-- DNS-1123 labels and `sanitizeName`.
use kube_op.Prelude.{
  ℕ, suc, ◌≤◌, ◌≡◌, refl, ap, false, inl, inr, [], ◌∷◌, ◌++◌, map, arith, length, All, All-append,
}
use kube_op.Text.{Text, text, is_empty, is_space, trim, trim_space, to_lower}
use kube_op.Text.Case.{length-to_lower}
use kube_op.Text.Trim.{Begins, Ends, trim-All, trim-Begins, trim-Ends, trim-length}
use kube_op.Text.Collapse.{collapse, is_dash, IsLabelByte, collapse-All, length-collapse}
use kube_op.UsageWriter.{BillingSubjectType, tenant, project, app, subject_text}
use kube_op.UsageWriter.Names.{dash_for, or_text, sanitize_name}

-- A DNS-1123 label but for its length: lower-case letters, digits and dashes, with no dash at
-- either end.
pub record IsLabel (s : Text) : Type 0 where
  pub nonempty : is_empty s ≡ false
  pub bytes : All IsLabelByte s
  pub begins : Begins is_dash s
  pub ends : Ends is_dash s

-- Labels are joined by a dash.
Begins-append : (s t : Text) → is_empty s ≡ false → Begins is_dash s → Begins is_dash (s ++ t)
Begins-append [] t h k = cc
Begins-append (c ∷ s) t h k = k

Ends-append : (s t : Text) → is_empty t ≡ false → Ends is_dash t → Ends is_dash (s ++ t)
Ends-append [] t h k = k
Ends-append (c ∷ []) [] h k = cc
Ends-append (c ∷ []) (d ∷ t) h k = k
Ends-append (c ∷ e ∷ s) t h k = Ends-append (e ∷ s) t h k

Ends-cons : (c : ℕ) (t : Text) → is_empty t ≡ false → Ends is_dash t → Ends is_dash (c ∷ t)
Ends-cons c [] h k = cc
Ends-cons c (d ∷ t) h k = k

append-nonempty : (s t : Text) → is_empty s ≡ false → is_empty (s ++ t) ≡ false
append-nonempty [] t h = cc
append-nonempty (c ∷ s) t h = refl

pub IsLabel-append : (s t : Text) → IsLabel s → IsLabel t → IsLabel (s ++ (b'-' ∷ t))
IsLabel-append s t h k = record {
  nonempty = append-nonempty s (b'-' ∷ t) h.nonempty;
  bytes = All-append IsLabelByte s (b'-' ∷ t) h.bytes (inr refl, k.bytes);
  begins = Begins-append s (b'-' ∷ t) h.nonempty h.begins;
  ends = Ends-append s (b'-' ∷ t) refl (Ends-cons b'-' t k.nonempty k.ends);
}

IsLabel-subject : IsLabel (text "subject")
IsLabel-subject = record {
  nonempty = refl;
  bytes = (inl refl, (inl refl, (inl refl, (inl refl, (inl refl, (inl refl, (inl refl, tt)))))));
  begins = refl;
  ends = refl;
}

IsLabel-or_text :
    (s : Text)
    → All IsLabelByte s
    → Begins is_dash s
    → Ends is_dash s
    → IsLabel (or_text s (text "subject"))
IsLabel-or_text [] h b e = IsLabel-subject
IsLabel-or_text (c ∷ s) h b e = record { nonempty = refl; bytes = h; begins = b; ends = e }

pub sanitize_name-IsLabel : (value : Text) → IsLabel (sanitize_name value)
unfolding sanitize_name
sanitize_name-IsLabel value =
    let run = collapse false (map dash_for (to_lower (trim_space value))) in
    IsLabel-or_text (trim is_dash run)
      (trim-All is_dash IsLabelByte run
        (collapse-All false (map dash_for (to_lower (trim_space value)))))
      (trim-Begins is_dash run) (trim-Ends is_dash run)

pub subject_text-IsLabel :
    (subject : BillingSubjectType) → IsLabel (to_lower (subject_text subject))
unfolding to_lower
subject_text-IsLabel tenant = record {
  nonempty = refl;
  bytes = (inl refl, (inl refl, (inl refl, (inl refl, (inl refl, (inl refl, tt))))));
  begins = refl;
  ends = refl;
}
subject_text-IsLabel project = record {
  nonempty = refl;
  bytes = (inl refl, (inl refl, (inl refl, (inl refl, (inl refl, (inl refl, (inl refl, tt)))))));
  begins = refl;
  ends = refl;
}
subject_text-IsLabel app = record {
  nonempty = refl;
  bytes = (inl refl, (inl refl, (inl refl, tt)));
  begins = refl;
  ends = refl;
}

-- Sanitising makes no text longer, unless nothing is left of it.
length-map : (f : ℕ → ℕ) (s : Text) → length (map f s) ≡ length s
length-map f [] = refl
length-map f (c ∷ s) = ap suc (length-map f s)

length-or_text : (s : Text) (n : ℕ) → length s ≤ n → 7 ≤ n → length (or_text s (text "subject")) ≤ n
length-or_text [] n h k = k
length-or_text (c ∷ s) n h k = h

pub length-sanitize_name : (s : Text) (n : ℕ) → length s ≤ n → 7 ≤ n → length (sanitize_name s) ≤ n
unfolding sanitize_name trim_space
length-sanitize_name s n h k =
    let lowered = to_lower (trim_space s) in
    length-or_text (trim is_dash (collapse false (map dash_for lowered))) n
      (omega (
        arith,
        trim-length is_dash (collapse false (map dash_for lowered)),
        length-collapse false (map dash_for lowered),
        length-map dash_for lowered,
        length-to_lower (trim_space s),
        trim-length is_space s,
      ))
      k
