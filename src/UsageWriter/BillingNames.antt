-- ===== src/UsageWriter/BillingNames.antt =====
-- The names of BillingUsage objects (`buildBillingUsageName`) against DNS-1123 labels, and names
-- of different subjects.
use kube_op.Prelude.{
  ℕ, ◌-◌, ◌*◌, ◌/◌, ◌≤◌, ◌≡◌, refl, ap, sym, ◌∙◌, true, false, ◌⊎◌, inl, inr, List, [], ◌∷◌, ◌++◌,
  map, arith, length, take, leb, ◌==◌, if◌then◌else◌, All, length-append, length-take,
  length-take-le, Bool-cases, leb→le,
}
use kube_op.Text.{Text, text, is_empty, is_space, lower, trim, trim_space, to_lower, replace_byte}
use kube_op.Text.Case.{trim-map}
use kube_op.Text.Trim.{Begins, Ends}
use kube_op.Text.Collapse.{collapse, is_dash, is_alnum, IsLabelByte}
use kube_op.UsageWriter.{BillingSubjectType, subject_text, Formats}
use kube_op.UsageWriter.Names.{
  namespace_key, dash_for, or_text, sanitize_name, sanitize_window, hex_digit, hex, full_name,
  label_max_length, at_least_one, hashed_name, build_billing_usage_name,
}
use kube_op.UsageWriter.Labels.{
  IsLabel, IsLabel-append, sanitize_name-IsLabel, subject_text-IsLabel, length-sanitize_name,
}

-- The suffix of a hashed name.
hex_digit-is_alnum : (n : ℕ) → is_alnum (hex_digit n) ≡ true
hex_digit-is_alnum n = ground arith

hex-All : (bytes : List ℕ) → All IsLabelByte (hex bytes)
hex-All [] = tt
hex-All (n ∷ bytes) =
    (inl (hex_digit-is_alnum (n / 16)), (inl (hex_digit-is_alnum n), hex-All bytes))

hex_digit-ne-dash : (n : ℕ) → is_dash (hex_digit n) ≡ false
hex_digit-ne-dash n = ground arith

hex-Ends : (n : ℕ) (bytes : List ℕ) → Ends is_dash (hex (n ∷ bytes))
hex-Ends n [] = hex_digit-ne-dash n
hex-Ends n (m ∷ bytes) = hex-Ends m bytes

hex-IsLabel : (n : ℕ) (bytes : List ℕ) → IsLabel (hex (n ∷ bytes))
hex-IsLabel n bytes = record {
  nonempty = refl;
  bytes = hex-All (n ∷ bytes);
  begins = hex_digit-ne-dash (n / 16);
  ends = hex-Ends n bytes;
}

length-hex : (bytes : List ℕ) → length (hex bytes) ≡ 2 * length bytes
length-hex [] = refl
length-hex (n ∷ bytes) = omega (arith, length-hex bytes)

abbrev pub IsWindowByte : ℕ → Type 0
IsWindowByte c = ((b'0' ≤ c) × (c ≤ b'9')) ⊎ ((c ≡ b'-') ⊎ (c ≡ b'T'))

-- `window.Format("2006-01-02T15")` gives digits and two kinds of separators, a digit at each end.
pub record IsWindowText (s : Text) : Type 0 where
  pub nonempty : is_empty s ≡ false
  pub bytes : All IsWindowByte s
  pub begins : Begins is_dash s
  pub ends : Ends is_dash s

window_byte : (c : ℕ) → IsWindowByte c → IsLabelByte (lower (if c == b':' then b'-' else c))
window_byte c (inl h) = inl (ground arith)
window_byte c (inr (inl h)) = inr (ground arith)
window_byte c (inr (inr h)) = inl (ground arith)

window_byte-Ends :
    (c : ℕ)
    → IsWindowByte c
    → is_dash c ≡ false
    → is_dash (lower (if c == b':' then b'-' else c)) ≡ false
window_byte-Ends c b h = ground arith

window-Ends :
    (s : Text)
    → All IsWindowByte s
    → Ends is_dash s
    → Ends is_dash (to_lower (replace_byte b':' b'-' s))
unfolding to_lower replace_byte
window-Ends [] b h = tt
window-Ends (c ∷ []) b h = window_byte-Ends c b.0 h
window-Ends (c ∷ d ∷ s) b h = window-Ends (d ∷ s) b.1 h

window-All : (s : Text) → All IsWindowByte s → All IsLabelByte (to_lower (replace_byte b':' b'-' s))
unfolding to_lower replace_byte
window-All [] h = tt
window-All (c ∷ s) h = (window_byte c h.0, window-All s h.1)

window-IsLabel : (s : Text) → IsWindowText s → IsLabel (to_lower (replace_byte b':' b'-' s))
unfolding to_lower replace_byte
window-IsLabel [] h = absurd (not_blank h.nonempty)
  where
    not_blank : ¬ (is_empty [] ≡ false)
    not_blank = cc
window-IsLabel (c ∷ s) h = record {
  nonempty = refl;
  bytes = window-All (c ∷ s) h.bytes;
  begins = window_byte-Ends c h.bytes.0 h.begins;
  ends = window-Ends (c ∷ s) h.bytes h.ends;
}

module _ (formats : Formats) (subject : BillingSubjectType) (ref : Text) (window : ℕ) where
  full_name-IsLabel :
      IsWindowText (formats.format_window window) → IsLabel (full_name formats subject ref window)
  unfolding full_name sanitize_window
  full_name-IsLabel h =
      IsLabel-append (to_lower (subject_text subject))
        (sanitize_name ref ++ (b'-' ∷ sanitize_window formats window))
        (subject_text-IsLabel subject)
        (IsLabel-append (sanitize_name ref) (sanitize_window formats window)
          (sanitize_name-IsLabel ref) (window-IsLabel (formats.format_window window) h))

four-IsLabel : (bytes : List ℕ) → length bytes ≡ 4 → IsLabel (hex bytes)
four-IsLabel [] h = absurd (ground arith)
four-IsLabel (n ∷ bytes) h = hex-IsLabel n bytes

or_text-IsLabel : (s d : Text) → IsLabel s → or_text s d ≡ s
or_text-IsLabel [] d h = absurd (not_empty h.nonempty)
  where
    not_empty : ¬ (is_empty [] ≡ false)
    not_empty = cc
or_text-IsLabel (c ∷ s) d h = refl

joined_length : (s t : Text) → length s ≤ 54 → length t ≡ 8 → length (s ++ (b'-' ∷ t)) ≤ 63
joined_length s t h k = omega (arith, length-append s (b'-' ∷ t))

kept_length :
    (base : Text) (n : ℕ)
    → n ≡ 8
    → length (take (at_least_one (label_max_length - n - 1)) base) ≤ 54
kept_length base n e = rw e (length-take-le 54 base)

hashed_name-IsLabel :
    (formats : Formats) (base : Text)
    → length (formats.sha1 base) ≡ 20
    → IsLabel (hashed_name formats base) × (length (hashed_name formats base) ≤ 63)
unfolding hashed_name
hashed_name-IsLabel formats base h =
    let bytes = take 4 (formats.sha1 base) in
    let four = length-take 4 (formats.sha1 base) (omega arith) in
    let n = at_least_one (label_max_length - length (hex bytes) - 1) in
    let prefix = sanitize_name (take n base) in
    let label_prefix = sanitize_name-IsLabel (take n base) in
    rw (or_text-IsLabel prefix (text "usage") label_prefix) (
      IsLabel-append prefix (hex bytes) label_prefix (four-IsLabel bytes four),
      joined_length prefix (hex bytes)
          (length-sanitize_name (take n base) 54
            (kept_length base (length (hex bytes)) (omega (arith, length-hex bytes))) (omega arith))
          (omega (arith, length-hex bytes)),
    )

-- The name of a BillingUsage object is a DNS-1123 label of at most 63 bytes, whatever the subject,
-- given that SHA-1 gives 20 bytes and the window is printed as a date and an hour.
pub build_billing_usage_name-IsLabel :
    (formats : Formats) (subject : BillingSubjectType) (ref : Text) (window : ℕ)
    → ((s : Text) → length (formats.sha1 s) ≡ 20)
    → IsWindowText (formats.format_window window)
    → IsLabel (build_billing_usage_name formats subject ref window)
      × (length (build_billing_usage_name formats subject ref window) ≤ 63)
unfolding build_billing_usage_name
build_billing_usage_name-IsLabel formats subject ref window h w =
    let base = full_name formats subject ref window in
    elim (Bool-cases (leb (length base) 63)) [
      | inl e ↦ rw e (full_name-IsLabel formats subject ref window w, leb→le (length base) 63 e)
      | inr e ↦ rw e (hashed_name-IsLabel formats base (h base))
    ]

abbrev fold_byte : ℕ → ℕ
fold_byte c = dash_for (lower c)

fold_byte-is_space : (c : ℕ) → is_space (fold_byte c) ≡ is_space c
fold_byte-is_space c = ground arith

map-fold_byte : (s : Text) → map dash_for (to_lower s) ≡ map fold_byte s
unfolding to_lower
map-fold_byte [] = refl
map-fold_byte (c ∷ s) = ap (λ t. fold_byte c ∷ t) (map-fold_byte s)

-- Sanitising sees a text only with its separators folded.
sanitize_name_folded :
    (s t : Text) → map fold_byte s ≡ map fold_byte t → sanitize_name s ≡ sanitize_name t
unfolding sanitize_name trim_space
sanitize_name_folded s t e =
    ap (λ run. or_text (trim is_dash (collapse false run)) (text "subject"))
      (map-fold_byte (trim_space s)
        ∙ sym (trim-map is_space fold_byte fold_byte-is_space s)
        ∙ ap (trim is_space) e
        ∙ trim-map is_space fold_byte fold_byte-is_space t
        ∙ sym (map-fold_byte (trim_space t)))

fold_separator : (b c : Text) → map fold_byte (b ++ (b'-' ∷ c)) ≡ map fold_byte (b ++ (b'/' ∷ c))
fold_separator [] c = refl
fold_separator (d ∷ b) c = ap (λ t. fold_byte d ∷ t) (fold_separator b c)

fold_separators :
    (a b c : Text)
    → map fold_byte (a ++ (b'/' ∷ (b ++ (b'-' ∷ c))))
      ≡ map fold_byte ((a ++ (b'-' ∷ b)) ++ (b'/' ∷ c))
fold_separators [] b c = ap (λ t. b'-' ∷ t) (fold_separator b c)
fold_separators (d ∷ a) b c = ap (λ t. fold_byte d ∷ t) (fold_separators a b c)

-- Subjects a/b-c and a-b/c of one type, in namespaces a and a-b that are not blank, share the name
-- of their BillingUsage object in every window.
pub build_billing_usage_name-namespace_key :
    (formats : Formats) (subject : BillingSubjectType) (window : ℕ) (a b c : Text)
    → is_empty (trim_space a) ≡ false
    → is_empty (trim_space (a ++ (b'-' ∷ b))) ≡ false
    → build_billing_usage_name formats subject (namespace_key a (b ++ (b'-' ∷ c))) window
      ≡ build_billing_usage_name formats subject (namespace_key (a ++ (b'-' ∷ b)) c) window
unfolding build_billing_usage_name full_name namespace_key
build_billing_usage_name-namespace_key formats subject window a b c h k =
    rw
      (
        h,
        k,
        sanitize_name_folded (a ++ (b'/' ∷ (b ++ (b'-' ∷ c)))) ((a ++ (b'-' ∷ b)) ++ (b'/' ∷ c))
            (fold_separators a b c),
      )
      refl
