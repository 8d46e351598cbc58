-- ===== src/KubeNames/Derived.antt =====
-- The suffix of a derived name, and the names as DNS-1123 labels.
use kube_op.Prelude.{
  ℕ, zero, suc, ◌+◌, ◌-◌, ◌*◌, ◌/◌, ◌^◌, ◌≤◌, ◌≡◌, refl, true, false, inl, List, [], ◌∷◌, ◌++◌,
  arith, length, take, drop, All, All-mono, All-take, length-append, length-take,
}
use kube_op.Text.{Text, text, is_empty, trim_space}
use kube_op.Text.Trim.{Ends}
use kube_op.Text.Collapse.{is_dash, is_alnum, IsLabelByte}
use kube_op.UsageWriter.Names.{or_text, hex, hex_digit}
use kube_op.UsageWriter.Labels.{IsLabel, IsLabel-append}
use kube_op.KubeNames.{
  slugify, base32_digit, base32_three, resource_suffix, max_base_len, cut_base, derive_kube_name,
}
use kube_op.KubeNames.Labels.{
  IsLabel-app, slugify-IsLabel, slugify-All, or_text-All-app, cut_base-IsLabel, length-cut_base,
}

-- The suffix: nine hexadecimal digits, a dash and five digits of base 32.
base32_digit-is_alnum : (n : ℕ) → is_alnum (base32_digit n) ≡ true
base32_digit-is_alnum n = ground arith

alnum-ne-dash : (c : ℕ) → is_alnum c ≡ true → is_dash c ≡ false
alnum-ne-dash c h = ground arith

hex_digit-is_alnum : (n : ℕ) → is_alnum (hex_digit n) ≡ true
hex_digit-is_alnum n = ground arith

abbrev IsAlnum : ℕ → Type 0
IsAlnum c = is_alnum c ≡ true

hex-IsAlnum : (bytes : List ℕ) → All IsAlnum (hex bytes)
hex-IsAlnum [] = tt
hex-IsAlnum (n ∷ bytes) = (hex_digit-is_alnum (n / 16), (hex_digit-is_alnum n, hex-IsAlnum bytes))

IsAlnum-Ends : (s : Text) → All IsAlnum s → Ends is_dash s
IsAlnum-Ends [] h = tt
IsAlnum-Ends (c ∷ []) h = alnum-ne-dash c h.0
IsAlnum-Ends (c ∷ d ∷ s) h = IsAlnum-Ends (d ∷ s) h.1

IsAlnum-IsLabel : (c : ℕ) (s : Text) → All IsAlnum (c ∷ s) → IsLabel (c ∷ s)
IsAlnum-IsLabel c s h = record {
  nonempty = refl;
  bytes = All-mono IsAlnum IsLabelByte (λ x k. inl k) (c ∷ s) h;
  begins = alnum-ne-dash c h.0;
  ends = IsAlnum-Ends (c ∷ s) h;
}

base32_three-IsAlnum : (bytes : List ℕ) → All IsAlnum (base32_three bytes)
base32_three-IsAlnum (a ∷ b ∷ c ∷ []) =
    let n = (a * 65536 + b * 256 + c) * 2 in
    (
      base32_digit-is_alnum (n / 2 ^ 20),
      (
        base32_digit-is_alnum (n / 2 ^ 15),
        (
          base32_digit-is_alnum (n / 2 ^ 10),
          (base32_digit-is_alnum (n / 2 ^ 5), (base32_digit-is_alnum n, tt)),
        ),
      ),
    )
base32_three-IsAlnum [] = tt
base32_three-IsAlnum (a ∷ []) = tt
base32_three-IsAlnum (a ∷ b ∷ []) = tt
base32_three-IsAlnum (a ∷ b ∷ c ∷ d ∷ bytes) = tt

-- A text of alphanumeric bytes that has a length is a label.
long-IsLabel : (s : Text) (n : ℕ) → length s ≡ suc n → All IsAlnum s → IsLabel s
long-IsLabel [] n e h = absurd (omega arith)
long-IsLabel (c ∷ s) n e h = IsAlnum-IsLabel c s h

length-hex : (bytes : List ℕ) → length (hex bytes) ≡ 2 * length bytes
length-hex [] = refl
length-hex (n ∷ bytes) = omega (arith, length-hex bytes)

length-drop : (n : ℕ) (s : List ℕ) → length (drop n s) ≡ length s - n
length-drop zero s = omega arith
length-drop (suc n) [] = omega arith
length-drop (suc n) (c ∷ s) = omega (arith, length-drop n s)

length-base32_three : (bytes : List ℕ) → length bytes ≡ 3 → length (base32_three bytes) ≡ 5
length-base32_three (a ∷ b ∷ c ∷ []) h = refl
length-base32_three [] h = absurd (omega arith)
length-base32_three (a ∷ []) h = absurd (omega arith)
length-base32_three (a ∷ b ∷ []) h = absurd (omega arith)
length-base32_three (a ∷ b ∷ c ∷ d ∷ bytes) h = absurd (omega arith)

module _ (bytes : List ℕ) (twenty : length bytes ≡ 20) where
  abbrev hex_part : Text
  hex_part = take 9 (hex (take 5 bytes))

  abbrev base32_part : Text
  base32_part = base32_three (take 3 (drop 5 bytes))

  length-hex_part : length hex_part ≡ 9
  length-hex_part =
      length-take 9 (hex (take 5 bytes))
        (omega (arith, length-hex (take 5 bytes), length-take 5 bytes (omega arith)))

  length-base32_part : length base32_part ≡ 5
  length-base32_part =
      length-base32_three (take 3 (drop 5 bytes))
        (length-take 3 (drop 5 bytes) (omega (arith, length-drop 5 bytes)))

  suffix-IsLabel : IsLabel (hex_part ++ (b'-' ∷ base32_part))
  suffix-IsLabel =
      IsLabel-append hex_part base32_part
        (long-IsLabel hex_part 8 length-hex_part
          (All-take IsAlnum 9 (hex (take 5 bytes)) (hex-IsAlnum (take 5 bytes))))
        (long-IsLabel base32_part 4 length-base32_part
          (base32_three-IsAlnum (take 3 (drop 5 bytes))))

  length-suffix : length (hex_part ++ (b'-' ∷ base32_part)) ≡ 15
  length-suffix =
      omega
        (arith, length-append hex_part (b'-' ∷ base32_part), length-hex_part, length-base32_part)

or_text_of_IsLabel : (s d : Text) → IsLabel s → or_text s d ≡ s
or_text_of_IsLabel s d h = rw h.nonempty refl

or_text-IsLabel :
    (s : Text)
    → (length s ≤ 62 → IsLabel s)
    → length (or_text s (text "app")) ≤ 62
    → IsLabel (or_text s (text "app"))
or_text-IsLabel [] h k = IsLabel-app
or_text-IsLabel (c ∷ s) h k = h k

suffixed :
    (base suffix : Text)
    → All IsLabelByte base
    → (length base ≤ 62 → IsLabel base)
    → IsLabel suffix
    → length suffix ≡ 15
    → let name = cut_base base (max_base_len suffix) ++ (b'-' ∷ suffix) in
      IsLabel name × (length name ≤ 63)
suffixed base suffix h k l e = rw e (
  IsLabel-append (cut_base base 47) suffix (cut_base-IsLabel base 47 h (λ le. k (omega arith))) l,
  omega (
    arith,
    length-append (cut_base base 47) (b'-' ∷ suffix),
    length-cut_base base 47 (omega arith),
  ),
)

-- If SHA-1 gives 20 bytes, then the name derived for an app whose id is not blank is a DNS-1123
-- label of at most 63 bytes, whatever its base name.
pub derive_kube_name-IsLabel :
    (sha1 : Text → List ℕ) (base_name app_id : Text)
    → ((s : Text) → length (sha1 s) ≡ 20)
    → is_empty (trim_space app_id) ≡ false
    → IsLabel (derive_kube_name sha1 base_name app_id)
      × (length (derive_kube_name sha1 base_name app_id) ≤ 63)
unfolding derive_kube_name resource_suffix
derive_kube_name-IsLabel sha1 base_name app_id h k =
    rw (k, (suffix-IsLabel (sha1 app_id) (h app_id)).nonempty)
      (suffixed (or_text (slugify base_name) (text "app"))
        (hex_part (sha1 app_id) (h app_id) ++ (b'-' ∷ base32_part (sha1 app_id) (h app_id)))
        (or_text-All-app (slugify base_name) (slugify-All base_name))
        (or_text-IsLabel (slugify base_name) (slugify-IsLabel base_name))
        (suffix-IsLabel (sha1 app_id) (h app_id)) (length-suffix (sha1 app_id) (h app_id)))
