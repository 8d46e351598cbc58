-- ===== src/KubeNames.antt =====
-- Names of Kubernetes objects in the control plane: Slugify (internal/util/slugify.go) and
-- deriveKubeName (internal/service/app_names.go).
pub mod Labels
pub mod Derived
pub mod Tests
use kube_op.Prelude.{
  ℕ, ◌+◌, ◌-◌, ◌*◌, ◌/◌, ◌%◌, ◌^◌, Bool, false, List, [], ◌∷◌, ◌++◌, length, take, drop, ltb,
  Option, none, some, if◌then◌else◌,
}
use kube_op.Text.{Text, text, is_empty, trim, trim_space, to_lower}
use kube_op.Text.Collapse.{collapse, is_dash}
use kube_op.UsageWriter.Names.{or_text, hex}

-- The length limit of `Slugify` and its default.
abbrev pub capped : Text → Text
capped slug = or_text (if ltb 63 (length slug) then take 63 slug else slug) (text "ns")

-- `Slugify`
unfoldable pub slugify : Text → Text
unfolding trim trim_space to_lower collapse
slugify s = capped (trim is_dash (collapse false (to_lower (trim_space s))))

-- A digit of the alphabet "abcdefghijklmnopqrstuvwxyz234567".
abbrev pub base32_digit : ℕ → ℕ
base32_digit n = let d = n % 32 in if ltb d 26 then b'a' + d else b'2' + (d - 26)

-- `base32LowerNoPad.EncodeToString` of three bytes: 24 bits and a zero bit are five digits. The
-- source encodes no other number of bytes.
abbrev pub base32_three : List ℕ → Text
base32_three (a ∷ b ∷ c ∷ []) =
    let n = (a * 65536 + b * 256 + c) * 2 in
    base32_digit (n / 2 ^ 20)
    ∷ base32_digit (n / 2 ^ 15)
    ∷ base32_digit (n / 2 ^ 10)
    ∷ base32_digit (n / 2 ^ 5)
    ∷ base32_digit n
    ∷ []
base32_three bytes = []

-- `resourceSuffix`; `sha1` is that of the standard library. Both parts are never empty.
unfoldable pub resource_suffix : (Text → List ℕ) → Text → Text
unfolding trim_space
resource_suffix sha1 app_id =
    if is_empty (trim_space app_id)
    then []
    else take 9 (hex (take 5 (sha1 app_id)))
      ++ (b'-' ∷ base32_three (take 3 (drop 5 (sha1 app_id))))

-- `maxKubeNameLen`
abbrev pub max_kube_name_len : ℕ
max_kube_name_len = 63

abbrev pub max_base_len : Text → ℕ
max_base_len suffix = let n = max_kube_name_len - length suffix - 1 in if ltb n 1 then 1 else n

-- The base as it is cut to make room for the suffix.
unfoldable pub cut_base : Text → ℕ → Text
unfolding trim
cut_base base n =
    if ltb n (length base) then or_text (trim is_dash (take n base)) (text "app") else base

-- `deriveKubeName`
unfoldable pub derive_kube_name : (Text → List ℕ) → Text → Text → Text
unfolding slugify resource_suffix cut_base
derive_kube_name sha1 base_name app_id =
    let base = or_text (slugify base_name) (text "app") in
    let suffix = resource_suffix sha1 app_id in
    if is_empty suffix
    then if ltb max_kube_name_len (length base) then take max_kube_name_len base else base
    else cut_base base (max_base_len suffix) ++ (b'-' ∷ suffix)

-- `appKubeName`; the first text is `app.Source["kubeName"]` where it is a string.
unfoldable pub app_kube_name : Option Text → Text → Text
unfolding trim_space slugify
app_kube_name none name = slugify name
app_kube_name (some kube_name) name =
    let slug = trim_space kube_name in if is_empty slug then slugify name else slug
