-- ===== src/UsageWriter/Names.antt =====
-- The names of BillingUsage objects: `namespaceKey`, `sanitizeName`, `sanitizeWindow` and
-- `buildBillingUsageName`.
use kube_op.Prelude.{
  ℕ, ◌+◌, ◌-◌, ◌/◌, ◌%◌, false, List, [], ◌∷◌, ◌++◌, map, length, take, leb, ltb, ◌==◌,
  if◌then◌else◌, ◌||◌,
}
use kube_op.Text.{Text, text, is_empty, trim, trim_space, to_lower, replace_byte}
use kube_op.Text.Collapse.{collapse, is_dash}
use kube_op.UsageWriter.{BillingSubjectType, subject_text, Formats}

-- `namespaceKey`
unfoldable pub namespace_key : Text → Text → Text
unfolding trim_space
namespace_key ns name = if is_empty (trim_space ns) then name else ns ++ (b'/' ∷ name)

-- `strings.NewReplacer("/", "-", ":", "-", "_", "-", ".", "-")`
abbrev pub dash_for : ℕ → ℕ
dash_for c = if c == b'/' || c == b':' || c == b'_' || c == b'.' then b'-' else c

abbrev pub or_text : Text → Text → Text
or_text s default = if is_empty s then default else s

-- `sanitizeName`
unfoldable pub sanitize_name : Text → Text
unfolding collapse trim trim_space to_lower
sanitize_name value =
    or_text (trim is_dash (collapse false (map dash_for (to_lower (trim_space value)))))
      (text "subject")

-- `sanitizeWindow`
unfoldable pub sanitize_window : Formats → ℕ → Text
unfolding replace_byte to_lower
sanitize_window formats window = to_lower (replace_byte b':' b'-' (formats.format_window window))

-- `hex.EncodeToString`
abbrev pub hex_digit : ℕ → ℕ
hex_digit n = let d = n % 16 in if ltb d 10 then b'0' + d else b'a' + (d - 10)

abbrev pub hex : List ℕ → Text
hex [] = []
hex (n ∷ bytes) = hex_digit (n / 16) ∷ hex_digit n ∷ hex bytes

-- The name in full, `base` in the source.
unfoldable pub full_name : Formats → BillingSubjectType → Text → ℕ → Text
unfolding sanitize_name sanitize_window to_lower
full_name formats subject ref window =
    to_lower (subject_text subject)
    ++ (b'-' ∷ (sanitize_name ref ++ (b'-' ∷ sanitize_window formats window)))

-- `validation.DNS1123LabelMaxLength`
abbrev pub label_max_length : ℕ
label_max_length = 63

abbrev pub at_least_one : ℕ → ℕ
at_least_one n = if ltb n 1 then 1 else n

-- What replaces a name that is too long: its beginning and four bytes of its hash.
unfoldable pub hashed_name : Formats → Text → Text
unfolding sanitize_name
hashed_name formats base =
    let suffix = hex (take 4 (formats.sha1 base)) in
    let trimmed_length = at_least_one (label_max_length - length suffix - 1) in
    or_text (sanitize_name (take trimmed_length base)) (text "usage") ++ (b'-' ∷ suffix)

-- `buildBillingUsageName`
unfoldable pub build_billing_usage_name : Formats → BillingSubjectType → Text → ℕ → Text
unfolding full_name hashed_name
build_billing_usage_name formats subject ref window =
    let base = full_name formats subject ref window in
    if leb (length base) label_max_length then base else hashed_name formats base
