-- ===== src/Policy.antt =====
-- kubeop-operator/internal/policy/registry.go: the allowlists of registries and repositories that
-- a ConfigMap of a namespace sets for its workloads.
pub mod Order
pub mod Patterns
pub mod Entries
pub mod Decisions
pub mod Outcomes
pub mod Tests
use kube_op.Prelude.{
  String, Bool, true, false, not, ◌&&◌, ◌||◌, List, [], ◌∷◌, ◌++◌, Option, none, some, Result, ok,
  err, any, if◌then◌else◌, ltb, ◌==◌, length,
}
use kube_op.Text.{
  Text, text, is_empty, same, trim_space, to_lower, has_prefix, trim_prefix, has_suffix, drop_last,
  split, contains,
}
use kube_op.StringMap.{StringMap, lookup}

pub record RegistryPolicy : Type 0 where
  pub allowed_registries : List Text
  pub allowed_repositories : List Text
  pub require_cosign : Bool

-- "invalid boolean value %q for requireCosign", with the value.
pub data PolicyError : Type 0 where
  invalid_boolean : Text → PolicyError

-- The inner loop of `parseList`, and its outer loop.
unfoldable pub trimmed_parts : List Text → List Text
trimmed_parts [] = []
trimmed_parts (part ∷ parts) =
    let rest = trimmed_parts parts in
    let trimmed = trim_space part in if is_empty trimmed then rest else trimmed ∷ rest

unfoldable pub parse_lines : List Text → List Text
unfolding trimmed_parts split
parse_lines [] = []
parse_lines (line ∷ lines) = trimmed_parts (split b',' line) ++ parse_lines lines

unfoldable pub parse_list : Text → List Text
unfolding parse_lines trim_space split
parse_list raw = parse_lines (split 10 raw)

-- The order of `sort.Strings`.
unfoldable pub text_leb : Text → Text → Bool
text_leb [] t = true
text_leb (c ∷ s) [] = false
text_leb (c ∷ s) (d ∷ t) = ltb c d || (c == d && text_leb s t)

unfoldable pub insert_text : Text → List Text → List Text
unfolding text_leb
insert_text s [] = s ∷ []
insert_text s (t ∷ ts) = if text_leb s t then s ∷ t ∷ ts else t ∷ insert_text s ts

unfoldable pub sort_texts : List Text → List Text
unfolding insert_text
sort_texts [] = []
sort_texts (s ∷ ss) = insert_text s (sort_texts ss)

-- The loop of `normaliseList`, before the sort.
unfoldable pub lowered_entries : List Text → List Text
unfolding to_lower trim_space
lowered_entries [] = []
lowered_entries (value ∷ values) =
    let rest = lowered_entries values in
    let trimmed = to_lower (trim_space value) in if is_empty trimmed then rest else trimmed ∷ rest

unfoldable pub normalise_list : List Text → List Text
unfolding lowered_entries sort_texts
normalise_list values = sort_texts (lowered_entries values)

unfoldable pub normalise : RegistryPolicy → RegistryPolicy
unfolding normalise_list
normalise p = record p {
  allowed_registries = normalise_list p.allowed_registries;
  allowed_repositories = normalise_list p.allowed_repositories;
}

abbrev pub is_nil {ℓ} : {A : Type ℓ} → List A → Bool
is_nil [] = true
is_nil (x ∷ xs) = false

-- `none` is the nil policy.
unfoldable pub is_empty_policy : Option RegistryPolicy → Bool
is_empty_policy none = true
is_empty_policy (some p) = is_nil p.allowed_registries && is_nil p.allowed_repositories

-- The switch on the value of the key `requireCosign`.
unfoldable pub parse_cosign : Text → Result PolicyError Bool
unfolding same trim_space to_lower
parse_cosign raw =
    let value = trim_space (to_lower raw) in
    if same value (text "true")
      || same value (text "1")
      || same value (text "yes")
      || same value (text "y")
    then ok true
    else if same value (text "false")
        || same value (text "0")
        || same value (text "no")
        || same value (text "n")
        || is_empty value
    then ok false
    else err (invalid_boolean raw)

-- A list key that is missing leaves the nil list.
unfoldable pub list_key : String → StringMap → List Text
unfolding lookup parse_list
list_key key data_map = elim (lookup key data_map) [ none ↦ [] | some raw ↦ parse_list raw ]

unfoldable pub cosign_key : StringMap → Result PolicyError Bool
unfolding lookup parse_cosign
cosign_key data_map = elim (lookup "requireCosign" data_map) [
  | none ↦ ok false
  | some raw ↦ parse_cosign raw
]

-- The end of `ParseConfigMap`: no data gives the nil policy.
unfoldable pub finish : RegistryPolicy → Option RegistryPolicy
unfolding is_empty_policy normalise
finish p = if is_empty_policy (some p) && not p.require_cosign then none else some (normalise p)

-- `none` is a nil ConfigMap.
unfoldable pub parse_config_map : Option StringMap → Result PolicyError (Option RegistryPolicy)
unfolding list_key cosign_key finish
parse_config_map none = ok none
parse_config_map (some data_map) = elim (cosign_key data_map) [
  | err e ↦ err e
  | ok cosign ↦ ok (
      finish (record {
        allowed_registries = list_key "allowedRegistries" data_map;
        allowed_repositories = list_key "allowedRepositories" data_map;
        require_cosign = cosign;
      }))
]

unfoldable pub matches_host_pattern : Text → Text → Bool
unfolding to_lower has_prefix trim_prefix same has_suffix
matches_host_pattern pattern_text host =
    let lowered = to_lower pattern_text in
    if is_empty lowered
    then false
    else if has_prefix lowered (text "*.")
    then same host (trim_prefix lowered (text "*."))
      || has_suffix host (b'.' ∷ trim_prefix lowered (text "*."))
    else same host lowered

-- `strings.TrimSuffix(pattern, "*")` drops the last byte where the pattern ends in a star.
unfoldable pub matches_repo_pattern : Text → Text → Bool
unfolding to_lower has_prefix has_suffix same drop_last
matches_repo_pattern pattern_text repo =
    let lowered = to_lower pattern_text in
    if is_empty lowered
    then false
    else if has_suffix lowered (text "*")
    then has_prefix repo (drop_last lowered)
    else same repo lowered

-- The common shape of `AllowsRegistry` and `AllowsRepository`.
abbrev pub allows : (Text → Text → Bool) → List Text → Text → Bool
allows matches [] name = true
allows matches (entry ∷ entries) name =
    let wanted = to_lower (trim_space name) in
    if is_empty wanted then false else any (λ e. matches e wanted) (entry ∷ entries)

unfoldable pub allows_registry : Option RegistryPolicy → Text → Bool
unfolding matches_host_pattern to_lower trim_space
allows_registry none host = true
allows_registry (some p) host = allows matches_host_pattern p.allowed_registries host

unfoldable pub allows_repository : Option RegistryPolicy → Text → Bool
unfolding matches_repo_pattern to_lower trim_space
allows_repository none repository = true
allows_repository (some p) repository =
    allows matches_repo_pattern p.allowed_repositories repository
