-- ===== src/Policy/Outcomes.antt =====
-- What becomes of a ConfigMap, read from its raw data.
use kube_op.Prelude.{
  some-injective, String, ◌≡◌, refl, ◌↔◌, Bool, true, false, inl, inr, List, [], ◌∷◌, Option, none,
  some, All, Any, append-eq-nil_iff, Result, ok, err, arith, sym, ap, subst, ◌∙◌,
}
use kube_op.Text.{Text, text, same, trim_space, to_lower, split}
use kube_op.Text.Equality.{same_iff, is_empty_iff}
use kube_op.StringMap.{StringMap, lookup}
use kube_op.Policy.{
  RegistryPolicy, PolicyError, invalid_boolean, trimmed_parts, parse_lines, parse_list,
  parse_cosign, list_key, cosign_key, finish, normalise, is_empty_policy, parse_config_map,
}
use kube_op.Policy.Decisions.{raw_policy, parse_config_map-eq-ok, finish_cases, finish-eq-some}

-- The words for true and for false; a blank value is false.
abbrev pub yes_words : List Text
yes_words = text "true" ∷ text "1" ∷ text "yes" ∷ text "y" ∷ []

abbrev pub no_words : List Text
no_words = text "false" ∷ text "0" ∷ text "no" ∷ text "n" ∷ [] ∷ []

-- In lower case and without white space around it, the value is one of the words.
abbrev pub IsWord : List Text → Text → Type 0
IsWord words raw = Any (λ w. trim_space (to_lower raw) ≡ w) words

-- Nothing stands between the commas and the line ends.
abbrev pub IsBlankList : Text → Type 0
IsBlankList raw = All (λ line. All (λ part. trim_space part ≡ []) (split b',' line)) (split 10 raw)

abbrev pub OfKey : String → (Text → Type 0) → StringMap → Type 0
OfKey key P m = (raw : Text) × (lookup key m ≡ some raw) × P raw

abbrev pub UnlessMissing : String → (Text → Type 0) → StringMap → Type 0
UnlessMissing key P m = (raw : Text) → lookup key m ≡ some raw → P raw

yes_iff : (raw : Text) → (parse_cosign raw ≡ ok true) ↔ IsWord yes_words raw
unfolding parse_cosign
yes_iff raw =
    let v = trim_space (to_lower raw) in
    ground (
      arith,
      same_iff v (text "true"),
      same_iff v (text "1"),
      same_iff v (text "yes"),
      same_iff v (text "y"),
    )

no_iff : (raw : Text) → (parse_cosign raw ≡ ok false) ↔ IsWord no_words raw
unfolding parse_cosign same
no_iff raw =
    let v = trim_space (to_lower raw) in
    (
      λ h. ground (
        arith,
        h,
        same_iff v (text "false"),
        same_iff v (text "0"),
        same_iff v (text "no"),
        same_iff v (text "n"),
        is_empty_iff v,
      ),
      λ h. elim h [
        | inl e ↦ rw e refl
        | inr (inl e) ↦ rw e refl
        | inr (inr (inl e)) ↦ rw e refl
        | inr (inr (inr (inl e))) ↦ rw e refl
        | inr (inr (inr (inr (inl e)))) ↦ rw e refl
        | inr (inr (inr (inr (inr e)))) ↦ absurd e
      ],
    )

ok-injective : (a b : Bool) → (let r : Result PolicyError Bool = ok a in r ≡ ok b) → a ≡ b
ok-injective a b h = cc

refused_value : (raw : Text) (e : PolicyError) → parse_cosign raw ≡ err e → e ≡ invalid_boolean raw
unfolding parse_cosign
refused_value raw e h = ground arith

refused_iff :
    (raw : Text) (e : PolicyError)
    → (parse_cosign raw ≡ err e)
      ↔ ((¬ IsWord yes_words raw) × (¬ IsWord no_words raw) × (e ≡ invalid_boolean raw))
refused_iff raw e = (
  λ h. (
    λ y. let k = (yes_iff raw).1 y in cc,
    λ n. let k = (no_iff raw).1 n in cc,
    refused_value raw e h,
  ),
  λ (not_yes, not_no, named). from (parse_cosign raw) refl not_yes not_no named,
)
  where
    from :
        (r : Result PolicyError Bool)
        → parse_cosign raw ≡ r
        → ¬ IsWord yes_words raw
        → ¬ IsWord no_words raw
        → e ≡ invalid_boolean raw
        → parse_cosign raw ≡ err e
    from (ok true) k not_yes not_no named = absurd (not_yes ((yes_iff raw).0 k))
    from (ok false) k not_yes not_no named = absurd (not_no ((no_iff raw).0 k))
    from (err f) k not_yes not_no named = let given = refused_value raw f k in cc

trimmed_parts-eq-nil_iff :
    (parts : List Text) → (trimmed_parts parts ≡ []) ↔ All (λ part. trim_space part ≡ []) parts
unfolding trimmed_parts
trimmed_parts-eq-nil_iff [] = (λ h. tt, λ h. refl)
trimmed_parts-eq-nil_iff (part ∷ parts) =
    ground (arith, is_empty_iff (trim_space part), trimmed_parts-eq-nil_iff parts)

parse_lines-eq-nil_iff :
    (lines : List Text)
    → (parse_lines lines ≡ [])
      ↔ All (λ line. All (λ part. trim_space part ≡ []) (split b',' line)) lines
unfolding parse_lines
parse_lines-eq-nil_iff [] = (λ h. tt, λ h. refl)
parse_lines-eq-nil_iff (line ∷ lines) =
    let both = append-eq-nil_iff (trimmed_parts (split b',' line)) (parse_lines lines) in
    let now = trimmed_parts-eq-nil_iff (split b',' line) in
    let later = parse_lines-eq-nil_iff lines in
    (λ h. (now.0 (both.0 h).0, later.0 (both.0 h).1), λ h. both.1 (now.1 h.0, later.1 h.1))

list_key-eq-nil_iff :
    (key : String) (m : StringMap) → (list_key key m ≡ []) ↔ UnlessMissing key IsBlankList m
unfolding list_key parse_list
list_key-eq-nil_iff key m = from (lookup key m)
  where
    from :
        (o : Option Text)
        → (elim o [ none ↦ [] | some raw ↦ parse_lines (split 10 raw) ] ≡ [])
          ↔ ((raw : Text) → o ≡ some raw → IsBlankList raw)
    from none = (λ h raw e. cc, λ h. refl)
    from (some raw) = (
      λ h given e.
          subst (λ t. IsBlankList t) (some-injective raw given e)
            ((parse_lines-eq-nil_iff (split 10 raw)).0 h),
      λ h. (parse_lines-eq-nil_iff (split 10 raw)).1 (h raw refl),
    )

cosign_key-true_iff :
    (m : StringMap) → (cosign_key m ≡ ok true) ↔ OfKey "requireCosign" (IsWord yes_words) m
unfolding cosign_key
cosign_key-true_iff m = from (lookup "requireCosign" m)
  where
    from :
        (o : Option Text)
        → (elim o [ none ↦ ok false | some raw ↦ parse_cosign raw ] ≡ ok true)
          ↔ ((raw : Text) × (o ≡ some raw) × IsWord yes_words raw)
    from none = (λ h. cc, λ (raw, e, w). cc)
    from (some raw) = (
      λ h. (raw, refl, (yes_iff raw).0 h),
      λ (given, e, w).
          (yes_iff raw).1 (subst (λ t. IsWord yes_words t) (sym (some-injective raw given e)) w),
    )

cosign_key-false_iff :
    (m : StringMap) → (cosign_key m ≡ ok false) ↔ UnlessMissing "requireCosign" (IsWord no_words) m
unfolding cosign_key
cosign_key-false_iff m = from (lookup "requireCosign" m)
  where
    from :
        (o : Option Text)
        → (elim o [ none ↦ ok false | some raw ↦ parse_cosign raw ] ≡ ok false)
          ↔ ((raw : Text) → o ≡ some raw → IsWord no_words raw)
    from none = (λ h raw e. cc, λ h. refl)
    from (some raw) = (
      λ h given e. subst (λ t. IsWord no_words t) (some-injective raw given e) ((no_iff raw).0 h),
      λ h. (no_iff raw).1 (h raw refl),
    )

-- Neither a word for true nor one for false.
abbrev pub IsNoBoolean : Text → Type 0
IsNoBoolean raw = (¬ IsWord yes_words raw) × (¬ IsWord no_words raw)

cosign_key-err_iff :
    (m : StringMap) (e : PolicyError)
    → (cosign_key m ≡ err e)
      ↔ OfKey "requireCosign" (λ raw. IsNoBoolean raw × (e ≡ invalid_boolean raw)) m
unfolding cosign_key
cosign_key-err_iff m e = from (lookup "requireCosign" m)
  where
    from :
        (o : Option Text)
        → (elim o [ none ↦ ok false | some raw ↦ parse_cosign raw ] ≡ err e)
          ↔ ((raw : Text) × (o ≡ some raw) × (IsNoBoolean raw × (e ≡ invalid_boolean raw)))
    from none = (λ h. cc, λ (raw, k, w). cc)
    from (some raw) = (
      λ h. let (y, n, k) = (refused_iff raw e).0 h in (raw, refl, ((y, n), k)),
      λ (given, same_raw, ((y, n), k)).
          subst (λ t. parse_cosign t ≡ err e) (sym (some-injective raw given same_raw))
            ((refused_iff given e).1 (y, n, k)),
    )

required-finish : (p q : RegistryPolicy) → finish p ≡ some q → q.require_cosign ≡ p.require_cosign
unfolding normalise
required-finish p q h = ap (λ (r : RegistryPolicy). r.require_cosign) (sym (finish-eq-some p q h))

-- A ConfigMap is refused exactly when the value under its key `requireCosign` is, in lower case and
-- trimmed, none of the words for true and false, and with that value; it gives the nil policy
-- exactly when nothing stands between the commas and the line ends of the two lists that are there,
-- and the value of `requireCosign` is a word for false or missing; a policy that it gives requires
-- cosign exactly when the value is a word for true.
pub parse_config_map_outcomes :
    (m : StringMap)
    → ((e : PolicyError)
        → (parse_config_map (some m) ≡ err e)
          ↔ OfKey "requireCosign" (λ raw. IsNoBoolean raw × (e ≡ invalid_boolean raw)) m)
      × ((parse_config_map (some m) ≡ ok none) ↔ (
          UnlessMissing "allowedRegistries" IsBlankList m
          × UnlessMissing "allowedRepositories" IsBlankList m
          × UnlessMissing "requireCosign" (IsWord no_words) m))
      × ((p : RegistryPolicy)
          → parse_config_map (some m) ≡ ok (some p)
          → (p.require_cosign ≡ true) ↔ OfKey "requireCosign" (IsWord yes_words) m)
unfolding parse_config_map finish is_empty_policy
parse_config_map_outcomes m = (
  λ e. (
    λ h. (cosign_key-err_iff m e).0 (ground (arith, h)),
    λ h. (let k = (cosign_key-err_iff m e).1 h in ground (arith, k)),
  ),
  (
    λ h.
        let (cosign, found, result) = parse_config_map-eq-ok m none h in
        elim (finish_cases (raw_policy m cosign)) [
          | inl (_, first, second, off) ↦ (
            (list_key-eq-nil_iff "allowedRegistries" m).0 first,
            (list_key-eq-nil_iff "allowedRepositories" m).0 second,
            (cosign_key-false_iff m).0 (found ∙ ap ok off),
          )
          | inr normal ↦ cc
        ],
    λ (a, b, c).
        let first = (list_key-eq-nil_iff "allowedRegistries" m).1 a in
        let second = (list_key-eq-nil_iff "allowedRepositories" m).1 b in
        let off = (cosign_key-false_iff m).1 c in ground (arith, off, first, second),
  ),
  λ p h.
      let (cosign, found, result) = parse_config_map-eq-ok m (some p) h in
      let required = required-finish (raw_policy m cosign) p result in
      (
        λ k. (cosign_key-true_iff m).0 (found ∙ ap ok (sym required ∙ k)),
        λ k. required ∙ ok-injective cosign true (sym found ∙ (cosign_key-true_iff m).1 k),
      ),
)
