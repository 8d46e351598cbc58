-- ===== src/Policy/Decisions.antt =====
-- What a ConfigMap decides: from the raw lists of its data to the hosts and repositories allowed.
use kube_op.Prelude.{
  String, ◌≡◌, ◌≢◌, refl, sym, subst, Bool, true, false, ◌↔◌, ◌⊎◌, inl, inr, List, [], ◌∷◌, map,
  Option, none, some, arith, any, All, Any, any_iff, Result, ok, err, if◌then◌else◌,
}
use kube_op.Text.{Text, is_empty, trim_space, to_lower}
use kube_op.Text.Case.{to_lower_idem}
use kube_op.StringMap.{StringMap, lookup}
use kube_op.Policy.{
  RegistryPolicy, PolicyError, parse_list, normalise_list, normalise, list_key, cosign_key, finish,
  is_nil, is_empty_policy, parse_config_map, allows, allows_registry, allows_repository,
  matches_host_pattern, matches_repo_pattern,
}
use kube_op.Policy.Order.{IsSorted, Any-sort_texts, sort_texts-eq-nil_iff}
use kube_op.Policy.Entries.{
  IsTrimmed, IsLowered, parse_list-IsTrimmed, normalise_list_lem, normalise_list-IsNormal,
  normalise_list_of_IsNormal,
}
use kube_op.Policy.Patterns.{
  HostMatches, RepoMatches, matches_host_pattern_iff, matches_repo_pattern_iff,
}

-- The name as it is compared.
abbrev pub wanted : Text → Text
wanted name = to_lower (trim_space name)

-- An empty list allows every name; any other allows the non-empty names that one of its entries,
-- lowered, matches.
abbrev pub Allows : (Text → Text → Type 0) → List Text → Text → Type 0
Allows Matches es name =
    (es ≡ []) ⊎ ((wanted name ≢ []) × Any (λ e. Matches (to_lower e) (wanted name)) es)

module _ (Matches : Text → Text → Type 0) (test : Text → Text → Bool)
    (decides : (p name : Text) → (test p name ≡ true) ↔ Matches (to_lower p) name) where
  any_test_iff :
      (w : Text) (es : List Text)
      → (any (λ e. test e w) es ≡ true) ↔ Any (λ e. Matches (to_lower e) w) es
  any_test_iff w es = any_iff (λ e. test e w) (λ e. Matches (to_lower e) w) (λ e. decides e w) es

  guarded_iff :
      (w : Text) (e : Text) (es : List Text)
      → ((if is_empty w then false else any (λ x. test x w) (e ∷ es)) ≡ true)
        ↔ ((e ∷ es ≡ []) ⊎ ((w ≢ []) × Any (λ x. Matches (to_lower x) w) (e ∷ es)))
  guarded_iff [] e es = (λ h. cc, λ h. elim h [ inl n ↦ cc | inr (n, _) ↦ absurd (n refl) ])
  guarded_iff (c ∷ w) e es = (
    λ h. inr ((λ (n : c ∷ w ≡ []). cc), (any_test_iff (c ∷ w) (e ∷ es)).0 h),
    λ h. elim h [ inl n ↦ cc | inr (_, a) ↦ (any_test_iff (c ∷ w) (e ∷ es)).1 a ],
  )

  allows_iff :
      (es : List Text) (name : Text) → (allows test es name ≡ true) ↔ Allows Matches es name
  allows_iff [] name = (λ h. inl refl, λ h. refl)
  allows_iff (e ∷ es) name = guarded_iff (wanted name) e es

Any-map-to_lower :
    (Matches : Text → Text → Type 0) (w : Text) (es : List Text)
    → Any (λ e. Matches (to_lower e) w) (map to_lower es) ↔ Any (λ e. Matches (to_lower e) w) es
Any-map-to_lower Matches w [] = (λ h. h, λ h. h)
Any-map-to_lower Matches w (e ∷ es) = rw (to_lower_idem e) (
  λ h. elim h [ inl a ↦ inl a | inr a ↦ inr ((Any-map-to_lower Matches w es).0 a) ],
  λ h. elim h [ inl a ↦ inl a | inr a ↦ inr ((Any-map-to_lower Matches w es).1 a) ],
)

map-eq-nil_iff : (es : List Text) → (map to_lower es ≡ []) ↔ (es ≡ [])
map-eq-nil_iff [] = (λ h. h, λ h. h)
map-eq-nil_iff (e ∷ es) = (λ h. cc, λ h. cc)

-- Normalising a list changes no decision.
Allows-normalise_list :
    (Matches : Text → Text → Type 0) (es : List Text) (name : Text)
    → All IsTrimmed es
    → Allows Matches (normalise_list es) name ↔ Allows Matches es name
Allows-normalise_list Matches es name h =
    let P = λ (e : Text). Matches (to_lower e) (wanted name) in
    let nil_iff = sort_texts-eq-nil_iff (map to_lower es) in
    let some_iff = Any-sort_texts P (map to_lower es) in
    let raw_iff = Any-map-to_lower Matches (wanted name) es in
    rw (normalise_list_lem es h) (
      λ a. elim a [
        | inl n ↦ inl ((map-eq-nil_iff es).0 (nil_iff.0 n))
        | inr (w, s) ↦ inr (w, raw_iff.0 (some_iff.0 s))
      ],
      λ a. elim a [
        | inl n ↦ inl (nil_iff.1 ((map-eq-nil_iff es).1 n))
        | inr (w, s) ↦ inr (w, some_iff.1 (raw_iff.1 s))
      ],
    )

list_key-IsTrimmed : (key : String) (m : StringMap) → All IsTrimmed (list_key key m)
unfolding list_key
list_key-IsTrimmed key m = from (lookup key m)
  where
    from : (o : Option Text) → All IsTrimmed (elim o [ none ↦ [] | some raw ↦ parse_list raw ])
    from none = tt
    from (some raw) = parse_list-IsTrimmed raw

-- The policy before it is normalised.
abbrev pub raw_policy : StringMap → Bool → RegistryPolicy
raw_policy m cosign = record {
  allowed_registries = list_key "allowedRegistries" m;
  allowed_repositories = list_key "allowedRepositories" m;
  require_cosign = cosign;
}

pub parse_config_map-eq-ok :
    (m : StringMap) (o : Option RegistryPolicy)
    → parse_config_map (some m) ≡ ok o
    → (cosign : Bool) × (cosign_key m ≡ ok cosign) × (finish (raw_policy m cosign) ≡ o)
unfolding parse_config_map
parse_config_map-eq-ok m o h = from (cosign_key m) refl h
  where
    from :
        (r : Result PolicyError Bool)
        → cosign_key m ≡ r
        → elim r [ err e ↦ err e | ok cosign ↦ ok (finish (raw_policy m cosign)) ] ≡ ok o
        → (cosign : Bool) × (cosign_key m ≡ ok cosign) × (finish (raw_policy m cosign) ≡ o)
    from (ok c) e k = (c, e, ground arith)
    from (err c) e k = cc

is_nil→eq : (es : List Text) → is_nil es ≡ true → es ≡ []
is_nil→eq [] h = refl
is_nil→eq (e ∷ es) h = cc

-- The nil policy comes from empty lists; any other is the normalised one.
pub finish_cases :
    (p : RegistryPolicy)
    → ((finish p ≡ none)
        × (p.allowed_registries ≡ [])
        × (p.allowed_repositories ≡ [])
        × (p.require_cosign ≡ false))
      ⊎ (finish p ≡ some (normalise p))
unfolding finish is_empty_policy
finish_cases p = ground (arith, is_nil→eq p.allowed_registries, is_nil→eq p.allowed_repositories)

normalised_iff :
    (Matches : Text → Text → Type 0) (test : Text → Text → Bool)
    → ((p name : Text) → (test p name ≡ true) ↔ Matches (to_lower p) name)
    → (es : List Text) (name : Text) → All IsTrimmed es
    → (allows test (normalise_list es) name ≡ true) ↔ Allows Matches es name
normalised_iff Matches test decides es name h =
    let (to, from) = allows_iff Matches test decides (normalise_list es) name in
    let (down, up) = Allows-normalise_list Matches es name h in (λ a. down (to a), λ a. from (up a))

module _ (m : StringMap) (o : Option RegistryPolicy)
    (parsed : parse_config_map (some m) ≡ ok o) where
  -- A ConfigMap that parses, to a nil policy or to another, allows exactly the hosts that the raw
  -- list under its key `allowedRegistries` allows: every host if that list has no entry, and else
  -- the non-blank hosts that an entry matches, both in lower case.
  pub allows_registry-parse_config_map :
      (host : Text)
      → (allows_registry o host ≡ true) ↔ Allows HostMatches (list_key "allowedRegistries" m) host
  unfolding allows_registry normalise
  allows_registry-parse_config_map host =
      let (cosign, _, result) = parse_config_map-eq-ok m o parsed in
      elim (finish_cases (raw_policy m cosign)) [
        | inl (nil, empty, _, _) ↦ rw (sym result, nil, empty) (λ h. inl refl, λ h. refl)
        | inr normal ↦
            rw (sym result, normal)
              (normalised_iff HostMatches matches_host_pattern matches_host_pattern_iff _ host
                (list_key-IsTrimmed "allowedRegistries" m))
      ]

  -- The same of repositories, with the key `allowedRepositories`.
  pub allows_repository-parse_config_map :
      (repository : Text)
      → (allows_repository o repository ≡ true)
        ↔ Allows RepoMatches (list_key "allowedRepositories" m) repository
  unfolding allows_repository normalise
  allows_repository-parse_config_map repository =
      let (cosign, _, result) = parse_config_map-eq-ok m o parsed in
      elim (finish_cases (raw_policy m cosign)) [
        | inl (nil, _, empty, _) ↦ rw (sym result, nil, empty) (λ h. inl refl, λ h. refl)
        | inr normal ↦
            rw (sym result, normal)
              (normalised_iff RepoMatches matches_repo_pattern matches_repo_pattern_iff _ repository
                (list_key-IsTrimmed "allowedRepositories" m))
      ]

-- Every entry is trimmed, lower-case and not empty, and the entries are in order.
abbrev pub IsNormal : RegistryPolicy → Type 0
IsNormal p =
    (All IsLowered p.allowed_registries × IsSorted p.allowed_registries)
    × (All IsLowered p.allowed_repositories × IsSorted p.allowed_repositories)

normalise_of_IsNormal : (p : RegistryPolicy) → IsNormal p → normalise p ≡ p
unfolding normalise
normalise_of_IsNormal p ((h, k), (h', k')) = ground (
  arith,
  normalise_list_of_IsNormal p.allowed_registries h k,
  normalise_list_of_IsNormal p.allowed_repositories h' k',
)

normalise-IsNormal : (m : StringMap) (cosign : Bool) → IsNormal (normalise (raw_policy m cosign))
unfolding normalise
normalise-IsNormal m cosign = (
  normalise_list-IsNormal _ (list_key-IsTrimmed "allowedRegistries" m),
  normalise_list-IsNormal _ (list_key-IsTrimmed "allowedRepositories" m),
)

pub finish-eq-some : (p q : RegistryPolicy) → finish p ≡ some q → normalise p ≡ q
finish-eq-some p q h = elim (finish_cases p) [ inl (nil, _, _, _) ↦ cc | inr normal ↦ cc ]

-- A policy that a ConfigMap gives is in normal form (every entry trimmed, lower-case and not
-- empty, the entries in order), and normalising it again changes nothing.
pub parse_config_map-IsNormal :
    (m : StringMap) (p : RegistryPolicy)
    → parse_config_map (some m) ≡ ok (some p)
    → IsNormal p × (normalise p ≡ p)
parse_config_map-IsNormal m p parsed =
    let (cosign, _, result) = parse_config_map-eq-ok m (some p) parsed in
    let normal : IsNormal p =
      subst IsNormal (finish-eq-some (raw_policy m cosign) p result)
        (normalise-IsNormal m cosign) in
    (normal, normalise_of_IsNormal p normal)
