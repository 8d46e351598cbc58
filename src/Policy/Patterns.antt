-- ===== src/Policy/Patterns.antt =====
-- When a pattern of an allowlist matches, said without the tests of the code.
use kube_op.Prelude.{
  ◌≡◌, ◌≢◌, refl, sym, ap, true, false, ◌↔◌, ◌⊎◌, inl, inr, [], ◌∷◌, ◌++◌, arith, Bool-cases,
  if◌then◌else◌, ◌||◌, ◌∙◌,
}
use kube_op.Text.{
  Text, text, is_empty, same, to_lower, has_prefix, trim_prefix, has_suffix, drop_last,
}
use kube_op.Text.Equality.{same_iff}
use kube_op.Text.Search.{strip_prefix?_iff, Begins, EndsIn, has_prefix_iff, has_suffix_iff}
use kube_op.Policy.{matches_host_pattern, matches_repo_pattern}

-- "*.suffix" matches the suffix itself and every host that ends in ".suffix"; any other pattern
-- matches itself. The empty pattern matches nothing.
abbrev pub HostMatches : Text → Text → Type 0
HostMatches p host =
    (p ≢ [])
    × (((suffix : Text) × (p ≡ text "*." ++ suffix)
          × ((host ≡ suffix) ⊎ EndsIn host (b'.' ∷ suffix)))
        ⊎ ((¬ Begins p (text "*.")) × (host ≡ p)))

-- "prefix*" matches every repository that begins with the prefix; any other pattern matches itself.
abbrev pub RepoMatches : Text → Text → Type 0
RepoMatches p repo =
    (p ≢ [])
    × (((prefix : Text) × (p ≡ prefix ++ text "*") × Begins repo prefix)
        ⊎ ((¬ EndsIn p (text "*")) × (repo ≡ p)))

drop_last-append : (q : Text) (c : _) → drop_last (q ++ c ∷ []) ≡ q
unfolding drop_last
drop_last-append [] c = refl
drop_last-append (d ∷ []) c = refl
drop_last-append (d ∷ e ∷ q) c = ap (λ r. d ∷ r) (drop_last-append (e ∷ q) c)

append-injective : (p s t : Text) → p ++ s ≡ p ++ t → s ≡ t
append-injective [] s t h = h
append-injective (c ∷ p) s t h = append-injective p s t (ground arith)

trim_prefix-append : (p s : Text) → trim_prefix (p ++ s) p ≡ s
unfolding trim_prefix
trim_prefix-append p s = rw ((strip_prefix?_iff (p ++ s) p s).1 refl) refl

host_wildcard :
    (l host suffix : Text)
    → l ≡ text "*." ++ suffix
    → ((same host suffix || has_suffix host (b'.' ∷ suffix)) ≡ true) ↔ HostMatches l host
host_wildcard l host suffix w = (
  λ h. (
    λ (e : l ≡ []). cc,
    inl (suffix, w, ground (arith, same_iff host suffix, has_suffix_iff host (b'.' ∷ suffix))),
  ),
  λ h. elim (h.1) [
    | inl (s, v, m) ↦
        (let q = append-injective (text "*.") suffix s (sym w ∙ v) in
          ground (arith, same_iff host suffix, has_suffix_iff host (b'.' ∷ suffix), q))
    | inr (n, _) ↦ absurd (n (suffix, w))
  ],
)

host_plain :
    (l host : Text) → l ≢ [] → ¬ Begins l (text "*.") → (same host l ≡ true) ↔ HostMatches l host
host_plain l host ne n = (
  λ h. (ne, inr (n, (same_iff host l).0 h)),
  λ h. elim (h.1) [ inl (s, v, _) ↦ absurd (n (s, v)) | inr (_, e) ↦ (same_iff host l).1 e ],
)

-- The test of a lowered pattern, as `matchesHostPattern` makes it.
pub host_test_iff :
    (l host : Text)
    → ((if is_empty l
          then false
          else if has_prefix l (text "*.")
          then same host (trim_prefix l (text "*."))
            || has_suffix host (b'.' ∷ trim_prefix l (text "*."))
          else same host l)
        ≡ true)
      ↔ HostMatches l host
host_test_iff [] host = (λ h. cc, λ h. absurd (h.0 refl))
host_test_iff (c ∷ l) host = elim (Bool-cases (has_prefix (c ∷ l) (text "*."))) [
  | inl e ↦ rw e (
      let (s, w) = (has_prefix_iff (c ∷ l) (text "*.")).0 e in
      let cut : trim_prefix (c ∷ l) (text "*.") ≡ s =
        ap (λ r. trim_prefix r (text "*.")) w ∙ trim_prefix-append (text "*.") s in
      rw cut (host_wildcard (c ∷ l) host s w))
  | inr e ↦
      rw e (host_plain (c ∷ l) host (λ h. cc) (λ b. cc ((has_prefix_iff (c ∷ l) (text "*.")).1 b)))
]

-- `matchesHostPattern` answers true exactly on the hosts that the lowered pattern matches.
pub matches_host_pattern_iff :
    (p host : Text) → (matches_host_pattern p host ≡ true) ↔ HostMatches (to_lower p) host
unfolding matches_host_pattern
matches_host_pattern_iff p host = host_test_iff (to_lower p) host

repo_test_iff :
    (l repo : Text)
    → ((if is_empty l
          then false
          else if has_suffix l (text "*")
          then has_prefix repo (drop_last l)
          else same repo l)
        ≡ true)
      ↔ RepoMatches l repo
repo_test_iff [] repo = (λ h. cc, λ h. absurd (h.0 refl))
repo_test_iff (c ∷ l) repo = elim (Bool-cases (has_suffix (c ∷ l) (text "*"))) [
  | inl e ↦ rw e (
      let (q, w) = (has_suffix_iff (c ∷ l) (text "*")).0 e in
      let cut : drop_last (c ∷ l) ≡ q = ap drop_last w ∙ drop_last-append q b'*' in
      rw cut (
        λ h. (λ (n : c ∷ l ≡ []). cc, inl (q, w, (has_prefix_iff repo q).0 h)),
        λ h. elim (h.1) [
          | inl (r, v, b) ↦
              (let same_prefix : q ≡ r =
                  sym (drop_last-append q b'*')
                  ∙ ap drop_last (sym w ∙ v)
                  ∙ drop_last-append r b'*' in
                rw same_prefix ((has_prefix_iff repo r).1 b))
          | inr (n, _) ↦ absurd (n (q, w))
        ],
      ))
  | inr e ↦ rw e (
    λ h. (
      λ (n : c ∷ l ≡ []). cc,
      inr (λ b. cc ((has_suffix_iff (c ∷ l) (text "*")).1 b), (same_iff repo (c ∷ l)).0 h),
    ),
    λ h. elim (h.1) [
      | inl (r, v, _) ↦ cc ((has_suffix_iff (c ∷ l) (text "*")).1 (r, v))
      | inr (_, k) ↦ (same_iff repo (c ∷ l)).1 k
    ],
  )
]

-- `matchesRepoPattern` answers true exactly on the repositories that the lowered pattern matches.
pub matches_repo_pattern_iff :
    (p repo : Text) → (matches_repo_pattern p repo ≡ true) ↔ RepoMatches (to_lower p) repo
unfolding matches_repo_pattern
matches_repo_pattern_iff p repo = repo_test_iff (to_lower p) repo
