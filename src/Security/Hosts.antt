-- ===== src/Security/Hosts.antt =====
-- The hosts that an allowlist admits.
use kube_op.Prelude.{
  ◌≡◌, ◌≢◌, refl, true, false, ◌↔◌, ◌⊎◌, inl, inr, List, [], ◌∷◌, Any, any, any_iff, Bool-cases,
  if◌then◌else◌,
}
use kube_op.Text.{Text, text, is_empty, same, trim_space, to_lower}
use kube_op.Text.Equality.{same_iff}
use kube_op.Policy.Patterns.{HostMatches, host_test_iff}
use kube_op.Security.{rule_allows, allowed_host}

-- The rule "*" admits every host; any other is a host or "*." and a domain, as in a registry policy.
abbrev pub RuleAllows : Text → Text → Type 0
RuleAllows rule host = (rule ≡ text "*") ⊎ HostMatches rule host

abbrev pub comparable : Text → Text
comparable s = to_lower (trim_space s)

rule_allows_iff : (rule host : Text) → (rule_allows rule host ≡ true) ↔ RuleAllows rule host
unfolding rule_allows
rule_allows_iff [] host = (λ h. cc, λ h. elim h [ inl e ↦ cc | inr m ↦ absurd (m.0 refl) ])
rule_allows_iff (c ∷ l) host = elim (Bool-cases (same (c ∷ l) (text "*"))) [
  | inl e ↦ rw e (λ h. inl ((same_iff (c ∷ l) (text "*")).0 e), λ h. refl)
  | inr e ↦ rw e (
    λ h. inr ((host_test_iff (c ∷ l) host).0 h),
    λ h. elim h [
      | inl w ↦ cc ((same_iff (c ∷ l) (text "*")).1 w)
      | inr m ↦ (host_test_iff (c ∷ l) host).1 m
    ],
  )
]

guarded_iff :
    (wanted : Text) (allowlist : List Text)
    → ((if is_empty wanted
          then false
          else any (λ rule. rule_allows (comparable rule) wanted) allowlist)
        ≡ true)
      ↔ ((wanted ≢ []) × Any (λ rule. RuleAllows (comparable rule) wanted) allowlist)
guarded_iff [] allowlist = (λ h. cc, λ (n, h). absurd (n refl))
guarded_iff (c ∷ s) allowlist =
    let rules =
      any_iff (λ rule. rule_allows (comparable rule) (c ∷ s))
        (λ rule. RuleAllows (comparable rule) (c ∷ s))
        (λ rule. rule_allows_iff (comparable rule) (c ∷ s)) allowlist in
    (λ h. ((λ (n : c ∷ s ≡ []). cc), rules.0 h), λ (n, h). rules.1 h)

-- A host is allowed exactly when it is not blank and some rule, both trimmed and in lower case, is
-- "*", is the host, or is "*." and the host itself or a domain that it lies in; an empty allowlist
-- allows none.
pub allowed_host_iff :
    (host : Text) (allowlist : List Text)
    → (allowed_host host allowlist ≡ true) ↔ (
        (comparable host ≢ [])
        × Any (λ rule. RuleAllows (comparable rule) (comparable host)) allowlist)
unfolding allowed_host
allowed_host_iff host allowlist = guarded_iff (comparable host) allowlist
