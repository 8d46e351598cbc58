-- ===== src/Webhooks/Releases/Formats.antt =====
-- The two regular expressions of release specs against their meaning.
use kube_op.Prelude.{
  ℕ, ◌≤◌, ◌≡◌, ◌≢◌, refl, sym, subst, ap, true, false, ◌↔◌, inl, inr, [], ◌∷◌, ◌++◌, arith, length,
  All, Bool-cases, ◌==◌, ==_iff,
}
use kube_op.Text.{Text}
use kube_op.Webhooks.Releases.{
  is_hex, is_algorithm, all_hex, matches_config_hash, digest_rest, matches_digest,
}

-- 32 to 128 hexadecimal digits.
abbrev pub IsHash : Text → Type 0
IsHash s = (32 ≤ length s) × (length s ≤ 128) × All (λ c. is_hex c ≡ true) s

-- A non-empty algorithm, a colon and a hash.
abbrev pub IsDigest : Text → Type 0
IsDigest s =
    (algorithm : Text) × (hash : Text) × (s ≡ algorithm ++ (b':' ∷ hash))
    × (algorithm ≢ [])
    × All (λ c. is_algorithm c ≡ true) algorithm
    × IsHash hash

all_hex_iff : (s : Text) → (all_hex s ≡ true) ↔ All (λ c. is_hex c ≡ true) s
unfolding all_hex
all_hex_iff [] = (λ h. tt, λ h. refl)
all_hex_iff (c ∷ s) = elim (Bool-cases (is_hex c)) [
  | inl e ↦ rw e (λ h. (refl, (all_hex_iff s).0 h), λ h. (all_hex_iff s).1 h.1)
  | inr e ↦ rw e (λ h. cc, λ h. cc (h.0))
]

pub matches_config_hash_iff : (s : Text) → (matches_config_hash s ≡ true) ↔ IsHash s
unfolding matches_config_hash
matches_config_hash_iff s = ground (arith, all_hex_iff s)

-- What is left of a digest after some of its algorithm.
abbrev Rest : Text → Type 0
Rest s =
    (algorithm : Text) × (hash : Text) × (s ≡ algorithm ++ (b':' ∷ hash))
    × All (λ c. is_algorithm c ≡ true) algorithm
    × IsHash hash

digest_rest_sound : (s : Text) → digest_rest s ≡ true → Rest s
unfolding digest_rest
digest_rest_sound [] h = cc
digest_rest_sound (c ∷ s) h = elim (Bool-cases (c == b':')) [
  | inl e ↦ (
    [],
    s,
    ap (λ x. x ∷ s) ((==_iff c b':').0 e),
    tt,
    (matches_config_hash_iff s).0 (ground arith),
  )
  | inr e ↦
      (let (a, hash, split, ok_a, ok_hash) = digest_rest_sound s (ground arith) in
        (c ∷ a, hash, ap (λ x. c ∷ x) split, (ground arith, ok_a), ok_hash))
]

colon_is_no_algorithm : (c : ℕ) → is_algorithm c ≡ true → (c == b':') ≡ false
colon_is_no_algorithm c h = ground arith

digest_rest_complete :
    (a hash : Text)
    → All (λ c. is_algorithm c ≡ true) a
    → IsHash hash
    → digest_rest (a ++ (b':' ∷ hash)) ≡ true
unfolding digest_rest
digest_rest_complete [] hash h k = (matches_config_hash_iff hash).1 k
digest_rest_complete (c ∷ a) hash h k =
    rw (colon_is_no_algorithm c h.0, h.0) (digest_rest_complete a hash h.1 k)

-- The digest test answers true exactly on an algorithm, a colon and a hash.
pub matches_digest_iff : (s : Text) → (matches_digest s ≡ true) ↔ IsDigest s
unfolding matches_digest
matches_digest_iff [] = (λ h. cc, λ (a, hash, e, ne, ok_a, ok_hash). nothing a hash e)
  where
    nothing : (a hash : Text) → [] ≡ a ++ (b':' ∷ hash) → false ≡ true
    nothing [] hash e = cc
    nothing (c ∷ a) hash e = cc
matches_digest_iff (c ∷ s) = (
  λ h.
      let first : is_algorithm c ≡ true = ground arith in
      let (a, hash, e, ok_a, ok_hash) = digest_rest_sound s (ground arith) in
      (c ∷ a, hash, ap (λ x. c ∷ x) e, (λ (n : c ∷ a ≡ []). cc), (first, ok_a), ok_hash),
  λ (a, hash, e, ne, ok_a, ok_hash). from a hash e ne ok_a ok_hash,
)
  where
    from :
        (a hash : Text)
        → c ∷ s ≡ a ++ (b':' ∷ hash)
        → a ≢ []
        → All (λ d. is_algorithm d ≡ true) a
        → IsHash hash
        → matches_digest (c ∷ s) ≡ true
    from [] hash e ne ok_a ok_hash = absurd (ne refl)
    from (d ∷ a) hash e ne ok_a ok_hash =
        let rest = digest_rest_complete a hash ok_a.1 ok_hash in
        subst (λ t. matches_digest t ≡ true) (sym e) (rw (ok_a.0) rest)
