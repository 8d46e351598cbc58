-- ===== src/Cluster/Found.antt =====
-- A fetch that gives an object with a property, and checks that report nothing just then.
use kube_op.Prelude.{◌≡◌, ◌≢◌, refl, subst, sym, ap, ◌↔◌, List, []}
use kube_op.Cluster.{Fetch, found, not_found, failed}

-- The fetch gives an object, and `P` holds of it.
abbrev pub Found {ℓ} : {A : Type ℓ} → Fetch A → (A → Type 0) → Type ℓ
Found {A} f P = (a : A) × (f ≡ found a) × P a

module _ {ℓ} {A : Type ℓ} where
  abbrev object : A → Fetch A → A
  object d (found a) = a
  object d _ = d

  pub found-injective : (a b : A) → found a ≡ found b → a ≡ b
  found-injective a b e = ap (object a) e

  -- A check that reports an error for each failed fetch, and that decides `P` of a found object.
  pub Found_iff {κ} :
      {E : Type κ} (P : A → Type 0) (check : Fetch A → List E)
      → check not_found ≢ []
      → check failed ≢ []
      → ((a : A) → (check (found a) ≡ []) ↔ P a)
      → (f : Fetch A) → (check f ≡ []) ↔ Found f P
  Found_iff P check lost broken right not_found = (λ h. absurd (lost h), λ (a, e, p). cc)
  Found_iff P check lost broken right failed = (λ h. absurd (broken h), λ (a, e, p). cc)
  Found_iff P check lost broken right (found b) = (
    λ h. (b, refl, (right b).0 h),
    λ (a, e, p). (right b).1 (subst P (sym (found-injective b a e)) p),
  )
