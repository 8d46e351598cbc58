-- ===== src/Prelude/Lists.antt =====
-- Lists measured by native numbers, under the library's names; predicates on all items or on one;
-- options.
use Prim.Native.Nat.{ℕ, zero, suc, ◌+◌, ◌≤◌}
use mathlib.Core.Path.{◌≡◌, refl, ap}
use mathlib.Core.Logic.{◌↔◌, ◌⊎◌}
use mathlib.Core.Bool.{Bool, true, false, ◌||◌}
use mathlib.Core.Option.{Option, none, some}
use mathlib.Core.List.{List, [], ◌∷◌, ◌++◌}
use native.Mathlib.Omega.{arith}

module _ {ℓ} {A : Type ℓ} where
  abbrev pub length : List A → ℕ
  length [] = 0
  length (x ∷ xs) = suc (length xs)

  abbrev pub take : ℕ → List A → List A
  take zero xs = []
  take (suc n) [] = []
  take (suc n) (x ∷ xs) = x ∷ take n xs

  abbrev pub drop : ℕ → List A → List A
  drop zero xs = xs
  drop (suc n) [] = []
  drop (suc n) (x ∷ xs) = drop n xs

  pub length-append : (xs ys : List A) → length (xs ++ ys) ≡ length xs + length ys
  length-append [] ys = omega arith
  length-append (x ∷ xs) ys = omega (arith, length-append xs ys)

  pub length-take-le : (n : ℕ) (xs : List A) → length (take n xs) ≤ n
  length-take-le zero xs = omega arith
  length-take-le (suc n) [] = omega arith
  length-take-le (suc n) (x ∷ xs) = omega (arith, length-take-le n xs)

  pub length-take : (n : ℕ) (xs : List A) → n ≤ length xs → length (take n xs) ≡ n
  length-take zero xs h = refl
  length-take (suc n) [] h = omega arith
  length-take (suc n) (x ∷ xs) h = omega (arith, length-take n xs (omega arith))

  pub length-take_all : (n : ℕ) (xs : List A) → length xs ≤ n → length (take n xs) ≡ length xs
  length-take_all zero [] h = refl
  length-take_all zero (x ∷ xs) h = omega arith
  length-take_all (suc n) [] h = refl
  length-take_all (suc n) (x ∷ xs) h = omega (arith, length-take_all n xs (omega arith))

  -- The concatenation of two lists is empty exactly when both are.
  pub append-eq-nil_iff : (xs ys : List A) → (xs ++ ys ≡ []) ↔ ((xs ≡ []) × (ys ≡ []))
  append-eq-nil_iff [] ys = (λ h. (refl, h), λ h. h.1)
  append-eq-nil_iff (x ∷ xs) ys = ground arith

-- Go's `for … { if test(x) { return true } }; return false`.
module _ {ℓ} {A : Type ℓ} where
  abbrev pub any : (A → Bool) → List A → Bool
  any p [] = false
  any p (x ∷ xs) = p x || any p xs

  abbrev pub All : (A → Type 0) → List A → Type 0
  All P [] = Unit
  All P (x ∷ xs) = P x × All P xs

  abbrev pub Any : (A → Type 0) → List A → Type 0
  Any P [] = ⊥
  Any P (x ∷ xs) = P x ⊎ Any P xs

module _ {ℓ} {A : Type ℓ} where
  -- A test by Booleans and a predicate that it decides, over a list.
  pub any_iff :
      (test : A → Bool) (P : A → Type 0)
      → ((x : A) → (test x ≡ true) ↔ P x)
      → (xs : List A) → (any test xs ≡ true) ↔ Any P xs
  any_iff test P h [] = ground arith
  any_iff test P h (x ∷ xs) = ground (arith, h x, any_iff test P h xs)

  pub All-append : (P : A → Type 0) (xs ys : List A) → All P xs → All P ys → All P (xs ++ ys)
  All-append P [] ys h k = k
  All-append P (x ∷ xs) ys h k = (h.0, All-append P xs ys h.1 k)

  pub All-take : (P : A → Type 0) (n : ℕ) (xs : List A) → All P xs → All P (take n xs)
  All-take P zero xs h = tt
  All-take P (suc n) [] h = tt
  All-take P (suc n) (x ∷ xs) h = (h.0, All-take P n xs h.1)

  pub All-mono : (P Q : A → Type 0) → ((x : A) → P x → Q x) → (xs : List A) → All P xs → All Q xs
  All-mono P Q f [] h = tt
  All-mono P Q f (x ∷ xs) h = (f x h.0, All-mono P Q f xs h.1)

  -- Two checks in a row report nothing exactly when neither does; the second may rely on the first.
  pub both_iff :
      {P Q : Type 0} {xs ys : List A}
      → (xs ≡ []) ↔ P
      → (P → (ys ≡ []) ↔ Q)
      → (xs ++ ys ≡ []) ↔ (P × Q)
  both_iff {xs} {ys} f g = (
    λ h. let (a, b) = (append-eq-nil_iff xs ys).0 h in let p = f.0 a in (p, (g p).0 b),
    λ (p, q). (append-eq-nil_iff xs ys).1 (f.1 p, (g p).1 q),
  )

pub some-injective {ℓ} : {A : Type ℓ} → (a b : A) → some a ≡ some b → a ≡ b
some-injective {A} a b h = ap (λ (o : Option A). elim o [ none ↦ a | some c ↦ c ]) h
