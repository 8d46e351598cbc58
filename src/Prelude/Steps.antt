-- ===== src/Prelude/Steps.antt =====
-- Steps on a state that may fail: the state after the step, and its error.
use mathlib.Core.Path.{◌≡◌, refl}
use mathlib.Core.Option.{Option, none, some}
use kube_op.Prelude.Results.{Result, ok, err}

-- `if err := step(); err != nil { return err }`, then the next step.
abbrev pub and_then {ℓ κ} :
    {S : Type ℓ} {F : Type κ} → S × Option F → (S → S × Option F) → S × Option F
and_then (s, none) next = next s
and_then (s, some f) next = (s, some f)

-- A computation without effect first.
abbrev pub on_ok {ℓ κ μ} :
    {S : Type ℓ} {F : Type κ} {A : Type μ} → Result F A → S → (A → S × Option F) → S × Option F
on_ok (ok a) s next = next a
on_ok (err f) s next = (s, some f)

module _ {ℓ κ} {S : Type ℓ} {F : Type κ} where
  -- Two steps succeed only if both do.
  pub and_then-succeeds :
      (r : S × Option F) (next : S → S × Option F)
      → (and_then r next).1 ≡ none
      → (r.1 ≡ none) × (and_then r next ≡ next r.0)
  and_then-succeeds (s, none) next h = (refl, refl)
  and_then-succeeds (s, some f) next h = cc

  pub on_ok-succeeds {μ} :
      {A : Type μ} (r : Result F A) (s : S) (next : A → S × Option F)
      → (on_ok r s next).1 ≡ none
      → (a : A) × (r ≡ ok a) × (on_ok r s next ≡ next a)
  on_ok-succeeds (ok a) s next h = (a, refl, refl)
  on_ok-succeeds (err f) s next h = cc
