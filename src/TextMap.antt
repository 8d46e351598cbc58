-- ===== src/TextMap.antt =====
-- Go's `map[string]V` with keys that are computed. Entries are kept in the order of first insertion.
use kube_op.Prelude.{◌≡◌, refl, List, [], ◌∷◌, Option, none, some, if◌then◌else◌, arith}
use kube_op.Text.{Text, same}
use kube_op.Text.Equality.{same_iff}

abbrev pub TextMap {ℓ} : Type ℓ → Type ℓ
TextMap V = List (Text × V)

module _ {ℓ} {V : Type ℓ} where
  -- `v, ok := m[key]`
  unfoldable pub find : Text → TextMap V → Option V
  find key [] = none
  find key ((k, v) ∷ m) = if same k key then some v else find key m

  -- `m[key] = v`
  unfoldable pub put : Text → V → TextMap V → TextMap V
  put key v [] = (key, v) ∷ []
  put key v ((k, w) ∷ m) = if same k key then (k, v) ∷ m else (k, w) ∷ put key v m

  pub find-put :
      (key other : Text) (v : V) (m : TextMap V)
      → find other (put key v m) ≡ (if same key other then some v else find other m)
  unfolding find put
  find-put key other v [] = refl
  find-put key other v ((k, w) ∷ m) =
      ground (arith, same_iff key other, same_iff k key, same_iff k other, find-put key other v m)
