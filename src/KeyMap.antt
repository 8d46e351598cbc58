-- ===== src/KeyMap.antt =====
-- Objects of one kind on an API server, by namespace and name.
use kube_op.Prelude.{
  ◌≡◌, refl, Bool, true, ◌&&◌, ◌↔◌, List, [], ◌∷◌, Option, none, some, if◌then◌else◌, arith,
}
use kube_op.Text.{same}
use kube_op.Text.Equality.{same_iff}
use kube_op.Cluster.{Key}

unfoldable pub same_key : Key → Key → Bool
unfolding same
same_key a b = same a.namespace b.namespace && same a.name b.name

pub same_key_iff : (a b : Key) → (same_key a b ≡ true) ↔ (a ≡ b)
unfolding same_key
same_key_iff a b = ground (arith, same_iff a.namespace b.namespace, same_iff a.name b.name)

pub same_key_refl : (a : Key) → same_key a a ≡ true
same_key_refl a = (same_key_iff a a).1 refl

abbrev pub KeyMap {ℓ} : Type ℓ → Type ℓ
KeyMap V = List (Key × V)

module _ {ℓ} {V : Type ℓ} where
  unfoldable pub find : Key → KeyMap V → Option V
  find key [] = none
  find key ((k, v) ∷ m) = if same_key k key then some v else find key m

  unfoldable pub put : Key → V → KeyMap V → KeyMap V
  put key v [] = (key, v) ∷ []
  put key v ((k, w) ∷ m) = if same_key k key then (k, v) ∷ m else (k, w) ∷ put key v m

  unfoldable pub remove : Key → KeyMap V → KeyMap V
  remove key [] = []
  remove key ((k, v) ∷ m) =
      let rest = remove key m in if same_key k key then rest else (k, v) ∷ rest

  pub find-put :
      (key other : Key) (v : V) (m : KeyMap V)
      → find other (put key v m) ≡ (if same_key key other then some v else find other m)
  unfolding find put
  find-put key other v [] = refl
  find-put key other v ((k, w) ∷ m) = ground (
    arith,
    same_key_iff key other,
    same_key_iff k key,
    same_key_iff k other,
    find-put key other v m,
  )

  pub find-remove :
      (key other : Key) (m : KeyMap V)
      → find other (remove key m) ≡ (if same_key key other then none else find other m)
  unfolding find remove
  find-remove key other [] = ground arith
  find-remove key other ((k, w) ∷ m) = ground (
    arith,
    same_key_iff key other,
    same_key_iff k key,
    same_key_iff k other,
    find-remove key other m,
  )
