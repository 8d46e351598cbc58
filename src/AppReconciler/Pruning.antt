-- ===== src/AppReconciler/Pruning.antt =====
-- Which Deployments `pruneWorkload` leaves.
use kube_op.Prelude.{
  ◌≡◌, refl, Bool, true, false, not, ◌&&◌, ◌||◌, inl, inr, [], ◌∷◌, none, some, if◌then◌else◌,
  arith, Bool-cases,
}
use kube_op.Text.{Text, same}
use kube_op.Cluster.{Key}
use kube_op.KeyMap.{
  KeyMap, same_key, find, put, remove, find-put, find-remove, same_key_refl, same_key_iff,
}
use kube_op.AppReconciler.{Kubernetes, Faults, is_managed_in, prune_loop, prune_workload}

-- Each key stands once: a server has one object by a name.
abbrev pub HasDistinctKeys : {V : Type 0} → KeyMap V → Type 0
HasDistinctKeys [] = Unit
HasDistinctKeys ((k, v) ∷ m) = (find k m ≡ none) × HasDistinctKeys m

module _ {D C : Type 0} (kube : Kubernetes D C) (faults : Faults) (ns : Text) (own : Key) where
  -- A listed Deployment of another name.
  abbrev pub is_foreign : Key → D → Bool
  is_foreign k d = not (not (is_managed_in kube faults ns k d) || same_key k own)

  -- The list has a managed Deployment by that key, and it is not the app's own.
  abbrev pub has_foreign : KeyMap D → Key → Bool
  has_foreign [] key = false
  has_foreign ((k, d) ∷ listed) key = (is_foreign k d && same_key k key) || has_foreign listed key

  pub find-prune_loop :
      (listed deployments : KeyMap D) (key : Key)
      → (prune_loop kube faults ns own listed deployments).1 ≡ none
      → find key (prune_loop kube faults ns own listed deployments).0
        ≡ (if has_foreign listed key then none else find key deployments)
  unfolding prune_loop
  find-prune_loop [] deployments key h = refl
  find-prune_loop ((k, d) ∷ listed) deployments key h = ground (
    arith,
    find-prune_loop listed deployments key,
    find-prune_loop listed (remove k deployments) key,
    find-remove k key deployments,
  )

  pub find-prune_workload :
      (deployments : KeyMap D) (key : Key)
      → (prune_workload kube faults ns own deployments).1 ≡ none
      → find key (prune_workload kube faults ns own deployments).0
        ≡ (if has_foreign deployments key then none else find key deployments)
  unfolding prune_workload
  find-prune_workload deployments key h =
      ground (arith, find-prune_loop deployments deployments key)

  -- The app's own Deployment is never foreign.
  pub has_foreign-own : (m : KeyMap D) → has_foreign m own ≡ false
  has_foreign-own [] = refl
  has_foreign-own ((k, d) ∷ m) = ground (arith, has_foreign-own m)

  pub has_foreign-put :
      (v : D) (m : KeyMap D) (key : Key) → has_foreign (put own v m) key ≡ has_foreign m key
  unfolding put
  has_foreign-put v [] key = ground (arith, same_key_refl own)
  has_foreign-put v ((k, d) ∷ m) key = ground (arith, has_foreign-put v m key)

  -- A managed Deployment by another key is foreign.
  pub find-has_foreign :
      (m : KeyMap D) (key : Key) (d : D)
      → find key m ≡ some d
      → is_managed_in kube faults ns key d ≡ true
      → same_key key own ≡ false
      → has_foreign m key ≡ true
  unfolding find
  find-has_foreign [] key d h i n = cc
  find-has_foreign ((k, e) ∷ m) key d h i n =
      ground (arith, same_key_iff k key, find-has_foreign m key d)

  -- Nothing in another namespace is foreign.
  pub has_foreign-elsewhere :
      (m : KeyMap D) (key : Key) → same key.namespace ns ≡ false → has_foreign m key ≡ false
  unfolding is_managed_in
  has_foreign-elsewhere [] key h = refl
  has_foreign-elsewhere ((k, d) ∷ m) key h =
      ground (arith, same_key_iff k key, has_foreign-elsewhere m key h)

  pub has_foreign_absent :
      (m : KeyMap D) (key : Key) → find key m ≡ none → has_foreign m key ≡ false
  unfolding find
  has_foreign_absent [] key h = refl
  has_foreign_absent ((k, d) ∷ m) key h = ground (arith, has_foreign_absent m key)

  -- Where the keys are distinct, the Deployment by a key decides.
  pub has_foreign-unmanaged :
      (m : KeyMap D) (key : Key) (d : D)
      → HasDistinctKeys m
      → find key m ≡ some d
      → is_managed_in kube faults ns key d ≡ false
      → has_foreign m key ≡ false
  unfolding find
  has_foreign-unmanaged [] key d h f i = cc
  has_foreign-unmanaged ((k, e) ∷ m) key d (first, rest) f i =
      ground (
        arith,
        same_key_iff k key,
        has_foreign_absent m k first,
        has_foreign-unmanaged m key d rest,
      )

  -- After the app's own Deployment is put, it alone is new.
  pub find_unless_foreign-put :
      (v : D) (m : KeyMap D) (key : Key)
      → (if has_foreign (put own v m) key then none else find key (put own v m))
        ≡ (if same_key own key then some v else if has_foreign m key then none else find key m)
  find_unless_foreign-put v m key = elim (Bool-cases (same_key own key)) [
    | inl e ↦
        rw
          (
            has_foreign-put v m key,
            find-put own key v m,
            e,
            ← (same_key_iff own key).0 e,
            has_foreign-own m,
          )
          refl
    | inr e ↦ rw (has_foreign-put v m key, find-put own key v m, e) refl
  ]
