-- ===== src/Text/Search.antt =====
-- Prefixes, suffixes and parts against their meaning by concatenation.
use kube_op.Prelude.{
  ◌≡◌, refl, ap, true, ◌↔◌, inl, inr, [], ◌∷◌, ◌++◌, Option, none, some, arith, Bool-cases,
}
use kube_op.Text.{Text, strip_prefix?, has_prefix, has_suffix, contains, same, is_some}
use kube_op.Text.Equality.{same_iff}

pub strip_prefix?_iff : (s p t : Text) → (strip_prefix? s p ≡ some t) ↔ (s ≡ p ++ t)
unfolding strip_prefix?
strip_prefix?_iff s [] t = ground arith
strip_prefix?_iff [] (d ∷ p) t = ground arith
strip_prefix?_iff (c ∷ s) (d ∷ p) t = ground (arith, strip_prefix?_iff s p t)

-- `s` begins with `p`.
abbrev pub Begins : Text → Text → Type 0
Begins s p = (t : Text) × (s ≡ p ++ t)

-- `s` ends with `p`.
abbrev pub EndsIn : Text → Text → Type 0
EndsIn s p = (t : Text) × (s ≡ t ++ p)

is_some→Begins :
    (s p : Text) (o : Option Text) → strip_prefix? s p ≡ o → is_some o ≡ true → Begins s p
is_some→Begins s p none e h = cc
is_some→Begins s p (some t) e h = (t, (strip_prefix?_iff s p t).0 e)

pub has_prefix_iff : (s p : Text) → (has_prefix s p ≡ true) ↔ Begins s p
unfolding has_prefix
has_prefix_iff s p =
    (is_some→Begins s p (strip_prefix? s p) refl, λ (t, e). rw ((strip_prefix?_iff s p t).1 e) refl)

has_suffix→EndsIn : (s p : Text) → has_suffix s p ≡ true → EndsIn s p
unfolding has_suffix
has_suffix→EndsIn [] [] h = ([], refl)
has_suffix→EndsIn [] (d ∷ p) h = cc
has_suffix→EndsIn (c ∷ s) p h = elim (Bool-cases (same (c ∷ s) p)) [
  | inl whole ↦ ([], (same_iff (c ∷ s) p).0 whole)
  | inr part ↦ (let (t, e) = has_suffix→EndsIn s p (ground arith) in (c ∷ t, ap (λ r. c ∷ r) e))
]

has_suffix-append : (t p : Text) → has_suffix (t ++ p) p ≡ true
unfolding has_suffix
has_suffix-append [] [] = refl
has_suffix-append [] (d ∷ p) = ground (arith, same_iff (d ∷ p) (d ∷ p))
has_suffix-append (c ∷ t) p = ground (arith, has_suffix-append t p)

pub has_suffix_iff : (s p : Text) → (has_suffix s p ≡ true) ↔ EndsIn s p
has_suffix_iff s p = (has_suffix→EndsIn s p, λ (t, e). rw e (has_suffix-append t p))

-- `s` has `p` as a part.
abbrev pub Contains : Text → Text → Type 0
Contains s p = (before : Text) × (after : Text) × (s ≡ before ++ (p ++ after))

contains→Contains : (s p : Text) → contains s p ≡ true → Contains s p
unfolding contains
contains→Contains [] [] h = ([], [], refl)
contains→Contains [] (d ∷ p) h = cc
contains→Contains (c ∷ s) p h = elim (Bool-cases (has_prefix (c ∷ s) p)) [
  | inl here ↦ (let (t, e) = (has_prefix_iff (c ∷ s) p).0 here in ([], t, e))
  | inr there ↦
      let (before, after, e) = contains→Contains s p (ground arith) in
      (c ∷ before, after, ap (λ r. c ∷ r) e)
]

contains-append : (before p after : Text) → contains (before ++ (p ++ after)) p ≡ true
unfolding contains
contains-append [] [] [] = refl
contains-append [] [] (c ∷ after) =
    let e = (has_prefix_iff (c ∷ after) []).1 (c ∷ after, refl) in ground arith
contains-append [] (d ∷ p) after =
    let e = (has_prefix_iff (d ∷ (p ++ after)) (d ∷ p)).1 (after, refl) in ground arith
contains-append (c ∷ before) p after = ground (arith, contains-append before p after)

pub contains_iff : (s p : Text) → (contains s p ≡ true) ↔ Contains s p
contains_iff s p =
    (contains→Contains s p, λ (before, after, e). rw e (contains-append before p after))
