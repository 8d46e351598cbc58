-- ===== src/Events/Redaction.antt =====
-- What `redactMeta` shows.
use kube_op.Prelude.{◌≡◌, refl, ap, ◌↔◌, true, inl, inr, ◌⊎◌, Bool-cases, arith}
use kube_op.Text.{Text, text, to_lower}
use kube_op.Text.Search.{Contains, contains_iff}
use kube_op.Events.{
  MetaValue, string, number, strings, nested, scalar, array, Meta, empty, entry, should_redact_key,
  redact_meta, redact_value,
}

-- In lower case the key has one of the three words in it.
abbrev pub NamesSecret : Text → Type 0
NamesSecret key =
    Contains (to_lower key) (text "secret")
    ⊎ (Contains (to_lower key) (text "token") ⊎ Contains (to_lower key) (text "password"))

should_redact_key_iff : (key : Text) → (should_redact_key key ≡ true) ↔ NamesSecret key
unfolding should_redact_key
should_redact_key_iff key =
    let k = to_lower key in
    ground (
      arith,
      contains_iff k (text "secret"),
      contains_iff k (text "token"),
      contains_iff k (text "password"),
    )

-- The second meta shows the first: the same keys in the same order; under a key that names a secret
-- only that it is redacted; under any other key a nested map shown in this way, and any other value,
-- an array too, as it is.
abbrev mutual
  pub Shows : Meta → Meta → Type 0
  Shows empty empty = Unit
  Shows empty (entry key value m) = ⊥
  Shows (entry key value m) empty = ⊥
  Shows (entry key value m) (entry key' value' m') =
      (key' ≡ key)
      × ((NamesSecret key × (value' ≡ string (text "[redacted]")))
          ⊎ ((¬ NamesSecret key) × ShowsValue value value'))
      × Shows m m'

  pub ShowsValue : MetaValue → MetaValue → Type 0
  ShowsValue (nested m) shown = (r : Meta) × (shown ≡ nested r) × Shows m r
  ShowsValue (string s) shown = shown ≡ string s
  ShowsValue (number n) shown = shown ≡ number n
  ShowsValue (strings ss) shown = shown ≡ strings ss
  ShowsValue (scalar literal) shown = shown ≡ scalar literal
  ShowsValue (array items) shown = shown ≡ array items

mutual
  unfolding redact_meta redact_value

  redact_meta-Shows : (m : Meta) → Shows m (redact_meta m)
  redact_meta-Shows empty = tt
  redact_meta-Shows (entry key value m) = elim (Bool-cases (should_redact_key key)) [
    | inl e ↦ rw e (refl, inl ((should_redact_key_iff key).0 e, refl), redact_meta-Shows m)
    | inr e ↦ rw e (
      refl,
      inr (λ names. (let k = (should_redact_key_iff key).1 names in cc), redact_value-Shows value),
      redact_meta-Shows m,
    )
  ]

  redact_value-Shows : (value : MetaValue) → ShowsValue value (redact_value value)
  redact_value-Shows (nested m) = (redact_meta m, refl, redact_meta-Shows m)
  redact_value-Shows (string s) = refl
  redact_value-Shows (number n) = refl
  redact_value-Shows (strings ss) = refl
  redact_value-Shows (scalar literal) = refl
  redact_value-Shows (array items) = refl

mutual
  unfolding redact_meta redact_value

  redact_meta_idem : (m : Meta) → redact_meta (redact_meta m) ≡ redact_meta m
  redact_meta_idem empty = refl
  redact_meta_idem (entry key value m) = elim (Bool-cases (should_redact_key key)) [
    | inl e ↦ rw (e, redact_meta_idem m) refl
    | inr e ↦ rw (e, redact_meta_idem m, redact_value_idem value) refl
  ]

  redact_value_idem : (value : MetaValue) → redact_value (redact_value value) ≡ redact_value value
  redact_value_idem (nested m) = ap (λ n. nested n) (redact_meta_idem m)
  redact_value_idem (string s) = refl
  redact_value_idem (number n) = refl
  redact_value_idem (strings ss) = refl
  redact_value_idem (scalar literal) = refl
  redact_value_idem (array items) = refl

-- Redacted meta has the same keys in the same order; under a key that has "secret", "token" or
-- "password" in it, in any case, it shows only that the value is redacted, at every depth of maps
-- nested in maps; every other value is shown as it is, an array with all that its maps hold.
-- Redacting it again changes nothing.
pub redact_meta_lem :
    (m : Meta) → Shows m (redact_meta m) × (redact_meta (redact_meta m) ≡ redact_meta m)
redact_meta_lem m = (redact_meta-Shows m, redact_meta_idem m)
