-- ===== src/Policy/Order.antt =====
-- Sorting the entries: the result is sorted, holds the same entries, and is kept by a second sort.
use kube_op.Prelude.{
  ◌≡◌, ◌≢◌, refl, ap, ◌∙◌, true, false, ◌↔◌, ◌⊎◌, inl, inr, List, [], ◌∷◌, arith, All, Any,
  Bool-cases,
}
use kube_op.Text.{Text}
use kube_op.Policy.{text_leb, insert_text, sort_texts}

text_leb_total : (s t : Text) → text_leb s t ≡ false → text_leb t s ≡ true
unfolding text_leb
text_leb_total [] t h = cc
text_leb_total (c ∷ s) [] h = refl
text_leb_total (c ∷ s) (d ∷ t) h = ground (arith, text_leb_total s t)

abbrev pub AtMost : Text → List Text → Type 0
AtMost s [] = Unit
AtMost s (t ∷ ts) = text_leb s t ≡ true

abbrev pub IsSorted : List Text → Type 0
IsSorted [] = Unit
IsSorted (s ∷ ts) = AtMost s ts × IsSorted ts

AtMost-insert_text :
    (t s : Text) (ts : List Text) → text_leb t s ≡ true → AtMost t ts → AtMost t (insert_text s ts)
unfolding insert_text
AtMost-insert_text t s [] h k = h
AtMost-insert_text t s (u ∷ ts) h k = ground arith

insert_text-IsSorted : (s : Text) (ts : List Text) → IsSorted ts → IsSorted (insert_text s ts)
unfolding insert_text
insert_text-IsSorted s [] h = (tt, tt)
insert_text-IsSorted s (t ∷ ts) h = elim (Bool-cases (text_leb s t)) [
  | inl e ↦ rw e (e, h)
  | inr e ↦
      rw e (AtMost-insert_text t s ts (text_leb_total s t e) h.0, insert_text-IsSorted s ts h.1)
]

pub sort_texts-IsSorted : (ts : List Text) → IsSorted (sort_texts ts)
unfolding sort_texts
sort_texts-IsSorted [] = tt
sort_texts-IsSorted (s ∷ ts) = insert_text-IsSorted s (sort_texts ts) (sort_texts-IsSorted ts)

insert_text_of_AtMost : (s : Text) (ts : List Text) → AtMost s ts → insert_text s ts ≡ s ∷ ts
unfolding insert_text
insert_text_of_AtMost s [] h = refl
insert_text_of_AtMost s (t ∷ ts) h = rw h refl

pub sort_texts_of_IsSorted : (ts : List Text) → IsSorted ts → sort_texts ts ≡ ts
unfolding sort_texts
sort_texts_of_IsSorted [] h = refl
sort_texts_of_IsSorted (s ∷ ts) h =
    ap (insert_text s) (sort_texts_of_IsSorted ts h.1) ∙ insert_text_of_AtMost s ts h.0

module _ (P : Text → Type 0) where
  Any-insert_text : (s : Text) (ts : List Text) → Any P (insert_text s ts) ↔ (P s ⊎ Any P ts)
  unfolding insert_text
  Any-insert_text s [] = (λ h. h, λ h. h)
  Any-insert_text s (t ∷ ts) = ground (arith, Any-insert_text s ts)

  pub Any-sort_texts : (ts : List Text) → Any P (sort_texts ts) ↔ Any P ts
  unfolding sort_texts
  Any-sort_texts [] = (λ h. h, λ h. h)
  Any-sort_texts (s ∷ ts) = ground (arith, Any-insert_text s (sort_texts ts), Any-sort_texts ts)

  All-insert_text : (s : Text) (ts : List Text) → P s → All P ts → All P (insert_text s ts)
  unfolding insert_text
  All-insert_text s [] h k = (h, tt)
  All-insert_text s (t ∷ ts) h k = ground (arith, All-insert_text s ts)

  pub All-sort_texts : (ts : List Text) → All P ts → All P (sort_texts ts)
  unfolding sort_texts
  All-sort_texts [] h = tt
  All-sort_texts (s ∷ ts) h = All-insert_text s (sort_texts ts) h.0 (All-sort_texts ts h.1)

insert_text-ne-nil : (s : Text) (ts : List Text) → insert_text s ts ≢ []
unfolding insert_text
insert_text-ne-nil s [] = cc
insert_text-ne-nil s (t ∷ ts) = ground arith

pub sort_texts-eq-nil_iff : (ts : List Text) → (sort_texts ts ≡ []) ↔ (ts ≡ [])
unfolding sort_texts
sort_texts-eq-nil_iff [] = (λ h. h, λ h. h)
sort_texts-eq-nil_iff (s ∷ ts) = (λ h. absurd (insert_text-ne-nil s (sort_texts ts) h), λ h. cc)
