-- ===== src/Dns/Cloudflare/Zones.antt =====
-- The zone after a call of the provider that lists, deletes and creates.
use kube_op.Prelude.{
  ℕ, ◌≡◌, ◌↔◌, refl, ap, sym, ◌∙◌, Bool, true, false, ◌&&◌, ◌||◌, inl, inr, ◌⊎◌, List, [], ◌∷◌,
  Option, none, any, All, All-mono, Any, Result, ok, err, Bool-cases, arith,
}
use kube_op.Text.{Text, text, is_empty, same}
use kube_op.Text.Equality.{same_iff, same_refl}
use kube_op.Dns.{DnsRecord, list_request, Reply, Api, DnsFailure, read}
use kube_op.Dns.Cloudflare.{is_address_of, delete_all, with_records}
use kube_op.Dns.Cloudflare.Loops.{FitsPage, IsZoneApi, delete_all-Holds}

-- An A or AAAA record of the host.
abbrev pub IsAddressOf : Text → DnsRecord → Type 0
IsAddressOf host r = (r.name ≡ host) × ((r.type ≡ text "A") ⊎ (r.type ≡ text "AAAA"))

pub is_address_of_iff :
    (host : Text) (r : DnsRecord) → (is_address_of host r ≡ true) ↔ IsAddressOf host r
unfolding is_address_of
is_address_of_iff host r =
    ground (arith, same_iff r.name host, same_iff r.type (text "A"), same_iff r.type (text "AAAA"))

pub is_address_of-false_iff :
    (host : Text) (r : DnsRecord) → (is_address_of host r ≡ false) ↔ (¬ IsAddressOf host r)
is_address_of-false_iff host r = elim (Bool-cases (is_address_of host r)) [
  | inl e ↦ (λ h. cc, λ h. absurd (h ((is_address_of_iff host r).0 e)))
  | inr e ↦ (λ h k. (let back = (is_address_of_iff host r).1 k in cc), λ h. e)
]

Any-any :
    {A : Type 0} (p : A → Bool) (x : A) (xs : List A)
    → Any (λ y. y ≡ x) xs
    → p x ≡ true
    → any p xs ≡ true
Any-any p x [] h e = absurd h
Any-any p x (y ∷ xs) (inl k) e = rw (k, e) refl
Any-any p x (y ∷ xs) (inr k) e = ground (arith, Any-any p x xs k e)

pub any-All :
    {A : Type 0} (P : A → Type 0) (p : A → Bool) (xs : List A)
    → All P xs
    → any p xs ≡ true
    → (x : A) × P x × (p x ≡ true)
any-All P p [] h e = absurd (ground arith)
any-All P p (x ∷ xs) h e = elim (Bool-cases (p x)) [
  | inl k ↦ (x, h.0, k)
  | inr k ↦ any-All P p xs h.1 (ap (λ b. b || any p xs) (sym k) ∙ e)
]

pub with_records-succeeds :
    {Z : Type 0} (api : Api Z) (x : Z × Result DnsFailure Reply)
    (next : List DnsRecord → Z → Z × Option DnsFailure)
    → (with_records api x next).1 ≡ none
    → (reply : Reply) × (x.1 ≡ ok reply) × (with_records api x next ≡ next reply.result x.0)
with_records-succeeds api (z, ok reply) next h = (reply, refl, refl)
with_records-succeeds api (z, err f) next h = cc

module _ {Z : Type 0} (api : Api Z) (Holds : Z → DnsRecord → Type 0) {page : ℕ}
    {stored_name : Text → Text} (is_api : IsZoneApi api Holds page stored_name) (host : Text)
    (z : Z) (fits : FitsPage Holds page host z) (reply : Reply)
    (listed : (read (api (list_request host) z)).1 ≡ ok reply) (doomed : DnsRecord → Bool)
    (own : (r : DnsRecord) → doomed r ≡ true → r.name ≡ host) where
  -- Deleting what is listed and doomed leaves exactly what is not doomed.
  pub deleted_listed :
      (delete_all api doomed reply.result (api (list_request host) z).0).1 ≡ none
      → (r : DnsRecord)
      → Holds (delete_all api doomed reply.result (api (list_request host) z).0).0 r
        ↔ (Holds z r × (doomed r ≡ false))
  deleted_listed h r =
      let (same_zone, all_held, lists_all) = is_api.listed host z reply listed in
      let (gone, spared) =
        delete_all-Holds api Holds is_api doomed reply.result (api (list_request host) z).0
          (All-mono (λ q. Holds z q) (λ q. is_empty q.id ≡ false) (λ q k. is_api.named z q k)
            reply.result all_held)
          h r in
      (
        λ k.
            let (held, not_any) = gone k in
            let before = (same_zone r).0 held in
            (
              before,
              elim (Bool-cases (doomed r)) [
                | inl e ↦ absurd (
                    let hit =
                      Any-any (λ q. doomed q && same q.id r.id) r reply.result
                        (lists_all fits r before (own r e)) (rw (e, same_refl r.id) refl) in
                    ground (arith, hit, not_any))
                | inr e ↦ e
              ],
            ),
        λ (before, e). spared (
          (same_zone r).1 before,
          elim (Bool-cases (any (λ q. doomed q && same q.id r.id) reply.result)) [
            | inl hit ↦ absurd (
                let (q, held, both) =
                  any-All (λ q. Holds z q) (λ q. doomed q && same q.id r.id) reply.result all_held
                    hit in
                let is_doomed : doomed q ≡ true = ground (arith, both) in
                let one : q ≡ r =
                  is_api.identified z q r held before (ground (arith, both, same_iff q.id r.id)) in
                let again : doomed r ≡ true = ap doomed (sym one) ∙ is_doomed in
                ground (arith, again, e))
            | inr miss ↦ miss
          ],
        ),
      )
