-- ===== src/Dns/Slot.antt =====
-- A zone that holds at most one record, as an API.
use kube_op.Prelude.{
  some-injective, ℕ, ◌≡◌, ◌≢◌, ◌↔◌, refl, ap, sym, ◌∙◌, true, false, not, ◌&&◌, inl, inr, ◌⊎◌, List,
  [], ◌∷◌, Option, none, some, All, Any, if◌then◌else◌, Result, ok, Bool-cases, arith,
}
use kube_op.Text.{Text, text, is_empty, same}
use kube_op.Text.Equality.{same_iff}
use kube_op.Dns.{
  DnsRecord, list_request, create_request, delete_request, Reply, Response, Api, DnsFailure, read,
  outcome, answered,
}
use kube_op.Dns.Cloudflare.Loops.{IsZoneApi}

abbrev pub Slot : Type 0
Slot = Option DnsRecord

abbrev pub InSlot : Slot → DnsRecord → Type 0
InSlot z r = (z ≡ some r) × (is_empty r.id ≡ false)

abbrev success : List DnsRecord → Option Response
success records = some (record {
  status = 200;
  reply = some (record { success = true; errors = []; result = records });
})

abbrev refusal : Option Response
refusal = some (record { status = 404; reply = none })

abbrev listing : Text → Slot → List DnsRecord
listing host none = []
listing host (some r) = if same r.name host && not (is_empty r.id) then r ∷ [] else []

abbrev slot_record : Text → Text → Text → ℕ → DnsRecord
slot_record type host content ttl = record {
  id = text "1";
  type = type;
  name = host;
  content = content;
  ttl = ttl;
}

unfoldable pub slot_api : Api Slot
unfolding same
slot_api (list_request host) z = (z, success (listing host z))
slot_api (create_request type host content ttl) none =
    (some (slot_record type host content ttl), success [])
slot_api (create_request type host content ttl) (some r) = (some r, refusal)
slot_api (delete_request id) none = (none, refusal)
slot_api (delete_request id) (some r) =
    if same r.id id then (none, success []) else (some r, refusal)

slot-listed :
    (host : Text) (z : Slot)
    → All (λ r. InSlot z r) (listing host z)
      × ((r : DnsRecord) → InSlot z r → r.name ≡ host → Any (λ q. q ≡ r) (listing host z))
slot-listed host none = (tt, λ r h e. cc)
slot-listed host (some q) = elim (Bool-cases (same q.name host && not (is_empty q.id))) [
  | inl e ↦ rw e (((refl, ground (arith, e)), tt), λ r h k. inl (some-injective q r h.0))
  | inr e ↦ rw e (
    tt,
    λ r h k.
        let f : (same r.name host && not (is_empty r.id)) ≡ false =
          ap (λ (x : DnsRecord). same x.name host && not (is_empty x.id))
            (sym (some-injective q r h.0))
          ∙ e in
        absurd (ground (arith, f, h.1, k, same_iff r.name host)),
  )
]

slot-deleted :
    (id : Text) (z : Slot)
    → (outcome (read (slot_api (delete_request id) z))).1 ≡ none
    → (r : DnsRecord) → InSlot (slot_api (delete_request id) z).0 r ↔ (InSlot z r × (r.id ≢ id))
unfolding slot_api
slot-deleted id none = λ h r. cc
slot-deleted id (some q) = elim (Bool-cases (same q.id id)) [
  | inl e ↦ rw e (λ h r. (
    λ k. cc,
    λ (k, d).
        absurd (
          d (ap (λ (x : DnsRecord). x.id) (sym (some-injective q r k.0)) ∙ (same_iff q.id id).0 e)),
  ))
  | inr e ↦ rw e (λ h r. cc)
]

slot-created :
    (type host content : Text) (ttl : ℕ) (z : Slot)
    → (outcome (read (slot_api (create_request type host content ttl) z))).1 ≡ none
    → (new : DnsRecord) × (new.type ≡ type)
      × (new.name ≡ host)
      × (new.content ≡ content)
      × ((r : DnsRecord)
          → InSlot (slot_api (create_request type host content ttl) z).0 r
            ↔ (InSlot z r ⊎ (r ≡ new)))
unfolding slot_api
slot-created type host content ttl none h = (
  slot_record type host content ttl,
  refl,
  refl,
  refl,
  λ r. (
    λ k. inr (sym (some-injective (slot_record type host content ttl) r k.0)),
    λ k. elim k [ inl held ↦ cc | inr e ↦ (ap some (sym e), rw e refl) ],
  ),
)
slot-created type host content ttl (some q) h = cc

ok_unique : (r : Result DnsFailure Reply) (x y : Reply) → r ≡ ok x → r ≡ ok y → x ≡ y
ok_unique r x y h k = cc

pub slot_api-IsZoneApi : IsZoneApi slot_api InSlot 100 (λ host. host)
unfolding slot_api
slot_api-IsZoneApi = record {
  identified = λ z r q h k e. some-injective r q (sym h.0 ∙ k.0);
  named = λ z r h. h.1;
  listed = λ host z reply h.
      let (held, complete) = slot-listed host z in
      let same_result : listing host z ≡ reply.result =
        ap (λ (x : Reply). x.result)
          (ok_unique (answered (success (listing host z)))
            (record { success = true; errors = []; result = listing host z }) reply refl h) in
      (
        λ r. (λ k. k, λ k. k),
        rw (sym same_result) held,
        λ fits r k e. rw (sym same_result) (complete r k e),
      );
  deleted = slot-deleted;
  created = slot-created;
}
