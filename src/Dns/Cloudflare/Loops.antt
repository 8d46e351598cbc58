-- ===== src/Dns/Cloudflare/Loops.antt =====
-- What the two loops leave in the zone.
use kube_op.Prelude.{
  ℕ, ◌≡◌, ◌≢◌, ◌≤◌, length, ◌↔◌, refl, ap, sym, ◌∙◌, Bool, true, false, ◌&&◌, ◌||◌, inl, inr, ◌⊎◌,
  List, [], ◌∷◌, Option, none, any, All, Any, if◌then◌else◌, Result, ok, err, and_then-succeeds,
  arith,
}
use kube_op.Text.{Text, is_empty, same}
use kube_op.Text.Equality.{same_iff}
use kube_op.Dns.{
  DnsRecord, list_request, create_request, delete_request, Reply, Api, DnsFailure, read, outcome,
}
use kube_op.Dns.Cloudflare.{delete_record, create_record, delete_all}

-- The records of the host that the zone holds are all on a list of at most `page`.
abbrev pub FitsPage : {Z : Type 0} → (Z → DnsRecord → Type 0) → ℕ → Text → Z → Type 0
FitsPage Holds page host z =
    (records : List DnsRecord) × (length records ≤ page)
    × ((r : DnsRecord) → Holds z r → r.name ≡ host → Any (λ q. q ≡ r) records)

-- What Cloudflare documents of requests that succeed, for the records that a state of the API
-- holds: a list without a page number is the first page, and names are stored in a form of their own.
pub record IsZoneApi {Z : Type 0} (api : Api Z) (Holds : Z → DnsRecord → Type 0) (page : ℕ)
    (stored_name : Text → Text) : Type 0 where
  pub identified : (z : Z) (r q : DnsRecord) → Holds z r → Holds z q → r.id ≡ q.id → r ≡ q
  pub named : (z : Z) (r : DnsRecord) → Holds z r → is_empty r.id ≡ false
  pub listed :
      (host : Text) (z : Z) (reply : Reply)
      → (read (api (list_request host) z)).1 ≡ ok reply
      → ((r : DnsRecord) → Holds (api (list_request host) z).0 r ↔ Holds z r)
        × All (λ r. Holds z r) reply.result
        × (FitsPage Holds page host z
            → (r : DnsRecord) → Holds z r
            → r.name ≡ host
            → Any (λ q. q ≡ r) reply.result)
  pub deleted :
      (id : Text) (z : Z)
      → (outcome (read (api (delete_request id) z))).1 ≡ none
      → (r : DnsRecord) → Holds (api (delete_request id) z).0 r ↔ (Holds z r × (r.id ≢ id))
  pub created :
      (type host content : Text) (ttl : ℕ) (z : Z)
      → (outcome (read (api (create_request type host content ttl) z))).1 ≡ none
      → (new : DnsRecord) × (new.type ≡ type)
        × (new.name ≡ stored_name host)
        × (new.content ≡ content)
        × ((r : DnsRecord)
            → Holds (api (create_request type host content ttl) z).0 r ↔ (Holds z r ⊎ (r ≡ new)))

outcome-state : {Z : Type 0} (x : Z × Result DnsFailure Reply) → (outcome x).0 ≡ x.0
outcome-state (z, ok reply) = refl
outcome-state (z, err f) = refl

or-false_iff : (b c : Bool) → ((b || c) ≡ false) ↔ ((b ≡ false) × (c ≡ false))
or-false_iff b c = ground arith

same-false_iff : (a b : Text) → (same a b ≡ false) ↔ (b ≢ a)
same-false_iff a b = ground (arith, same_iff a b)

module _ {Z : Type 0} (api : Api Z) (Holds : Z → DnsRecord → Type 0) {page : ℕ}
    {stored_name : Text → Text} (is_api : IsZoneApi api Holds page stored_name) where
  delete_record-Holds :
      (id : Text) (z : Z)
      → is_empty id ≡ false
      → (delete_record api id z).1 ≡ none
      → (r : DnsRecord) → Holds (delete_record api id z).0 r ↔ (Holds z r × (same id r.id ≡ false))
  unfolding delete_record
  delete_record-Holds id z n h r =
      let call = read (api (delete_request id) z) in
      let e : delete_record api id z ≡ outcome call = rw n refl in
      let (gone, spared) =
        is_api.deleted id z (ap (λ (x : Z × Option DnsFailure). x.1) (sym e) ∙ h) r in
      rw (e, outcome-state call)
        (
          λ k. let (before, differs) = gone k in (before, (same-false_iff id r.id).1 differs),
          λ (before, differs). spared (before, (same-false_iff id r.id).0 differs),
        )

  -- A record that is doomed or not.
  delete_if-Holds :
      (d : Bool) (id : Text) (z : Z)
      → is_empty id ≡ false
      → (if d then delete_record api id z else (z, none)).1 ≡ none
      → (r : DnsRecord)
      → Holds (if d then delete_record api id z else (z, none)).0 r
        ↔ (Holds z r × ((d && same id r.id) ≡ false))
  delete_if-Holds true id z n h r = delete_record-Holds id z n h r
  delete_if-Holds false id z n h r = (λ k. (k, refl), λ k. k.0)

  -- The loop that deletes leaves the records but those that it was told to delete.
  pub delete_all-Holds :
      (doomed : DnsRecord → Bool) (records : List DnsRecord) (z : Z)
      → All (λ q. is_empty q.id ≡ false) records
      → (delete_all api doomed records z).1 ≡ none
      → (r : DnsRecord)
      → Holds (delete_all api doomed records z).0 r
        ↔ (Holds z r × (any (λ q. doomed q && same q.id r.id) records ≡ false))
  unfolding delete_all
  delete_all-Holds doomed [] z n h r = (λ k. (k, refl), λ k. k.0)
  delete_all-Holds doomed (q ∷ records) z n h r =
      let step : Z × Option DnsFailure = if doomed q then delete_record api q.id z else (z, none) in
      let next : Z → Z × Option DnsFailure = λ y. delete_all api doomed records y in
      let (done, goes) = and_then-succeeds step next h in
      let first = delete_if-Holds (doomed q) q.id z n.0 done r in
      let rest =
        delete_all-Holds doomed records step.0 n.1
          (ap (λ (x : Z × Option DnsFailure). x.1) (sym goes) ∙ h) r in
      let split =
        or-false_iff (doomed q && same q.id r.id) (any (λ q. doomed q && same q.id r.id) records) in
      rw goes (
        λ k.
            let (held, not_later) = rest.0 k in
            let (before, not_now) = first.0 held in (before, split.1 (not_now, not_later)),
        λ (before, spared).
            let (not_now, not_later) = split.0 spared in
            rest.1 (first.1 (before, not_now), not_later),
      )

  -- A record of the host by a type and a content that the zone holds.
  abbrev pub Serves : Text → Text → Text → Z → Type 0
  Serves host type content z =
      (r : DnsRecord) × Holds z r × (r.name ≡ host) × (r.type ≡ type) × (r.content ≡ content)

  create_record-Holds :
      (host type content : Text) (ttl : ℕ) (z : Z)
      → stored_name host ≡ host
      → (create_record api host type content ttl z).1 ≡ none
      → (new : DnsRecord) × (new.type ≡ type)
        × (new.name ≡ host)
        × (new.content ≡ content)
        × ((r : DnsRecord)
            → Holds (create_record api host type content ttl z).0 r ↔ (Holds z r ⊎ (r ≡ new)))
  unfolding create_record
  create_record-Holds host type content ttl z canonical h =
      let (new, of_type, of_host, of_content, holds) = is_api.created type host content ttl z h in
      rw (outcome-state (read (api (create_request type host content ttl) z)))
        (new, of_type, of_host ∙ canonical, of_content, holds)

  -- What a step of the loop keeps, adds and serves.
  pub record IsCreated (host : Text) (Wanted : Text → Text → Type 0)
      (Skipped : Text → Text → Type 0) (before after : Z) : Type 0 where
    pub keeps : (r : DnsRecord) → Holds before r → Holds after r
    pub adds :
        (r : DnsRecord)
        → Holds after r
        → Holds before r ⊎ ((r.name ≡ host) × Wanted r.type r.content)
    pub serves :
        (type content : Text)
        → Wanted type content
        → Skipped type content ⊎ Serves host type content after

  pub create_unless-IsCreated :
      (b : Bool) (host type content : Text) (ttl : ℕ) (z : Z)
      → stored_name host ≡ host
      → (if b then (z, none) else create_record api host type content ttl z).1 ≡ none
      → IsCreated host
          (λ t v. (t ≡ type) × (v ≡ content))
          (λ t v. b ≡ true)
          z
          (if b then (z, none) else create_record api host type content ttl z).0
  create_unless-IsCreated true host type content ttl z canonical h = record {
    keeps = λ r k. k;
    adds = λ r k. inl k;
    serves = λ t v k. inl refl;
  }
  create_unless-IsCreated false host type content ttl z canonical h =
      let (new, of_type, of_host, of_content, holds) =
        create_record-Holds host type content ttl z canonical h in
      record {
        keeps = λ r k. (holds r).1 (inl k);
        adds = λ r k. elim ((holds r).0 k) [
          | inl old ↦ inl old
          | inr e ↦ inr (rw e of_host, (rw e of_type, rw e of_content))
        ];
        serves = λ t v k.
            inr (new, (holds new).1 (inr refl), of_host, of_type ∙ sym k.0, of_content ∙ sym k.1);
      }
