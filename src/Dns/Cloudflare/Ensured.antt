-- ===== src/Dns/Cloudflare/Ensured.antt =====
-- The zone after EnsureRecords and after DeleteRecords.
use kube_op.Prelude.{
  ℕ, ◌≡◌, ◌↔◌, refl, ap, sym, ◌∙◌, true, false, ◌&&◌, ◌||◌, inl, inr, List, [], ◌∷◌, Option, none,
  Any, ok, and_then, and_then-succeeds, arith,
}
use kube_op.Text.{Text, text, is_empty, same}
use kube_op.Text.Equality.{same_iff}
use kube_op.Security.{Addr, invalid, v4, v6}
use kube_op.Dns.{
  is_valid, record_type, default_ttl, DnsRecord, list_request, Reply, Api, DnsFailure, read,
}
use kube_op.Dns.Cloudflare.{
  is_desired, desired_records, is_address_of, is_stale, has_cloudflare_record, delete_all,
  create_missing, ensure_desired, ensure_some, ensure_records,
}
use kube_op.Dns.Cloudflare.Loops.{FitsPage, IsZoneApi}
use kube_op.Dns.Cloudflare.Creating.{create_missing-IsCreated}
use kube_op.Dns.Cloudflare.Zones.{
  IsAddressOf, is_address_of_iff, is_address_of-false_iff, any-All, with_records-succeeds,
  deleted_listed,
}

-- Some valid address has that type and that content.
abbrev pub IsWanted : (Addr → Text) → List Addr → Text → Text → Type 0
IsWanted print addrs t v =
    Any (λ addr. (is_valid addr ≡ true) × (t ≡ record_type addr) × (v ≡ print addr)) addrs

desired_records_iff :
    (print : Addr → Text) (addrs : List Addr) (t v : Text)
    → (is_desired (desired_records print addrs) t v ≡ true) ↔ IsWanted print addrs t v
unfolding desired_records is_desired
desired_records_iff print [] t v = ground arith
desired_records_iff print (addr ∷ addrs) t v = ground (
  arith,
  desired_records_iff print addrs t v,
  desired_records_iff print addrs (record_type addr) (print addr),
  same_iff (record_type addr) t,
  same_iff (print addr) v,
)

IsWanted-type :
    (print : Addr → Text) (addrs : List Addr) (t v : Text)
    → IsWanted print addrs t v
    → (same t (text "A") || same t (text "AAAA")) ≡ true
IsWanted-type print [] t v h = absurd h
IsWanted-type print (invalid ∷ addrs) t v (inl (valid, e, k)) = cc
IsWanted-type print (v4 n ∷ addrs) t v (inl (valid, e, k)) = rw ((same_iff t (text "A")).1 e) refl
IsWanted-type print (v6 n ∷ addrs) t v (inl (valid, e, k)) =
    ground (arith, (same_iff t (text "AAAA")).1 e)
IsWanted-type print (addr ∷ addrs) t v (inr h) = IsWanted-type print addrs t v h

-- The host's address records are the wanted ones, and the other records are as before.
pub record IsEnsured {Z : Type 0} (Holds : Z → DnsRecord → Type 0) (Wanted : Text → Text → Type 0)
    (host : Text) (before after : Z) : Type 0 where
  pub served :
      (t v : Text)
      → Wanted t v
      → (r : DnsRecord) × Holds after r × (r.name ≡ host) × (r.type ≡ t) × (r.content ≡ v)
  pub only : (r : DnsRecord) → Holds after r → IsAddressOf host r → Wanted r.type r.content
  pub others : (r : DnsRecord) → ¬ IsAddressOf host r → Holds after r ↔ Holds before r

-- Go visits each entry of a map once, in any order.
abbrev pub VisitsAll : (List (Text × Text) → List (Text × Text)) → Type 0
VisitsAll order =
    (desired : List (Text × Text)) (t v : Text)
    → is_desired (order desired) t v ≡ is_desired desired t v

is_address_of-split :
    (host : Text) (r : DnsRecord)
    → (is_address_of host r ≡ true)
      ↔ ((r.name ≡ host) × ((same r.type (text "A") || same r.type (text "AAAA")) ≡ true))
unfolding is_address_of
is_address_of-split host r = ground (arith, same_iff r.name host)

stale_iff :
    (host : Text) (desired : List (Text × Text)) (r : DnsRecord)
    → (is_stale host desired r ≡ false)
      ↔ ((is_address_of host r ≡ true) → is_desired desired r.type r.content ≡ true)
stale_iff host desired r = ground arith

is_stale-name :
    (host : Text) (desired : List (Text × Text)) (r : DnsRecord)
    → is_stale host desired r ≡ true
    → r.name ≡ host
is_stale-name host desired r h = ground (arith, h, is_address_of-split host r)

has-found :
    (q : DnsRecord) (host t v : Text)
    → (same q.name host && (same q.type t && same q.content v)) ≡ true
    → (q.name ≡ host) × (q.type ≡ t) × (q.content ≡ v)
has-found q host t v h =
    ground (arith, h, same_iff q.name host, same_iff q.type t, same_iff q.content v)

module _ {Z : Type 0} (api : Api Z) (Holds : Z → DnsRecord → Type 0) {page : ℕ}
    {stored_name : Text → Text} (is_api : IsZoneApi api Holds page stored_name) (host : Text)
    (z : Z) (fits : FitsPage Holds page host z) (canonical : stored_name host ≡ host) where
  after_listing :
      (desired visited : List (Text × Text)) (ttl : ℕ) (reply : Reply)
      → (read (api (list_request host) z)).1 ≡ ok reply
      → ((t v : Text) → is_desired visited t v ≡ is_desired desired t v)
      → ((t v : Text)
          → is_desired desired t v ≡ true
          → (same t (text "A") || same t (text "AAAA")) ≡ true)
      → (and_then
          (delete_all api (is_stale host desired) reply.result (api (list_request host) z).0)
          (λ x. create_missing api reply.result host ttl visited x)).1
        ≡ none
      → IsEnsured Holds
          (λ t v. is_desired desired t v ≡ true)
          host
          z
          (and_then
            (delete_all api (is_stale host desired) reply.result (api (list_request host) z).0)
            (λ x. create_missing api reply.result host ttl visited x)).0
  unfolding has_cloudflare_record
  after_listing desired visited ttl reply listed same_desired typed h =
      let gone =
        delete_all api (is_stale host desired) reply.result (api (list_request host) z).0 in
      let (done, goes) =
        and_then-succeeds gone (λ x. create_missing api reply.result host ttl visited x) h in
      let mid : (r : DnsRecord) → Holds gone.0 r ↔ (Holds z r × (is_stale host desired r ≡ false)) =
        deleted_listed api Holds is_api host z fits reply listed (is_stale host desired)
          (is_stale-name host desired) done in
      let made =
        create_missing-IsCreated api Holds is_api reply.result host ttl visited gone.0 canonical
          (ap (λ (x : Z × Option DnsFailure). x.1) (sym goes) ∙ h) in
      rw goes (record {
        served = λ t v k. elim (made.serves t v (same_desired t v ∙ k)) [
          | inl skipped ↦
              let (q, held, hit) =
                any-All (λ q. Holds z q)
                  (λ q. same q.name host && (same q.type t && same q.content v)) reply.result
                  (is_api.listed host z reply listed).1 skipped in
              let (named, of_type, valued) = has-found q host t v hit in
              let d : is_desired desired q.type q.content ≡ true = rw (of_type, valued) k in
              (
                q,
                made.keeps q ((mid q).1 (held, (stale_iff host desired q).1 (λ address. d))),
                named,
                of_type,
                valued,
              )
          | inr found ↦ found
        ];
        only = λ r held is_address.
            let address = (is_address_of_iff host r).1 is_address in
            elim (made.adds r held) [
              | inl kept ↦ (stale_iff host desired r).0 ((mid r).0 kept).1 address
              | inr (named, d) ↦ sym (same_desired r.type r.content) ∙ d
            ];
        others = λ r not_address.
            let other = (is_address_of-false_iff host r).1 not_address in
            (
              λ held. elim (made.adds r held) [
                | inl kept ↦ ((mid r).0 kept).0
                | inr (named, d) ↦ absurd (
                    let address =
                      (is_address_of-split host r).1
                        (named, typed r.type r.content (sym (same_desired r.type r.content) ∙ d)) in
                    ground (arith, address, other))
              ],
              λ held. made.keeps r (
                  (mid r).1
                    (held, (stale_iff host desired r).1 (λ address. absurd (ground arith)))),
            );
      })

  listed_run :
      (desired visited : List (Text × Text)) (ttl : ℕ)
      → ((t v : Text) → is_desired visited t v ≡ is_desired desired t v)
      → ((t v : Text)
          → is_desired desired t v ≡ true
          → (same t (text "A") || same t (text "AAAA")) ≡ true)
      → (ensure_desired api desired visited host ttl z).1 ≡ none
      → IsEnsured Holds
          (λ t v. is_desired desired t v ≡ true)
          host
          z
          (ensure_desired api desired visited host ttl z).0
  unfolding ensure_desired
  listed_run desired visited ttl same_desired typed h =
      let next : List DnsRecord → Z → Z × Option DnsFailure = λ existing y.
        and_then (delete_all api (is_stale host desired) existing y)
          (λ x. create_missing api existing host ttl visited x) in
      let (reply, listed, goes) =
        with_records-succeeds api (read (api (list_request host) z)) next h in
      rw goes (
        after_listing desired visited ttl reply listed same_desired typed
          (ap (λ (x : Z × Option DnsFailure). x.1) (sym goes) ∙ h))

  ensure_some-IsEnsured :
      (order : List (Text × Text) → List (Text × Text)) (desired : List (Text × Text)) (ttl : ℕ)
      → VisitsAll order
      → ((t v : Text)
          → is_desired desired t v ≡ true
          → (same t (text "A") || same t (text "AAAA")) ≡ true)
      → (ensure_some api order desired host ttl z).1 ≡ none
      → IsEnsured Holds
          (λ t v. is_desired desired t v ≡ true)
          host
          z
          (ensure_some api order desired host ttl z).0
  ensure_some-IsEnsured order [] ttl visits typed h = cc
  ensure_some-IsEnsured order (d ∷ desired) ttl visits typed h =
      listed_run (d ∷ desired) (order (d ∷ desired)) ttl (visits (d ∷ desired)) typed h

  wanted-IsEnsured :
      (Wanted Named : Text → Text → Type 0) (after : Z)
      → ((t v : Text) → Named t v ↔ Wanted t v)
      → IsEnsured Holds Named host z after
      → IsEnsured Holds Wanted host z after
  wanted-IsEnsured Wanted Named after iff x = record {
    served = λ t v k. x.served t v ((iff t v).1 k);
    only = λ r held address. (iff r.type r.content).0 (x.only r held address);
    others = x.others;
  }

-- If Cloudflare's requests do what `IsZoneApi` says, Go visits every entry of a map, the records
-- of a host fit into one page and its name is stored as it is given, then ensuring the records of
-- the host, with at least one address, without error leaves a record for every valid address, no
-- other A or AAAA record of the host, and every other record as it was.
pub ensure_records-IsEnsured :
    {Z : Type 0} (api : Api Z) (Holds : Z → DnsRecord → Type 0)
    (order : List (Text × Text) → List (Text × Text)) (print : Addr → Text) (host : Text)
    (addr : Addr) (addrs : List Addr) (ttl : ℕ) (z : Z) (page : ℕ) (stored_name : Text → Text)
    → IsZoneApi api Holds page stored_name
    → FitsPage Holds page host z
    → stored_name host ≡ host
    → VisitsAll order
    → is_empty host ≡ false
    → (ensure_records api order print host (addr ∷ addrs) ttl z).1 ≡ none
    → IsEnsured Holds
        (IsWanted print (addr ∷ addrs))
        host
        z
        (ensure_records api order print host (addr ∷ addrs) ttl z).0
unfolding ensure_records
ensure_records-IsEnsured api Holds order print host addr addrs ttl z page stored_name is_api fits
      canonical visits named h =
    let desired = desired_records print (addr ∷ addrs) in
    let run = ensure_some api order desired host (default_ttl ttl) z in
    let e : ensure_records api order print host (addr ∷ addrs) ttl z ≡ run = rw named refl in
    rw e (
      wanted-IsEnsured api Holds is_api host z fits canonical (IsWanted print (addr ∷ addrs))
        (λ t v. is_desired desired t v ≡ true) run.0 (desired_records_iff print (addr ∷ addrs))
        (ensure_some-IsEnsured api Holds is_api host z fits canonical order desired
          (default_ttl ttl) visits
          (λ t v d.
            IsWanted-type print (addr ∷ addrs) t v
              ((desired_records_iff print (addr ∷ addrs) t v).0 d))
          (ap (λ x. x.1) (sym e) ∙ h)))
