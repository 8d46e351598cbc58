-- ===== src/Dns/Cloudflare/Removed.antt =====
-- The zone after DeleteRecords.
use kube_op.Prelude.{ℕ, ◌≡◌, ◌↔◌, ap, sym, ◌∙◌, refl, true, false, List, Option, none}
use kube_op.Text.{Text, is_empty}
use kube_op.Dns.{DnsRecord, list_request, Api, DnsFailure, read}
use kube_op.Dns.Cloudflare.{is_address_of, delete_all, with_records, delete_records}
use kube_op.Dns.Cloudflare.Loops.{FitsPage, IsZoneApi}
use kube_op.Dns.Cloudflare.Zones.{
  IsAddressOf, is_address_of_iff, is_address_of-false_iff, with_records-succeeds, deleted_listed,
}

is_address_of-name : (host : Text) (r : DnsRecord) → is_address_of host r ≡ true → r.name ≡ host
is_address_of-name host r h = ((is_address_of_iff host r).0 h).0

-- If Cloudflare's requests do what `IsZoneApi` says and the records of a host fit into one page, then
-- deleting the records of the host without error leaves exactly the records that are no A or AAAA
-- records of it.
pub delete_records-Holds :
    {Z : Type 0} (api : Api Z) (Holds : Z → DnsRecord → Type 0) (host : Text) (z : Z) (page : ℕ)
    (stored_name : Text → Text)
    → IsZoneApi api Holds page stored_name
    → FitsPage Holds page host z
    → is_empty host ≡ false
    → (delete_records api host z).1 ≡ none
    → (r : DnsRecord) → Holds (delete_records api host z).0 r ↔ (Holds z r × (¬ IsAddressOf host r))
unfolding delete_records
delete_records-Holds {Z} api Holds host z page stored_name is_api fits named h r =
    let next : List DnsRecord → Z → Z × Option DnsFailure =
      λ existing y. delete_all api (is_address_of host) existing y in
    let run = with_records api (read (api (list_request host) z)) next in
    let e : delete_records api host z ≡ run = rw named refl in
    let (reply, listed, goes) =
      with_records-succeeds api (read (api (list_request host) z)) next
        (ap (λ (x : Z × Option DnsFailure). x.1) (sym e) ∙ h) in
    let result : Holds run.0 r ↔ (Holds z r × (is_address_of host r ≡ false)) = rw goes (
      deleted_listed api Holds is_api host z fits reply listed (is_address_of host)
        (is_address_of-name host) (ap (λ (x : Z × Option DnsFailure). x.1) (sym goes ∙ sym e) ∙ h)
        r) in
    let (to, back) = is_address_of-false_iff host r in
    rw e (
      λ k. (let (held, other) = result.0 k in (held, to other)),
      λ (held, other). result.1 (held, back other),
    )
