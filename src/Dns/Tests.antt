-- ===== src/Dns/Tests.antt =====
-- A host that moves to another address.
use kube_op.Prelude.{
  some-injective, ℕ, map, inl, arith, ◌≡◌, ◌↔◌, refl, List, [], ◌∷◌, Option, none, some,
}
use kube_op.Text.{Text, text, same}
use kube_op.Security.{Addr, v4, v6}
use kube_op.Dns.{DnsRecord, join_cloudflare_errors}
use kube_op.Dns.Cloudflare.{ensure_records, delete_records}
use kube_op.Dns.Cloudflare.Ensured.{IsEnsured, IsWanted, ensure_records-IsEnsured}
use kube_op.Dns.Cloudflare.Removed.{delete_records-Holds}
use kube_op.Dns.PowerDns
use kube_op.Dns.PowerDns.{RrSet, ensure_trailing_dot, patch_zone}
use kube_op.Dns.PowerDns.Sets.{
  changed, IsFullName, family, v4_numbers, v6_numbers, ensure_records-contents,
}
use kube_op.Dns.Cloudflare.Loops.{FitsPage}
use kube_op.Dns.Cloudflare.Zones.{IsAddressOf}
use kube_op.Dns.Slot.{InSlot, slot_api, slot_api-IsZoneApi}

abbrev old_record : DnsRecord
old_record = record {
  id = text "7";
  type = text "A";
  name = text "web.io";
  content = text "old";
  ttl = 60;
}

-- A printer that tells two addresses apart.
abbrev print : Addr → Text
print (v6 n) = text "::1"
print addr = text "192.0.2.1"

moved_record :
    ensure_records slot_api (λ l. l) print (text "web.io") (v4 3221225985 ∷ []) 0 (some old_record)
    ≡ (
      some (record {
        id = text "1";
        type = text "A";
        name = text "web.io";
        content = text "192.0.2.1";
        ttl = 300;
      }),
      none,
    )
unfolding ensure_records slot_api
moved_record = refl

messages_joined : join_cloudflare_errors (text " a " ∷ text " " ∷ text "b" ∷ []) ≡ text "a; b"
unfolding join_cloudflare_errors
messages_joined = refl

moves :
    (ensure_records slot_api
      (λ l. l)
      print
      (text "web.io")
      (v4 3221225985 ∷ [])
      0
      (some old_record)).1
    ≡ none
unfolding ensure_records slot_api
moves = refl

one_page : FitsPage InSlot 100 (text "web.io") (some old_record)
one_page = (old_record ∷ [], omega arith, λ r k e. inl (some-injective old_record r k.0))

ensure_records-IsEnsured_example :
    IsEnsured InSlot
      (IsWanted print (v4 3221225985 ∷ []))
      (text "web.io")
      (some old_record)
      (ensure_records slot_api
        (λ l. l)
        print
        (text "web.io")
        (v4 3221225985 ∷ [])
        0
        (some old_record)).0
ensure_records-IsEnsured_example =
    ensure_records-IsEnsured slot_api InSlot (λ l. l) print (text "web.io") (v4 3221225985) [] 0
      (some old_record) 100 (λ host. host) slot_api-IsZoneApi one_page refl (λ desired t v. refl)
      refl moves

removes : (delete_records slot_api (text "web.io") (some old_record)).1 ≡ none
unfolding delete_records slot_api
removes = refl

delete_records-Holds_example :
    InSlot (delete_records slot_api (text "web.io") (some old_record)).0 old_record
    ↔ (InSlot (some old_record) old_record × (¬ IsAddressOf (text "web.io") old_record))
delete_records-Holds_example =
    delete_records-Holds slot_api InSlot (text "web.io") (some old_record) 100 (λ host. host)
      slot_api-IsZoneApi one_page refl removes old_record

-- Zones as functions, patched as PowerDNS documents.
abbrev Sets : Type 0
Sets = Text → Text → List Text

abbrev patch : List RrSet → Sets → Sets × Option ℕ
patch sets z = ((λ name type. changed name type sets (z name type)), some 204)

abbrev dual : Sets
dual name type = text "old" ∷ []

patch-changed :
    (sets : List RrSet) (z : Sets)
    → (patch_zone patch sets z).1 ≡ none
    → (name type : Text)
    → (patch_zone patch sets z).0 name type ≡ changed name type sets (z name type)
unfolding patch_zone
patch-changed sets z h name type = refl

patches :
    (PowerDns.ensure_records patch print (text "web.io") (v4 3221225985 ∷ []) 60 dual).1 ≡ none
unfolding PowerDns.ensure_records
patches = refl

-- The IPv6 records of a host that has only an IPv4 address now.
kept_family :
    (PowerDns.ensure_records patch print (text "web.io") (v4 3221225985 ∷ []) 60 dual).0
      (text "web.io.")
      (text "AAAA")
    ≡ text "old" ∷ []
unfolding PowerDns.ensure_records same
kept_family = refl

ensure_records-contents_example :
    (full : Text) × IsFullName (text "web.io") full
    × ((name type : Text)
        → (PowerDns.ensure_records patch print (text "web.io") (v4 3221225985 ∷ []) 60 dual).0 name
            type
          ≡ family full name type
              (map (λ n. print (v4 n)) (v4_numbers (v4 3221225985 ∷ [])))
              (map (λ n. print (v6 n)) (v6_numbers (v4 3221225985 ∷ [])))
              (dual name type))
ensure_records-contents_example =
    ensure_records-contents patch (λ z. z) print (text "web.io") (v4 3221225985) [] 60 dual
      patch-changed refl patches
