-- ===== src/Dns/PowerDns.antt =====
-- The PowerDNS provider: EnsureRecords and DeleteRecords.
pub mod Sets
use kube_op.Prelude.{
  ℕ, ◌≡◌, ◌≢◌, refl, ap, sym, ◌∙◌, Bool, true, false, not, ◌&&◌, ◌||◌, inl, inr, List, [], ◌∷◌,
  ◌++◌, Option, none, some, ltb, leb, if◌then◌else◌, Bool-cases, arith,
}
use kube_op.Text.{Text, text, is_empty, same, trim_space, has_suffix}
use kube_op.Text.Equality.{same_iff, same_refl}
use kube_op.Security.{Addr, invalid, v4, v6}
use kube_op.Dns.{DnsFailure, no_addresses, request_failed, status_failed, default_ttl}

pub data ChangeType : Type 0 where
  replace delete : ChangeType

-- `powerDNSRRSet`; its records are all enabled.
pub record RrSet : Type 0 where
  pub name : Text
  pub type : Text
  pub ttl : ℕ
  pub change : ChangeType
  pub contents : List Text

-- `ensureTrailingDot`
unfoldable pub ensure_trailing_dot : Text → Text
unfolding trim_space has_suffix
ensure_trailing_dot value =
    let v = trim_space value in if is_empty v || has_suffix v (text ".") then v else v ++ text "."

-- The loop that collects the contents of the records of each type; `Is6` holds of the addresses
-- that are `v6`.
unfoldable pub split_records :
    (Addr → Text) → List Addr → List Text → List Text → List Text × List Text
split_records print [] four six = (four, six)
split_records print (invalid ∷ addrs) four six = split_records print addrs four six
split_records print (v6 n ∷ addrs) four six =
    split_records print addrs four (six ++ (print (v6 n) ∷ []))
split_records print (v4 n ∷ addrs) four six =
    split_records print addrs (four ++ (print (v4 n) ∷ [])) six

abbrev pub replacing : Text → Text → ℕ → List Text → List RrSet
replacing name type ttl [] = []
replacing name type ttl (c ∷ contents) =
    record { name = name; type = type; ttl = ttl; change = replace; contents = c ∷ contents } ∷ []

abbrev pub deleting : Text → Text → RrSet
deleting name type = record { name = name; type = type; ttl = 0; change = delete; contents = [] }

-- The payload of `EnsureRecords`.
abbrev pub ensure_sets : (Addr → Text) → Text → List Addr → ℕ → List RrSet
ensure_sets print name addrs ttl =
    let (four, six) = split_records print addrs [] [] in
    replacing name (text "A") ttl four ++ replacing name (text "AAAA") ttl six

module _ {Z : Type 0} (patch : List RrSet → Z → Z × Option ℕ) where
  abbrev patched : Z × Option ℕ → Z × Option DnsFailure
  patched (z, none) = (z, some request_failed)
  patched (z, some status) =
      if ltb status 200 || leb 300 status then (z, some (status_failed status)) else (z, none)

  -- `patchZone`; `patch` is the API, which answers with a status or not at all.
  unfoldable pub patch_zone : List RrSet → Z → Z × Option DnsFailure
  patch_zone sets z = patched (patch sets z)

  abbrev pub patch_some : List RrSet → Z → Z × Option DnsFailure
  patch_some [] z = (z, some no_addresses)
  patch_some (s ∷ sets) z = patch_zone (s ∷ sets) z

  abbrev pub ensure_for : (Addr → Text) → Text → List Addr → ℕ → Z → Z × Option DnsFailure
  ensure_for print host [] ttl z = (z, none)
  ensure_for print host (addr ∷ addrs) ttl z =
      patch_some (ensure_sets print (ensure_trailing_dot host) (addr ∷ addrs) (default_ttl ttl)) z

  -- `EnsureRecords`
  unfoldable pub ensure_records : (Addr → Text) → Text → List Addr → ℕ → Z → Z × Option DnsFailure
  unfolding ensure_trailing_dot split_records patch_zone
  ensure_records print host addrs ttl z =
      if is_empty host then (z, none) else ensure_for print host addrs ttl z

  -- `DeleteRecords`
  unfoldable pub delete_records : Text → Z → Z × Option DnsFailure
  unfolding ensure_trailing_dot patch_zone
  delete_records host z =
      let name = ensure_trailing_dot host in
      if is_empty host
      then (z, none)
      else patch_zone (deleting name (text "A") ∷ deleting name (text "AAAA") ∷ []) z
