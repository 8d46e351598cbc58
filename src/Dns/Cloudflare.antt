-- ===== src/Dns/Cloudflare.antt =====
-- The Cloudflare provider: EnsureRecords and DeleteRecords.
pub mod Loops
pub mod Creating
pub mod Zones
pub mod Ensured
pub mod Removed
use kube_op.Prelude.{
  ℕ, ◌≡◌, Bool, true, false, not, ◌&&◌, ◌||◌, List, [], ◌∷◌, Option, none, some, any, if◌then◌else◌,
  Result, ok, err, and_then,
}
use kube_op.Text.{Text, text, is_empty, same}
use kube_op.Security.{Addr}
use kube_op.Dns.{
  is_valid, record_type, DnsRecord, list_request, create_request, delete_request, Reply, Api,
  DnsFailure, no_addresses, answered, read, outcome, default_ttl,
}

-- `desired[recType][value]`
unfoldable pub is_desired : List (Text × Text) → Text → Text → Bool
unfolding same
is_desired desired type content = any (λ (t, v). same t type && same v content) desired

-- The set of types and contents that the addresses give.
unfoldable pub desired_records : (Addr → Text) → List Addr → List (Text × Text)
unfolding is_desired
desired_records print [] = []
desired_records print (addr ∷ addrs) =
    let rest = desired_records print addrs in
    if not (is_valid addr) || is_desired rest (record_type addr) (print addr)
    then rest
    else (record_type addr, print addr) ∷ rest

-- A record of the host for an address.
unfoldable pub is_address_of : Text → DnsRecord → Bool
unfolding same
is_address_of host r = same r.name host && (same r.type (text "A") || same r.type (text "AAAA"))

abbrev pub is_stale : Text → List (Text × Text) → DnsRecord → Bool
is_stale host desired r = is_address_of host r && not (is_desired desired r.type r.content)

-- `hasCloudflareRecord`
unfoldable pub has_cloudflare_record : List DnsRecord → Text → Text → Text → Bool
unfolding same
has_cloudflare_record records host type content =
    any (λ r. same r.name host && (same r.type type && same r.content content)) records

module _ {Z : Type 0} (api : Api Z) where
  -- `deleteRecord`
  unfoldable pub delete_record : Text → Z → Z × Option DnsFailure
  delete_record id z = if is_empty id then (z, none) else outcome (read (api (delete_request id) z))

  -- `createRecord`
  unfoldable pub create_record : Text → Text → Text → ℕ → Z → Z × Option DnsFailure
  create_record host type content ttl z =
      outcome (read (api (create_request type host content ttl) z))

  -- The loop that deletes.
  unfoldable pub delete_all : (DnsRecord → Bool) → List DnsRecord → Z → Z × Option DnsFailure
  unfolding delete_record
  delete_all doomed [] z = (z, none)
  delete_all doomed (r ∷ records) z =
      and_then (if doomed r then delete_record r.id z else (z, none))
        (λ y. delete_all doomed records y)

  -- The loop that creates.
  unfoldable pub create_missing :
      List DnsRecord → Text → ℕ → List (Text × Text) → Z → Z × Option DnsFailure
  unfolding has_cloudflare_record create_record
  create_missing existing host ttl [] z = (z, none)
  create_missing existing host ttl ((type, content) ∷ desired) z =
      and_then
        (if has_cloudflare_record existing host type content
          then (z, none)
          else create_record host type content ttl z)
        (λ y. create_missing existing host ttl desired y)

  -- `listRecords`, and what follows it.
  abbrev pub with_records :
      Z × Result DnsFailure Reply
      → (List DnsRecord → Z → Z × Option DnsFailure)
      → Z × Option DnsFailure
  with_records (z, ok reply) next = next reply.result z
  with_records (z, err f) next = (z, some f)

  unfoldable pub ensure_desired :
      List (Text × Text) → List (Text × Text) → Text → ℕ → Z → Z × Option DnsFailure
  unfolding delete_all create_missing is_address_of is_desired
  ensure_desired desired visited host ttl z =
      with_records (read (api (list_request host) z)) (λ existing y.
        and_then (delete_all (is_stale host desired) existing y)
          (λ x. create_missing existing host ttl visited x))

  abbrev pub ensure_some :
      (List (Text × Text) → List (Text × Text))
      → List (Text × Text)
      → Text
      → ℕ
      → Z
      → Z × Option DnsFailure
  ensure_some order [] host ttl z = (z, some no_addresses)
  ensure_some order (d ∷ desired) host ttl z =
      ensure_desired (d ∷ desired) (order (d ∷ desired)) host ttl z

  -- `EnsureRecords`; `order` is the order in which Go visits the map of desired records, `print`
  -- is `Addr.String`. Without addresses there is nothing to do.
  abbrev pub ensure_for :
      (List (Text × Text) → List (Text × Text))
      → (Addr → Text)
      → Text
      → List Addr
      → ℕ
      → Z
      → Z × Option DnsFailure
  ensure_for order print host [] ttl z = (z, none)
  ensure_for order print host (addr ∷ addrs) ttl z =
      ensure_some order (desired_records print (addr ∷ addrs)) host (default_ttl ttl) z

  unfoldable pub ensure_records :
      (List (Text × Text) → List (Text × Text))
      → (Addr → Text)
      → Text
      → List Addr
      → ℕ
      → Z
      → Z × Option DnsFailure
  unfolding ensure_desired desired_records
  ensure_records order print host addrs ttl z =
      if is_empty host then (z, none) else ensure_for order print host addrs ttl z

  -- `DeleteRecords`
  unfoldable pub delete_records : Text → Z → Z × Option DnsFailure
  unfolding delete_all is_address_of
  delete_records host z =
      if is_empty host
      then (z, none)
      else with_records (read (api (list_request host) z))
          (λ existing y. delete_all (is_address_of host) existing y)
