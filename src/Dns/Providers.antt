-- ===== src/Dns/Providers.antt =====
-- NewProvider, and the provider of a plain HTTP API.
use kube_op.Prelude.{ℕ, ◌||◌, List, [], ◌∷◌, Option, none, some, ltb, leb, ◌==◌, if◌then◌else◌}
use kube_op.Text.{Text, text, is_empty, same, trim_space, trim_right, to_lower}
use kube_op.Security.{Addr}
use kube_op.Dns.{is_valid, record_type}
use kube_op.Dns.PowerDns.{ensure_trailing_dot}

-- The fields of the configuration that `NewProvider` reads.
pub record DnsConfig : Type 0 where
  pub dns_provider : Text
  pub dns_api_url : Text
  pub dns_api_key : Text
  pub cloudflare_api_base : Text
  pub cloudflare_api_token : Text
  pub cloudflare_zone_id : Text
  pub power_dns_api_url : Text
  pub power_dns_api_key : Text
  pub power_dns_server_id : Text
  pub power_dns_zone : Text

pub data Provider : Type 0 where
  http_provider : Text → Text → Provider
  cloudflare_provider : Text → Text → Text → Provider
  power_dns_provider : Text → Text → Text → Text → Provider

-- `strings.TrimRight(s, "/")`
abbrev pub trim_slashes : Text → Text
trim_slashes s = trim_right (λ c. c == b'/') s

abbrev pub new_http : Text → Text → Option Provider
new_http base key =
    if is_empty base || is_empty key then none else some (http_provider (trim_slashes base) key)

abbrev pub new_cloudflare : Text → Text → Text → Option Provider
new_cloudflare base token zone =
    if is_empty base || is_empty token || is_empty zone
    then none
    else some (cloudflare_provider (trim_slashes base) token zone)

abbrev pub new_power_dns : Text → Text → Text → Text → Option Provider
new_power_dns base key server zone =
    if is_empty base || is_empty key || is_empty server || is_empty zone
    then none
    else some (power_dns_provider (trim_slashes base) key server (ensure_trailing_dot zone))

-- `NewProvider` for a configuration that is not nil.
unfoldable pub new_provider : DnsConfig → Option Provider
unfolding trim_space trim_right to_lower same ensure_trailing_dot
new_provider cfg =
    let provider = to_lower (trim_space cfg.dns_provider) in
    if is_empty provider || same provider (text "http")
    then new_http (trim_space cfg.dns_api_url) (trim_space cfg.dns_api_key)
    else if same provider (text "cloudflare")
    then new_cloudflare (trim_space cfg.cloudflare_api_base) (trim_space cfg.cloudflare_api_token)
        (trim_space cfg.cloudflare_zone_id)
    else if same provider (text "powerdns")
    then new_power_dns (trim_space cfg.power_dns_api_url) (trim_space cfg.power_dns_api_key)
        (trim_space cfg.power_dns_server_id) (trim_space cfg.power_dns_zone)
    else none

-- `recordPayload` and `ensurePayload`
pub record RecordPayload : Type 0 where
  pub type : Text
  pub value : Text

pub record EnsurePayload : Type 0 where
  pub fqdn : Text
  pub ttl : ℕ
  pub records : List RecordPayload

-- What the API is asked for.
pub data Call : Type 0 where
  put_records : EnsurePayload → Call
  delete_records_of : Text → Call

-- A status, and the error in the body where it has one.
pub data HttpFailure : Type 0 where
  no_valid_addresses no_response : HttpFailure
  call_failed : ℕ → Text → HttpFailure

unfoldable pub record_payloads : (Addr → Text) → List Addr → List RecordPayload
record_payloads print [] = []
record_payloads print (addr ∷ addrs) =
    let rest = record_payloads print addrs in
    if is_valid addr then record { type = record_type addr; value = print addr } ∷ rest else rest

module _ {Z : Type 0} (send : Call → Z → Z × Option (ℕ × Text)) where
  abbrev pub sent : Z × Option (ℕ × Text) → Z × Option HttpFailure
  sent (z, none) = (z, some no_response)
  sent (z, some (status, error)) =
      if ltb status 200 || leb 300 status then (z, some (call_failed status error)) else (z, none)

  abbrev pub put_some : Text → ℕ → List RecordPayload → Z → Z × Option HttpFailure
  put_some host ttl [] z = (z, some no_valid_addresses)
  put_some host ttl (r ∷ records) z =
      sent (send (put_records (record { fqdn = host; ttl = ttl; records = r ∷ records })) z)

  abbrev pub put_for : (Addr → Text) → Text → List Addr → ℕ → Z → Z × Option HttpFailure
  put_for print host [] ttl z = (z, none)
  put_for print host (addr ∷ addrs) ttl z =
      put_some host ttl (record_payloads print (addr ∷ addrs)) z

  -- `HTTPProvider.EnsureRecords`
  unfoldable pub http_ensure_records :
      (Addr → Text) → Text → List Addr → ℕ → Z → Z × Option HttpFailure
  unfolding record_payloads
  http_ensure_records print host addrs ttl z =
      if is_empty host then (z, none) else put_for print host addrs ttl z

  -- `HTTPProvider.DeleteRecords`
  unfoldable pub http_delete_records : Text → Z → Z × Option HttpFailure
  http_delete_records host z =
      if is_empty host then (z, none) else sent (send (delete_records_of host) z)
