-- ===== src/Dns.antt =====
-- DNS records of a host (internal/dns/providers.go): what the providers share, and the calls of an
-- HTTP API. The children Cloudflare and PowerDns hold the providers.
pub mod Cloudflare
pub mod PowerDns
pub mod Slot
pub mod Providers
pub mod Tests
use kube_op.Prelude.{
  ℕ, ◌≡◌, Bool, true, false, not, ◌&&◌, ◌||◌, List, [], ◌∷◌, ◌++◌, Option, none, some, any, ltb,
  leb, if◌then◌else◌, Result, ok, err,
}
use kube_op.Text.{Text, text, is_empty, same, trim_space}
use kube_op.Security.{Addr, invalid, v4, v6}

-- `Addr.IsValid`, and the type of a record by `Addr.Is6`
abbrev pub is_valid : Addr → Bool
is_valid invalid = false
is_valid (v4 n) = true
is_valid (v6 n) = true

abbrev pub record_type : Addr → Text
record_type (v6 n) = text "AAAA"
record_type (v4 n) = text "A"
record_type invalid = text "A"

-- `cloudflareRecord`
pub record DnsRecord : Type 0 where
  pub id : Text
  pub type : Text
  pub name : Text
  pub content : Text
  pub ttl : ℕ

-- What the program asks of the API of Cloudflare.
pub data Request : Type 0 where
  list_request : Text → Request
  create_request : Text → Text → Text → ℕ → Request
  delete_request : Text → Request

-- `cloudflareListResponse` and `cloudflareMutationResponse`
pub record Reply : Type 0 where
  pub success : Bool
  pub errors : List Text
  pub result : List DnsRecord

-- The status of a response, and its body where it decodes.
pub record Response : Type 0 where
  pub status : ℕ
  pub reply : Option Reply

-- The API on its state; no response is an error of the connection or of the URL.
abbrev pub Api : Type 0 → Type 0
Api Z = Request → Z → Z × Option Response

pub data DnsFailure : Type 0 where
  no_addresses request_failed decode_failed : DnsFailure
  status_failed : ℕ → DnsFailure
  api_failed : Text → DnsFailure

-- The messages that are not blank.
abbrev pub messages : List Text → List Text
messages [] = []
messages (e ∷ errors) =
    let rest = messages errors in if is_empty (trim_space e) then rest else trim_space e ∷ rest

abbrev pub joined : List Text → Text
joined [] = []
joined (m ∷ []) = m
joined (m ∷ n ∷ more) = m ++ (text "; " ++ joined (n ∷ more))

abbrev pub or_unknown : List Text → Text
or_unknown [] = text "unknown error"
or_unknown (m ∷ more) = joined (m ∷ more)

-- `joinCloudflareErrors`
unfoldable pub join_cloudflare_errors : List Text → Text
unfolding trim_space
join_cloudflare_errors errors = or_unknown (messages errors)

abbrev pub decoded : Option Reply → Result DnsFailure Reply
decoded none = err decode_failed
decoded (some reply) =
    if reply.success then ok reply else err (api_failed (join_cloudflare_errors reply.errors))

abbrev pub answered : Option Response → Result DnsFailure Reply
answered none = err request_failed
answered (some r) =
    if ltb r.status 200 || leb 300 r.status then err (status_failed r.status) else decoded r.reply

abbrev pub read : {Z : Type 0} → Z × Option Response → Z × Result DnsFailure Reply
read (z, response) = (z, answered response)

abbrev pub outcome : {Z : Type 0} → Z × Result DnsFailure Reply → Z × Option DnsFailure
outcome (z, ok reply) = (z, none)
outcome (z, err f) = (z, some f)

-- A TTL below 0 counts as 0.
abbrev pub default_ttl : ℕ → ℕ
default_ttl ttl = if leb ttl 0 then 300 else ttl
