-- ===== src/Security.antt =====
-- pkg/security/net.go: which hosts and addresses the control plane may reach. Here AllowedHost,
-- HasDotDot and IsPublicAddr; the child Dial holds DenyPrivateNetworks.
pub mod Hosts
pub mod Addresses
pub mod Dial
pub mod Paths
pub mod Tests
use kube_op.Prelude.{
  ℕ, ◌+◌, ◌*◌, ◌/◌, ◌%◌, ◌^◌, ◌-◌, Bool, true, false, not, ◌&&◌, ◌||◌, List, [], ◌∷◌, any, leb, ltb,
  ◌==◌, if◌then◌else◌,
}
use kube_op.Text.{
  Text, text, is_empty, same, trim_space, to_lower, has_prefix, trim_prefix, has_suffix, contains,
}

-- One rule of the allowlist, trimmed and lowered, against the host.
unfoldable pub rule_allows : Text → Text → Bool
unfolding same has_prefix trim_prefix has_suffix
rule_allows rule host =
    if is_empty rule
    then false
    else if same rule (text "*")
    then true
    else if has_prefix rule (text "*.")
    then same host (trim_prefix rule (text "*."))
      || has_suffix host (b'.' ∷ trim_prefix rule (text "*."))
    else same host rule

-- `AllowedHost`
unfoldable pub allowed_host : Text → List Text → Bool
unfolding to_lower trim_space rule_allows
allowed_host host allowlist =
    let wanted = to_lower (trim_space host) in
    if is_empty wanted
    then false
    else any (λ rule. rule_allows (to_lower (trim_space rule)) wanted) allowlist

-- `HasDotDot`
unfoldable pub has_dot_dot : Text → Bool
unfolding contains to_lower
has_dot_dot path = contains path (text "..") || contains (to_lower path) (text "%2e")

-- `netip.Addr` without a zone: the zero Addr, or a number of 32 or of 128 bits.
pub data Addr : Type 0 where
  invalid : Addr
  v4 : ℕ → Addr
  v6 : ℕ → Addr

-- `Addr.Unmap`: ::ffff:0:0/96 holds the addresses of 32 bits.
unfoldable pub unmap : Addr → Addr
unmap invalid = invalid
unmap (v4 n) = v4 n
unmap (v6 n) = if n / 2 ^ 32 == 65535 then v4 (n % 2 ^ 32) else v6 n

-- `Prefix.Contains` for a network of 32 or 128 bits: the first `bits` bits agree.
abbrev pub contains_v4 : ℕ → ℕ → ℕ → Bool
contains_v4 network bits n = n / 2 ^ (32 - bits) == network / 2 ^ (32 - bits)

abbrev pub contains_v6 : ℕ → ℕ → ℕ → Bool
contains_v6 network bits n = n / 2 ^ (128 - bits) == network / 2 ^ (128 - bits)

-- The number of a.b.c.d, and of the address with the first 16 bits given.
abbrev pub dotted : ℕ → ℕ → ℕ → ℕ → ℕ
dotted a b c d = ((a * 256 + b) * 256 + c) * 256 + d

abbrev pub leading : ℕ → ℕ
leading n = n * 2 ^ 112

-- `Addr.IsGlobalUnicast`: not unspecified, broadcast, loopback, multicast or link-local.
unfoldable pub is_global_unicast : Addr → Bool
is_global_unicast invalid = false
is_global_unicast (v4 n) = not (
    n == 0
    || n == dotted 255 255 255 255
    || contains_v4 (dotted 127 0 0 0) 8 n
    || contains_v4 (dotted 224 0 0 0) 4 n
    || contains_v4 (dotted 169 254 0 0) 16 n)
is_global_unicast (v6 n) =
    not (n == 0 || n == 1 || contains_v6 (leading 65280) 8 n || contains_v6 (leading 65152) 10 n)

-- `privateCIDRs`
unfoldable pub is_private : Addr → Bool
is_private invalid = false
is_private (v4 n) =
    contains_v4 (dotted 10 0 0 0) 8 n
    || contains_v4 (dotted 172 16 0 0) 12 n
    || contains_v4 (dotted 192 168 0 0) 16 n
    || contains_v4 (dotted 169 254 0 0) 16 n
    || contains_v4 (dotted 127 0 0 0) 8 n
is_private (v6 n) =
    contains_v6 1 128 n || contains_v6 (leading 64512) 7 n || contains_v6 (leading 65152) 10 n

-- `IsPublicAddr`
unfoldable pub is_public_addr : Addr → Bool
unfolding unmap is_global_unicast is_private
is_public_addr addr = is_global_unicast (unmap addr) && not (is_private (unmap addr))
