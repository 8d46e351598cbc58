-- ===== src/Security/Tests.antt =====
-- Hosts, addresses and a dialer on concrete networks.
use kube_op.Prelude.{
  ℕ, ◌+◌, ◌*◌, ◌^◌, ◌≡◌, ◌≢◌, refl, true, false, ◌↔◌, List, [], ◌∷◌, Option, none, some, err, Any,
}
use kube_op.Text.{Text, text}
use kube_op.Security.{Addr, v4, v6, dotted, allowed_host, has_dot_dot, is_public_addr}
use kube_op.Security.Hosts.{RuleAllows, comparable, allowed_host_iff}
use kube_op.Security.Addresses.{IsPublic, is_public_addr_iff}
use kube_op.Security.Dial.{Conn, Network, dial_public, IsSafe, dial_public-IsSafe, disallowed_ip}

hosts :
    (allowed_host (text " Git.Example.com ") (text "*.example.COM" ∷ []) ≡ true)
    × (allowed_host (text "evilexample.com") (text "*.example.com" ∷ []) ≡ false)
    × (allowed_host (text "example.com") [] ≡ false)
    × (has_dot_dot (text "/a/%2E%2e/b") ≡ true)
unfolding allowed_host has_dot_dot
hosts = (refl, refl, refl, refl)

-- ::ffff:10.0.0.1
abbrev mapped_private : Addr
mapped_private = v6 (65535 * 2 ^ 32 + dotted 10 0 0 1)

addresses :
    (is_public_addr (v4 (dotted 8 8 8 8)) ≡ true)
    × (is_public_addr (v4 (dotted 172 31 255 255)) ≡ false)
    × (is_public_addr mapped_private ≡ false)
unfolding is_public_addr
addresses = (refl, refl, refl)

abbrev parse_blank : Text → Option (List ℕ)
parse_blank [] = some []
parse_blank (c ∷ s) = none

-- Every name resolves to 10.0.0.1, as a resolver under attack may answer.
abbrev rebound : Network
rebound = record {
  split_host_port = λ address. some address;
  parse_ip = parse_blank;
  addr_from_slice = λ ip. some mapped_private;
  base = λ address. some (record { handle = 1; remote_address = [] });
}

abbrev first_conn : Conn
first_conn = record { handle = 1; remote_address = [] }

refuses_rebound :
    dial_public rebound (text "example.com")
    ≡ record { result = err disallowed_ip; opened = first_conn ∷ []; closed = first_conn ∷ [] }
unfolding dial_public is_public_addr
refuses_rebound = refl

allowed_host_iff_example :
    (allowed_host (text "Git.example.com") (text "*.example.com" ∷ []) ≡ true) ↔ (
      (comparable (text "Git.example.com") ≢ [])
      × Any
          (λ rule. RuleAllows (comparable rule) (comparable (text "Git.example.com")))
          (text "*.example.com" ∷ []))
allowed_host_iff_example = allowed_host_iff (text "Git.example.com") (text "*.example.com" ∷ [])

is_public_addr_iff_example : (is_public_addr mapped_private ≡ true) ↔ IsPublic mapped_private
is_public_addr_iff_example = is_public_addr_iff mapped_private

dial_public-IsSafe_example :
    IsSafe rebound (text "example.com") (dial_public rebound (text "example.com"))
dial_public-IsSafe_example = dial_public-IsSafe rebound (text "example.com")
