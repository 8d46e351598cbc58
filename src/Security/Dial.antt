-- ===== src/Security/Dial.antt =====
-- The dialer that `DenyPrivateNetworks` makes of another, in pkg/security/net.go.
use kube_op.Prelude.{
  ℕ, ◌≡◌, refl, Bool, true, false, not, ◌⊎◌, inl, inr, List, [], ◌∷◌, Option, none, some, Result,
  ok, err, if◌then◌else◌,
}
use kube_op.Text.{Text, is_empty}
use kube_op.Security.{Addr, is_public_addr}

-- `net.Conn`, by the text of its remote address and what tells it from others.
pub record Conn : Type 0 where
  pub handle : ℕ
  pub remote_address : Text

pub data DialError : Type 0 where
  base_failed : DialError
  bad_address : DialError
  empty_host : DialError
  non_ip_remote : DialError
  invalid_ip : DialError
  disallowed_ip : DialError

-- What the dialer takes from the package net and netip: the host of an address with a port,
-- ParseIP and AddrFromSlice; and the dialer below it, which may fail.
pub record Network : Type 0 where
  pub split_host_port : Text → Option Text
  pub parse_ip : Text → Option (List ℕ)
  pub addr_from_slice : List ℕ → Option Addr
  pub base : Text → Option Conn

-- What a call returns, the connections that it opened and those that it closed.
pub record Dialled : Type 0 where
  pub result : Result DialError Conn
  pub opened : List Conn
  pub closed : List Conn

abbrev pub refused : DialError → Dialled
refused e = record { result = err e; opened = []; closed = [] }

-- `conn.Close()` and the error.
abbrev pub closing : Conn → DialError → Dialled
closing conn e = record { result = err e; opened = conn ∷ []; closed = conn ∷ [] }

abbrev pub connected : Conn → Dialled
connected conn = record { result = ok conn; opened = conn ∷ []; closed = [] }

module _ (net : Network) where
  -- `base(ctx, network, address)`, returned as it is.
  abbrev pub dial_base : Text → Dialled
  dial_base address = elim (net.base address) [
    | none ↦ refused base_failed
    | some conn ↦ connected conn
  ]

  -- The host is an IP literal.
  abbrev pub dial_ip : Text → List ℕ → Dialled
  dial_ip address ip = elim (net.addr_from_slice ip) [
    | none ↦ refused invalid_ip
    | some addr ↦ if not (is_public_addr addr) then refused disallowed_ip else dial_base address
  ]

  -- The checks of the connection's remote address.
  abbrev pub check_ip : Conn → List ℕ → Dialled
  check_ip conn ip = elim (net.addr_from_slice ip) [
    | none ↦ closing conn invalid_ip
    | some addr ↦ if not (is_public_addr addr) then closing conn disallowed_ip else connected conn
  ]

  abbrev pub check_remote : Conn → Dialled
  check_remote conn = elim (net.split_host_port conn.remote_address) [
    | none ↦ closing conn bad_address
    | some host ↦ elim (net.parse_ip host) [
      | none ↦ closing conn non_ip_remote
      | some ip ↦ check_ip conn ip
    ]
  ]

  abbrev pub dial_name : Text → Dialled
  dial_name address = elim (net.base address) [
    | none ↦ refused base_failed
    | some conn ↦ check_remote conn
  ]

  -- The function that `DenyPrivateNetworks` returns.
  unfoldable pub dial_public : Text → Dialled
  dial_public address = elim (net.split_host_port address) [
    | none ↦ refused bad_address
    | some host ↦
        if is_empty host
        then refused empty_host
        else elim (net.parse_ip host) [ none ↦ dial_name address | some ip ↦ dial_ip address ip ]
  ]

  -- The address in the text with a port is an IP address that is public.
  abbrev pub IsPublicText : Text → Type 0
  IsPublicText address =
      (host : Text) × (net.split_host_port address ≡ some host)
      × (ip : List ℕ) × (net.parse_ip host ≡ some ip)
      × (addr : Addr) × (net.addr_from_slice ip ≡ some addr)
      × (is_public_addr addr ≡ true)

  -- What a call returns and leaves open.
  abbrev pub IsSafe : Text → Dialled → Type 0
  IsSafe address d =
      ((e : DialError) × (d.result ≡ err e) × (d.opened ≡ d.closed))
      ⊎ ((conn : Conn) × (d.result ≡ ok conn)
          × (d.opened ≡ conn ∷ [])
          × (d.closed ≡ [])
          × (net.base address ≡ some conn)
          × (IsPublicText address ⊎ IsPublicText conn.remote_address))

-- A property of both outcomes, each under its equation, holds of a branch on them.
on_option :
    {A : Type 0} (P : Dialled → Type 0) (o : Option A) (x : Dialled) (f : A → Dialled)
    → (o ≡ none → P x)
    → ((a : A) → o ≡ some a → P (f a))
    → P (elim o [ none ↦ x | some a ↦ f a ])
on_option P none x f h k = h refl
on_option P (some a) x f h k = k a refl

on_Bool :
    (P : Dialled → Type 0) (b : Bool) (x y : Dialled)
    → (b ≡ true → P x)
    → (b ≡ false → P y)
    → P (if b then x else y)
on_Bool P true x y h k = h refl
on_Bool P false x y h k = k refl

on_not :
    (P : Dialled → Type 0) (b : Bool) (x y : Dialled)
    → (b ≡ false → P x)
    → (b ≡ true → P y)
    → P (if not b then x else y)
on_not P true x y h k = k refl
on_not P false x y h k = h refl

module _ (net : Network) (address : Text) where
  closing-IsSafe : (conn : Conn) (e : DialError) → IsSafe net address (closing conn e)
  closing-IsSafe conn e = inl (e, refl, refl)

  refused-IsSafe : (e : DialError) → IsSafe net address (refused e)
  refused-IsSafe e = inl (e, refl, refl)

  check_ip-IsSafe :
      (conn : Conn) (host : Text) (ip : List ℕ)
      → net.base address ≡ some conn
      → net.split_host_port conn.remote_address ≡ some host
      → net.parse_ip host ≡ some ip
      → IsSafe net address (check_ip net conn ip)
  check_ip-IsSafe conn host ip b s i =
      on_option (IsSafe net address) (net.addr_from_slice ip) _ _
        (λ e. closing-IsSafe conn invalid_ip)
        (λ addr e.
          on_not (IsSafe net address) (is_public_addr addr) _ _
            (λ private. closing-IsSafe conn disallowed_ip)
            (λ public. inr (conn, refl, refl, refl, b, inr (host, s, ip, i, addr, e, public))))

  check_remote-IsSafe :
      (conn : Conn) → net.base address ≡ some conn → IsSafe net address (check_remote net conn)
  check_remote-IsSafe conn b =
      on_option (IsSafe net address) (net.split_host_port conn.remote_address) _ _
        (λ s. closing-IsSafe conn bad_address)
        (λ host s.
          on_option (IsSafe net address) (net.parse_ip host) _ _
            (λ i. closing-IsSafe conn non_ip_remote) (λ ip i. check_ip-IsSafe conn host ip b s i))

  dial_name-IsSafe : IsSafe net address (dial_name net address)
  dial_name-IsSafe =
      on_option (IsSafe net address) (net.base address) _ _ (λ b. refused-IsSafe base_failed)
        check_remote-IsSafe

  dial_ip-IsSafe :
      (host : Text) (ip : List ℕ)
      → net.split_host_port address ≡ some host
      → net.parse_ip host ≡ some ip
      → IsSafe net address (dial_ip net address ip)
  dial_ip-IsSafe host ip s i =
      on_option (IsSafe net address) (net.addr_from_slice ip) _ _ (λ e. refused-IsSafe invalid_ip)
        (λ addr e.
          on_not (IsSafe net address) (is_public_addr addr) _ _
            (λ private. refused-IsSafe disallowed_ip)
            (λ public.
              on_option (IsSafe net address) (net.base address) _ _
                (λ b. refused-IsSafe base_failed)
                (λ conn b. inr (conn, refl, refl, refl, b, inl (host, s, ip, i, addr, e, public)))))

-- Whatever the network answers, the dialer either returns an error and has closed every connection
-- that it opened, or returns the one connection that the dialer below it opened, still open, and
-- the address asked for or the connection's remote address is a public IP address.
pub dial_public-IsSafe :
    (net : Network) (address : Text) → IsSafe net address (dial_public net address)
unfolding dial_public
dial_public-IsSafe net address =
    on_option (IsSafe net address) (net.split_host_port address) _ _
      (λ s. refused-IsSafe net address bad_address)
      (λ host s.
        on_Bool (IsSafe net address) (is_empty host) _ _
          (λ blank. refused-IsSafe net address empty_host)
          (λ named.
            on_option (IsSafe net address) (net.parse_ip host) _ _
              (λ i. dial_name-IsSafe net address) (λ ip i. dial_ip-IsSafe net address host ip s i)))
