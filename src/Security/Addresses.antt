-- ===== src/Security/Addresses.antt =====
-- The addresses that are public, as intervals of numbers.
use kube_op.Prelude.{ℕ, ◌*◌, ◌%◌, ◌^◌, ◌≤◌, ◌<◌, ◌≡◌, true, ◌↔◌, ◌⊎◌, arith}
use kube_op.Security.{Addr, invalid, v4, v6, dotted, leading, is_public_addr}

-- From the first of the addresses to the last.
abbrev pub Between : ℕ → ℕ → ℕ → Type 0
Between first last n = (first ≤ n) × (n ≤ last)

-- The reserved and private addresses of 32 bits.
abbrev pub Reserved4 : ℕ → Type 0
Reserved4 n =
    (n ≡ 0)
    ⊎ (n ≡ dotted 255 255 255 255)
    ⊎ Between (dotted 127 0 0 0) (dotted 127 255 255 255) n
    ⊎ Between (dotted 224 0 0 0) (dotted 239 255 255 255) n
    ⊎ Between (dotted 169 254 0 0) (dotted 169 254 255 255) n
    ⊎ Between (dotted 10 0 0 0) (dotted 10 255 255 255) n
    ⊎ Between (dotted 172 16 0 0) (dotted 172 31 255 255) n
    ⊎ Between (dotted 192 168 0 0) (dotted 192 168 255 255) n

public4_iff : (n : ℕ) → (is_public_addr (v4 n) ≡ true) ↔ (¬ Reserved4 n)
unfolding is_public_addr
public4_iff n = ground arith

-- The reserved and private addresses of 128 bits: ::, ::1, fc00::/7, fe80::/10 and ff00::/8.
abbrev pub Reserved6 : ℕ → Type 0
Reserved6 n =
    (n ≤ 1)
    ⊎ ((leading 64512 ≤ n) × (n < leading 65024))
    ⊎ ((leading 65152 ≤ n) × (n < leading 65216))
    ⊎ ((leading 65280 ≤ n) × (n < leading 65536))

-- The addresses of 128 bits that stand for one of 32.
abbrev pub IsMapped : ℕ → Type 0
IsMapped n = (65535 * 2 ^ 32 ≤ n) × (n < 65536 * 2 ^ 32)

public6_iff :
    (n : ℕ)
    → (is_public_addr (v6 n) ≡ true)
      ↔ ((IsMapped n × (¬ Reserved4 (n % 2 ^ 32))) ⊎ ((¬ IsMapped n) × (¬ Reserved6 n)))
unfolding is_public_addr
public6_iff n = ground arith

-- What the address stands for is not reserved.
abbrev pub IsPublic : Addr → Type 0
IsPublic invalid = ⊥
IsPublic (v4 n) = ¬ Reserved4 n
IsPublic (v6 n) = (IsMapped n × (¬ Reserved4 (n % 2 ^ 32))) ⊎ ((¬ IsMapped n) × (¬ Reserved6 n))

-- An address is public exactly when it is valid and lies in none of the reserved intervals: the
-- unspecified, broadcast, loopback, multicast, link-local and private ones of its family, where an
-- address that is mapped from one of 32 bits counts as that one.
pub is_public_addr_iff : (addr : Addr) → (is_public_addr addr ≡ true) ↔ IsPublic addr
is_public_addr_iff invalid = (unfold is_public_addr in λ h. cc, λ h. absurd h)
is_public_addr_iff (v4 n) = public4_iff n
is_public_addr_iff (v6 n) = public6_iff n
