-- ===== src/Artifacts/Addresses.antt =====
-- Of src/artifacts.rs: the addresses that are not public. A mask of an IPv6 segment is the quotient
-- by the power of two below it.
use osv_proxy.Common.{ℕ, ◌/◌, ◌%◌, Bool, true, false, not, ◌&&◌, ◌||◌, ◌==◌, ltb, leb}

-- `Ipv4Addr::octets`.
pub record Ipv4Addr : Type 0 where
  pub a : ℕ
  pub b : ℕ
  pub c : ℕ
  pub d : ℕ

-- `Ipv6Addr::segments`.
pub record Ipv6Addr : Type 0 where
  pub s₀ : ℕ
  pub s₁ : ℕ
  pub s₂ : ℕ
  pub s₃ : ℕ
  pub s₄ : ℕ
  pub s₅ : ℕ
  pub s₆ : ℕ
  pub s₇ : ℕ

pub data IpAddr : Type 0 where
  v4 : Ipv4Addr → IpAddr
  v6 : Ipv6Addr → IpAddr

abbrev within : ℕ → ℕ → ℕ → Bool
within low high n = leb low n && leb n high

unfoldable pub is_forbidden_ipv4 : Ipv4Addr → Bool
is_forbidden_ipv4 ip =
    ip.a == 0
    || ip.a == 10
    || ip.a == 127
    || (ip.a == 100 && within 64 127 ip.b)
    || (ip.a == 169 && ip.b == 254)
    || (ip.a == 172 && within 16 31 ip.b)
    || (ip.a == 192 && ip.b == 168)
    || (ip.a == 192 && ip.b == 0 && ip.c == 0 && not (ip.d == 9) && not (ip.d == 10))
    || (ip.a == 192 && ip.b == 0 && ip.c == 2)
    || (ip.a == 192 && ip.b == 88 && ip.c == 99)
    || (ip.a == 198 && (ip.b == 18 || ip.b == 19))
    || (ip.a == 198 && ip.b == 51 && ip.c == 100)
    || (ip.a == 203 && ip.b == 0 && ip.c == 113)
    || leb 224 ip.a

-- The first six segments.
abbrev starts : Ipv6Addr → ℕ → ℕ → ℕ → ℕ → ℕ → ℕ → Bool
starts ip x₀ x₁ x₂ x₃ x₄ x₅ =
    ip.s₀ == x₀ && ip.s₁ == x₁ && ip.s₂ == x₂ && ip.s₃ == x₃ && ip.s₄ == x₄ && ip.s₅ == x₅

-- `Ipv6Addr::to_ipv4_mapped`.
abbrev pub is_mapped : Ipv6Addr → Bool
is_mapped ip = starts ip 0 0 0 0 0 65535

abbrev pub mapped : Ipv6Addr → Ipv4Addr
mapped ip = record { a = ip.s₆ / 256; b = ip.s₆ % 256; c = ip.s₇ / 256; d = ip.s₇ % 256 }

abbrev is_translation : Ipv6Addr → Bool
is_translation ip = starts ip 100 65435 0 0 0 0

-- The addresses in 2001::/23 that are reachable all the same.
abbrev is_assigned : Ipv6Addr → Bool
is_assigned ip =
    (starts ip 8193 1 0 0 0 0 && ip.s₆ == 0 && (ip.s₇ == 1 || ip.s₇ == 2 || ip.s₇ == 3))
    || (ip.s₀ == 8193 && ip.s₁ == 3)
    || (ip.s₀ == 8193 && ip.s₁ == 4 && ip.s₂ == 274)
    || (ip.s₀ == 8193 && within 32 63 ip.s₁)

abbrev pub is_forbidden_native : Ipv6Addr → Bool
is_forbidden_native ip =
    (starts ip 0 0 0 0 0 0 && ip.s₆ == 0 && ip.s₇ == 0)
    || (starts ip 0 0 0 0 0 0 && ip.s₆ == 0 && ip.s₇ == 1)
    || ip.s₀ / 256 == 255
    || (not (is_translation ip) && not (ip.s₀ / 8192 == 1))
    || (ip.s₀ == 100 && ip.s₁ == 65435 && ip.s₂ == 1)
    || (ip.s₀ == 256 && ip.s₁ == 0 && ip.s₂ == 0 && ip.s₃ == 0)
    || (ip.s₀ == 256 && ip.s₁ == 0 && ip.s₂ == 0 && ip.s₃ == 1)
    || (ip.s₀ == 8193 && ltb ip.s₁ 512 && not (is_assigned ip))
    || ip.s₀ == 8194
    || (ip.s₀ == 8193 && ip.s₁ == 3512)
    || (ip.s₀ == 16383 && leb ip.s₁ 4095)
    || ip.s₀ == 24320
    || ip.s₀ / 512 == 126
    || ip.s₀ / 64 == 1018

unfoldable pub is_forbidden_ipv6 : Ipv6Addr → Bool
unfolding is_forbidden_ipv4
is_forbidden_ipv6 ip = elim (is_mapped ip) [
  | true ↦ is_forbidden_ipv4 (mapped ip)
  | false ↦ is_forbidden_native ip
]

unfoldable pub is_forbidden_ip : IpAddr → Bool
unfolding is_forbidden_ipv4 is_forbidden_ipv6
is_forbidden_ip (v4 ip) = is_forbidden_ipv4 ip
is_forbidden_ip (v6 ip) = is_forbidden_ipv6 ip
