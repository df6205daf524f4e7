-- ===== src/Artifacts/Public.antt =====
-- Which addresses src/artifacts.rs takes for public ones, against the blocks of addresses that are
-- registered for special purposes. An address is the list of its octets or segments; a block is
-- written with the parts of its prefix, and a prefix length.
use osv_proxy.Common.{
  ℕ, ◌<◌, ◌↔◌, ◌-◌, ◌/◌, ◌%◌, ◌^◌, ◌≡◌, ◌⊎◌, arith, inl, inr, true, false, Bool-cases, leb, List,
  [], ◌∷◌, All,
}
use osv_proxy.Artifacts.Addresses.{
  Ipv4Addr, Ipv6Addr, IpAddr, v4, v6, is_forbidden_ipv4, is_forbidden_ipv6, is_forbidden_ip,
  is_forbidden_native, is_mapped, mapped,
}

pub record Block : Type 0 where
  pub prefix : List ℕ
  pub length : ℕ

abbrev octets : Ipv4Addr → List ℕ
octets ip = ip.a ∷ ip.b ∷ ip.c ∷ ip.d ∷ []

abbrev segments : Ipv6Addr → List ℕ
segments ip = ip.s₀ ∷ ip.s₁ ∷ ip.s₂ ∷ ip.s₃ ∷ ip.s₄ ∷ ip.s₅ ∷ ip.s₆ ∷ ip.s₇ ∷ []

-- The first `length` bits agree, where a part has `width` bits.
abbrev Agree : ℕ → ℕ → List ℕ → List ℕ → Type 0
Agree width length [] parts = Unit
Agree width length (p ∷ prefix) [] = ⊥
Agree width length (p ∷ prefix) (x ∷ parts) = elim (leb width length) [
  | true ↦ (x ≡ p) × Agree width (length - width) prefix parts
  | false ↦ x / 2 ^ (width - length) ≡ p / 2 ^ (width - length)
]

abbrev pub InBlock : ℕ → List ℕ → Block → Type 0
InBlock width parts b = Agree width b.length b.prefix parts

abbrev pub InAny : ℕ → List ℕ → List Block → Type 0
InAny width parts [] = ⊥
InAny width parts (b ∷ blocks) = InBlock width parts b ⊎ InAny width parts blocks

abbrev pub InNone : ℕ → List ℕ → List Block → Type 0
InNone width parts = All (λ b. ¬ InBlock width parts b)

-- This network, private use, shared address space, loopback, link-local, documentation, 6to4 relays,
-- benchmarking, multicast and what is reserved.
abbrev pub special_v4 : List Block
special_v4 =
    record { prefix = 0 ∷ []; length = 8 }
    ∷ record { prefix = 10 ∷ []; length = 8 }
    ∷ record { prefix = 100 ∷ 64 ∷ []; length = 10 }
    ∷ record { prefix = 127 ∷ []; length = 8 }
    ∷ record { prefix = 169 ∷ 254 ∷ []; length = 16 }
    ∷ record { prefix = 172 ∷ 16 ∷ []; length = 12 }
    ∷ record { prefix = 192 ∷ 0 ∷ 2 ∷ []; length = 24 }
    ∷ record { prefix = 192 ∷ 88 ∷ 99 ∷ []; length = 24 }
    ∷ record { prefix = 192 ∷ 168 ∷ []; length = 16 }
    ∷ record { prefix = 198 ∷ 18 ∷ []; length = 15 }
    ∷ record { prefix = 198 ∷ 51 ∷ 100 ∷ []; length = 24 }
    ∷ record { prefix = 203 ∷ 0 ∷ 113 ∷ []; length = 24 }
    ∷ record { prefix = 224 ∷ []; length = 4 }
    ∷ record { prefix = 240 ∷ []; length = 4 }
    ∷ []

-- Protocol assignments: only 192.0.0.9 and 192.0.0.10 in 192.0.0.0/24 are reachable.
abbrev pub protocols_v4 : Block
protocols_v4 = record { prefix = 192 ∷ 0 ∷ 0 ∷ []; length = 24 }

abbrev pub IsPublicV4 : Ipv4Addr → Type 0
IsPublicV4 ip =
    InNone 8 (octets ip) special_v4
    × (InBlock 8 (octets ip) protocols_v4 → (ip.d ≡ 9) ⊎ (ip.d ≡ 10))

-- ::ffff:0:0/96, with an IPv4 address in its last two segments.
abbrev pub mapped_v4 : Block
mapped_v4 = record { prefix = 0 ∷ 0 ∷ 0 ∷ 0 ∷ 0 ∷ 65535 ∷ []; length = 96 }

abbrev pub translated : Block
translated = record { prefix = 100 ∷ 65435 ∷ 0 ∷ 0 ∷ 0 ∷ 0 ∷ []; length = 96 }

abbrev pub global_unicast : Block
global_unicast = record { prefix = 8192 ∷ []; length = 3 }

-- The unspecified address, loopback, local translation, discard only, 6to4, documentation, segment
-- routing, unique local, link-local and multicast.
abbrev pub special_v6 : List Block
special_v6 =
    record { prefix = 0 ∷ 0 ∷ 0 ∷ 0 ∷ 0 ∷ 0 ∷ 0 ∷ 0 ∷ []; length = 128 }
    ∷ record { prefix = 0 ∷ 0 ∷ 0 ∷ 0 ∷ 0 ∷ 0 ∷ 0 ∷ 1 ∷ []; length = 128 }
    ∷ record { prefix = 100 ∷ 65435 ∷ 1 ∷ []; length = 48 }
    ∷ record { prefix = 256 ∷ 0 ∷ 0 ∷ 0 ∷ []; length = 64 }
    ∷ record { prefix = 256 ∷ 0 ∷ 0 ∷ 1 ∷ []; length = 64 }
    ∷ record { prefix = 8194 ∷ []; length = 16 }
    ∷ record { prefix = 8193 ∷ 3512 ∷ []; length = 32 }
    ∷ record { prefix = 16383 ∷ 0 ∷ []; length = 20 }
    ∷ record { prefix = 24320 ∷ []; length = 16 }
    ∷ record { prefix = 64512 ∷ []; length = 7 }
    ∷ record { prefix = 65152 ∷ []; length = 10 }
    ∷ record { prefix = 65280 ∷ []; length = 8 }
    ∷ []

-- Protocol assignments in 2001::/23, and those of them that are reachable.
abbrev pub protocols_v6 : Block
protocols_v6 = record { prefix = 8193 ∷ 0 ∷ []; length = 23 }

abbrev pub reachable_v6 : List Block
reachable_v6 =
    record { prefix = 8193 ∷ 1 ∷ 0 ∷ 0 ∷ 0 ∷ 0 ∷ 0 ∷ 1 ∷ []; length = 128 }
    ∷ record { prefix = 8193 ∷ 1 ∷ 0 ∷ 0 ∷ 0 ∷ 0 ∷ 0 ∷ 2 ∷ []; length = 128 }
    ∷ record { prefix = 8193 ∷ 1 ∷ 0 ∷ 0 ∷ 0 ∷ 0 ∷ 0 ∷ 3 ∷ []; length = 128 }
    ∷ record { prefix = 8193 ∷ 3 ∷ []; length = 32 }
    ∷ record { prefix = 8193 ∷ 4 ∷ 274 ∷ []; length = 48 }
    ∷ record { prefix = 8193 ∷ 32 ∷ []; length = 28 }
    ∷ record { prefix = 8193 ∷ 48 ∷ []; length = 28 }
    ∷ []

abbrev embedded : Ipv6Addr → Ipv4Addr
embedded ip = record { a = ip.s₆ / 256; b = ip.s₆ % 256; c = ip.s₇ / 256; d = ip.s₇ % 256 }

-- Global unicast or translated, in no special block; or an IPv4 address that is public.
abbrev pub IsPublicV6 : Ipv6Addr → Type 0
IsPublicV6 ip =
    (InBlock 16 (segments ip) mapped_v4 × IsPublicV4 (embedded ip))
    ⊎ (InAny 16 (segments ip) (translated ∷ global_unicast ∷ [])
        × InNone 16 (segments ip) special_v6
        × (InBlock 16 (segments ip) protocols_v6 → InAny 16 (segments ip) reachable_v6))

abbrev pub IsPublicIp : IpAddr → Type 0
IsPublicIp (v4 ip) = IsPublicV4 ip
IsPublicIp (v6 ip) = IsPublicV6 ip

is_forbidden_ipv4-public : (ip : Ipv4Addr) → is_forbidden_ipv4 ip ≡ false → IsPublicV4 ip
unfolding is_forbidden_ipv4
is_forbidden_ipv4-public ip h = (
  (
    (λ m. ground arith),
    (
      (λ m. ground arith),
      (
        (λ m. ground arith),
        (
          (λ m. ground arith),
          (
            (λ m. ground arith),
            (
              (λ m. ground arith),
              (
                (λ m. ground arith),
                (
                  (λ m. ground arith),
                  (
                    (λ m. ground arith),
                    (
                      (λ m. ground arith),
                      (
                        (λ m. ground arith),
                        ((λ m. ground arith), ((λ m. ground arith), ((λ m. ground arith), tt))),
                      ),
                    ),
                  ),
                ),
              ),
            ),
          ),
        ),
      ),
    ),
  ),
  (λ m. ground arith),
)

is_forbidden_native-public :
    (ip : Ipv6Addr)
    → is_forbidden_native ip ≡ false
    → InAny 16 (segments ip) (translated ∷ global_unicast ∷ [])
      × InNone 16 (segments ip) special_v6
      × (InBlock 16 (segments ip) protocols_v6 → InAny 16 (segments ip) reachable_v6)
is_forbidden_native-public ip h = (
  ground arith,
  (
    (λ m. ground arith),
    (
      (λ m. ground arith),
      (
        (λ m. ground arith),
        (
          (λ m. ground arith),
          (
            (λ m. ground arith),
            (
              (λ m. ground arith),
              (
                (λ m. ground arith),
                (
                  (λ m. ground arith),
                  (
                    (λ m. ground arith),
                    ((λ m. ground arith), ((λ m. ground arith), ((λ m. ground arith), tt))),
                  ),
                ),
              ),
            ),
          ),
        ),
      ),
    ),
  ),
  (λ m. ground arith),
)

pub is_forbidden_ip-public : (ip : IpAddr) → is_forbidden_ip ip ≡ false → IsPublicIp ip
unfolding is_forbidden_ip is_forbidden_ipv6
is_forbidden_ip-public (v4 ip) h = is_forbidden_ipv4-public ip h
is_forbidden_ip-public (v6 ip) h = elim (Bool-cases (is_mapped ip)) [
  | inl e ↦ inl (
    ground (arith, e),
    is_forbidden_ipv4-public (mapped ip) (rw (e, is_forbidden_ip, is_forbidden_ipv6) at h),
  )
  | inr e ↦ inr (is_forbidden_native-public ip (rw (e, is_forbidden_ip, is_forbidden_ipv6) at h))
]

-- Octets below 2 ^ 8, and segments below 2 ^ 16.
abbrev pub HasParts : IpAddr → Type 0
HasParts (v4 ip) = All (λ x. x < 256) (octets ip)
HasParts (v6 ip) = All (λ x. x < 65536) (segments ip)

public-is_forbidden_ipv4 :
    (ip : Ipv4Addr) → ip.a < 256 → IsPublicV4 ip → is_forbidden_ipv4 ip ≡ false
unfolding is_forbidden_ipv4
public-is_forbidden_ipv4 ip bound h = ground arith

public-is_forbidden_native :
    (ip : Ipv6Addr)
    → InAny 16 (segments ip) (translated ∷ global_unicast ∷ [])
      × InNone 16 (segments ip) special_v6
      × (InBlock 16 (segments ip) protocols_v6 → InAny 16 (segments ip) reachable_v6)
    → is_forbidden_native ip ≡ false
public-is_forbidden_native ip h = ground arith

public-is_forbidden_ip : (ip : IpAddr) → HasParts ip → IsPublicIp ip → is_forbidden_ip ip ≡ false
unfolding is_forbidden_ip is_forbidden_ipv6
public-is_forbidden_ip (v4 ip) (bound, rest) h = public-is_forbidden_ipv4 ip bound h
public-is_forbidden_ip (v6 ip) bounds (inl (m, h)) =
    let e : is_mapped ip ≡ true = ground (arith, m) in
    rw (e, is_forbidden_ip, is_forbidden_ipv6)
      (public-is_forbidden_ipv4 (mapped ip) (ground (arith, bounds)) h)
public-is_forbidden_ip (v6 ip) bounds (inr (some_block, outside, protocols)) =
    let e : is_mapped ip ≡ false = ground (arith, some_block) in
    rw (e, is_forbidden_ip, is_forbidden_ipv6)
      (public-is_forbidden_native ip (some_block, outside, protocols))

-- An address whose octets or segments are in their ranges may be reached exactly where it is public: an
-- IPv4 address in none of the blocks for special purposes, and in 192.0.0.0/24 only .9 and .10; an
-- IPv6 address that embeds such a one, or that is global unicast or translated, in no special block,
-- and in 2001::/23 in one of the blocks that are reachable.
pub is_forbidden_ip_iff : (ip : IpAddr) → HasParts ip → (is_forbidden_ip ip ≡ false) ↔ IsPublicIp ip
is_forbidden_ip_iff ip parts = (is_forbidden_ip-public ip, public-is_forbidden_ip ip parts)
