-- ===== src/Outgoing/Hosts.antt =====
-- digest.rs: which addresses a webhook must not reach.
pub mod Blocks
use Prim.Native.Nat.{bit_and}
use ai_agent_boilerplate.Prelude.{
  ℕ, ◌/◌, ◌%◌, Bool, false, ◌&&◌, ◌||◌, Option, none, some, List, [], ◌∷◌, leb, ◌==◌, if◌then◌else◌,
}

-- `Ipv4Addr`, by its octets.
pub record Ipv4 : Type 0 where
  pub o0 : ℕ
  pub o1 : ℕ
  pub o2 : ℕ
  pub o3 : ℕ

-- `Ipv6Addr`, by its segments.
pub record Ipv6 : Type 0 where
  pub s0 : ℕ
  pub s1 : ℕ
  pub s2 : ℕ
  pub s3 : ℕ
  pub s4 : ℕ
  pub s5 : ℕ
  pub s6 : ℕ
  pub s7 : ℕ

pub data IpAddr : Type 0 where
  v4 : Ipv4 → IpAddr
  v6 : Ipv6 → IpAddr

abbrev pub is_private : Ipv4 → Bool
is_private a =
    a.o0 == 10 || ((a.o0 == 172 && (leb 16 a.o1 && leb a.o1 31)) || (a.o0 == 192 && a.o1 == 168))

abbrev pub is_loopback : Ipv4 → Bool
is_loopback a = a.o0 == 127

abbrev pub is_link_local : Ipv4 → Bool
is_link_local a = a.o0 == 169 && a.o1 == 254

abbrev pub is_broadcast : Ipv4 → Bool
is_broadcast a = a.o0 == 255 && (a.o1 == 255 && (a.o2 == 255 && a.o3 == 255))

abbrev pub is_documentation : Ipv4 → Bool
is_documentation a =
    (a.o0 == 192 && (a.o1 == 0 && a.o2 == 2))
    || ((a.o0 == 198 && (a.o1 == 51 && a.o2 == 100)) || (a.o0 == 203 && (a.o1 == 0 && a.o2 == 113)))

abbrev pub is_unspecified : Ipv4 → Bool
is_unspecified a = a.o0 == 0 && (a.o1 == 0 && (a.o2 == 0 && a.o3 == 0))

abbrev pub is_multicast : Ipv4 → Bool
is_multicast a = leb 224 a.o0 && leb a.o0 239

-- 100.64.0.0/10, carrier-grade NAT.
abbrev pub is_shared : Ipv4 → Bool
is_shared a = a.o0 == 100 && (leb 0x40 a.o1 && leb a.o1 0x7f)

unfoldable pub is_blocked_v4 : Ipv4 → Bool
is_blocked_v4 a =
    is_private a
    || (is_loopback a
        || (is_link_local a
            || (is_broadcast a
                || (is_documentation a || (is_unspecified a || (is_multicast a || is_shared a))))))

-- The first six segments are zero.
abbrev pub starts_zero : Ipv6 → Bool
starts_zero a = a.s0 == 0 && (a.s1 == 0 && (a.s2 == 0 && (a.s3 == 0 && a.s4 == 0)))

-- `to_ipv4_mapped`: ::ffff:a.b.c.d.
abbrev pub to_ipv4_mapped : Ipv6 → Option Ipv4
to_ipv4_mapped a =
    if starts_zero a && a.s5 == 0xffff
    then some (record { o0 = a.s6 / 256; o1 = a.s6 % 256; o2 = a.s7 / 256; o3 = a.s7 % 256 })
    else none

abbrev pub is_mapped_blocked : Option Ipv4 → Bool
is_mapped_blocked none = false
is_mapped_blocked (some a) = is_blocked_v4 a

unfoldable pub is_blocked_v6 : Ipv6 → Bool
is_blocked_v6 a =
    (starts_zero a && (a.s5 == 0 && (a.s6 == 0 && a.s7 == 1)))
    || ((starts_zero a && (a.s5 == 0 && (a.s6 == 0 && a.s7 == 0)))
        || (bit_and a.s0 0xff00 == 0xff00
            || (is_mapped_blocked (to_ipv4_mapped a)
                || (bit_and a.s0 0xfe00 == 0xfc00 || bit_and a.s0 0xffc0 == 0xfe80))))

unfoldable pub is_blocked_ip : IpAddr → Bool
unfolding is_blocked_v4 is_blocked_v6
is_blocked_ip (v4 a) = is_blocked_v4 a
is_blocked_ip (v6 a) = is_blocked_v6 a

-- The first address that is blocked.
unfoldable pub find_blocked : List IpAddr → Option IpAddr
unfolding is_blocked_ip
find_blocked [] = none
find_blocked (a ∷ addrs) = if is_blocked_ip a then some a else find_blocked addrs
