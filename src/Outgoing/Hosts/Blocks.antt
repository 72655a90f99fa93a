-- ===== src/Outgoing/Hosts/Blocks.antt =====
-- The guard on IPv4 addresses, against the address blocks of its documentation.
use ai_agent_boilerplate.Prelude.{
  ℕ, ◌+◌, ◌*◌, ◌/◌, ◌^◌, ◌<◌, ◌≡◌, refl, Bool, true, false, ◌&&◌, ◌||◌, List, [], ◌∷◌, arith, leb,
  ◌==◌, any,
}
use ai_agent_boilerplate.Outgoing.Hosts.{
  v4, is_blocked_ip, Ipv4, is_blocked_v4, is_loopback, is_link_local, is_broadcast, is_unspecified,
  is_multicast, is_shared,
}

-- The address as a number of 32 bits.
abbrev pub number : Ipv4 → ℕ
number a = ((a.o0 * 256 + a.o1) * 256 + a.o2) * 256 + a.o3

-- A block, by its first address and the size of its host part.
abbrev pub in_block : ℕ → ℕ × ℕ → Bool
in_block n block = n / block.1 == block.0 / block.1

abbrev pub IsAddress : Ipv4 → Type 0
IsAddress a = (a.o0 < 256) × (a.o1 < 256) × (a.o2 < 256) × (a.o3 < 256)

-- The blocks, in the order of the tests.
abbrev pub blocks : List (ℕ × ℕ)
blocks =
    (0x0a00_0000, 2 ^ 24)
    ∷ (0xac10_0000, 2 ^ 20)
    ∷ (0xc0a8_0000, 2 ^ 16)
    ∷ (0x7f00_0000, 2 ^ 24)
    ∷ (0xa9fe_0000, 2 ^ 16)
    ∷ (0xffff_ffff, 2 ^ 0)
    ∷ (0xc000_0200, 2 ^ 8)
    ∷ (0xc633_6400, 2 ^ 8)
    ∷ (0xcb00_7100, 2 ^ 8)
    ∷ (0x0000_0000, 2 ^ 0)
    ∷ (0xe000_0000, 2 ^ 28)
    ∷ (0x6440_0000, 2 ^ 22)
    ∷ []

module _ (a : Ipv4) (h : IsAddress a) where
  abbrev at : ℕ → ℕ → Bool
  at first size = in_block (number a) (first, size)

  ten : (a.o0 == 10) ≡ at 0x0a00_0000 (2 ^ 24)
  ten = ground arith

  private_172 : (a.o0 == 172 && (leb 16 a.o1 && leb a.o1 31)) ≡ at 0xac10_0000 (2 ^ 20)
  private_172 = ground arith

  private_192 : (a.o0 == 192 && a.o1 == 168) ≡ at 0xc0a8_0000 (2 ^ 16)
  private_192 = ground arith

  loopback : is_loopback a ≡ at 0x7f00_0000 (2 ^ 24)
  loopback = ground arith

  link_local : is_link_local a ≡ at 0xa9fe_0000 (2 ^ 16)
  link_local = ground arith

  broadcast : is_broadcast a ≡ at 0xffff_ffff (2 ^ 0)
  broadcast = ground arith

  test_net_1 : (a.o0 == 192 && (a.o1 == 0 && a.o2 == 2)) ≡ at 0xc000_0200 (2 ^ 8)
  test_net_1 = ground arith

  test_net_2 : (a.o0 == 198 && (a.o1 == 51 && a.o2 == 100)) ≡ at 0xc633_6400 (2 ^ 8)
  test_net_2 = ground arith

  test_net_3 : (a.o0 == 203 && (a.o1 == 0 && a.o2 == 113)) ≡ at 0xcb00_7100 (2 ^ 8)
  test_net_3 = ground arith

  unspecified : is_unspecified a ≡ at 0x0000_0000 (2 ^ 0)
  unspecified = ground arith

  multicast : is_multicast a ≡ at 0xe000_0000 (2 ^ 28)
  multicast = ground arith

  shared : is_shared a ≡ at 0x6440_0000 (2 ^ 22)
  shared = ground arith

or_assoc : (p q r : Bool) → ((p || q) || r) ≡ (p || (q || r))
or_assoc true q r = refl
or_assoc false q r = refl

or_false : (p : Bool) → (p || false) ≡ p
or_false true = refl
or_false false = refl

-- An IPv4 address is blocked exactly where, as a number of 32 bits, it lies in one of the twelve
-- blocks 10.0.0.0/8, 172.16.0.0/12, 192.168.0.0/16, 127.0.0.0/8, 169.254.0.0/16,
-- 255.255.255.255/32, 192.0.2.0/24, 198.51.100.0/24, 203.0.113.0/24, 0.0.0.0/32, 224.0.0.0/4 and
-- 100.64.0.0/10.
pub is_blocked-blocks :
    (a : Ipv4) → IsAddress a → is_blocked_ip (v4 a) ≡ any (in_block (number a)) blocks
unfolding is_blocked_ip is_blocked_v4
is_blocked-blocks a h =
    rw
      (
        ← ten a h,
        ← private_172 a h,
        ← private_192 a h,
        ← loopback a h,
        ← link_local a h,
        ← broadcast a h,
        ← test_net_1 a h,
        ← test_net_2 a h,
        ← test_net_3 a h,
        ← unspecified a h,
        ← multicast a h,
        ← shared a h,
      )
      (simp (or_assoc, or_false) refl)
