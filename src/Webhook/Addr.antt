-- ===== src/Webhook/Addr.antt =====
-- IsPublicAddr, on the addresses of net/netip: their bits as a number, 32 of them or 128.
use talepanel.Base.{
  ℕ, ◌+◌, ◌*◌, ◌/◌, ◌%◌, ◌^◌, Bool, true, false, not, ◌&&◌, ◌||◌, [], ◌∷◌, any, ◌==◌,
}

-- The zero Addr, an IPv4 address, and an IPv6 address with or without a zone.
pub data Addr : Type 0 where
  invalid : Addr
  v4 : ℕ → Addr
  v6 : ℕ → Bool → Addr

-- `a.b.c.d`
abbrev pub ipv4 : ℕ → ℕ → ℕ → ℕ → ℕ
ipv4 a b c d = a * 2 ^ 24 + b * 2 ^ 16 + c * 2 ^ 8 + d

abbrev pub unmapped_if : Bool → ℕ → Bool → Addr
unmapped_if true n zone = v4 (n % 2 ^ 32)
unmapped_if false n zone = v6 n zone

-- `addr.Unmap()`: ::ffff:0:0/96 holds the IPv4 addresses.
abbrev pub unmap : Addr → Addr
unmap invalid = invalid
unmap (v4 n) = v4 n
unmap (v6 n zone) = unmapped_if (n / 2 ^ 32 == 0xffff) n zone

-- The first 16 bits of an IPv6 address.
abbrev pub head16 : ℕ → ℕ
head16 n = n / 2 ^ 112

abbrev pub is_loopback : Addr → Bool
is_loopback invalid = false
is_loopback (v4 n) = n / 2 ^ 24 == 127
is_loopback (v6 n zone) = n == 1

abbrev pub is_private : Addr → Bool
is_private invalid = false
is_private (v4 n) = n / 2 ^ 24 == 10 || n / 2 ^ 20 == 2753 || n / 2 ^ 16 == 49320
is_private (v6 n zone) = n / 2 ^ 121 == 126

abbrev pub is_link_local_unicast : Addr → Bool
is_link_local_unicast invalid = false
is_link_local_unicast (v4 n) = n / 2 ^ 16 == 43518
is_link_local_unicast (v6 n zone) = n / 2 ^ 118 == 1018

abbrev pub is_link_local_multicast : Addr → Bool
is_link_local_multicast invalid = false
is_link_local_multicast (v4 n) = n / 2 ^ 8 == 14680064
is_link_local_multicast (v6 n zone) = n / 2 ^ 120 == 255 && head16 n % 16 == 2

abbrev pub is_interface_local_multicast : Addr → Bool
is_interface_local_multicast invalid = false
is_interface_local_multicast (v4 n) = false
is_interface_local_multicast (v6 n zone) = n / 2 ^ 120 == 255 && head16 n % 16 == 1

abbrev pub is_multicast : Addr → Bool
is_multicast invalid = false
is_multicast (v4 n) = n / 2 ^ 28 == 14
is_multicast (v6 n zone) = n / 2 ^ 120 == 255

-- `ip == IPv4Unspecified() || ip == IPv6Unspecified()`: an address with a zone is neither.
abbrev pub is_unspecified : Addr → Bool
is_unspecified invalid = false
is_unspecified (v4 n) = n == 0
is_unspecified (v6 n zone) = n == 0 && not zone

-- A prefix of each family: its first address, and how many bits it leaves open.
pub data Prefix : Type 0 where
  prefix4 : ℕ → ℕ → Prefix
  prefix6 : ℕ → ℕ → Prefix

-- `p.Contains(addr)`: never true of the other family, or of an address with a zone.
abbrev pub contains : Addr → Prefix → Bool
contains invalid p = false
contains (v4 n) (prefix4 base free) = n / 2 ^ free == base / 2 ^ free
contains (v4 n) (prefix6 base free) = false
contains (v6 n zone) (prefix4 base free) = false
contains (v6 n zone) (prefix6 base free) = not zone && n / 2 ^ free == base / 2 ^ free

abbrev pub cgnat : Prefix
cgnat = prefix4 (ipv4 100 64 0 0) 22

-- 64:ff9b::/96
abbrev pub nat64 : Prefix
nat64 = prefix6 (0x64 * 2 ^ 112 + 0xff9b * 2 ^ 96) 32

abbrev pub this_net : Prefix
this_net = prefix4 0 24

abbrev pub benchmark : Prefix
benchmark = prefix4 (ipv4 198 18 0 0) 17

abbrev pub reserved : Prefix
reserved = prefix4 (ipv4 240 0 0 0) 28

abbrev pub ietf : Prefix
ietf = prefix4 (ipv4 192 0 0 0) 8

abbrev pub is_valid : Addr → Bool
is_valid invalid = false
is_valid (v4 n) = true
is_valid (v6 n zone) = true

abbrev pub is_broadcast : Addr → Bool
is_broadcast invalid = false
is_broadcast (v4 n) = n == ipv4 255 255 255 255
is_broadcast (v6 n zone) = false

abbrev pub is_special : Addr → Bool
is_special addr =
    not (is_valid addr)
    || is_loopback addr
    || is_private addr
    || is_link_local_unicast addr
    || is_link_local_multicast addr
    || is_interface_local_multicast addr
    || is_multicast addr
    || is_unspecified addr

-- The tests behind the unmapping.
abbrev pub is_public_unmapped : Addr → Bool
is_public_unmapped addr = not (
    is_special addr
    || any (contains addr) (cgnat ∷ nat64 ∷ this_net ∷ benchmark ∷ reserved ∷ ietf ∷ [])
    || is_broadcast addr)

unfoldable pub is_public_addr : Addr → Bool
is_public_addr addr = is_public_unmapped (unmap addr)
