-- ===== src/Webhook/Netip.antt =====
-- net/netip as internal/webhook/dialer.go uses it. An address is its number with its zone; a prefix
-- is an address of its family with a number of bits.
use relayforge.Prelude.{
  ◌^◌, ◌%◌, ◌/◌, if◌then◌else◌, ◌==◌, ◌||◌, ◌&&◌, not, false, true, Bool, ◌-◌, ℕ,
}
use relayforge.Prelude.Text.{Text, is_empty}

pub data Addr : Type 0 where
  invalid : Addr
  v4 : ℕ → Addr
  v6 : ℕ → Text → Addr

pub data Prefix : Type 0 where
  prefix4 prefix6 : ℕ → ℕ → Prefix

abbrev pub is_valid : Addr → Bool
is_valid invalid = false
is_valid _ = true

abbrev pub is4 : Addr → Bool
is4 (v4 n) = true
is4 _ = false

abbrev pub is6 : Addr → Bool
is6 (v6 n zone) = true
is6 _ = false

-- An IPv4 address mapped into IPv6 becomes itself.
unfoldable pub unmap : Addr → Addr
unmap invalid = invalid
unmap (v4 n) = v4 n
unmap (v6 n zone) = if n / 4294967296 == 0xffff then v4 (n % 4294967296) else v6 n zone

unfoldable pub is_unspecified : Addr → Bool
is_unspecified invalid = false
is_unspecified (v4 n) = n == 0
is_unspecified (v6 n zone) = n == 0 && is_empty zone

unfoldable pub is_multicast : Addr → Bool
is_multicast invalid = false
is_multicast (v4 n) = n / 2 ^ 28 == 0xe
is_multicast (v6 n zone) = n / 2 ^ 120 == 0xff

unfoldable pub is_loopback : Addr → Bool
is_loopback invalid = false
is_loopback (v4 n) = n / 2 ^ 24 == 127
is_loopback (v6 n zone) = n == 1

unfoldable pub is_link_local_unicast : Addr → Bool
is_link_local_unicast invalid = false
is_link_local_unicast (v4 n) = n / 2 ^ 16 == 0xa9fe
is_link_local_unicast (v6 n zone) = n / 2 ^ 118 == 0x3fa

unfoldable pub is_link_local_multicast : Addr → Bool
is_link_local_multicast invalid = false
is_link_local_multicast (v4 n) = n / 2 ^ 8 == 0xe00000
is_link_local_multicast (v6 n zone) = n / 2 ^ 120 == 0xff && (n / 2 ^ 112) % 16 == 2

unfoldable pub is_private : Addr → Bool
is_private invalid = false
is_private (v4 n) = n / 2 ^ 24 == 10 || n / 2 ^ 20 == 0xac1 || n / 2 ^ 16 == 0xc0a8
is_private (v6 n zone) = n / 2 ^ 121 == 0x7e

unfoldable pub is_global_unicast : Addr → Bool
unfolding is_unspecified is_loopback is_multicast is_link_local_unicast
is_global_unicast invalid = false
is_global_unicast (v4 n) =
    not (n == 0 || n == 0xffffffff)
    && not (is_loopback (v4 n) || is_multicast (v4 n) || is_link_local_unicast (v4 n))
is_global_unicast (v6 n zone) =
    not (is_unspecified (v6 n zone))
    && not
        (is_loopback (v6 n zone) || is_multicast (v6 n zone) || is_link_local_unicast (v6 n zone))

-- Prefix.Contains: an address with a zone is in no prefix.
unfoldable pub contains : Prefix → Addr → Bool
contains (prefix4 base bits) (v4 n) = n / 2 ^ (32 - bits) == base / 2 ^ (32 - bits)
contains (prefix6 base bits) (v6 n zone) =
    is_empty zone && (n / 2 ^ (128 - bits) == base / 2 ^ (128 - bits))
contains _ _ = false
