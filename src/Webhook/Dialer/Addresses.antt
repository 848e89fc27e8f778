-- ===== src/Webhook/Dialer/Addresses.antt =====
-- Which addresses are allowed.
use relayforge.Prelude.{
  ◌^◌, any_of, if◌then◌else◌, ◌==◌, arith, ◌∷◌, [], List, ◌||◌, ◌&&◌, not, false, true, Bool, ◌≡◌,
  ◌<◌, ℕ, ◌%◌, ◌/◌,
}
use relayforge.Webhook.Netip.{
  unmap, is_unspecified, is_multicast, is_loopback, v4, v6, is_link_local_unicast, is_private,
  is_global_unicast, contains,
}
use relayforge.Prelude.Text.{Text, between}
use relayforge.Webhook.Dialer.{address_allowed, blocked_prefixes}

-- The first and last addresses of the special ranges of IPv4: "this" network, private use, shared
-- space, loopback, link local, private use, protocol assignments, private use, benchmarking, and
-- multicast with what is reserved above it.
abbrev pub special_ranges : List (ℕ × ℕ)
special_ranges =
    (0x00000000, 0x00ffffff)
    ∷ (0x0a000000, 0x0affffff)
    ∷ (0x64400000, 0x647fffff)
    ∷ (0x7f000000, 0x7fffffff)
    ∷ (0xa9fe0000, 0xa9feffff)
    ∷ (0xac100000, 0xac1fffff)
    ∷ (0xc0000000, 0xc00000ff)
    ∷ (0xc0a80000, 0xc0a8ffff)
    ∷ (0xc6120000, 0xc613ffff)
    ∷ (0xe0000000, 0xffffffff)
    ∷ []

-- The chain of tests as one conjunction; what is zero is in the first range, and the last address in
-- the last.
chain :
    (zero_ multicast last loop link ten lan home this shared assigned bench high : Bool)
    → (zero_ ≡ true → this ≡ true)
    → (last ≡ true → high ≡ true)
    → (if zero_ || multicast
        then false
        else if not (not (zero_ || last) && not (loop || multicast || link))
            || (ten || lan || home)
            || loop
            || link
        then false
        else not (
            any_of
              (λ b. b)
              (this ∷ shared ∷ link ∷ assigned ∷ bench ∷ multicast ∷ high ∷ false ∷ [])))
      ≡ not (
          any_of
            (λ b. b)
            (this
              ∷ ten
              ∷ shared
              ∷ loop
              ∷ link
              ∷ lan
              ∷ assigned
              ∷ home
              ∷ bench
              ∷ (multicast || high)
              ∷ []))
chain zero_ multicast last loop link ten lan home this shared assigned bench high h k = ground arith

this_net : (n : ℕ) → (n / 2 ^ 24 == 0) ≡ between 0x00000000 0x00ffffff n
this_net n = ground arith

ten_net : (n : ℕ) → (n / 2 ^ 24 == 10) ≡ between 0x0a000000 0x0affffff n
ten_net n = ground arith

shared_net : (n : ℕ) → (n / 2 ^ 22 == 0x191) ≡ between 0x64400000 0x647fffff n
shared_net n = ground arith

loop_net : (n : ℕ) → (n / 2 ^ 24 == 127) ≡ between 0x7f000000 0x7fffffff n
loop_net n = ground arith

link_net : (n : ℕ) → (n / 2 ^ 16 == 0xa9fe) ≡ between 0xa9fe0000 0xa9feffff n
link_net n = ground arith

lan_net : (n : ℕ) → (n / 2 ^ 20 == 0xac1) ≡ between 0xac100000 0xac1fffff n
lan_net n = ground arith

assigned_net : (n : ℕ) → (n / 2 ^ 8 == 0xc00000) ≡ between 0xc0000000 0xc00000ff n
assigned_net n = ground arith

home_net : (n : ℕ) → (n / 2 ^ 16 == 0xc0a8) ≡ between 0xc0a80000 0xc0a8ffff n
home_net n = ground arith

bench_net : (n : ℕ) → (n / 2 ^ 17 == 0x6309) ≡ between 0xc6120000 0xc613ffff n
bench_net n = ground arith

high_net :
    (n : ℕ)
    → n < 4294967296
    → (n / 2 ^ 28 == 0xe || n / 2 ^ 28 == 0xf) ≡ between 0xe0000000 0xffffffff n
high_net n h = ground arith

-- Without private targets, an IPv4 address is allowed exactly if it is in no special range.
pub address_allowed-ranges :
    (n : ℕ)
    → n < 4294967296
    → address_allowed (v4 n) false ≡ not (any_of (λ r. between r.0 r.1 n) special_ranges)
unfolding address_allowed blocked_prefixes unmap is_unspecified is_multicast is_loopback
    is_link_local_unicast is_private is_global_unicast contains
address_allowed-ranges n h =
    rw
      (
        ← this_net n,
        ← ten_net n,
        ← shared_net n,
        ← loop_net n,
        ← link_net n,
        ← lan_net n,
        ← assigned_net n,
        ← home_net n,
        ← bench_net n,
        ← high_net n h,
      )
      (chain (n == 0) (n / 2 ^ 28 == 0xe) (n == 0xffffffff) (n / 2 ^ 24 == 127)
        (n / 2 ^ 16 == 0xa9fe) (n / 2 ^ 24 == 10) (n / 2 ^ 20 == 0xac1) (n / 2 ^ 16 == 0xc0a8)
        (n / 2 ^ 24 == 0) (n / 2 ^ 22 == 0x191) (n / 2 ^ 8 == 0xc00000) (n / 2 ^ 17 == 0x6309)
        (n / 2 ^ 28 == 0xf) (λ e. ground arith) (λ e. ground arith))

-- An IPv4 address that is mapped into IPv6 is allowed exactly if the IPv4 address is.
pub address_allowed-mapped :
    (n : ℕ) (zone : Text) (allow_private : Bool)
    → n / 4294967296 ≡ 0xffff
    → address_allowed (v6 n zone) allow_private
      ≡ address_allowed (v4 (n % 4294967296)) allow_private
unfolding address_allowed unmap
address_allowed-mapped n zone allow_private h = ground arith
