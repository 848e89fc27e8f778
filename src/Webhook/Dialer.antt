-- ===== src/Webhook/Dialer.antt =====
-- internal/webhook/dialer.go: SafeDialer connects to no address that is not allowed. The resolver, the
-- dialer below it, and the parsing of addresses are parameters; an error of theirs is a text.
pub mod Addresses
pub mod Dialing
use relayforge.Prelude.{
  any_of, reverse, refuse, not, Result, ◌>>◌, err, ok, if◌then◌else◌, ◌∷◌, [], List, some, none,
  Option, ◌||◌, ◌&&◌, false, true, Bool, suc, ℕ,
}
use relayforge.Webhook.Netip.{
  Addr, Prefix, is_valid, is4, is6, unmap, is_unspecified, is_multicast, is_loopback,
  is_link_local_unicast, is_private, is_global_unicast, contains, prefix4, prefix6,
}
use relayforge.Prelude.Text.{Text, codes, text_eq}

unfoldable pub blocked_prefixes : List Prefix
blocked_prefixes =
    prefix4 0 8
    ∷ prefix4 0x64400000 10
    ∷ prefix4 0xa9fe0000 16
    ∷ prefix4 0xc0000000 24
    ∷ prefix4 0xc6120000 15
    ∷ prefix4 0xe0000000 4
    ∷ prefix4 0xf0000000 4
    ∷ prefix6 0xffff00000000 96
    ∷ []

unfoldable pub address_allowed : Addr → Bool → Bool
unfolding blocked_prefixes
address_allowed address allow_private =
    let a = unmap address in
    if not (is_valid address)
    then false
    else if is_unspecified a || is_multicast a
    then false
    else if allow_private
    then true
    else if not (is_global_unicast a) || is_private a || is_loopback a || is_link_local_unicast a
    then false
    else not (any_of (λ p. contains p a) blocked_prefixes)

pub data DialError : Type 0 where
  bad_address unresolved : Text → DialError
  no_addresses no_compatible_addresses : DialError
  blocked : Addr → DialError
  not_connected : List Text → DialError

-- What the code calls: net.SplitHostPort, netip.ParseAddr after the brackets are trimmed, LookupNetIP,
-- and the dialer below, whose answer may depend on how many connections were tried before.
pub record Net (C : Type 0) : Type 0 where
  pub split_host_port : Text → Result Text (Text × Text)
  pub parse_addr : Text → Option Addr
  pub lookup : Text → Result Text (List Addr)
  pub connect : ℕ → Text → Addr → Text → Result Text C

-- The test at the head of the dialing loop.
unfoldable pub incompatible : Text → Addr → Bool
incompatible network a =
    (text_eq network (codes "tcp4") && not (is4 a))
    || (text_eq network (codes "tcp6") && not (is6 a))

-- What the code returns after its loop.
unfoldable pub unconnected : List Text → DialError
unconnected [] = no_compatible_addresses
unconnected (e ∷ errors) = not_connected (reverse (e ∷ errors))

module _ {C : Type 0} (net : Net C) where
  unfoldable pub resolve : Text → Result DialError (List Addr)
  resolve host = elim (net.parse_addr host) [
    | some a ↦ ok (a ∷ [])
    | none ↦ elim (net.lookup host) [
      | err e ↦ err (unresolved e)
      | ok [] ↦ err no_addresses
      | ok (a ∷ as_) ↦ ok (a ∷ as_)
    ]
  ]

  -- The first loop: the addresses, or an error for one that is not allowed.
  unfoldable pub all_allowed : Bool → List Addr → Result DialError (Unit {0})
  all_allowed allow_private [] = ok tt
  all_allowed allow_private (a ∷ as_) =
      refuse (not (address_allowed a allow_private)) (blocked a) >> all_allowed allow_private as_

  -- The second loop, after `tried` connections with the given errors, in reverse: the addresses it
  -- connects to, in order, and its result.
  unfoldable pub dial_each :
      Text → Text → ℕ → List Text → List Addr → List Addr × Result DialError C
  unfolding unconnected
  dial_each network port tried errors [] = ([], err (unconnected errors))
  dial_each network port tried errors (a ∷ as_) = elim (incompatible network (unmap a)) [
    | true ↦ dial_each network port tried errors as_
    | false ↦ elim (net.connect tried network (unmap a) port) [
      | ok c ↦ (unmap a ∷ [], ok c)
      | err e ↦
          let (dialed, result) = dial_each network port (suc tried) (e ∷ errors) as_ in
          (unmap a ∷ dialed, result)
    ]
  ]

  -- DialContext, with the addresses that it connects to.
  unfoldable pub dial_context : Bool → Text → Text → List Addr × Result DialError C
  unfolding dial_each
  dial_context allow_private network address = elim (net.split_host_port address) [
    | err e ↦ ([], err (bad_address e))
    | ok (host, port) ↦ elim (resolve host) [
      | err e ↦ ([], err e)
      | ok addresses ↦ elim (all_allowed allow_private addresses) [
        | err e ↦ ([], err e)
        | ok _ ↦ dial_each network port 0 [] addresses
      ]
    ]
  ]
