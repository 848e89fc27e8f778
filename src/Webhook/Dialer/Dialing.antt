-- ===== src/Webhook/Dialer/Dialing.antt =====
-- Which addresses SafeDialer connects to.
use relayforge.Webhook.Dialer.Addresses.{address_allowed-mapped}
use relayforge.Prelude.{
  ◌%◌, refuse, Result-cases, ◌/◌, Bool-cases, ◌>>◌, err, ok, arith, ◌∷◌, [], List, not, false, true,
  Bool, inr, inl, ◌⊎◌, ◌∙◌, subst, sym, refl, ◌≡◌, suc, ℕ, Memᴰ, All,
}
use relayforge.Webhook.Netip.{Addr, unmap, v4, v6, invalid}
use relayforge.Prelude.Text.{Text}
use relayforge.Webhook.Dialer.{
  address_allowed, all_allowed, dial_each, dial_context, resolve, Net, incompatible, blocked,
}

unmap_cases :
    (n : ℕ) (zone : Text)
    → ((n / 4294967296 ≡ 0xffff) × (unmap (v6 n zone) ≡ v4 (n % 4294967296)))
      ⊎ (unmap (v6 n zone) ≡ v6 n zone)
unfolding unmap
unmap_cases n zone = ground arith

unmap_v4 : (n : ℕ) → unmap (v4 n) ≡ v4 n
unfolding unmap
unmap_v4 n = refl

unmap_invalid : unmap invalid ≡ invalid
unfolding unmap
unmap_invalid = refl

address_allowed-unmap :
    (a : Addr) (allow_private : Bool)
    → address_allowed a allow_private ≡ true
    → address_allowed (unmap a) allow_private ≡ true
address_allowed-unmap invalid allow_private h = rw unmap_invalid h
address_allowed-unmap (v4 n) allow_private h = rw (unmap_v4 n) h
address_allowed-unmap (v6 n zone) allow_private h = elim (unmap_cases n zone) [
  | inl (mapped, e) ↦ rw e (sym (address_allowed-mapped n zone allow_private mapped) ∙ h)
  | inr e ↦ rw e h
]

module _ {C : Type 0} (net : Net C) (allow_private : Bool) where
  abbrev IsAllowed : Addr → Type 0
  IsAllowed a = address_allowed a allow_private ≡ true

  all_allowed_sound :
      (as_ : List Addr) → all_allowed net allow_private as_ ≡ ok tt → All IsAllowed as_
  unfolding all_allowed
  all_allowed_sound [] h = tt
  all_allowed_sound (a ∷ as_) h = elim (Bool-cases (address_allowed a allow_private)) [
    | inl free ↦ (
      free,
      all_allowed_sound as_ (
          subst (λ b. (refuse (not b) (blocked a) >> all_allowed net allow_private as_) ≡ ok tt)
            free h),
    )
    | inr shut ↦ absurd (ground arith)
  ]

  all_allowed_refused :
      (as_ : List Addr) (a : Addr)
      → Memᴰ a as_
      → address_allowed a allow_private ≡ false
      → (b : Addr) × (address_allowed b allow_private ≡ false)
        × (all_allowed net allow_private as_ ≡ err (blocked b))
  unfolding all_allowed
  all_allowed_refused [] a i h = elim i [ ]
  all_allowed_refused (b ∷ as_) a i h = elim (Bool-cases (address_allowed b allow_private)) [
    | inr shut ↦ (b, shut, rw shut refl)
    | inl free ↦ elim i [
      | Memᴰ.head e ↦ absurd (cc)
      | Memᴰ.tail j ↦ let (c, k, e) = all_allowed_refused as_ a j h in (c, k, rw free e)
    ]
  ]

  dial_each-IsAllowed :
      (network port : Text) (tried : ℕ) (errors : List Text) (as_ : List Addr)
      → All IsAllowed as_
      → All IsAllowed (dial_each net network port tried errors as_).0
  unfolding dial_each
  dial_each-IsAllowed network port tried errors [] h = tt
  dial_each-IsAllowed network port tried errors (a ∷ as_) h =
      elim (Bool-cases (incompatible network (unmap a))) [
        | inl skip ↦ rw (skip, dial_each) (dial_each-IsAllowed network port tried errors as_ h.1)
        | inr fits ↦
            rw (fits, dial_each)
              (elim (Result-cases (net.connect tried network (unmap a) port)) [
                | inl (c, e) ↦ rw e (address_allowed-unmap a allow_private h.0, tt)
                | inr (x, e) ↦ rw e (
                  address_allowed-unmap a allow_private h.0,
                  dial_each-IsAllowed network port (suc tried) (x ∷ errors) as_ h.1,
                )
              ])
      ]

  -- DialContext connects to allowed addresses only.
  pub dial_context-IsAllowed :
      (network address : Text)
      → All
          (λ a. address_allowed a allow_private ≡ true)
          (dial_context net allow_private network address).0
  unfolding dial_context
  dial_context-IsAllowed network address = elim (Result-cases (net.split_host_port address)) [
    | inr (x, e) ↦ rw (e, dial_context) tt
    | inl ((host, port), e) ↦
        rw (e, dial_context)
          (elim (Result-cases (resolve net host)) [
            | inr (x, f) ↦ rw f tt
            | inl (addresses, f) ↦
                rw f (elim (Result-cases (all_allowed net allow_private addresses)) [
                  | inr (x, g) ↦ rw g tt
                  | inl (done, g) ↦ rw g (
                      dial_each-IsAllowed network port 0 [] addresses
                        (all_allowed_sound addresses g))
                ])
          ])
  ]

  -- If the host resolves to addresses of which one is not allowed, DialContext connects to none, not even
  -- to those that are, and returns that an address is blocked, naming one that is not allowed.
  pub dial_context-blocked :
      (network address host port : Text) (addresses : List Addr) (a : Addr)
      → net.split_host_port address ≡ ok (host, port)
      → resolve net host ≡ ok addresses
      → Memᴰ a addresses
      → address_allowed a allow_private ≡ false
      → (b : Addr) × (address_allowed b allow_private ≡ false)
        × (dial_context net allow_private network address ≡ ([], err (blocked b)))
  unfolding dial_context
  dial_context-blocked network address host port addresses a e f i h =
      let (b, shut, g) = all_allowed_refused addresses a i h in
      (b, shut, rw (e, dial_context, f, g) refl)
