-- ===== src/Endpoint/Targets.antt =====
-- Which targets an endpoint may have.
use relayforge.Prelude.Text.{trim_last, trim_space, Text, codes, text_eq, text_eq_iff, is_empty}
use relayforge.Endpoint.{
  bracketed, Net, Url, Options, normalize_target, host_of, is_private_host, normalized,
}
use relayforge.Prelude.{
  Bool-cases, Option-cases, any_of, ◌==◌, arith, ◌||◌, ◌&&◌, not, false, true, Bool, inr, inl, ◌⊎◌,
  ◌≡◌, ok, some, if◌then◌else◌,
}

-- An absolute URL under an allowed scheme, without a user or a fragment, to a host that is named, and
-- that is not private unless private targets are allowed.
pub record IsAllowed (net : Net) (options : Options) (u : Url) (hostname : Text) : Type 0 where
  pub scheme :
      (u.scheme ≡ codes "https") ⊎ ((options.allow_http ≡ true) × (u.scheme ≡ codes "http"))
  pub not_opaque : is_empty u.opaque ≡ true
  pub no_user : u.has_user ≡ false
  pub no_fragment : is_empty u.fragment ≡ true
  pub has_path : is_empty u.path ≡ false
  pub named : is_empty hostname ≡ false
  pub no_zone : any_of (λ b. b == 37) hostname ≡ false
  pub public_host : (options.allow_private_targets ≡ true) ⊎ (is_private_host net hostname ≡ false)

allowed_scheme :
    (scheme : Text) (allow_http : Bool)
    → (not (text_eq scheme (codes "https"))
        && (not allow_http || not (text_eq scheme (codes "http"))))
      ≡ false
    → (scheme ≡ codes "https") ⊎ ((allow_http ≡ true) × (scheme ≡ codes "http"))
allowed_scheme scheme allow_http h = elim (Bool-cases (text_eq scheme (codes "https"))) [
  | inl hit ↦ inl ((text_eq_iff scheme (codes "https")).0 hit)
  | inr miss ↦ elim (Bool-cases (text_eq scheme (codes "http"))) [
    | inl plain ↦ inr (ground arith, (text_eq_iff scheme (codes "http")).0 plain)
    | inr off ↦ absurd (ground arith)
  ]
]

allowed_host :
    (allow private : Bool) → (not allow && private) ≡ false → (allow ≡ true) ⊎ (private ≡ false)
allowed_host allow private h = ground arith

module _ (net : Net) where
  -- The host of a URL that normalizeTarget looks at, and the URL that it prints.
  abbrev pub looked_at : Url → Text
  looked_at u =
      net.to_lower (trim_last 46 (net.hostname (record u { scheme = net.to_lower u.scheme })))

  abbrev pub printed : Url → Url
  printed u =
      let port = net.port (record u { scheme = net.to_lower u.scheme }) in
      record u {
        scheme = net.to_lower u.scheme;
        host =
            if not (is_empty port)
            then net.join_host_port (looked_at u) port
            else if any_of (λ b. b == 58) (looked_at u)
            then bracketed (looked_at u)
            else looked_at u;
        path = if is_empty u.path then codes "/" else u.path;
      }

  -- The target that normalizeTarget returns is the print of an allowed URL: the text was parsed as a
  -- URL, and what is printed is that URL with its scheme and host in lower case, the host without the
  -- dot at its end, with a port if there was one, and with / for no path; it is this host that is
  -- named and, unless private targets are allowed, not private.
  pub normalize_target-IsAllowed :
      (raw : Text) (options : Options) (target : Text)
      → normalize_target net raw options ≡ ok target
      → (parsed : Url) × (net.parse_url (trim_space raw) ≡ some parsed)
        × (target ≡ net.print_url (printed parsed))
        × IsAllowed net options (printed parsed) (looked_at parsed)
  unfolding normalize_target host_of normalized
  normalize_target-IsAllowed raw options target h =
      elim (Option-cases (net.parse_url (trim_space raw))) [
        | inl e ↦ absurd (ground (arith, e))
        | inr (parsed, e) ↦
            let u = record parsed { scheme = net.to_lower parsed.scheme } in
            let hostname = host_of net u in
            (
              parsed,
              e,
              ground (arith, e),
              record {
                scheme = allowed_scheme u.scheme options.allow_http (ground (arith, e));
                not_opaque = ground (arith, e);
                no_user = ground (arith, e);
                no_fragment = ground (arith, e);
                has_path = ground (arith, e);
                named = ground (arith, e);
                no_zone = ground (arith, e);
                public_host =
                    allowed_host options.allow_private_targets (is_private_host net hostname)
                      (ground (arith, e));
              },
            )
      ]
