-- ===== src/Examples/Services.antt =====
-- The endpoint service and the box on small inputs.
use relayforge.Endpoint
use relayforge.Prelude.{
  All, ok, if◌then◌else◌, arith, ◌++◌, ◌∷◌, [], some, none, false, true, refl, ◌≡◌,
}
use relayforge.Store.Tables.{Database}
use relayforge.Examples.Data.{tables}
use relayforge.Prelude.Int.{pos}
use relayforge.Delivery.Policy.{validate_max_attempts}
use relayforge.Prelude.Utf8.{rune_count, storable}
use relayforge.Secure.Envelope.{decrypt-encrypt, IsLawful}
use relayforge.Prelude.Text.{trim_last, has_suffix, Text, codes, text_eq, trim_space}
use relayforge.Endpoint.Targets.{printed, looked_at, normalize_target-IsAllowed, IsAllowed}
use relayforge.Secure.{decrypt, encrypt, Aead}
use relayforge.Endpoint.{checked_input, normalize_target, Net, Url, Options, CreateInput, Created}
use relayforge.Endpoint.Creation.{get-create}

abbrev site : Url
site = record {
  scheme = codes "https";
  opaque = [];
  has_user = false;
  host = codes "Shop.example";
  path = [];
  fragment = [];
  rest = [];
}

-- One URL and no addresses.
abbrev pub net : Net
net = record {
  parse_url = λ s. some site;
  print_url = λ u. u.scheme ++ codes "://" ++ u.host ++ u.path;
  hostname = λ u. u.host;
  port = λ u. [];
  join_host_port = λ h p. h ++ codes ":" ++ p;
  parse_ip = λ s. none;
  to_lower = λ s. if text_eq s (codes "Shop.example") then codes "shop.example" else s;
  is_uuid = λ s. true;
}

abbrev pub strict : Options
strict = record { allow_http = false; allow_private_targets = false }

normalized_target : normalize_target net (codes "x") strict ≡ ok (codes "https://shop.example/")
unfolding normalize_target text_eq trim_space has_suffix trim_last
normalized_target = refl

normalize_target-IsAllowed_example :
    (parsed : Url) × (net.parse_url (trim_space (codes "x")) ≡ some parsed)
    × (codes "https://shop.example/" ≡ net.print_url (printed net parsed))
    × IsAllowed net strict (printed net parsed) (looked_at net parsed)
normalize_target-IsAllowed_example =
    normalize_target-IsAllowed net (codes "x") strict (codes "https://shop.example/")
      normalized_target

abbrev input : CreateInput
input = record { name = codes " shop "; url = codes "x"; timeout = pos 0; max_attempts = pos 0 }

input_checked :
    checked_input net input strict ≡ ok (codes "shop", codes "https://shop.example/", 5000000000, 8)
unfolding checked_input text_eq trim_space has_suffix trim_last rune_count validate_max_attempts
input_checked = refl

name_stored : storable (codes "shop") ≡ true
unfolding storable
name_stored = refl

target_stored : storable (codes "https://shop.example/") ≡ true
unfolding storable
target_stored = refl

fresh_endpoint : All (λ e. text_eq e.id (codes "e9") ≡ false) tables.endpoints
unfolding text_eq
fresh_endpoint = (refl, tt)

get-create_example :
    (db' : Database) × (created : Created) × (Endpoint.create net
        (λ s. s)
        (λ secret context. ok secret)
        (ok (codes "r"))
        500
        (codes "e9")
        input
        strict
        tables
      ≡ ok (db', created))
    × (created ≡ record {
      endpoint = record {
        id = codes "e9";
        name = codes "shop";
        url = codes "https://shop.example/";
        secret_ciphertext = codes "r";
        timeout = 5000000000;
        max_attempts = 8;
        consecutive_failures = 0;
        disabled_at = none;
        circuit_open_until = none;
        created_at = 500;
        updated_at = 500;
      };
      secret = codes "r";
    })
    × (Endpoint.get net (codes "e9") db' ≡ ok created.endpoint)
get-create_example =
    get-create net (λ s. s) (λ secret context. ok secret) 500 (codes "e9") input strict tables
      (codes "r") (codes "r") (codes "shop") (codes "https://shop.example/") 5000000000 8
      input_checked refl name_stored target_stored refl fresh_endpoint

-- A cipher that appends a byte, and looks at nothing else.
abbrev padding : Aead
padding = record {
  nonce_size = 2;
  overhead = 1;
  seal = λ nonce plaintext about. 7 ∷ plaintext;
  open_sealed = λ nonce sealed about. elim sealed [ [] ↦ none | b ∷ s ↦ some s ];
}

padding-IsLawful : IsLawful padding
padding-IsLawful = record {
  open_seal = λ nonce plaintext about. refl;
  length_seal = λ nonce plaintext about. omega arith;
}

decrypt-encrypt_example :
    (envelope : Text) × (encrypt padding (λ n. ok (1 ∷ 2 ∷ [])) (codes "s") (codes "a")
      ≡ ok envelope)
    × (decrypt padding envelope (codes "a") ≡ ok (codes "s"))
decrypt-encrypt_example =
    decrypt-encrypt padding (λ n. ok (1 ∷ 2 ∷ [])) (1 ∷ 2 ∷ []) (codes "s") (codes "a")
      padding-IsLawful refl refl
