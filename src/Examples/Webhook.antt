-- ===== src/Examples/Webhook.antt =====
-- Targets and answers of sample endpoints.
use relayforge.Prelude.{
  any_of, arith, ◌++◌, ◌∷◌, [], none, not, false, true, refl, ◌≡◌, ◌≤◌, ok, err, Memᴰ, All,
}
use relayforge.Prelude.Text.{Text, codes, between}
use relayforge.Webhook.Netip.{Addr, v4}
use relayforge.Webhook.Dialer.{Net, address_allowed, dial_context, resolve, blocked}
use relayforge.Webhook.Dialer.Addresses.{address_allowed-ranges, special_ranges}
use relayforge.Webhook.Dialer.Dialing.{dial_context-IsAllowed, dial_context-blocked}
use relayforge.Webhook.Dispatcher.{Wire, Post, Response, WebhookRequest, deliver}
use relayforge.Webhook.Dispatcher.Results.{IsDelivered, deliver-IsDelivered}

address_allowed-ranges_example :
    address_allowed (v4 0x08080808) false
    ≡ not (any_of (λ r. between r.0 r.1 0x08080808) special_ranges)
address_allowed-ranges_example = address_allowed-ranges 0x08080808 (omega arith)

-- A host with a public and a private address.
abbrev net : Net Text
net = record {
  split_host_port = λ address. ok (address, codes "443");
  parse_addr = λ host. none;
  lookup = λ host. ok (v4 0x08080808 ∷ v4 0x0a000001 ∷ []);
  connect = λ tried network address port. ok (codes "connected");
}

dial_context-IsAllowed_example :
    All
      (λ a. address_allowed a false ≡ true)
      (dial_context net false (codes "tcp") (codes "example.com")).0
dial_context-IsAllowed_example =
    dial_context-IsAllowed net false (codes "tcp") (codes "example.com")

private_refused : address_allowed (v4 0x0a000001) false ≡ false
private_refused = address_allowed-ranges 0x0a000001 (omega arith)

host_resolves : resolve net (codes "example.com") ≡ ok (v4 0x08080808 ∷ v4 0x0a000001 ∷ [])
unfolding resolve
host_resolves = refl

dial_context-blocked_example :
    (b : Addr) × (address_allowed b false ≡ false)
    × (dial_context net false (codes "tcp") (codes "example.com") ≡ ([], err (blocked b)))
dial_context-blocked_example =
    dial_context-blocked net false (codes "tcp") (codes "example.com") (codes "example.com")
      (codes "443") (v4 0x08080808 ∷ v4 0x0a000001 ∷ []) (v4 0x0a000001) refl host_resolves
      (Memᴰ.tail (Memᴰ.head refl)) private_refused

abbrev pub wire : Wire
wire = record {
  decrypt = λ sealed context. ok sealed;
  url_scheme = λ target. ok (codes "https");
  send = λ post. ok (record { status_code = 204; read = λ n. ([], none) });
  hmac_sha256 = λ key message. key ++ message;
  hex = λ digest. digest;
  format_int = λ n. codes "7";
}

abbrev pub request : WebhookRequest
request = record {
  delivery_id = codes "d1";
  event_id = codes "e1";
  endpoint_id = codes "ep";
  event_type = codes "invoice.paid";
  target_url = codes "https://example.com/";
  secret_ciphertext = 1 ∷ [];
  payload = codes "1";
  timeout = 5000000000;
}

code_204 :
    (post : Post) (response : Response)
    → wire.send post ≡ ok response
    → (100 ≤ response.status_code) × (response.status_code ≤ 599)
code_204 post response e = ground arith

deliver-IsDelivered_example : IsDelivered (deliver wire false 32768 410 417 request)
deliver-IsDelivered_example =
    deliver-IsDelivered wire false 32768 410 417 request (omega arith) code_204
