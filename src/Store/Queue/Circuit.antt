-- ===== src/Store/Queue/Circuit.antt =====
-- The circuit of an endpoint: opened by consecutive failures, closed by an answer.
use relayforge.Prelude.{
  ◌++◌, ◌∙◌, ap, length-append, ◌⊎◌, leb, Bool-cases, length, is_some, is_none, arith, ◌∷◌, [],
  List, none, false, true, inr, inl, ◌↔◌, refl, ◌≡◌, ◌<◌, ◌≤◌, ◌+◌, ℕ,
}
use relayforge.Prelude.Int.{whole_ms, from_ms, add_duration, ℤ}
use relayforge.Store.Queue.Finish.{circuit_succeeded, circuit_failed}
use relayforge.Store.Tables.{EndpointRow}
use relayforge.Store.Queue.{endpoint_open}

-- The cooldown as it is stored: whole milliseconds.
abbrev pub cooldown_end : ℕ → ℤ → ℕ
cooldown_end now cooldown = add_duration now (from_ms (whole_ms cooldown))

-- A failure that reaches the threshold shuts the endpoint for the whole cooldown, in whole
-- milliseconds, and for as long as it was shut already.
pub circuit_failed-opens :
    (now later threshold : ℕ) (cooldown : ℤ) (e : EndpointRow)
    → threshold ≤ e.consecutive_failures + 1
    → (later < cooldown_end now cooldown) ⊎ (endpoint_open later e ≡ false)
    → endpoint_open later (circuit_failed now threshold cooldown e) ≡ false
unfolding endpoint_open circuit_failed
circuit_failed-opens now later threshold cooldown e h k = ground arith

-- An answer opens the endpoint at once, unless it is disabled.
pub circuit_succeeded-endpoint_open :
    (now later : ℕ) (e : EndpointRow)
    → endpoint_open later (circuit_succeeded now e) ≡ is_none e.disabled_at
unfolding endpoint_open circuit_succeeded
circuit_succeeded-endpoint_open now later e = ground arith

-- The endpoint after failures at the given times, with no answer in between.
abbrev pub failures : ℕ → ℤ → List ℕ → EndpointRow → EndpointRow
failures threshold cooldown [] e = e
failures threshold cooldown (now ∷ times) e =
    failures threshold cooldown times (circuit_failed now threshold cooldown e)

stays_open :
    (threshold : ℕ) (cooldown : ℤ) (times : List ℕ) (e : EndpointRow)
    → is_some e.circuit_open_until ≡ true
    → is_some (failures threshold cooldown times e).circuit_open_until ≡ true
unfolding circuit_failed
stays_open threshold cooldown [] e h = h
stays_open threshold cooldown (now ∷ times) e h =
    stays_open threshold cooldown times (circuit_failed now threshold cooldown e) (ground arith)

-- Of an endpoint without an end of its circuit's opening, and with failures below the threshold,
-- further failures in a row set such an end exactly when they make the count reach the threshold.
pub failures-open :
    (threshold : ℕ) (cooldown : ℤ) (times : List ℕ) (e : EndpointRow)
    → e.circuit_open_until ≡ none
    → e.consecutive_failures < threshold
    → ((failures threshold cooldown times e).circuit_open_until ≡ none)
      ↔ (e.consecutive_failures + length times < threshold)
unfolding circuit_failed
failures-open threshold cooldown [] e h k = (λ _. omega arith, λ _. h)
failures-open threshold cooldown (now ∷ times) e h k =
    elim (Bool-cases (leb threshold (e.consecutive_failures + 1))) [
      | inl full ↦
          let open_ =
            stays_open threshold cooldown times (circuit_failed now threshold cooldown e)
              (rw full refl) in
          (λ shut. absurd (ground (arith)), λ few. absurd (ground arith))
      | inr room ↦
          let (f, g) =
            failures-open threshold cooldown times (circuit_failed now threshold cooldown e)
              (rw room h) (ground arith) in
          (λ shut. omega (arith, f shut), λ few. g (omega arith))
    ]

failures-append :
    (threshold : ℕ) (cooldown : ℤ) (times : List ℕ) (last : ℕ) (e : EndpointRow)
    → failures threshold cooldown (times ++ last ∷ []) e
      ≡ circuit_failed last threshold cooldown (failures threshold cooldown times e)
failures-append threshold cooldown [] last e = refl
failures-append threshold cooldown (now ∷ times) last e =
    failures-append threshold cooldown times last (circuit_failed now threshold cooldown e)

failures-counted :
    (threshold : ℕ) (cooldown : ℤ) (times : List ℕ) (e : EndpointRow)
    → let f = failures threshold cooldown times e in
      (f.consecutive_failures ≡ e.consecutive_failures + length times)
      × (f.disabled_at ≡ e.disabled_at)
unfolding circuit_failed
failures-counted threshold cooldown [] e = (omega arith, refl)
failures-counted threshold cooldown (now ∷ times) e =
    let (more, same) =
      failures-counted threshold cooldown times (circuit_failed now threshold cooldown e) in
    (omega (arith, more), same)

endpoint_open_closed :
    (later : ℕ) (e : EndpointRow)
    → e.circuit_open_until ≡ none
    → endpoint_open later e ≡ is_none e.disabled_at
unfolding endpoint_open
endpoint_open_closed later e h = ground arith

-- Of an endpoint whose circuit has never been opened since its last answer, and whose failures are
-- below the threshold, after more failures in a row, the last one at `last`: while their count stays
-- below the threshold, the endpoint is open for deliveries at any time unless it is disabled; once the
-- count reaches the threshold, it is shut at any time before the cooldown, in whole milliseconds, has
-- passed since the last failure.
pub failures-shut :
    (threshold : ℕ) (cooldown : ℤ) (times : List ℕ) (last later : ℕ) (e : EndpointRow)
    → e.circuit_open_until ≡ none
    → e.consecutive_failures < threshold
    → let f = failures threshold cooldown (times ++ last ∷ []) e in
      let n = e.consecutive_failures + length times + 1 in
      (n < threshold → endpoint_open later f ≡ is_none e.disabled_at)
      × (threshold ≤ n → later < cooldown_end last cooldown → endpoint_open later f ≡ false)
failures-shut threshold cooldown times last later e h k =
    let all = times ++ last ∷ [] in
    let size = length-append times (last ∷ []) in
    let (more, same) = failures-counted threshold cooldown all e in
    let (before, _) = failures-counted threshold cooldown times e in
    (
      λ few.
          endpoint_open_closed later (failures threshold cooldown all e)
            ((failures-open threshold cooldown all e h k).1 (omega (arith, few, size)))
          ∙ ap is_none same,
      λ full early. rw (failures-append threshold cooldown times last e) (
          circuit_failed-opens last later threshold cooldown (failures threshold cooldown times e)
            (omega (arith, full, before)) (inl early)),
    )
