-- ===== src/Store/History/Ties.antt =====
-- The references between the tables, and how updates and insertions keep them.
use relayforge.Prelude.{
  any_of-false, All-mem, Bool-cases, All-of-mem, mem-append, All-update_each, mem-update, All-mono,
  Memᴰ, update, any_of, All-append, All, if◌then◌else◌, ◌==◌, arith, ◌++◌, ◌∷◌, [], List, ◌&&◌,
  false, true, Bool, inr, inl, ◌∙◌, subst, ap, refl, ◌≡◌, ◌<◌, ◌≤◌, ℕ,
}
use relayforge.Prelude.Text.{text_eq_iff, text_eq, Text}
use relayforge.Store.Tables.Keys.{UniqueIds-mem, UniqueIds}
use relayforge.Store.Tables.{same_attempt, DeliveryRow, AttemptRow, EndpointRow}
use relayforge.Delivery.Model.{Status, Event}

abbrev pub has_event : Text → List Event → Bool
has_event id = any_of (λ e. text_eq e.id id)

abbrev pub has_endpoint : Text → List EndpointRow → Bool
has_endpoint id = any_of (λ e. text_eq e.id id)

-- The delivery of a recorded attempt: it has counted the attempt, and one under way is a later one.
pub record Logged (rows : List DeliveryRow) (id : Text) (number : ℕ) : Type 0 where
  pub row : DeliveryRow
  pub present : Memᴰ row rows
  pub same_id : text_eq row.id id ≡ true
  pub counted : number ≤ row.attempt_count
  pub later : row.status ≡ Status.processing → number < row.attempt_count

-- The references of the deliveries and of the attempts lead somewhere.
pub record Tied (events : List Event) (endpoints : List EndpointRow) (rows : List DeliveryRow)
    (attempts : List AttemptRow) : Type 0 where
  pub linked :
      All
        (λ d. (has_event d.event_id events ≡ true) × (has_endpoint d.endpoint_id endpoints ≡ true))
        rows
  pub logged : All (λ a. Logged rows a.delivery_id a.attempt_number) attempts

-- What an update may do to a row: a row that it makes `processing` has counted one more attempt.
pub record Moves (d e : DeliveryRow) : Type 0 where
  pub same_id : e.id ≡ d.id
  pub same_event : e.event_id ≡ d.event_id
  pub same_endpoint : e.endpoint_id ≡ d.endpoint_id
  pub counts : d.attempt_count ≤ e.attempt_count
  pub begins : e.status ≡ Status.processing → d.attempt_count < e.attempt_count

Logged-update :
    (p : DeliveryRow → Bool) (f : DeliveryRow → DeliveryRow) (rows : List DeliveryRow) (id : Text)
    (n : ℕ)
    → All (λ d. p d ≡ true → Moves d (f d)) rows
    → Logged rows id n
    → Logged (update p f rows) id n
Logged-update p f rows id n moves l =
    let i = mem-update p f rows l.row l.present in
    elim (Bool-cases (p l.row)) [
      | inr miss ↦ record {
        row = l.row;
        present = subst (λ b. Memᴰ (if b then f l.row else l.row) (update p f rows)) miss i;
        same_id = l.same_id;
        counted = l.counted;
        later = l.later;
      }
      | inl hit ↦
          let m = All-mem (λ d. p d ≡ true → Moves d (f d)) rows moves l.present hit in
          record {
            row = f l.row;
            present = subst (λ b. Memᴰ (if b then f l.row else l.row) (update p f rows)) hit i;
            same_id = rw m.same_id l.same_id;
            counted = omega (arith, m.counts, l.counted);
            later = λ e. omega (arith, m.begins e, l.counted);
          }
    ]

module _ (events : List Event) (endpoints : List EndpointRow) where
  pub Tied-update :
      (p : DeliveryRow → Bool) (f : DeliveryRow → DeliveryRow) (rows : List DeliveryRow)
      (attempts : List AttemptRow)
      → All (λ d. p d ≡ true → Moves d (f d)) rows
      → Tied events endpoints rows attempts
      → Tied events endpoints (update p f rows) attempts
  Tied-update p f rows attempts moves t = record {
    linked =
        All-update_each _ p f rows
          (All-of-mem _ rows λ d i h.
            let m = All-mem (λ d. p d ≡ true → Moves d (f d)) rows moves i h in
            let l = All-mem _ rows t.linked i in rw (m.same_event, m.same_endpoint) l)
          t.linked;
    logged =
        All-mono (λ a l. Logged-update p f rows a.delivery_id a.attempt_number moves l) attempts
          t.logged;
  }

  pub Tied-endpoints :
      (endpoints' : List EndpointRow) (rows : List DeliveryRow) (attempts : List AttemptRow)
      → ((id : Text) → has_endpoint id endpoints ≡ true → has_endpoint id endpoints' ≡ true)
      → Tied events endpoints rows attempts
      → Tied events endpoints' rows attempts
  Tied-endpoints endpoints' rows attempts keeps t = record {
    linked = All-mono (λ d l. (l.0, keeps d.endpoint_id l.1)) rows t.linked;
    logged = t.logged;
  }

  pub Tied-attempt :
      (rows : List DeliveryRow) (attempts : List AttemptRow) (a : AttemptRow)
      → Logged rows a.delivery_id a.attempt_number
      → Tied events endpoints rows attempts
      → Tied events endpoints rows (attempts ++ a ∷ [])
  Tied-attempt rows attempts a l t = record {
    linked = t.linked;
    logged = All-append _ attempts (a ∷ []) t.logged (l, tt);
  }

  pub Tied-delivery :
      (rows : List DeliveryRow) (attempts : List AttemptRow) (d : DeliveryRow)
      → has_event d.event_id events ≡ true
      → has_endpoint d.endpoint_id endpoints ≡ true
      → Tied events endpoints rows attempts
      → Tied events endpoints (rows ++ d ∷ []) attempts
  Tied-delivery rows attempts d event endpoint t = record {
    linked = All-append _ rows (d ∷ []) t.linked ((event, endpoint), tt);
    logged =
        All-mono
          (λ a l. record {
            row = l.row;
            present = mem-append rows (d ∷ []) l.present;
            same_id = l.same_id;
            counted = l.counted;
            later = l.later;
          })
          attempts t.logged;
  }

pub Tied-events :
    (events events' : List Event) (endpoints : List EndpointRow) (rows : List DeliveryRow)
    (attempts : List AttemptRow)
    → ((id : Text) → has_event id events ≡ true → has_event id events' ≡ true)
    → Tied events endpoints rows attempts
    → Tied events' endpoints rows attempts
Tied-events events events' endpoints rows attempts keeps t = record {
  linked = All-mono (λ d l. (keeps d.event_id l.0, l.1)) rows t.linked;
  logged = t.logged;
}

-- The attempt under way of a delivery has no row yet.
pub Tied-unrecorded :
    (events : List Event) (endpoints : List EndpointRow) (rows : List DeliveryRow)
    (attempts : List AttemptRow) (d : DeliveryRow)
    → UniqueIds rows
    → Tied events endpoints rows attempts
    → Memᴰ d rows
    → d.status ≡ Status.processing
    → any_of (same_attempt d.id d.attempt_count) attempts ≡ false
unfolding same_attempt
Tied-unrecorded events endpoints rows attempts d unique t i busy =
    any_of-false _ attempts (All-mono (λ a l. apart a l) attempts t.logged)
  where
    apart :
        (a : AttemptRow)
        → Logged rows a.delivery_id a.attempt_number
        → (text_eq a.delivery_id d.id && a.attempt_number == d.attempt_count) ≡ false
    apart a l = elim (Bool-cases (text_eq a.delivery_id d.id)) [
      | inr miss ↦ rw miss refl
      | inl hit ↦
          let owner : l.row ≡ d =
            UniqueIds-mem rows l.row d unique l.present i
              (rw (← (text_eq_iff a.delivery_id d.id).0 hit) l.same_id) in
          let less : a.attempt_number < d.attempt_count =
            subst (λ x. a.attempt_number < x.attempt_count) owner
              (l.later (ap (λ x. x.status) owner ∙ busy)) in
          ground (arith, less)
    ]
