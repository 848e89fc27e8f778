-- ===== src/Store/Evolution.antt =====
-- What the transactions may do to the table of deliveries, row by row.
use relayforge.Prelude.{
  Bool-cases, update, Memᴰ, All, arith, ◌++◌, ◌∷◌, [], List, true, Bool, inr, inl, ◌∙◌, subst, sym,
  refl, ◌≡◌, ◌≤◌,
}
use relayforge.Delivery.Model.{can_transition, Status}
use relayforge.Store.Tables.{DeliveryRow}
use relayforge.Delivery.Model.Lifecycle.{Life, start, change}

-- A row and what it has become: the same delivery, further along its life.
pub record Grows (d e : DeliveryRow) : Type 0 where
  pub same_id : e.id ≡ d.id
  pub same_event : e.event_id ≡ d.event_id
  pub same_endpoint : e.endpoint_id ≡ d.endpoint_id
  pub lives : Life d.status e.status
  pub counts : d.attempt_count ≤ e.attempt_count
  pub allows : d.max_attempts ≤ e.max_attempts

-- A table and what it has become: the old rows in their places, and perhaps new ones behind them.
abbrev pub Evolves : List DeliveryRow → List DeliveryRow → Type 0
Evolves [] es = Unit {0}
Evolves (d ∷ ds) [] = ⊥
Evolves (d ∷ ds) (e ∷ es) = Grows d e × Evolves ds es

pub Grows-refl : (d : DeliveryRow) → Grows d d
Grows-refl d = record {
  same_id = refl;
  same_event = refl;
  same_endpoint = refl;
  lives = start;
  counts = omega arith;
  allows = omega arith;
}

Life-trans : {s t u : Status} → Life s t → Life t u → Life s u
Life-trans a start = a
Life-trans a (change b h) = change (Life-trans a b) h

Grows-trans : (c d e : DeliveryRow) → Grows c d → Grows d e → Grows c e
Grows-trans c d e g h = record {
  same_id = h.same_id ∙ g.same_id;
  same_event = h.same_event ∙ g.same_event;
  same_endpoint = h.same_endpoint ∙ g.same_endpoint;
  lives = Life-trans g.lives h.lives;
  counts = omega arith;
  allows = omega arith;
}

pub Evolves-refl : (ds : List DeliveryRow) → Evolves ds ds
Evolves-refl [] = tt
Evolves-refl (d ∷ ds) = (Grows-refl d, Evolves-refl ds)

pub Evolves-trans : (cs ds es : List DeliveryRow) → Evolves cs ds → Evolves ds es → Evolves cs es
Evolves-trans [] ds es g h = tt
Evolves-trans (c ∷ cs) [] es g h = elim g [ ]
Evolves-trans (c ∷ cs) (d ∷ ds) [] g h = elim h [ ]
Evolves-trans (c ∷ cs) (d ∷ ds) (e ∷ es) g h =
    (Grows-trans c d e g.0 h.0, Evolves-trans cs ds es g.1 h.1)

pub Evolves-append : (ds es : List DeliveryRow) → Evolves ds (ds ++ es)
Evolves-append [] es = tt
Evolves-append (d ∷ ds) es = (Grows-refl d, Evolves-append ds es)

-- One change of status, with the counters as they are or higher.
pub Grows-of_change :
    (d e : DeliveryRow)
    → e.id ≡ d.id
    → e.event_id ≡ d.event_id
    → e.endpoint_id ≡ d.endpoint_id
    → can_transition d.status e.status ≡ true
    → d.attempt_count ≤ e.attempt_count
    → d.max_attempts ≤ e.max_attempts
    → Grows d e
Grows-of_change d e i v p h c m = record {
  same_id = i;
  same_event = v;
  same_endpoint = p;
  lives = change start h;
  counts = c;
  allows = m;
}

-- An update evolves the table if every row that it touches grows.
pub Evolves-update :
    (p : DeliveryRow → Bool) (f : DeliveryRow → DeliveryRow) (ds : List DeliveryRow)
    → All (λ d. p d ≡ true → Grows d (f d)) ds
    → Evolves ds (update p f ds)
Evolves-update p f [] h = tt
Evolves-update p f (d ∷ ds) h = elim (Bool-cases (p d)) [
  | inl hit ↦ rw hit (h.0 hit, Evolves-update p f ds h.1)
  | inr miss ↦ rw miss (Grows-refl d, Evolves-update p f ds h.1)
]

-- A row of the old table has become a row of the new one.
pub Evolves-mem :
    (ds es : List DeliveryRow) {d : DeliveryRow}
    → Evolves ds es
    → Memᴰ d ds
    → (e : DeliveryRow) × Memᴰ e es × Grows d e
Evolves-mem [] es v i = elim i [ ]
Evolves-mem (x ∷ xs) [] v i = elim v [ ]
Evolves-mem (x ∷ xs) (y ∷ ys) {d} v (Memᴰ.head a) =
    (y, Memᴰ.head refl, subst (λ z. Grows z y) (sym a) v.0)
Evolves-mem (x ∷ xs) (y ∷ ys) v (Memᴰ.tail i) =
    let (e, j, g) = Evolves-mem xs ys v.1 i in (e, Memᴰ.tail j, g)
