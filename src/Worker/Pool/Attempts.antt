-- ===== src/Worker/Pool/Attempts.antt =====
-- No attempt of a delivery is made by two workers of a pool.
use relayforge.Store.Events.{Jsonb}
use relayforge.Worker.Pool.Making.{
  is_making, begins, after_claim-begins, after_process-idle, after_wait-idle, making_at,
  claim_fresh,
}
use relayforge.Prelude.{
  arith, inl, inr, ℕ-cases, ◌∷◌, false, true, Bool, refl, ◌≡◌, ◌≤◌, ◌+◌, ℕ, length,
}
use relayforge.Prelude.Weights.{weigh-replicate, one_if, count}
use relayforge.Prelude.Int.{pos_part, pos, ltz}
use relayforge.Prelude.Text.{Text, is_graphic}
use relayforge.Delivery.Policy.{Floats}
use relayforge.Store.Tables.{Database}
use relayforge.Store.Evolution.{Evolves}
use relayforge.Store.Queue.Recovery.{IsSoundDb}
use relayforge.Store.History.{IsWhole}
use relayforge.Worker.{Config, request_of}
use relayforge.Worker.Pool.{
  Observer, claiming, delivering, waiting, PoolState, after_claim, after_process, after_wait,
  WorkerStep, claim, finish, wake, work, others, cancel, finishing, deliver, after_deliver, Reaches,
  start, later, run_started,
}
use relayforge.Worker.Pool.Numbering.{HasCounted, HasCounted-Evolves}
use relayforge.Worker.Pool.Names.{PrintsNumbers}
use relayforge.Worker.Pool.Safety.{Reaches-IsWhole}

module _ {F : Type 0} (float : Floats F) (config : Config F) (itoa : ℕ → Text) (first : ℕ)
    (others_ : Text) (answers : Bool → Bool) (jsonb : Jsonb) (prints : PrintsNumbers itoa)
    (graphic : is_graphic first ≡ true)
    (long : ltz config.lease_duration (pos 1000000) ≡ false) where
  module _ {O : Type 0} (observer : Observer O) where
    abbrev Steps : PoolState O → PoolState O → Type 0
    Steps = WorkerStep float config itoa (first ∷ others_) answers jsonb observer

    abbrev pub Pool : PoolState O → PoolState O → Type 0
    Pool = Reaches float config itoa (first ∷ others_) answers jsonb observer

    abbrev pub step_begins : Text → ℕ → {s t : PoolState O} → Steps s t → ℕ
    step_begins id n (claim before after db' result e c) = begins id n result
    step_begins id n (deliver before after job dispatcher e) = 0
    step_begins id n (finish before after job r db' result e f) = 0
    step_begins id n (wake before after fired e w) = 0

    -- How many claims of a run have handed out an attempt.
    abbrev pub claims_of : Text → ℕ → {s t : PoolState O} → Pool s t → ℕ
    claims_of id n start = 0
    claims_of id n (later r (work w)) = claims_of id n r + step_begins id n w
    claims_of id n (later r (others db' s)) = claims_of id n r
    claims_of id n (later r cancel) = claims_of id n r

    -- What is known of an attempt during a run that has claimed it `taken` times.
    record IsOnce (id : Text) (n taken : ℕ) (s : PoolState O) : Type 0 where
      making : count (is_making id n) s.phases ≤ taken
      once : taken ≤ 1
      known : 1 ≤ taken → HasCounted s.db.deliveries id n

    -- A step that claims nothing keeps what is known.
    keeps-IsOnce :
        (id : Text) (n taken same : ℕ) {s t : PoolState O}
        → same ≡ taken
        → Evolves s.db.deliveries t.db.deliveries
        → count (is_making id n) t.phases ≤ count (is_making id n) s.phases
        → IsOnce id n taken s
        → IsOnce id n same t
    keeps-IsOnce id n taken same {s} e grows fewer h = record {
      making = omega (arith, e, fewer, h.making);
      once = omega (arith, e, h.once);
      known = λ k. HasCounted-Evolves _ _ id n grows (h.known (omega (arith, e, k)));
    }

    step-IsOnce :
        (id : Text) (n taken : ℕ) {s t : PoolState O}
        → IsSoundDb s.db
        → Evolves s.db.deliveries t.db.deliveries
        → (w : Steps s t) → IsOnce id n taken s
        → IsOnce id n (taken + step_begins id n w) t
    unfolding after_deliver
    step-IsOnce id n taken {s} v grows (claim before after db' result e c) h =
        let moved =
          making_at id n s.phases before after claiming
            (after_claim observer s.cancelled result s.observed).0 e in
        let added = after_claim-begins observer id n s.cancelled result s.observed in
        elim (claim_fresh float config itoa first others_ answers jsonb prints graphic long
          (length before + 1) s.cancelled s.db db' result id n v c) [
            | inl none_ ↦ record {
              making = omega (arith, moved, added, h.making);
              once = omega (arith, none_, h.once);
              known = λ k. HasCounted-Evolves _ _ id n grows (h.known (omega (arith, k, none_)));
            }
            | inr (one, counted, fresh) ↦
                let none_yet : taken ≡ 0 = elim (ℕ-cases taken) [
                  | inl e ↦ e
                  | inr (m, e) ↦ absurd (fresh (h.known (omega (arith, e))))
                ] in
                record {
                  making = omega (arith, moved, added, h.making);
                  once = omega (arith, none_yet, one);
                  known = λ k. counted;
                }
          ]
    step-IsOnce id n taken {s} v grows (deliver before after job dispatcher e) h =
        let moved =
          making_at id n s.phases before after (delivering job)
            (finishing job (dispatcher (request_of job))) e in
        keeps-IsOnce id n taken (taken + 0) (omega arith) grows (omega (arith, moved)) h
    step-IsOnce id n taken {s} v grows (finish before after job r db' result e f) h =
        let moved =
          making_at id n s.phases before after (finishing job r)
            (after_process observer result s.observed).0 e in
        let idle = after_process-idle observer id n result s.observed in
        keeps-IsOnce id n taken (taken + 0) (omega arith) grows (omega (arith, moved, idle)) h
    step-IsOnce id n taken {s} v grows (wake before after fired e w) h =
        let moved = making_at id n s.phases before after waiting (after_wait fired) e in
        let idle = after_wait-idle observer id n fired in
        keeps-IsOnce id n taken (taken + 0) (omega arith) grows (omega (arith, moved, idle)) h

    no_claims :
        (id : Text) (n : ℕ) (db : Database) (o : O) → IsOnce id n 0 (run_started config db o)
    no_claims id n db o = record {
      making = omega (
        arith,
        weigh-replicate (one_if (is_making id n)) (pos_part config.concurrency) claiming refl,
      );
      once = omega arith;
      known = λ k. absurd (omega arith);
    }

    run-IsOnce :
        (id : Text) (n : ℕ) (db : Database) (o : O) (s : PoolState O)
        → IsWhole db
        → (r : Pool (run_started config db o) s) → IsOnce id n (claims_of id n r) s
    run-IsOnce id n db o _ whole start = no_claims id n db o
    run-IsOnce id n db o s whole (later {t} r (work w)) =
        let (sound, _) =
          Reaches-IsWhole float config itoa (first ∷ others_) answers jsonb observer
            (run_started config db o) t whole r in
        let (_, grows) =
          Reaches-IsWhole float config itoa (first ∷ others_) answers jsonb observer t s sound
            (later start (work w)) in
        step-IsOnce id n (claims_of id n r) sound.sound grows w (run-IsOnce id n db o t whole r)
    run-IsOnce id n db o s whole (later {t} r (others db' step)) =
        let (sound, _) =
          Reaches-IsWhole float config itoa (first ∷ others_) answers jsonb observer
            (run_started config db o) t whole r in
        let (_, grows) =
          Reaches-IsWhole float config itoa (first ∷ others_) answers jsonb observer t s sound
            (later start (others db' step)) in
        keeps-IsOnce id n (claims_of id n r) (claims_of id n r) refl grows (omega arith)
          (run-IsOnce id n db o t whole r)
    run-IsOnce id n db o s whole (later {t} r cancel) =
        let h = run-IsOnce id n db o t whole r in
        record { making = h.making; once = h.once; known = h.known }

    -- However the workers of a pool are interleaved with one another and with the rest of the server,
    -- from the start on a whole database: the claims of the pool hand out an attempt of a delivery, by
    -- its number, once at most, and no two workers are ever in process with the same one; if the
    -- identifier of the pool begins with a printable byte, and the lease is of a millisecond at least.
    pub claims-once :
        (id : Text) (n : ℕ) (db : Database) (o : O) (s : PoolState O)
        → IsWhole db
        → (r : Pool (run_started config db o) s)
        → (claims_of id n r ≤ 1) × (count (is_making id n) s.phases ≤ claims_of id n r)
    claims-once id n db o s whole r = let h = run-IsOnce id n db o s whole r in (h.once, h.making)
