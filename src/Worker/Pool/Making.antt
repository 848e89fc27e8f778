-- ===== src/Worker/Pool/Making.antt =====
-- Which worker of a pool is making which attempt, and what one step changes about it.
use relayforge.Store.Events.{Jsonb}
use relayforge.Prelude.{
  arith, Bool-cases, inl, inr, ◌⊎◌, ◌++◌, ◌∷◌, List, none, some, false, true, Bool, refl, ◌≡◌, ◌+◌,
  ℕ, ◌==◌, ◌&&◌, Result, ok, err, Option, ap, &&-eq-true, ==_iff,
}
use relayforge.Prelude.Weights.{weigh-at, one_if, count}
use relayforge.Prelude.Int.{pos, ltz}
use relayforge.Prelude.Text.{Text, text_eq, text_eq_iff, is_graphic}
use relayforge.Delivery.Model.{Status}
use relayforge.Delivery.Policy.{Floats}
use relayforge.Store.Tables.{Database}
use relayforge.Store.Queue.{Job}
use relayforge.Store.Queue.Recovery.{IsSoundDb}
use relayforge.Worker.{Config}
use relayforge.Worker.Pool.{
  Observer, Phase, delivering, QueueError, worker_id, after_claim, after_process, after_wait,
  Claims, finishing,
}
use relayforge.Worker.Pool.Numbering.{HasCounted, claim-begins}
use relayforge.Worker.Pool.Names.{PrintsNumbers, worker_id-IsNamed}

-- A job is of an attempt, by the identifier of its delivery and its number.
abbrev pub is_of : Text → ℕ → Job → Bool
is_of id n job = text_eq job.delivery.id id && job.delivery.attempt_count == n

abbrev pub is_making : Text → ℕ → Phase → Bool
is_making id n (delivering job) = is_of id n job
is_making id n (finishing job r) = is_of id n job
is_making id n _ = false

-- Whether a claim begins an attempt, as a number.
abbrev pub begins : Text → ℕ → Result QueueError (Option Job) → ℕ
begins id n (ok (some job)) = one_if (is_of id n) job
begins id n (ok none) = 0
begins id n (err e) = 0

module _ {O : Type 0} (observer : Observer O) (id : Text) (n : ℕ) where
  pub after_claim-begins :
      (cancelled : Bool) (result : Result QueueError (Option Job)) (o : O)
      → one_if (is_making id n) (after_claim observer cancelled result o).0 ≡ begins id n result
  unfolding after_claim
  after_claim-begins true (err e) o = refl
  after_claim-begins false (err e) o = refl
  after_claim-begins cancelled (ok none) o = refl
  after_claim-begins cancelled (ok (some job)) o = refl

  pub after_process-idle :
      (result : Result QueueError Status) (o : O)
      → one_if (is_making id n) (after_process observer result o).0 ≡ 0
  unfolding after_process
  after_process-idle (ok status) o = refl
  after_process-idle (err e) o = refl

  pub after_wait-idle : (fired : Bool) → one_if (is_making id n) (after_wait fired) ≡ 0
  unfolding after_wait
  after_wait-idle true = refl
  after_wait-idle false = refl

pub making_at :
    (id : Text) (n : ℕ) (phases before after : List Phase) (p q : Phase)
    → phases ≡ before ++ p ∷ after
    → count (is_making id n) (before ++ q ∷ after) + one_if (is_making id n) p
      ≡ count (is_making id n) phases + one_if (is_making id n) q
making_at id n phases before after p q e = omega (
  arith,
  ap (count (is_making id n)) e,
  weigh-at (one_if (is_making id n)) before after p,
  weigh-at (one_if (is_making id n)) before after q,
)

module _ {F : Type 0} (float : Floats F) (config : Config F) (itoa : ℕ → Text) (first : ℕ)
    (others_ : Text) (answers : Bool → Bool) (jsonb : Jsonb) (prints : PrintsNumbers itoa)
    (graphic : is_graphic first ≡ true)
    (long : ltz config.lease_duration (pos 1000000) ≡ false) where
  -- A claim that begins an attempt begins one that was not counted before.
  pub claim_fresh :
      (k : ℕ) (cancelled : Bool) (db db' : Database) (result : Result QueueError (Option Job))
      (id : Text) (n : ℕ)
      → IsSoundDb db
      → Claims float config itoa
          (first ∷ others_)
          answers
          jsonb
          cancelled
          (worker_id itoa (first ∷ others_) k)
          db
          db'
          result
      → (begins id n result ≡ 0)
        ⊎ ((begins id n result ≡ 1)
            × HasCounted db'.deliveries id n
            × (HasCounted db.deliveries id n → ⊥))
  claim_fresh k cancelled db _ _ id n v (Claims.rejected s e a c) = inl refl
  claim_fresh k cancelled db _ _ id n v (Claims.broken e) = inl refl
  claim_fresh k cancelled db _ _ id n v (Claims.answered s db' none a c) = inl refl
  claim_fresh k cancelled db _ _ id n v (Claims.answered s db' (some job) a c) =
      elim (Bool-cases (is_of id n job)) [
        | inr other ↦ inl (rw other refl)
        | inl hit ↦
            let (same, level) = &&-eq-true _ _ hit in
            let i = (text_eq_iff job.delivery.id id).0 same in
            let j = (==_iff job.delivery.attempt_count n).0 level in
            let (counted, fresh) =
              claim-begins s (worker_id itoa (first ∷ others_) k) config.lease_duration db db' job v
                (worker_id-IsNamed itoa prints first others_ graphic k) long c in
            inr (rw hit refl, rw (← i, ← j) counted, rw (← i, ← j) fresh)
      ]
