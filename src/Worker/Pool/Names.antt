-- ===== src/Worker/Pool/Names.antt =====
-- The names that Run gives its workers, and the leases that are taken under them.
use mathlib.Core.List.{append_cancel_left, reverse-append, append_assoc}
use relayforge.Prelude.{
  arith, ◌++◌, ◌∷◌, [], some, false, true, Bool, refl, ◌≡◌, ◌≢◌, ℕ, ok, ap, sym, ◌∙◌, reverse, Memᴰ,
  Bool-cases, inl, inr, Option-cases,
}
use relayforge.Prelude.Int.{pos, ltz}
use relayforge.Prelude.Text.{
  Text, codes, is_empty, trim_space, trim_space-fixed, trim_space-graphic, is_graphic, text_eq,
  text_eq_iff,
}
use relayforge.Delivery.Policy.{Floats}
use relayforge.Store.Tables.{Database, DeliveryRow}
use relayforge.Store.Queue.{Job, Session, AttemptResult, claim_delivery}
use relayforge.Store.Queue.Finish.{holds_lease}
use relayforge.Store.Queue.Recovery.{IsSoundDb}
use relayforge.Store.Queue.Fencing.{claimed_holds}
use relayforge.Webhook.Dispatcher.{WebhookResult}
use relayforge.Worker.{Config, result_of}
use relayforge.Worker.Pool.{worker_id}

-- What fmt prints for %d.
pub record PrintsNumbers (itoa : ℕ → Text) : Type 0 where
  pub last_digit :
      (n : ℕ)
      → (front : Text) × (digit : ℕ) × (itoa n ≡ front ++ digit ∷ []) × (is_graphic digit ≡ true)
  pub apart : (n m : ℕ) → itoa n ≡ itoa m → n ≡ m

reverse-last :
    (s front : Text) (b : ℕ) → reverse (s ++ (front ++ b ∷ [])) ≡ b ∷ reverse (s ++ front)
reverse-last s front b =
    ap reverse (sym (append_assoc s front (b ∷ []))) ∙ reverse-append (s ++ front) (b ∷ [])

module _ (itoa : ℕ → Text) (prints : PrintsNumbers itoa) (first : ℕ) (others : Text)
    (graphic : is_graphic first ≡ true) where
  worker_id-trimmed :
      (n : ℕ) → trim_space (worker_id itoa (first ∷ others) n) ≡ worker_id itoa (first ∷ others) n
  unfolding worker_id
  worker_id-trimmed n =
      let (front, digit, e, shows) = prints.last_digit n in
      trim_space-fixed first _ digit _ graphic shows (
        ap (λ t. reverse ((first ∷ others) ++ codes "/" ++ t)) e
        ∙ reverse-last ((first ∷ others) ++ codes "/") front digit)

  pub worker_id-IsNamed :
      (n : ℕ) → is_empty (trim_space (worker_id itoa (first ∷ others) n)) ≡ false
  unfolding worker_id
  worker_id-IsNamed n = trim_space-graphic first _ graphic

  worker_id-apart :
      (n m : ℕ) → worker_id itoa (first ∷ others) n ≡ worker_id itoa (first ∷ others) m → n ≡ m
  unfolding worker_id
  worker_id-apart n m e =
      prints.apart n m (append_cancel_left ((first ∷ others) ++ codes "/") (itoa n) (itoa m) e)

-- A result under another name does not hold the lease.
other_name :
    (r r' : AttemptResult) (d : DeliveryRow)
    → holds_lease r d ≡ true
    → r'.worker_id ≢ r.worker_id
    → holds_lease r' d ≡ false
unfolding holds_lease
other_name r r' d h apart = elim (Option-cases d.locked_by) [
  | inl e ↦ ground (arith, e)
  | inr (w, e) ↦
      let mine : text_eq w r.worker_id ≡ true = ground (arith, e) in
      let theirs : text_eq w r'.worker_id ≡ false = elim (Bool-cases (text_eq w r'.worker_id)) [
        | inl same ↦ absurd (apart (sym ((text_eq_iff _ _).0 same) ∙ (text_eq_iff _ _).0 mine))
        | inr different ↦ different
      ] in
      ground (arith, e, theirs)
]

module _ {F : Type 0} (float : Floats F) (config : Config F) (itoa : ℕ → Text)
    (prints : PrintsNumbers itoa) (first : ℕ) (others : Text) (graphic : is_graphic first ≡ true)
    (long : ltz config.lease_duration (pos 1000000) ≡ false) where
  -- A job that a worker of the pool has claimed on a sound database is its own: there is a row whose
  -- lease its result holds, whatever the dispatcher tells, and no result under the name of another
  -- worker of the pool holds it; provided that the pool's identifier begins with a printable byte, and
  -- that the lease is of a millisecond at least.
  pub claimed_is_own :
      (n : ℕ) (s : Session) (db db' : Database) (job : Job) (cancelled : Bool) (sample : F)
      (r : WebhookResult)
      → IsSoundDb db
      → claim_delivery s (worker_id itoa (first ∷ others) n) config.lease_duration db
        ≡ ok (db', some job)
      → (d : DeliveryRow) × Memᴰ d db'.deliveries
        × (holds_lease
              (result_of float config (worker_id itoa (first ∷ others) n) job cancelled sample r)
              d
            ≡ true)
        × ((m : ℕ) (r' : AttemptResult)
            → m ≢ n
            → r'.worker_id ≡ worker_id itoa (first ∷ others) m
            → holds_lease r' d ≡ false)
  unfolding result_of
  claimed_is_own n s db db' job cancelled sample r sound returns =
      let name = worker_id itoa (first ∷ others) n in
      let mine = result_of float config name job cancelled sample r in
      let named = worker_id-IsNamed itoa prints first others graphic n in
      let (d, stored, holds) =
        claimed_holds s name config.lease_duration db sound named long db' job returns mine refl
          (sym (worker_id-trimmed itoa prints first others graphic n)) refl refl in
      (
        d,
        stored,
        holds,
        λ m r' other e.
            other_name mine r' d holds
              (λ same. other (worker_id-apart itoa prints first others graphic m n (sym e ∙ same))),
      )
