-- ===== src/Bench/Totals.antt =====
-- The counters of the report add up.
use relayforge.Prelude.{
  ltb, length, All, Bool-cases, length-append, arith, ◌∷◌, [], List, false, inr, inl, subst, refl,
  ◌≡◌, ◌≤◌, ◌-◌, ◌+◌, ℕ,
}
use relayforge.Bench.{Sample}
use relayforge.Prelude.Text.{Text, codes, is_empty, text_eq}
use relayforge.Bench.Report.{Tally, Counts, bump, assign, count_sample, count_samples, tally_of}

abbrev pub total : Counts → ℕ
total [] = 0
total ((key, n) ∷ rest) = n + total rest

abbrev pub IsAbsent : Text → Counts → Type 0
IsAbsent key = All (λ entry. text_eq entry.0 key ≡ false)

total-bump : (key : Text) (counts : Counts) → total (bump key counts) ≡ total counts + 1
unfolding bump
total-bump key [] = refl
total-bump key ((k, n) ∷ rest) = ground (arith, total-bump key rest)

total-assign :
    (key : Text) (n : ℕ) (counts : Counts)
    → IsAbsent key counts
    → total (assign key n counts) ≡ total counts + n
unfolding assign
total-assign key n [] h = omega arith
total-assign key n ((k, old) ∷ rest) h = ground (arith, h.0, total-assign key n rest h.1)

bump-IsAbsent :
    (key other : Text) (counts : Counts)
    → text_eq key other ≡ false
    → IsAbsent other counts
    → IsAbsent other (bump key counts)
unfolding bump
bump-IsAbsent key other [] h hs = (h, tt)
bump-IsAbsent key other ((k, n) ∷ rest) h hs = elim (Bool-cases (text_eq k key)) [
  | inl hit ↦ rw hit hs
  | inr miss ↦ rw miss (hs.0, bump-IsAbsent key other rest h hs.1)
]

-- What holds of the counters while results come in, and the error of an event not started is absent.
record IsCounted (n : ℕ) (t : Tally) : Type 0 where
  completed : t.completed ≡ n
  outcomes : t.accepted + t.failed ≡ t.completed
  errors : total t.errors ≡ t.failed
  latencies : length t.latencies ≡ t.completed
  codes_seen : total t.status_codes ≤ t.completed
  absent : IsAbsent (codes "not started") t.errors

module _ (itoa : ℕ → Text) where
  count_sample-IsCounted :
      (s : Sample) (n : ℕ) (t : Tally)
      → text_eq s.error (codes "not started") ≡ false
      → IsCounted n t
      → IsCounted (n + 1) (count_sample itoa s t)
  unfolding count_sample
  count_sample-IsCounted s n t named h =
      let fine = length-append t.latencies (s.duration ∷ []) in
      let seen = total-bump (itoa s.status) t.status_codes in
      let more = total-bump s.error t.errors in
      elim (Bool-cases (is_empty s.error)) [
        | inl accepted ↦ record {
          completed = omega (arith, h.completed);
          outcomes = rw accepted (omega (arith, h.outcomes));
          errors = rw accepted h.errors;
          latencies = omega (arith, fine, h.latencies);
          codes_seen = ground (arith, seen, h.codes_seen);
          absent = rw accepted h.absent;
        }
        | inr refused ↦ record {
          completed = omega (arith, h.completed);
          outcomes = rw refused (omega (arith, h.outcomes));
          errors = rw refused (omega (arith, more, h.errors));
          latencies = omega (arith, fine, h.latencies);
          codes_seen = ground (arith, seen, h.codes_seen);
          absent = rw refused (bump-IsAbsent s.error (codes "not started") t.errors named h.absent);
        }
      ]

  count_samples-IsCounted :
      (ss : List Sample) (n : ℕ) (t : Tally)
      → All (λ s. text_eq s.error (codes "not started") ≡ false) ss
      → IsCounted n t
      → IsCounted (n + length ss) (count_samples itoa ss t)
  unfolding count_samples
  count_samples-IsCounted [] n t named h = subst (λ k. IsCounted k t) (omega arith) h
  count_samples-IsCounted (s ∷ ss) n t named h =
      subst (λ k. IsCounted k (count_samples itoa ss (count_sample itoa s t))) (omega arith)
        (count_samples-IsCounted ss (n + 1) (count_sample itoa s t) named.1
          (count_sample-IsCounted s n t named.0 h))

  -- If no more results came in than were asked for, and none has the error `not started`, then the
  -- report counts every event once: the accepted and the failed ones are those that were asked for,
  -- the counts of the errors add up to the failed ones, those of the status codes to no more than the
  -- completed ones, and there is a latency for each completed one.
  pub tally_of-adds_up :
      (requested : ℕ) (samples : List Sample)
      → length samples ≤ requested
      → All (λ s. text_eq s.error (codes "not started") ≡ false) samples
      → let t = tally_of itoa requested samples in
        (t.accepted + t.failed ≡ requested)
        × (t.completed ≡ length samples)
        × (total t.errors ≡ t.failed)
        × (total t.status_codes ≤ t.completed)
        × (length t.latencies ≡ t.completed)
  unfolding tally_of
  tally_of-adds_up requested samples few named =
      let start : Tally = record {
        completed = 0;
        accepted = 0;
        failed = 0;
        status_codes = [];
        errors = [];
        latencies = [];
      } in
      let t = count_samples itoa samples start in
      let from_zero : 0 + length samples ≡ length samples = omega arith in
      let h : IsCounted (length samples) t =
        subst (λ k. IsCounted k t) from_zero
          (count_samples-IsCounted samples 0 start named (record {
            completed = refl;
            outcomes = refl;
            errors = refl;
            latencies = refl;
            codes_seen = omega arith;
            absent = tt;
          })) in
      elim (Bool-cases (ltb t.completed requested)) [
        | inl missing ↦
            let added =
              total-assign (codes "not started") (requested - t.completed) t.errors h.absent in
            rw missing (
              ground (arith, h.outcomes),
              h.completed,
              omega (arith, added, h.errors),
              h.codes_seen,
              h.latencies,
            )
        | inr all_done ↦ rw all_done (
          ground (arith, h.outcomes, h.completed),
          h.completed,
          h.errors,
          h.codes_seen,
          h.latencies,
        )
      ]
