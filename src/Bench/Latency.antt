-- ===== src/Bench/Latency.antt =====
-- The percentiles of the report are values of the run, in order.
use relayforge.Prelude.{
  arith, ◌∷◌, [], List, some, ap, sym, refl, ◌≡◌, ◌<◌, ◌≤◌, ◌-◌, suc, zero, ℕ, All-of-mem, All,
  length, Memᴰ, All-mem,
}
use mathlib.Core.Path.{subst₂}
use relayforge.Delivery.Policy.{Floats}
use relayforge.Prelude.Int.{ℤ, pos, ◌≤ℤ◌}
use relayforge.Prelude.{true}
use relayforge.Bench.Report.{
  Quantiles, summarize_sorted, Percentiles, summarize_latency, percentile, get_elem?,
}
use relayforge.Prelude.Sorting.{
  All-of_sort_by, length-sort_by, sort_by-Ascending, sort_by, Ascending,
}

-- An element of a list at its place.
abbrev pub IsAt : List ℕ → ℕ → ℕ → Type 0
IsAt xs n x = get_elem? xs n ≡ some x

found-IsAt : (xs : List ℕ) (n : ℕ) → n < length xs → (x : ℕ) × IsAt xs n x × Memᴰ x xs
found-IsAt [] n h = absurd (omega arith)
found-IsAt (x ∷ xs) zero h = (x, refl, Memᴰ.head refl)
found-IsAt (x ∷ xs) (suc n) h = let (y, e, i) = found-IsAt xs n (omega arith) in (y, e, Memᴰ.tail i)

IsAt-mem : (xs : List ℕ) (n x : ℕ) → IsAt xs n x → Memᴰ x xs
IsAt-mem [] n x e = absurd (cc)
IsAt-mem (y ∷ xs) zero x e = Memᴰ.head (cc)
IsAt-mem (y ∷ xs) (suc n) x e = Memᴰ.tail (IsAt-mem xs n x e)

-- In an ascending list, an earlier place has no greater value.
IsAt-order :
    (xs : List ℕ) (m n x y : ℕ) → Ascending (λ d. d) xs → m ≤ n → IsAt xs m x → IsAt xs n y → x ≤ y
IsAt-order [] m n x y a h e f = absurd (cc)
IsAt-order (z ∷ xs) zero zero x y a h e f = let same : x ≡ y = cc (e, f) in omega (arith, same)
IsAt-order (z ∷ xs) zero (suc n) x y a h e f =
    let first : z ≡ x = cc e in
    omega (arith, first, All-mem (λ w. z ≤ w) xs a.0 (IsAt-mem xs n y f))
IsAt-order (z ∷ xs) (suc m) zero x y a h e f = absurd (omega arith)
IsAt-order (z ∷ xs) (suc m) (suc n) x y a h e f = IsAt-order xs m n x y a.1 (omega arith) e f

mem-IsAt : (xs : List ℕ) {x : ℕ} → Memᴰ x xs → (n : ℕ) × (n < length xs) × IsAt xs n x
mem-IsAt [] i = elim i [ ]
mem-IsAt (y ∷ xs) {x} (Memᴰ.head e) = (0, omega arith, ap some (sym e))
mem-IsAt (y ∷ xs) {x} (Memᴰ.tail i) = let (n, less, e) = mem-IsAt xs i in (suc n, omega arith, e)

ranked : {a b : ℤ} (x y : ℕ) → a ≡ pos x → b ≡ pos y → a ≤ℤ b → x ≤ y
ranked {a} {b} x y ex ey h =
    let moved : pos x ≤ℤ pos y = subst₂ (λ u v. u ≤ℤ v) ex ey h in ground arith

-- The laws of IEEE floating point numbers that the index of a percentile relies on: for a number below
-- 2 ^ 53, which is exact, its products with the quantiles are in order, above 0 and below the number;
-- and the ceilings of values that are in order, above 0 and below such a number, are whole numbers in
-- order from 1 to it.
pub record IsRounding {F : Type 0} (float : Floats F) (q : Quantiles F) : Type 0 where
  pub above_zero :
      (n : ℕ)
      → 1 ≤ n
      → n < 9007199254740992
      → float.less (float.of_ℕ 0) (float.mul (float.of_ℕ n) q.half) ≡ true
  pub half_most :
      (n : ℕ)
      → 1 ≤ n
      → n < 9007199254740992
      → float.less (float.mul (float.of_ℕ n) q.half) (float.mul (float.of_ℕ n) q.most) ≡ true
  pub most_nearly_all :
      (n : ℕ)
      → 1 ≤ n
      → n < 9007199254740992
      → float.less (float.mul (float.of_ℕ n) q.most) (float.mul (float.of_ℕ n) q.nearly_all) ≡ true
  pub below_whole :
      (n : ℕ)
      → 1 ≤ n
      → n < 9007199254740992
      → float.less (float.mul (float.of_ℕ n) q.nearly_all) (float.of_ℕ n) ≡ true
  pub less_trans :
      (x y z : F) → float.less x y ≡ true → float.less y z ≡ true → float.less x z ≡ true
  pub ceil_range :
      (n : ℕ) (x : F)
      → n < 9007199254740992
      → float.less (float.of_ℕ 0) x ≡ true
      → float.less x (float.of_ℕ n) ≡ true
      → (k : ℕ) × (q.ceil_to_int x ≡ pos k) × (1 ≤ k) × (k ≤ n)
  pub ceil_order :
      (n : ℕ) (x y : F)
      → n < 9007199254740992
      → float.less (float.of_ℕ 0) x ≡ true
      → float.less x y ≡ true
      → float.less y (float.of_ℕ n) ≡ true
      → q.ceil_to_int x ≤ℤ q.ceil_to_int y

module _ {F : Type 0} (float : Floats F) (q : Quantiles F) where
  abbrev product : ℕ → F → F
  product n quantile = float.mul (float.of_ℕ n) quantile

  -- The ranks of the three percentiles among `n` values.
  record Ranks (n : ℕ) : Type 0 where
    half : ℕ
    most : ℕ
    nearly_all : ℕ
    half_is : q.ceil_to_int (product n q.half) ≡ pos half
    most_is : q.ceil_to_int (product n q.most) ≡ pos most
    nearly_all_is : q.ceil_to_int (product n q.nearly_all) ≡ pos nearly_all
    positive : 1 ≤ half
    half_below : half ≤ most
    most_below : most ≤ nearly_all
    within : nearly_all ≤ n

  ranks : (n : ℕ) → 1 ≤ n → n < 9007199254740992 → IsRounding float q → Ranks n
  ranks n some_value exact law =
      let a = law.above_zero n some_value exact in
      let b = law.half_most n some_value exact in
      let c = law.most_nearly_all n some_value exact in
      let d = law.below_whole n some_value exact in
      let ab = law.less_trans _ _ _ a b in
      let cd = law.less_trans _ _ _ c d in
      let (x, ex, x1, _) =
        law.ceil_range n (product n q.half) exact a (law.less_trans _ _ _ b cd) in
      let (y, ey, _, _) = law.ceil_range n (product n q.most) exact ab cd in
      let (z, ez, _, zn) =
        law.ceil_range n (product n q.nearly_all) exact (law.less_trans _ _ _ ab c) d in
      let xy = law.ceil_order n (product n q.half) (product n q.most) exact a b cd in
      let yz = law.ceil_order n (product n q.most) (product n q.nearly_all) exact ab c d in
      record {
        half = x;
        most = y;
        nearly_all = z;
        half_is = ex;
        most_is = ey;
        nearly_all_is = ez;
        positive = x1;
        half_below = ranked x y ex ey xy;
        most_below = ranked y z ey ez yz;
        within = zn;
      }

  percentile-IsAt :
      (values : List ℕ) (quantile : F) (k : ℕ)
      → q.ceil_to_int (product (length values) quantile) ≡ pos k
      → 1 ≤ k
      → k ≤ length values
      → (x : ℕ) × (percentile float q values quantile ≡ some x) × IsAt values (k - 1) x
  unfolding percentile
  percentile-IsAt values quantile zero e positive within = absurd (omega arith)
  percentile-IsAt values quantile (suc index) e positive within =
      let (x, f, _) = found-IsAt values index (omega arith) in
      let place : suc index - 1 ≡ index = omega arith in (x, rw (e, percentile) f, rw place f)

  -- The five values in order, with every duration between the first and the last.
  pub record IsOrdered (durations : List ℕ) (r : Percentiles) : Type 0 where
    pub low : r.shortest ≤ r.p50
    pub half : r.p50 ≤ r.p95
    pub most : r.p95 ≤ r.p99
    pub high : r.p99 ≤ r.longest
    pub all_between : All (λ d. (r.shortest ≤ d) × (d ≤ r.longest)) durations

  sorted-IsOrdered :
      (values : List ℕ)
      → Ascending (λ d. d) values
      → Ranks (length values)
      → (r : Percentiles) × (summarize_sorted float q values ≡ some r) × IsOrdered values r
  unfolding summarize_sorted
  sorted-IsOrdered values asc l =
      let (a, ea, ia) =
        percentile-IsAt values q.half l.half l.half_is l.positive
          (omega (arith, l.half_below, l.most_below, l.within)) in
      let (b, eb, ib) =
        percentile-IsAt values q.most l.most l.most_is (omega (arith, l.positive, l.half_below))
          (omega (arith, l.most_below, l.within)) in
      let (c, ec, ic) =
        percentile-IsAt values q.nearly_all l.nearly_all l.nearly_all_is
          (omega (arith, l.positive, l.half_below, l.most_below)) l.within in
      let some_value : 1 ≤ length values =
        omega (arith, l.positive, l.half_below, l.most_below, l.within) in
      let (low, el, _) = found-IsAt values 0 some_value in
      let (high, eh, _) = found-IsAt values (length values - 1) (omega (arith, some_value)) in
      (
        record { shortest = low; p50 = a; p95 = b; p99 = c; longest = high },
        rw (summarize_sorted, ea, eb, ec, el, eh) refl,
        record {
          low = IsAt-order values 0 (l.half - 1) low a asc (omega arith) el ia;
          half = IsAt-order values _ _ a b asc (omega (arith, l.half_below)) ia ib;
          most = IsAt-order values _ _ b c asc (omega (arith, l.most_below)) ib ic;
          high = IsAt-order values _ _ c high asc (omega (arith, l.within)) ic eh;
          all_between = All-of-mem _ values λ d i.
              let (n, less, e) = mem-IsAt values i in
              (
                IsAt-order values 0 n low d asc (omega arith) el e,
                IsAt-order values n (length values - 1) d high asc (omega arith) e eh,
              );
        },
      )

  -- With floating point numbers as IEEE has them, the latencies of a run with a result, and with fewer
  -- than 2 ^ 53 of them, are summarized without a panic: the shortest, the percentiles and the longest
  -- are in order, and every duration is between the shortest and the longest.
  pub summarize_latency-IsOrdered :
      (v : ℕ) (vs : List ℕ)
      → IsRounding float q
      → length (v ∷ vs) < 9007199254740992
      → (r : Percentiles) × (summarize_latency float q (v ∷ vs) ≡ some r) × IsOrdered (v ∷ vs) r
  unfolding summarize_latency
  summarize_latency-IsOrdered v vs law few =
      let size = length-sort_by (λ d. d) (v ∷ vs) in
      let (r, e, o) =
        sorted-IsOrdered (sort_by (λ d. d) (v ∷ vs)) (sort_by-Ascending (λ d. d) (v ∷ vs))
          (rw size (ranks (length (v ∷ vs)) (omega arith) few law)) in
      (
        r,
        e,
        record {
          low = o.low;
          half = o.half;
          most = o.most;
          high = o.high;
          all_between = All-of_sort_by (λ d. d) _ (v ∷ vs) o.all_between;
        },
      )
