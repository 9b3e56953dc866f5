-- ===== src/Spinlock/Report.antt =====
-- What `main` of experiments/cas_spinlock.cpp prints when it has joined the threads, and returns. The times
-- of the threads are put together, sorted, and read at seven percentages. The product of a percentage
-- and the number of samples, of type `double`, is a parameter.
use market_data_pipeline.Base.{
  ℕ, zero, suc, ◌+◌, ◌-◌, ◌<◌, ◌≡◌, ◌∙◌, refl, Bool, false, Option, some, none, List, [], ◌∷◌, ◌++◌,
  length, length-append, sum, sum-same, arith, subst, sym,
}
use market_data_pipeline.Samples.{sample_at, sample_at-rank, AllBelow, AllRanked, IsRanked}
use market_data_pipeline.Spinlock.{finished, State, Reach, main_result}
use market_data_pipeline.Spinlock.Total.{finished-total}
use market_data_pipeline.Spinlock.Sampled.{finished-sampled}

-- `round_trip_samples`, of so many threads.
unfoldable pub round_trip_samples : (ℕ → List ℕ) → ℕ → List ℕ
round_trip_samples samples zero = []
round_trip_samples samples (suc n) = round_trip_samples samples n ++ samples n

-- `percentile(percentage)` of the samples once sorted: `none` for 1, else the product of the percentage and
-- the number of samples, as an integer. The result is `none` past the end of the array.
unfoldable pub percentile : List ℕ → Option (ℕ → ℕ) → Option ℕ
percentile samples none = sample_at samples (length samples - 1)
percentile samples (some part) = sample_at samples (part (length samples))

-- The rows of the table of acquisitions.
unfoldable pub acquisition_rows : (ℕ → ℕ) → ℕ → List ℕ
acquisition_rows acquisitions zero = []
acquisition_rows acquisitions (suc n) = acquisition_rows acquisitions n ++ acquisitions n ∷ []

unfoldable pub percentiles : List ℕ → List (ℕ → ℕ) → List (Option ℕ)
percentiles samples [] = []
percentiles samples (part ∷ parts) = percentile samples (some part) ∷ percentiles samples parts

-- What is printed, and what is returned.
pub record Report : Type 0 where
  pub percentiles_printed : List (Option ℕ)
  pub rows : List ℕ
  pub failed : Bool

-- `main`, once the threads are joined.
unfoldable pub main : ℕ → ℕ → List (ℕ → ℕ) → State → Report
main total threads parts s = record {
  percentiles_printed = percentiles (round_trip_samples s.samples threads) parts;
  rows = acquisition_rows s.acquisitions threads;
  failed = main_result total s;
}

round_trip_samples-length :
    (samples : ℕ → List ℕ) (n : ℕ)
    → length (round_trip_samples samples n) ≡ sum (λ t. length (samples t)) n
unfolding round_trip_samples
round_trip_samples-length samples zero = refl
round_trip_samples-length samples (suc n) = omega (
  arith,
  length-append (round_trip_samples samples n) (samples n),
  round_trip_samples-length samples n,
)

percentiles-AllRanked :
    (samples : List ℕ) (parts : List (ℕ → ℕ))
    → AllBelow parts (length samples)
    → AllRanked samples parts (percentiles samples parts)
unfolding percentiles percentile
percentiles-AllRanked samples [] below = refl
percentiles-AllRanked samples (part ∷ parts) (first, rest) =
    let (v, is, less, upto) = sample_at-rank samples (part (length samples)) first in
    (
      subst (IsRanked samples (part (length samples))) (sym is) (less, upto),
      percentiles-AllRanked samples parts rest,
    )

acquisition_rows-length :
    (acquisitions : ℕ → ℕ) (n : ℕ) → length (acquisition_rows acquisitions n) ≡ n
unfolding acquisition_rows
acquisition_rows-length acquisitions zero = refl
acquisition_rows-length acquisitions (suc n) = omega (
  arith,
  acquisition_rows-length acquisitions n,
  length-append (acquisition_rows acquisitions n) (acquisitions n ∷ []),
)

-- The sum of a list
abbrev pub total_of : List ℕ → ℕ
total_of [] = 0
total_of (x ∷ xs) = x + total_of xs

total_of-append : (xs : List ℕ) (y : ℕ) → total_of (xs ++ y ∷ []) ≡ total_of xs + y
total_of-append [] y = omega arith
total_of-append (x ∷ xs) y = omega (arith, total_of-append xs y)

acquisition_rows-total :
    (acquisitions : ℕ → ℕ) (n : ℕ) → total_of (acquisition_rows acquisitions n) ≡ sum acquisitions n
unfolding acquisition_rows
acquisition_rows-total acquisitions zero = refl
acquisition_rows-total acquisitions (suc n) = omega (
  arith,
  acquisition_rows-total acquisitions n,
  total_of-append (acquisition_rows acquisitions n) (acquisitions n),
)

-- When at least one thread ran and all have finished, the counter stands at the total and as many times
-- have been stored; if each product of a percentage and this number is below it, what `main` prints
-- for each percentage is one of the times, at that place in their order; the table has a row for
-- each thread, which add up to the total; and `main` returns 0 (false).
pub main_prints :
    (total : ℕ) (elapsed : ℕ → ℕ → ℕ) (threads : ℕ) {s : State} (parts : List (ℕ → ℕ))
    → Reach total elapsed threads s
    → 0 < threads
    → ((t : ℕ) → t < threads → s.place t ≡ finished)
    → AllBelow parts total
    → (s.counter ≡ total)
      × (length (round_trip_samples s.samples threads) ≡ total)
      × AllRanked
          (round_trip_samples s.samples threads)
          parts
          (main total threads parts s).percentiles_printed
      × (length (main total threads parts s).rows ≡ threads)
      × (total_of (main total threads parts s).rows ≡ total)
      × ((main total threads parts s).failed ≡ false)
unfolding main
main_prints total elapsed threads {s} parts r some_thread over below =
    let (counted, all_acquired, result) = finished-total total elapsed threads r some_thread over in
    let one_each : (t : ℕ) → t < threads → length (s.samples t) ≡ s.acquisitions t =
      λ t h. finished-sampled total elapsed threads r t (over t h) in
    let all : length (round_trip_samples s.samples threads) ≡ total =
      round_trip_samples-length s.samples threads
      ∙ sum-same (λ t. length (s.samples t)) s.acquisitions threads one_each
      ∙ all_acquired in
    (
      counted,
      all,
      percentiles-AllRanked (round_trip_samples s.samples threads) parts
          (subst (AllBelow parts) (sym all) below),
      acquisition_rows-length s.acquisitions threads,
      acquisition_rows-total s.acquisitions threads ∙ all_acquired,
      result,
    )
