-- ===== src/SpscBench/Best.antt =====
-- `percentile`, `run_benchmark` and `main` of bench/spsc_bench.cpp: the best of the runs and what is printed
-- of it. The arithmetic on doubles, and the clock, are parameters.
use market_data_pipeline.Base.{
  ℕ, ◌-◌, ◌≤◌, ◌≡◌, ◌⊎◌, inl, inr, refl, ◌∙◌, ap, Bool, true, false, Option, none, some, List, [],
  ◌∷◌, ◌++◌, length, ◌==◌, ◌&&◌, ◌||◌, ltb, if◌then◌else◌, Bool-cases, arith,
}
use market_data_pipeline.Samples.{sample_at}
use market_data_pipeline.BenchArgs.{
  ℤ, pos, negsuc, Text, Outcome, value, invalid_argument, out_of_range, BenchArgs, parse_bench_args,
}

-- One run: the wall time, and the clock at each item's arrival.
pub record Run : Type 0 where
  pub elapsed_ns : ℕ
  pub timestamps : List ℕ

pub record Best : Type 0 where
  pub best_throughput : ℕ
  pub best_deltas : List ℕ

-- `timestamps[i] - timestamps[i - 1]`, of a clock that never goes back.
unfoldable pub deltas_after : ℕ → List ℕ → List ℕ
deltas_after last [] = []
deltas_after last (t ∷ ts) = (t - last) ∷ deltas_after t ts

unfoldable pub deltas : List ℕ → List ℕ
deltas [] = []
deltas (t ∷ ts) = deltas_after t ts

-- `percentile(samples, p)`: `none` for a `p` of 1 or more, else the product of `p` and the number of
-- samples, as an integer. The result is `none` when the array is read past its
-- end. The array is left sorted, which changes nothing for a later call.
unfoldable pub percentile : List ℕ → Option (ℕ → ℕ) → Option ℕ
percentile samples none = sample_at samples (length samples - 1)
percentile samples (some part) = sample_at samples (part (length samples))

module _ (throughput : ℕ → ℕ) where
  -- The end of the loop's body.
  unfoldable pub keep_best : Best → Run → Best
  keep_best best r =
      if ltb best.best_throughput (throughput r.elapsed_ns)
      then record { best_throughput = throughput r.elapsed_ns; best_deltas = deltas r.timestamps }
      else best

  unfoldable pub best_from : Best → List Run → Best
  best_from best [] = best
  best_from best (r ∷ rs) = best_from (keep_best best r) rs

  abbrev pub best_of : List Run → Best
  best_of runs = best_from (record { best_throughput = 0; best_deltas = [] }) runs

  -- No run had a higher throughput than this.
  abbrev pub AtMost : ℕ → List Run → Type 0
  AtMost most [] = Unit
  AtMost most (r ∷ rs) = (throughput r.elapsed_ns ≤ most) × AtMost most rs

  -- One run of these has been kept.
  abbrev pub Kept : Best → List Run → Type 0
  Kept best [] = ⊥
  Kept best (r ∷ rs) =
      ((best.best_throughput ≡ throughput r.elapsed_ns) × (best.best_deltas ≡ deltas r.timestamps))
      ⊎ Kept best rs

  abbrev pub best_run : Run → Best
  best_run r = record {
    best_throughput = throughput r.elapsed_ns;
    best_deltas = deltas r.timestamps;
  }

  keep_best-cases :
      (best : Best) (r : Run)
      → ((keep_best best r ≡ best) × (throughput r.elapsed_ns ≤ best.best_throughput))
        ⊎ ((keep_best best r ≡ best_run r) × (best.best_throughput ≤ throughput r.elapsed_ns))
  unfolding keep_best
  keep_best-cases best r = elim (Bool-cases (ltb best.best_throughput (throughput r.elapsed_ns))) [
    | inl better ↦ rw better (inr (refl, ground (arith, better)))
    | inr not_better ↦ rw not_better (inl (refl, ground (arith, not_better)))
  ]

  keep_best_lem :
      (best : Best) (r : Run)
      → (best.best_throughput ≤ (keep_best best r).best_throughput)
        × (throughput r.elapsed_ns ≤ (keep_best best r).best_throughput)
  keep_best_lem best r = elim (keep_best-cases best r) [
    | inl (same, le) ↦ rw same (omega arith, le)
    | inr (new, le) ↦ rw new (le, omega arith)
  ]

  best_from_grows :
      (best : Best) (rs : List Run) → best.best_throughput ≤ (best_from best rs).best_throughput
  unfolding best_from
  best_from_grows best [] = omega arith
  best_from_grows best (r ∷ rs) =
      omega (arith, keep_best_lem best r, best_from_grows (keep_best best r) rs)

  best_from-AtMost : (best : Best) (rs : List Run) → AtMost (best_from best rs).best_throughput rs
  unfolding best_from
  best_from-AtMost best [] = tt
  best_from-AtMost best (r ∷ rs) = (
    omega (arith, keep_best_lem best r, best_from_grows (keep_best best r) rs),
    best_from-AtMost (keep_best best r) rs,
  )

  best_from-Kept :
      (best : Best) (rs : List Run) → (best_from best rs ≡ best) ⊎ Kept (best_from best rs) rs
  unfolding best_from
  best_from-Kept best [] = inl refl
  best_from-Kept best (r ∷ rs) = elim (best_from-Kept (keep_best best r) rs) [
    | inr kept ↦ inr (inr kept)
    | inl same ↦ elim (keep_best-cases best r) [
      | inl (kept, le) ↦ inl (same ∙ kept)
      | inr (new, le) ↦
          let is = same ∙ new in
          inr (inl (ap (λ b. b.best_throughput) is, ap (λ b. b.best_deltas) is))
    ]
  ]

  -- What is printed is of the best run: no run had a higher throughput, and the deltas are those of a run
  -- with this throughput, unless no run had a throughput above 0.
  pub best_of_lem :
      (runs : List Run)
      → AtMost (best_of runs).best_throughput runs
        × (((best_of runs).best_throughput ≡ 0) ⊎ Kept (best_of runs) runs)
  best_of_lem runs = (
    best_from-AtMost (record { best_throughput = 0; best_deltas = [] }) runs,
    elim (best_from-Kept (record { best_throughput = 0; best_deltas = [] }) runs) [
      | inl none_kept ↦ inl (ap (λ b. b.best_throughput) none_kept)
      | inr kept ↦ inr kept
    ],
  )

-- What is printed under the label: the throughput, and the percentiles 50, 99 and 99.9.
pub record Report : Type 0 where
  pub throughput : ℕ
  pub p50 : Option ℕ
  pub p99 : Option ℕ
  pub p99_9 : Option ℕ

-- The products of a number and 0.50, 0.99 and 0.999, as integers.
pub record Parts : Type 0 where
  pub half : ℕ → ℕ
  pub most : ℕ → ℕ
  pub nearly_all : ℕ → ℕ

abbrev pub report_of : Parts → Best → Report
report_of parts best = record {
  throughput = best.best_throughput;
  p50 = percentile best.best_deltas (some parts.half);
  p99 = percentile best.best_deltas (some parts.most);
  p99_9 = percentile best.best_deltas (some parts.nearly_all);
}

-- `run_benchmark<T>(label, printed)`, given what its runs measured.
unfoldable pub run_benchmark : (ℕ → ℕ) → Parts → Bool → List Run → Option Report
run_benchmark throughput parts printed runs =
    if printed then some (report_of parts (best_of throughput runs)) else none

-- What `main` does, in order.
pub data Task : Type 0 where
  do_check_cpu_governor : Task
  do_size_test : Task
  do_test_concurrency : Task
  do_benchmark_item : Bool → Task
  do_benchmark_padded_item : Bool → Task

abbrev pub when : Bool → List Task → List Task
when true tasks = tasks
when false tasks = []

abbrev pub is_mode : ℤ → ℕ → Bool
is_mode (pos m) n = m == n
is_mode (negsuc m) n = false

abbrev pub tasks_of : BenchArgs → List Task
tasks_of args =
    when args.printed (do_check_cpu_governor ∷ [])
    ++ when (is_mode args.mode 0 && args.printed) (do_size_test ∷ do_test_concurrency ∷ [])
    ++ when (is_mode args.mode 0 || is_mode args.mode 1) (do_benchmark_item args.printed ∷ [])
    ++ when (is_mode args.mode 0 || is_mode args.mode 2)
        (do_benchmark_padded_item args.printed ∷ [])

abbrev pub with_tasks : Outcome BenchArgs → Outcome (List Task)
with_tasks (value args) = value (tasks_of args)
with_tasks invalid_argument = invalid_argument
with_tasks out_of_range = out_of_range

-- `main`; what it does before its `return 0`, unless an exception ends it first.
unfoldable pub main : List Text → Outcome (List Task)
main argv = with_tasks (parse_bench_args argv)
