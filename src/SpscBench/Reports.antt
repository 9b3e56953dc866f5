-- ===== src/SpscBench/Reports.antt =====
-- What `run_benchmark` of bench/spsc_bench.cpp prints is there to be read: the times between arrivals and
-- their percentiles.
use market_data_pipeline.Base.{
  ℕ, ◌+◌, ◌<◌, ◌≤◌, ◌≡◌, ◌≢◌, inl, inr, refl, ap, true, none, some, List, [], ◌∷◌, length, arith,
}
use market_data_pipeline.Samples.{sample_at-rank}
use market_data_pipeline.SpscBench.Best.{
  Run, Best, deltas, deltas_after, percentile, best_of, Kept, best_of_lem, Parts, Report, report_of,
  run_benchmark,
}

-- A clock that never goes back.
abbrev pub Rising : ℕ → List ℕ → Type 0
Rising last [] = Unit
Rising last (t ∷ ts) = (last ≤ t) × Rising t ts

abbrev pub last_of : ℕ → List ℕ → ℕ
last_of last [] = last
last_of last (t ∷ ts) = last_of t ts

abbrev pub total : List ℕ → ℕ
total [] = 0
total (x ∷ xs) = x + total xs

deltas_after-length : (last : ℕ) (ts : List ℕ) → length (deltas_after last ts) ≡ length ts
unfolding deltas_after
deltas_after-length last [] = refl
deltas_after-length last (t ∷ ts) = omega (arith, deltas_after-length t ts)

deltas_after-total :
    (last : ℕ) (ts : List ℕ)
    → Rising last ts
    → last + total (deltas_after last ts) ≡ last_of last ts
unfolding deltas_after
deltas_after-total last [] rising = omega arith
deltas_after-total last (t ∷ ts) (le, rising) = omega (arith, le, deltas_after-total t ts rising)

-- Of times that never go back, there is one delta less than times, and the deltas add up to the last time
-- less the first.
pub deltas-total :
    (first : ℕ) (ts : List ℕ)
    → Rising first ts
    → (length (deltas (first ∷ ts)) ≡ length ts)
      × (first + total (deltas (first ∷ ts)) ≡ last_of first ts)
unfolding deltas
deltas-total first ts rising = (deltas_after-length first ts, deltas_after-total first ts rising)

-- Every run has so many times that there is a delta.
abbrev pub Measured : List Run → Type 0
Measured [] = Unit
Measured (r ∷ rs) = (1 < length r.timestamps) × Measured rs

deltas-length : (ts : List ℕ) → 1 < length ts → 0 < length (deltas ts)
unfolding deltas
deltas-length [] more = omega (arith, more)
deltas-length (t ∷ ts) more = omega (arith, more, deltas_after-length t ts)

Kept-length :
    (throughput : ℕ → ℕ) (best : Best) (runs : List Run)
    → Measured runs
    → Kept throughput best runs
    → 0 < length best.best_deltas
Kept-length throughput best [] all kept = absurd kept
Kept-length throughput best (r ∷ rs) (more, all) (inl (same, is)) =
    omega (arith, deltas-length r.timestamps more, ap length is)
Kept-length throughput best (r ∷ rs) (more, all) (inr kept) =
    Kept-length throughput best rs all kept

-- What the product of a number and a fraction below 1 is.
pub record Below (parts : Parts) : Type 0 where
  pub half : (k : ℕ) → 0 < k → parts.half k < k
  pub most : (k : ℕ) → 0 < k → parts.most k < k
  pub nearly_all : (k : ℕ) → 0 < k → parts.nearly_all k < k

percentile-some :
    (samples : List ℕ) (part : ℕ → ℕ)
    → 0 < length samples
    → ((k : ℕ) → 0 < k → part k < k)
    → percentile samples (some part) ≢ none
unfolding percentile
percentile-some samples part more below e =
    let (v, is, less, upto) =
      sample_at-rank samples (part (length samples)) (below (length samples) more) in
    cc (e, is)

-- If each run has two times or more, some run has a throughput above 0, and the products of a number and
-- the fractions are below it, then `run_benchmark` reads no array past its end for what it prints.
pub run_benchmark-reads :
    (throughput : ℕ → ℕ) (parts : Parts) (runs : List Run)
    → Below parts
    → Measured runs
    → (best_of throughput runs).best_throughput ≢ 0
    → (report : Report) × (run_benchmark throughput parts true runs ≡ some report)
      × (report.p50 ≢ none)
      × (report.p99 ≢ none)
      × (report.p99_9 ≢ none)
unfolding run_benchmark
run_benchmark-reads throughput parts runs below all some_best =
    let more : 0 < length (best_of throughput runs).best_deltas =
      elim (best_of_lem throughput runs).1 [
        | inl no_best ↦ absurd (some_best no_best)
        | inr kept ↦ Kept-length throughput (best_of throughput runs) runs all kept
      ] in
    (
      report_of parts (best_of throughput runs),
      refl,
      percentile-some (best_of throughput runs).best_deltas parts.half more below.half,
      percentile-some (best_of throughput runs).best_deltas parts.most more below.most,
      percentile-some (best_of throughput runs).best_deltas parts.nearly_all more below.nearly_all,
    )
