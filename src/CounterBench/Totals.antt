-- ===== src/CounterBench/Totals.antt =====
-- What the runs of bench/counter_bench.cpp return.
use market_data_pipeline.Base.{
  sum, sum-same, sum-const, sum-change, ℕ, zero, suc, ◌+◌, ◌*◌, ◌/◌, ◌%◌, ◌<◌, ◌≡◌, ◌∙◌, refl, sym,
  Bool, true, false, List, [], ◌∷◌, ◌||◌, ltb, arith, inl, inr, Bool-cases,
}
use market_data_pipeline.Memory.{update}
use market_data_pipeline.BenchArgs.{ℤ}
use market_data_pipeline.CounterBench.{
  Counters, shared, sharded, increment_counter, Reach, start, after, Joined, shared_total,
  counter_sum, Variant, mutex, atomic, sharded_unpadded, sharded_padded, run_and_report, is_mode,
  run_if, main,
}

-- The one counter is the sum of the loop variables.
shared-sum :
    (increment_count threads : ℕ) {s : Counters}
    → Reach shared increment_count threads s
    → s.counter 0 ≡ sum s.loop threads
unfolding increment_counter
shared-sum increment_count threads start = sym (sum-const 0 threads ∙ omega arith)
shared-sum increment_count threads (after t {s} below r) =
    let rest = shared-sum increment_count threads r in
    elim (Bool-cases (ltb (s.loop t) increment_count)) [
      | inl hit ↦
          let change =
            sum-change s.loop (update s.loop t (s.loop t + 1)) t threads below
              (λ i ne. ground (arith, ne)) in
          rw hit (ground (arith, change, rest))
      | inr hit ↦ rw hit rest
    ]

-- Each counter is the loop variable of its thread.
sharded_loop :
    (increment_count threads : ℕ) {s : Counters}
    → Reach sharded increment_count threads s
    → (t : ℕ) → s.counter t ≡ s.loop t
unfolding increment_counter
sharded_loop increment_count threads start t = refl
sharded_loop increment_count threads (after u {s} below r) t =
    let rest = sharded_loop increment_count threads r in ground (arith, rest t, rest u)

-- However their increments interleave, when all threads are joined the shared counter, under the mutex or
-- atomic, is the number of threads times the increments of each.
pub shared_total_lem :
    (increment_count threads : ℕ) {s : Counters}
    → Reach shared increment_count threads s
    → ((t : ℕ) → t < threads → Joined increment_count t s)
    → shared_total s ≡ threads * increment_count
unfolding shared_total
shared_total_lem increment_count threads {s} r joined =
    shared-sum increment_count threads r
    ∙ sum-same s.loop (λ _. increment_count) threads joined
    ∙ sum-const increment_count threads

-- The sharded variants read each counter once its own thread is joined, while later ones may still run:
-- the sum is the number of threads times the increments of each.
pub counter_sum_lem :
    (increment_count threads : ℕ) (joined : ℕ → Counters) (n : ℕ)
    → ((t : ℕ)
        → t < n
        → Reach sharded increment_count threads (joined t) × Joined increment_count t (joined t))
    → counter_sum joined n ≡ n * increment_count
unfolding counter_sum
counter_sum_lem increment_count threads joined zero each = omega arith
counter_sum_lem increment_count threads joined (suc n) each =
    let rest = counter_sum_lem increment_count threads joined n (λ t h. each t (omega arith)) in
    let (reached, last) = each n (omega arith) in
    let own = sharded_loop increment_count threads reached n in grind arith

-- A value that a run of a variant returns, its threads having run to the end.
pub data Returned (increment_count threads : ℕ) : Variant → ℕ → Type 0 where
  by_mutex :
      {s : Counters}
      → Reach shared increment_count threads s
      → ((t : ℕ) → t < threads → Joined increment_count t s)
      → Returned increment_count threads mutex (shared_total s)
  by_atomic :
      {s : Counters}
      → Reach shared increment_count threads s
      → ((t : ℕ) → t < threads → Joined increment_count t s)
      → Returned increment_count threads atomic (shared_total s)
  by_sharded_unpadded :
      (joined : ℕ → Counters)
      → ((t : ℕ)
          → t < threads
          → Reach sharded increment_count threads (joined t) × Joined increment_count t (joined t))
      → Returned increment_count threads sharded_unpadded (counter_sum joined threads)
  by_sharded_padded :
      (joined : ℕ → Counters)
      → ((t : ℕ)
          → t < threads
          → Reach sharded increment_count threads (joined t) × Joined increment_count t (joined t))
      → Returned increment_count threads sharded_padded (counter_sum joined threads)

Returned-total :
    (increment_count threads : ℕ) {variant : Variant} {value : ℕ}
    → Returned increment_count threads variant value
    → value ≡ threads * increment_count
Returned-total c n (by_mutex r joined) = shared_total_lem c n r joined
Returned-total c n (by_atomic r joined) = shared_total_lem c n r joined
Returned-total c n (by_sharded_unpadded joined each) = counter_sum_lem c n joined n each
Returned-total c n (by_sharded_padded joined each) = counter_sum_lem c n joined n each

abbrev pub AllReturned : ℕ → ℕ → Variant → List ℕ → Type 0
AllReturned increment_count threads variant [] = Unit
AllReturned increment_count threads variant (value ∷ more) =
    Returned increment_count threads variant value
    × AllReturned increment_count threads variant more

run_and_report_lem :
    (total threads : ℕ) (variant : Variant) (values : List ℕ)
    → threads * (total / threads) ≡ total
    → AllReturned (total / threads) threads variant values
    → run_and_report total values ≡ []
unfolding run_and_report
run_and_report_lem total threads variant [] whole each = refl
run_and_report_lem total threads variant (value ∷ more) whole (first, each) =
    let right = Returned-total (total / threads) threads first in
    ground (arith, whole, right, run_and_report_lem total threads variant more whole each)

run_if-empty : (b : Bool) (values : List ℕ) → values ≡ [] → run_if b values ≡ []
run_if-empty true values e = e
run_if-empty false values e = refl

-- If the number of threads is not 0 and divides the total, and the threads of every run share the
-- total out between them and run to the end, no mode of `main` reports an incorrect value.
pub main_lem :
    (total threads : ℕ) (mode : ℤ) (returned : Variant → List ℕ)
    → total % threads ≡ 0
    → 0 < threads
    → ((variant : Variant) → AllReturned (total / threads) threads variant (returned variant))
    → main total mode returned ≡ []
unfolding main
main_lem total threads mode returned divides some_thread each =
    let whole : threads * (total / threads) ≡ total = grind (arith, divides, some_thread) in
    let silent : (variant : Variant) → run_and_report total (returned variant) ≡ [] =
      λ variant. run_and_report_lem total threads variant (returned variant) whole (each variant) in
    rw
      (
        run_if-empty (is_mode 0 mode || is_mode 1 mode) (run_and_report total (returned mutex))
            (silent mutex),
        run_if-empty (is_mode 0 mode || is_mode 2 mode) (run_and_report total (returned atomic))
            (silent atomic),
        run_if-empty (is_mode 0 mode || is_mode 3 mode)
            (run_and_report total (returned sharded_unpadded)) (silent sharded_unpadded),
        run_if-empty (is_mode 0 mode || is_mode 4 mode)
            (run_and_report total (returned sharded_padded)) (silent sharded_padded),
      )
      refl
