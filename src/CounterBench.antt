-- ===== src/CounterBench.antt =====
-- bench/counter_bench.cpp: threads that increment one counter (under a mutex, or by `fetch_add`) or one
-- counter each, and the total that a run reads. An increment is one step: the mutex and `fetch_add` make
-- it indivisible. The totals stay below 2^63, so the counters do not wrap.
pub mod Totals
pub mod Report
use market_data_pipeline.Base.{
  ℕ, zero, suc, ◌+◌, ◌*◌, ◌/◌, ◌<◌, ◌≡◌, Bool, true, false, List, [], ◌∷◌, ◌++◌, ◌==◌, ◌||◌, ltb,
  if◌then◌else◌,
}
use market_data_pipeline.Memory.{update}
use market_data_pipeline.BenchArgs.{ℤ, pos, negsuc}

abbrev pub total_increments : ℕ
total_increments = 10000000

abbrev pub num_threads : ℕ
num_threads = 4

abbrev pub thread_increment_count : ℕ
thread_increment_count = total_increments / num_threads

abbrev pub num_runs : ℕ
num_runs = 20

-- The counters, and the loop variable `n` of each thread.
pub record Counters : Type 0 where
  pub counter : ℕ → ℕ
  pub loop : ℕ → ℕ

abbrev pub no_counts : Counters
no_counts = record { counter = λ _. 0; loop = λ _. 0 }

-- The counter that a thread is given.
abbrev pub shared : ℕ → ℕ
shared _ = 0

abbrev pub sharded : ℕ → ℕ
sharded t = t

-- One iteration of the loop of `increment_counter_mutex` and `increment_counter_atomic` in thread `t`.
unfoldable pub increment_counter : (ℕ → ℕ) → ℕ → ℕ → Counters → Counters
increment_counter given increment_count t s =
    if ltb (s.loop t) increment_count
    then record {
      counter = update s.counter (given t) (s.counter (given t) + 1);
      loop = update s.loop t (s.loop t + 1);
    }
    else s

-- What the threads reach together, in any order of their iterations.
pub data Reach (given : ℕ → ℕ) (increment_count threads : ℕ) : Counters → Type 0 where
  start : Reach given increment_count threads no_counts
  after :
      (t : ℕ) {s : Counters}
      → t < threads
      → Reach given increment_count threads s
      → Reach given increment_count threads (increment_counter given increment_count t s)

-- Thread `t` has left its loop, which `join` waits for.
abbrev pub Joined : ℕ → ℕ → Counters → Type 0
Joined increment_count t s = s.loop t ≡ increment_count

-- `run_mutex_variant` and `run_atomic_variant`, read when all threads are joined
unfoldable pub shared_total : Counters → ℕ
shared_total s = s.counter 0

-- `counter_sum` of the sharded variants, counter `n` read in the state in which thread `n` is joined
unfoldable pub counter_sum : (ℕ → Counters) → ℕ → ℕ
counter_sum joined zero = 0
counter_sum joined (suc n) = counter_sum joined n + (joined n).counter n

pub data Variant : Type 0 where
  mutex : Variant
  atomic : Variant
  sharded_unpadded : Variant
  sharded_padded : Variant

-- The values that `run_and_report` calls incorrect, of those that its runs return.
unfoldable pub run_and_report : ℕ → List ℕ → List ℕ
run_and_report total [] = []
run_and_report total (value ∷ more) =
    if value == total then run_and_report total more else value ∷ run_and_report total more

abbrev pub is_mode : ℕ → ℤ → Bool
is_mode k (pos n) = n == k
is_mode k (negsuc n) = false

abbrev pub run_if : Bool → List ℕ → List ℕ
run_if b values = if b then values else []

-- The values that `main` reports as incorrect in a mode, for what the runs of each variant return.
unfoldable pub main : ℕ → ℤ → (Variant → List ℕ) → List ℕ
main total mode returned =
    run_if (is_mode 0 mode || is_mode 1 mode) (run_and_report total (returned mutex))
    ++ run_if (is_mode 0 mode || is_mode 2 mode) (run_and_report total (returned atomic))
    ++ run_if (is_mode 0 mode || is_mode 3 mode) (run_and_report total (returned sharded_unpadded))
    ++ run_if (is_mode 0 mode || is_mode 4 mode) (run_and_report total (returned sharded_padded))
