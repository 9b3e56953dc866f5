-- ===== src/Tests/Workers.antt =====
-- Runs of the stack with two threads, of the lock with one, and of the counters with two.
use market_data_pipeline.Base.{
  ℕ, zero, suc, ◌<◌, ◌/◌, length, ◌≡◌, refl, true, false, Bool, some, List, [], ◌∷◌, arith, sum,
}
use market_data_pipeline.Memory.{update}
use market_data_pipeline.LockFreeStack.{Stack, pop_vulnerable_begin, pop_vulnerable_end}
use market_data_pipeline.LockFreeStack.Chain.{Chain}
use market_data_pipeline.LockFreeStack.Aba.{second_thread, aba}
use market_data_pipeline.Spinlock.{
  finished, State, initial, check_counter, advance, step, Reach, start, after, main_result,
}
use market_data_pipeline.Spinlock.Total.{mutual_exclusion}
use market_data_pipeline.Samples.{AllRanked}
use market_data_pipeline.Spinlock.Report
use market_data_pipeline.Spinlock.Report.{round_trip_samples, total_of, main_prints}
use market_data_pipeline.Spinlock.Ends.{Run, all_finish}
use market_data_pipeline.CounterBench
use market_data_pipeline.CounterBench.{
  Counters, no_counts, shared, sharded, increment_counter, Joined, shared_total, counter_sum,
  Variant, mutex, atomic, sharded_unpadded, sharded_padded, main,
}
use market_data_pipeline.CounterBench.Totals.{
  AllReturned, by_mutex, by_atomic, by_sharded_unpadded, by_sharded_padded, main_lem,
}
use market_data_pipeline.BenchArgs.{pos}

-- Nodes 1 and 2
abbrev two_nodes : Stack
two_nodes = record { head = 1; value = λ p. p; next = update (λ _. 0) 1 2 }

abbrev nodes : List ℕ
nodes = 1 ∷ 2 ∷ []

two_nodes-Chain : Chain two_nodes.next two_nodes.head nodes
two_nodes-Chain = (refl, (λ e. omega arith), (refl, (λ e. omega arith), refl))

abbrev attempts : List Bool
attempts = false ∷ true ∷ []

aba_example :
    (s3 s4 : Stack) × (pop_vulnerable_begin two_nodes ≡ some (1, 2))
    × (second_thread attempts attempts attempts 1 10 two_nodes ≡ some s3)
    × Chain s3.next s3.head (1 ∷ [])
    × (pop_vulnerable_end 1 2 s3 ≡ (1, s4))
    × Chain s4.next s4.head (2 ∷ [])
aba_example =
    aba attempts attempts attempts 1 2 10 [] two_nodes tt tt tt two_nodes-Chain (λ e. omega arith)
      tt tt

-- One thread that counts to 1
abbrev no_times : ℕ → ℕ → ℕ
no_times _ _ = 5

ran : ℕ → State
ran zero = initial
ran (suc n) = step 1 no_times true 0 (ran n)

ran-Reach : (n : ℕ) → Reach 1 no_times 1 (ran n)
unfolding ran
ran-Reach zero = start
ran-Reach (suc n) = after true 0 (omega arith) (ran-Reach n)

abbrev first_thread : ℕ
first_thread = 0

mutual_exclusion_example : (first_thread ≡ 0) × ((ran 2).flag ≡ true)
unfolding ran step advance
mutual_exclusion_example = mutual_exclusion 1 no_times 1 (ran-Reach 2) 0 0 refl refl

all_finished : (t : ℕ) → t < 1 → (ran 7).place t ≡ finished
unfolding ran step advance check_counter
all_finished t h = let first_one : t ≡ 0 = omega arith in rw first_one refl

abbrev half : List (ℕ → ℕ)
half = (λ k. k / 2) ∷ []

main_prints_example :
    ((ran 7).counter ≡ 1)
    × (length (round_trip_samples (ran 7).samples 1) ≡ 1)
    × AllRanked
        (round_trip_samples (ran 7).samples 1)
        half
        (Report.main 1 1 half (ran 7)).percentiles_printed
    × (length (Report.main 1 1 half (ran 7)).rows ≡ 1)
    × (total_of (Report.main 1 1 half (ran 7)).rows ≡ 1)
    × ((Report.main 1 1 half (ran 7)).failed ≡ false)
main_prints_example =
    main_prints 1 no_times 1 half (ran-Reach 7) (omega arith) all_finished (omega arith, tt)

all_finish_example :
    (s' : State) × Run 1 no_times 1 (ran 2) s'
    × ((t : ℕ) → t < 1 → s'.place t ≡ finished)
    × (s'.counter ≡ 1)
    × (sum s'.acquisitions 1 ≡ 1)
    × (main_result 1 s' ≡ false)
all_finish_example = all_finish 1 no_times 1 (ran-Reach 2) (omega arith)

-- Two threads that increment once each
abbrev shared_end : Counters
shared_end = increment_counter shared 1 1 (increment_counter shared 1 0 no_counts)

shared_end-Reach : CounterBench.Reach shared 1 2 shared_end
shared_end-Reach =
    CounterBench.after 1 (omega arith) (CounterBench.after 0 (omega arith) CounterBench.start)

shared-Joined : (t : ℕ) → t < 2 → Joined 1 t shared_end
unfolding increment_counter
shared-Joined t h = ground (arith, h)

abbrev sharded_end : Counters
sharded_end = increment_counter sharded 1 1 (increment_counter sharded 1 0 no_counts)

sharded-Joined :
    (t : ℕ) → t < 2 → CounterBench.Reach sharded 1 2 sharded_end × Joined 1 t sharded_end
unfolding increment_counter
sharded-Joined t h = (
  CounterBench.after 1 (omega arith) (CounterBench.after 0 (omega arith) CounterBench.start),
  ground (arith, h),
)

abbrev returned : Variant → List ℕ
returned mutex = shared_total shared_end ∷ []
returned atomic = shared_total shared_end ∷ []
returned sharded_unpadded = counter_sum (λ _. sharded_end) 2 ∷ []
returned sharded_padded = counter_sum (λ _. sharded_end) 2 ∷ []

returned-AllReturned : (variant : Variant) → AllReturned 1 2 variant (returned variant)
returned-AllReturned mutex = (by_mutex shared_end-Reach shared-Joined, tt)
returned-AllReturned atomic = (by_atomic shared_end-Reach shared-Joined, tt)
returned-AllReturned sharded_unpadded = (by_sharded_unpadded (λ _. sharded_end) sharded-Joined, tt)
returned-AllReturned sharded_padded = (by_sharded_padded (λ _. sharded_end) sharded-Joined, tt)

main_lem_example : main 2 (pos 0) returned ≡ []
main_lem_example = main_lem 2 2 (pos 0) returned refl (omega arith) returned-AllReturned
