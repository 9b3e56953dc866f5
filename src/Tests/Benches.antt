-- ===== src/Tests/Benches.antt =====
-- A run of the benchmark of bench/spsc_bench.cpp with two items, and the report of bench/counter_bench.cpp.
use market_data_pipeline.Base.{
  ℕ, true, refl, arith, List, replicate, ltb, ◌+◌, ◌/◌, ◌%◌, ◌<◌, ◌≡◌, some, get_elem?, length,
}
use market_data_pipeline.BenchArgs.{BenchArgs, pos}
use market_data_pipeline.CounterBench.{Variant}
use market_data_pipeline.CounterBench.Report.{
  Double, DoubleLaws, OfBest, Reported, selects, main_reports,
}
use market_data_pipeline.CounterBench.Report.Best.{main_reports_lem}
use market_data_pipeline.HeadToHead.{stop}
use market_data_pipeline.HeadToHead.System.{System, start_system, started}
use market_data_pipeline.HeadToHead.Advance.{SystemRun}
use market_data_pipeline.Spsc.Threads.{State}
use market_data_pipeline.Spsc.Threads.Live.{live_spsc_queue}
use market_data_pipeline.Spsc.Threads.Refine.{spsc_queue}
use market_data_pipeline.SpscBench.Bench.{producer_bench_thread, consumer_bench_thread}
use market_data_pipeline.SpscBench.Ends.{bench_threads_finish}
use market_data_pipeline.Tests.Spsc.{four-IsCapacity}

abbrev no_items : ℕ → ℕ
no_items _ = 0

abbrev bench_state : System (State ℕ) (producer_bench_thread 2) (consumer_bench_thread no_items 2)
bench_state =
    start_system (spsc_queue four-IsCapacity no_items) (producer_bench_thread 2)
      (consumer_bench_thread no_items 2)

bench_threads_finish_example :
    (s' : System (State ℕ) (producer_bench_thread 2) (consumer_bench_thread no_items 2)) × SystemRun
      (live_spsc_queue four-IsCapacity no_items)
      (producer_bench_thread 2)
      (consumer_bench_thread no_items 2)
      bench_state
      s'
    × ((producer_bench_thread 2).action s'.p ≡ stop)
    × ((consumer_bench_thread no_items 2).action s'.c ≡ stop)
    × (length s'.c.timestamps ≡ 2)
    × ((k : ℕ) → k < 2 → get_elem? s'.c.timestamps k ≡ some (no_items k))
bench_threads_finish_example = bench_threads_finish four-IsCapacity no_items no_items 2 started

-- Times in place of numbers of type `double`.
abbrev whole_numbers : Double
whole_numbers = record {
  Carrier = ℕ;
  max = 1000;
  zero = 0;
  per_op = λ e. e % 100;
  plus = λ a b. a + b;
  less = ltb;
  average = λ a. a / 20;
}

whole_numbers_laws : DoubleLaws whole_numbers
whole_numbers_laws = record {
  transitive = λ x y z h k. ground (arith, h, k);
  irreflexive = λ e. ground arith;
  below_max = λ e. ground arith;
}

abbrev times : Variant → List ℕ
times _ = replicate 20 7

abbrev all_printed : BenchArgs
all_printed = record { mode = pos 0; printed = true }

main_reports_lem_example :
    OfBest whole_numbers all_printed times (main_reports whole_numbers all_printed times)
    × ((v : Variant)
        → true ≡ true
        → selects (pos 0) v ≡ true
        → Reported v (main_reports whole_numbers all_printed times))
main_reports_lem_example =
    main_reports_lem whole_numbers whole_numbers_laws all_printed times (λ v. refl)
