-- ===== src/Tests/Runs.antt =====
-- Command lines, measurements and wrappers of the queue benchmarks.
use market_data_pipeline.Base.{
  ℕ, ◌-◌, ◌/◌, ◌≡◌, ◌≢◌, refl, ap, true, false, Option, none, some, List, [], ◌∷◌, arith, inl,
  replicate,
}
use market_data_pipeline.BenchArgs.{
  value, Text, stoi, read_signed, skip_spaces, read_number, read_digits,
}
use market_data_pipeline.Fifo.{Call, offer, replies}
use market_data_pipeline.Channel.{empty_channel, Allowed, after_event}
use market_data_pipeline.Spsc.Threads.{State, initial, push_called, push_call, load_tail_own}
use market_data_pipeline.Spsc.Threads.Refine.{Shows, Step-Shows, initial-Shows, spsc_queue}
use market_data_pipeline.SpscBench.{to_int}
use market_data_pipeline.SpscBench.Sizes.{size_test, size_test_lem}
use market_data_pipeline.SpscBench.Best.{Run, best_from, keep_best, Parts, Report, run_benchmark}
use market_data_pipeline.SpscBench.Reports.{Below, run_benchmark-reads}
use market_data_pipeline.HeadToHead.Main.Ends.{IsSize-IsCapacity, threads_of-Finishes}
use market_data_pipeline.HeadToHead.Finish.{Finishes}
use market_data_pipeline.Spsc.Threads.Live.{live_spsc_queue}
use market_data_pipeline.HeadToHead.System.{System, SystemReach, first, started, next}
use market_data_pipeline.HeadToHead.Wrappers.{FrontQueue, FrontQueueLaws, front_wrapper}
use market_data_pipeline.HeadToHead.Wrappers.Calls.{run_calls, remains, front_wrapper-replies}
use market_data_pipeline.HeadToHead.Main.{
  mine, stream, threads_of, main, dispatch, with_test_case, with_size, run_for_target, run,
  run_test_case,
}
use market_data_pipeline.HeadToHead.Main.Runs.{main-Specified}
use market_data_pipeline.HeadToHead.Main.Asks.{IsSize, Specified}
use market_data_pipeline.Tests.Spsc.{four-IsCapacity}

abbrev no_items : ℕ → ℕ
no_items _ = 0

abbrev called_state : State ℕ
called_state = load_tail_own 4 7 0 (initial no_items)

Step-Shows_example :
    Allowed 4 (empty_channel {T = ℕ}) (push_called 7)
    × Shows 4 called_state (after_event empty_channel (push_called 7))
Step-Shows_example =
    Step-Shows four-IsCapacity (initial no_items) called_state (push_called 7) empty_channel
      (push_call 7 0 refl (omega arith) (omega arith)) (initial-Shows 4 no_items)

abbrev program : Text
program = b's' ∷ []

abbrev one_text : Text
one_text = b'1' ∷ []

abbrev size_text : Text
size_text = b'6' ∷ b'4' ∷ []

main-Specified_example :
    Specified
      (program ∷ (b'm' ∷ b'i' ∷ b'n' ∷ b'e' ∷ []) ∷ one_text ∷ size_text ∷ [])
      (value (0, run_test_case mine 64 stream))
unfolding main dispatch with_test_case with_size run_for_target run stoi read_signed skip_spaces
    read_number read_digits
main-Specified_example =
    main-Specified (program ∷ (b'm' ∷ b'i' ∷ b'n' ∷ b'e' ∷ []) ∷ one_text ∷ size_text ∷ [])

abbrev slots : List ℕ
slots = replicate 4 9

size_test_lem_example : size_test slots ≡ some (record { was_empty = true; refused_at = some 4 })
size_test_lem_example = size_test_lem slots four-IsCapacity

abbrev runs : List Run
runs =
    record { elapsed_ns = 4; timestamps = 1 ∷ 3 ∷ 4 ∷ [] }
    ∷ record { elapsed_ns = 2; timestamps = 6 ∷ 7 ∷ 8 ∷ [] }
    ∷ []

abbrev per_time : ℕ → ℕ
per_time elapsed = 100 / elapsed

abbrev parts : Parts
parts = record { half = λ k. k / 2; most = λ k. k - 1; nearly_all = λ k. k - 1 }

parts-Below : Below parts
parts-Below = record {
  half = λ k more. omega (arith, more);
  most = λ k more. omega (arith, more);
  nearly_all = λ k more. omega (arith, more);
}

run_benchmark-reads_example :
    (report : Report) × (run_benchmark per_time parts true runs ≡ some report)
    × (report.p50 ≢ none)
    × (report.p99 ≢ none)
    × (report.p99_9 ≢ none)
unfolding best_from keep_best
run_benchmark-reads_example =
    run_benchmark-reads per_time parts runs parts-Below (omega arith, (omega arith, tt))
      (λ e. omega (arith, e))

-- A queue with a front that is a list of at most four items.
abbrev list_front : List ℕ → Option ℕ
list_front [] = none
list_front (x ∷ xs) = some x

abbrev list_pop : List ℕ → Option (List ℕ)
list_pop [] = none
list_pop (x ∷ xs) = some xs

abbrev list_queue : FrontQueue ℕ
list_queue = record { Queue = List ℕ; write = offer 4; front = list_front; pop_front = list_pop }

list-writes :
    (q xs : List ℕ) (x : ℕ)
    → q ≡ xs
    → ((offer 4 q x).0 ≡ (offer 4 xs x).0) × ((offer 4 q x).1 ≡ (offer 4 xs x).1)
list-writes q xs x e = (ap (λ l. (offer 4 l x).0) e, ap (λ l. (offer 4 l x).1) e)

abbrev list_queue_laws : FrontQueueLaws list_queue 4
list_queue_laws = record {
  Stores = λ q xs. q ≡ xs;
  writes = λ q xs x e. list-writes q xs x e;
  front_of_empty = λ q e. rw e refl;
  front_is_oldest = λ q x xs e. rw e refl;
  drops_oldest = λ q x xs e. (xs, rw e refl, refl);
}

abbrev two_items : List ℕ
two_items = 3 ∷ 4 ∷ []

abbrev calls : List (Call ℕ)
calls = Call.pop ∷ Call.push 5 ∷ Call.pop ∷ []

front_wrapper-replies_example :
    (left : List ℕ) × (run_calls (front_wrapper list_queue) two_items calls
      ≡ some (replies 4 two_items calls, left))
    × (left ≡ remains 4 two_items calls)
front_wrapper-replies_example =
    front_wrapper-replies list_queue 4 list_queue_laws calls two_items two_items refl

abbrev mine_size : IsSize 64
mine_size = inl refl

abbrev sending_state :
    System (State ℕ) (threads_of no_items stream).producer (threads_of no_items stream).consumer
sending_state = record {
  q0 = load_tail_own 64 0 0 (initial no_items);
  q1 = initial no_items;
  p = 0;
  c = record { expected = 0; failed = false };
}

sending_Reach :
    SystemReach
      (spsc_queue (IsSize-IsCapacity 64 mine_size) no_items)
      (threads_of no_items stream).producer
      (threads_of no_items stream).consumer
      sending_state
unfolding to_int
sending_Reach = next started (first (push_call 0 0 refl (omega arith) (omega arith)) refl)

threads_of-Finishes_example :
    Finishes
      (live_spsc_queue (IsSize-IsCapacity 64 mine_size) no_items)
      (threads_of no_items stream).producer
      (threads_of no_items stream).consumer
      sending_state
threads_of-Finishes_example =
    threads_of-Finishes 64 mine_size stream no_items no_items sending_Reach
