-- ===== src/SpscBench.antt =====
-- The two threads of the concurrency test of bench/spsc_bench.cpp (`producer_test_thread`,
-- `consumer_test_thread`, `test_concurrency`), which are also those of test case 1 of
-- bench/spsc_head_to_head.cpp (`producer_thread`, `consumer_thread`), over the queue of
-- `Spsc.Threads`. An `int` is its bit pattern, a number below `2 ^ 32`.
pub mod InOrder
pub mod Sizes
pub mod Bench
pub mod Ends
pub mod Best
pub mod Reports
use market_data_pipeline.Base.{ℕ, ◌+◌, ◌*◌, ◌%◌, ◌^◌, ◌<◌, ◌≡◌, Bool, false, ◌||◌, ◌==◌, not}
use market_data_pipeline.Spsc.Threads.{
  State, Event, Step, initial, silent, push_called, push_done, push_refused, pop_called, pop_done,
  pop_refused,
}

abbrev pub test_concurrency_queue_size : ℕ
test_concurrency_queue_size = 1024

abbrev pub test_concurrency_n : ℕ
test_concurrency_n = test_concurrency_queue_size * 1024

-- `static_cast<int>(expected)`
unfoldable pub to_int : ℕ → ℕ
to_int n = n % 2 ^ 32

-- The queue, the two local counters `expected`, and whether the `assert` has failed.
pub record Test : Type 0 where
  pub queue : State ℕ
  pub sent : ℕ
  pub received : ℕ
  pub failed : Bool

-- Which calls the loops make: `while (expected < n) if (queue_.try_push(static_cast<int>(expected)))`
-- and `while (expected < n) if (queue_.try_pop(out))`.
abbrev pub Calls : (n : ℕ) → Test → Event ℕ → Type 0
Calls n s (push_called x) = (s.sent < n) × (x ≡ to_int s.sent)
Calls n s pop_called = s.received < n
Calls n s _ = Unit

-- What the loops do with what a call returns: `expected++`, after the `assert` in the consumer.
unfoldable pub react : Test → State ℕ → Event ℕ → Test
react s q (push_done x) = record s { queue = q; sent = s.sent + 1 }
react s q (pop_done x) = record s {
  queue = q;
  received = s.received + 1;
  failed = s.failed || not (x == to_int s.received);
}
react s q _ = record s { queue = q }

pub data TestStep (capacity n : ℕ) (s : Test) : Test → Type 0 where
  run :
      {q : State ℕ} {e : Event ℕ}
      → Step capacity s.queue e q
      → Calls n s e
      → TestStep capacity n s (react s q e)

abbrev pub begin : (ℕ → ℕ) → Test
begin junk = record { queue = initial junk; sent = 0; received = 0; failed = false }

pub data TestReach (capacity n : ℕ) (junk : ℕ → ℕ) : Test → Type 0 where
  started : TestReach capacity n junk (begin junk)
  next :
      {s s' : Test}
      → TestReach capacity n junk s
      → TestStep capacity n s s'
      → TestReach capacity n junk s'
