-- ===== src/HeadToHead/Main/Ends.antt =====
-- How the threads of the test cases of bench/spsc_head_to_head.cpp return, over the queue of spsc/SpscQueue.h in the
-- sizes that `main` takes.
use market_data_pipeline.Base.{ℕ, inl, inr, arith}
use market_data_pipeline.Spsc.Capacity.{IsCapacity, capacity_pos}
use market_data_pipeline.Spsc.Threads.Refine.{spsc_queue}
use market_data_pipeline.Spsc.Threads.Live.{live_spsc_queue}
use market_data_pipeline.HeadToHead.Finish.{Finishes, SystemReach-Finishes}
use market_data_pipeline.HeadToHead.Endings.{stream_end, echo_end, burst_end}
use market_data_pipeline.HeadToHead.System.{System, SystemReach, GoesOn}
use market_data_pipeline.HeadToHead.Stream.{stream_contract, stream-GoesOn}
use market_data_pipeline.HeadToHead.Echo.{echo_contract, echo-GoesOn}
use market_data_pipeline.HeadToHead.Bursts.{burst_contract, bursts-GoesOn}
use market_data_pipeline.HeadToHead.{num_batches, batch_size}
use market_data_pipeline.HeadToHead.Main.{
  bench_iteration_count_tc1, TestCase, stream, echo, burst, threads_of,
}
use market_data_pipeline.HeadToHead.Main.Asks.{IsSize}

pub IsSize-IsCapacity : (n : ℕ) → IsSize n → IsCapacity n
IsSize-IsCapacity n (inl e) = record { log = 6; small = omega arith; is_pow = e }
IsSize-IsCapacity n (inr (inl e)) = record { log = 7; small = omega arith; is_pow = e }
IsSize-IsCapacity n (inr (inr (inl e))) = record { log = 8; small = omega arith; is_pow = e }
IsSize-IsCapacity n (inr (inr (inr (inl e)))) = record { log = 9; small = omega arith; is_pow = e }
IsSize-IsCapacity n (inr (inr (inr (inr e)))) = record { log = 10; small = omega arith; is_pow = e }

-- No test case blocks for good on the repository's own queue, of whatever size `main` takes,
-- whatever its array holds at first and the clock gives: in every state that the two threads
-- reach both have returned, or by what its queues show the next push of one of them finds room,
-- or the next pop of one an item.
pub threads_of-GoesOn :
    (n : ℕ) (ok : IsSize n) (k : TestCase) (elapsed junk : ℕ → ℕ)
    → {s : System
        (spsc_queue (IsSize-IsCapacity n ok) junk).State
        (threads_of elapsed k).producer
        (threads_of elapsed k).consumer}
    → SystemReach
        (spsc_queue (IsSize-IsCapacity n ok) junk)
        (threads_of elapsed k).producer
        (threads_of elapsed k).consumer
        s
    → GoesOn
        (spsc_queue (IsSize-IsCapacity n ok) junk)
        (threads_of elapsed k).producer
        (threads_of elapsed k).consumer
        s
threads_of-GoesOn n ok stream elapsed junk r =
    let cap = IsSize-IsCapacity n ok in
    stream-GoesOn (spsc_queue cap junk) bench_iteration_count_tc1 (capacity_pos cap) r
threads_of-GoesOn n ok echo elapsed junk r =
    let cap = IsSize-IsCapacity n ok in
    echo-GoesOn (spsc_queue cap junk) bench_iteration_count_tc1 (capacity_pos cap) r
threads_of-GoesOn n ok burst elapsed junk r =
    let cap = IsSize-IsCapacity n ok in
    bursts-GoesOn (spsc_queue cap junk) num_batches batch_size elapsed (capacity_pos cap)
      (omega arith) r

-- No reachable state of a test case on the repository's own queue, of whatever size `main` takes,
-- whatever its array holds at first and the clock gives, is one that the test case cannot end from: some
-- further steps of the two threads lead to a state in which both functions have returned, even if a
-- call is in progress that will return false.
pub threads_of-Finishes :
    (n : ℕ) (ok : IsSize n) (k : TestCase) (elapsed junk : ℕ → ℕ)
    → {s : System
        (spsc_queue (IsSize-IsCapacity n ok) junk).State
        (threads_of elapsed k).producer
        (threads_of elapsed k).consumer}
    → SystemReach
        (spsc_queue (IsSize-IsCapacity n ok) junk)
        (threads_of elapsed k).producer
        (threads_of elapsed k).consumer
        s
    → Finishes
        (live_spsc_queue (IsSize-IsCapacity n ok) junk)
        (threads_of elapsed k).producer
        (threads_of elapsed k).consumer
        s
threads_of-Finishes n ok stream elapsed junk r =
    let cap = IsSize-IsCapacity n ok in
    SystemReach-Finishes (live_spsc_queue cap junk) (stream_contract n bench_iteration_count_tc1)
      (stream_end n bench_iteration_count_tc1 (capacity_pos cap)) r
threads_of-Finishes n ok echo elapsed junk r =
    let cap = IsSize-IsCapacity n ok in
    SystemReach-Finishes (live_spsc_queue cap junk) (echo_contract n bench_iteration_count_tc1)
      (echo_end n bench_iteration_count_tc1 (capacity_pos cap)) r
threads_of-Finishes n ok burst elapsed junk r =
    let cap = IsSize-IsCapacity n ok in
    SystemReach-Finishes (live_spsc_queue cap junk)
      (burst_contract n num_batches batch_size elapsed (omega arith))
      (burst_end n num_batches batch_size elapsed (capacity_pos cap) (omega arith)) r
