-- ===== src/SpscBench/Ends.antt =====
-- How the threads of `run_benchmark` of bench/spsc_bench.cpp return, over the queue of spsc/SpscQueue.h.
use market_data_pipeline.Base.{
  ℕ, ◌+◌, ◌-◌, ◌<◌, ◌≤◌, ◌≡◌, refl, inl, inr, some, List, [], ◌∷◌, length, get_elem?, ltb, arith,
  Bool-cases, lt→ltb,
}
use market_data_pipeline.Spsc.Capacity.{IsCapacity, capacity_pos}
use market_data_pipeline.Spsc.Threads.Live.{live_spsc_queue}
use market_data_pipeline.SpscBench.{to_int}
use market_data_pipeline.SpscBench.Bench.{
  producer_bench_thread, consumer_bench_thread, Stamped, InBench, bench_contract, timestamps_filled,
}
use market_data_pipeline.HeadToHead.{stop}
use market_data_pipeline.HeadToHead.Loops.{
  InSequence-length, if_send, if_receive, never_sends, never_receives, loop_stopped,
}
use market_data_pipeline.HeadToHead.System.{
  System, SystemReach, CanGoOn, ended, sends_first, receives_first,
}
use market_data_pipeline.HeadToHead.Advance.{SystemRun, SystemRun-SystemReach}
use market_data_pipeline.HeadToHead.Finish.{Ending, SystemReach-Finishes}

module _ (now : ℕ → ℕ) (bound n : ℕ) (room : 0 < bound) where
  bench_CanGoOn :
      (xs ys : List ℕ) (p : ℕ) (c : Stamped)
      → length xs ≤ bound
      → length ys ≤ bound
      → InBench now bound n xs ys p c
      → CanGoOn (producer_bench_thread n) (consumer_bench_thread now n) bound xs ys p c
  bench_CanGoOn [] ys p c few back (none_back, seq, le, filled) = elim (Bool-cases (ltb p n)) [
    | inl more ↦ sends_first (to_int p) (rw more refl) (omega (arith, room))
    | inr over ↦ ended (rw over refl) (rw (seq, over) refl)
  ]
  bench_CanGoOn (x ∷ xs) ys p c few back (none_back, seq, le, filled) =
      let ahead = InSequence-length to_int c.i p (x ∷ xs) seq in
      receives_first x xs (rw (lt→ltb c.i n (omega (arith, ahead, le))) refl) refl

  bench_end : Ending (bench_contract now bound n)
  bench_end = record {
    producer_waits = record { when_refused = λ l. refl; when_missed = λ l. refl };
    consumer_waits = record { when_refused = λ l. refl; when_missed = λ l. refl };
    can = bench_CanGoOn;
    left = λ p c. (n - p) + (n - c.i);
    producer_sends = λ x xs ys p c act h.
        let more = (if_send (ltb p n) (to_int p) x act).0 in ground (arith, more);
    consumer_receives =
        λ x xs ys p c act h. let more = if_receive (ltb c.i n) act in ground (arith, more);
    consumer_sends = λ y xs ys p c act. absurd (never_sends (ltb c.i n) y act);
    producer_receives = λ y xs ys p c act. absurd (never_receives (ltb p n) (to_int p) act);
  }

-- The threads of a run of the benchmark over the repository's queue, of any power-of-two capacity, for
-- every number `n` of items, whatever its array holds at first and the clock gives: from every
-- state that they reach some further steps lead to one in which both have returned, and then every
-- one of the `n` timestamps is there and is the time at which its item arrived.
pub bench_threads_finish :
    {capacity : ℕ} (cap : IsCapacity capacity) (junk now : ℕ → ℕ) (n : ℕ)
    → {s : System
        (live_spsc_queue cap junk).queue.State
        (producer_bench_thread n)
        (consumer_bench_thread now n)}
    → SystemReach
        (live_spsc_queue cap junk).queue
        (producer_bench_thread n)
        (consumer_bench_thread now n)
        s
    → (s' : System
        (live_spsc_queue cap junk).queue.State
        (producer_bench_thread n)
        (consumer_bench_thread now n))
      × SystemRun
          (live_spsc_queue cap junk)
          (producer_bench_thread n)
          (consumer_bench_thread now n)
          s
          s'
      × ((producer_bench_thread n).action s'.p ≡ stop)
      × ((consumer_bench_thread now n).action s'.c ≡ stop)
      × (length s'.c.timestamps ≡ n)
      × ((k : ℕ) → k < n → get_elem? s'.c.timestamps k ≡ some (now k))
bench_threads_finish {capacity} cap junk now n r =
    let live = live_spsc_queue cap junk in
    let (s', run, p_ends, c_ends) =
      SystemReach-Finishes live (bench_contract now capacity n)
        (bench_end now capacity n (capacity_pos cap)) r in
    let (size, behind, le, times) =
      timestamps_filled live.queue now n (SystemRun-SystemReach run r) in
    let all = loop_stopped s'.c.i n c_ends in
    (s', run, p_ends, c_ends, size, λ k below. times k (omega (arith, below, all)))
