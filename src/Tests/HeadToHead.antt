-- ===== src/Tests/HeadToHead.antt =====
-- The three test cases over a queue that is the list itself, a few calls in.
use market_data_pipeline.Base.{
  ltb, leb, ◌*◌, ℕ, ◌+◌, ◌<◌, ◌≤◌, ◌≡◌, refl, subst, false, some, [], length, arith, get_elem?,
}
use market_data_pipeline.Spsc.Threads.{Event, push_called, push_done, pop_called, pop_done}
use market_data_pipeline.Channel.{Channel, empty_channel, Allowed, after_event, ConcurrentQueue}
use market_data_pipeline.SpscBench.{to_int}
use market_data_pipeline.SpscBench.Bench.{
  producer_bench_thread, consumer_bench_thread, timestamps_filled,
}
use market_data_pipeline.HeadToHead.{
  Worker, producer_thread, consumer_thread, producer_req, consumer_resp, producer_burst,
  consumer_burst,
}
use market_data_pipeline.HeadToHead.System.{
  Permits, System, first, SystemReach, started, next, sender_after, receiver_after,
}
use market_data_pipeline.HeadToHead.Stream.{stream_assert_holds}
use market_data_pipeline.Samples.{count}
use market_data_pipeline.HeadToHead.Main.{percentile_of}
use market_data_pipeline.HeadToHead.Main.Percentiles.{burst_percentiles}
use market_data_pipeline.HeadToHead.Echo.{echo_in_step, round_of, answers, Answers, under_way}
use market_data_pipeline.HeadToHead.Bursts.{bursts_in_order, Between, batch_times}

-- A queue of two items that does what it promises at once.
abbrev plain_queue : ConcurrentQueue ℕ 2
plain_queue = record {
  State = Channel ℕ;
  initial = empty_channel;
  Step = λ c e c'. Allowed 2 c e × (c' ≡ after_event c e);
  Shows = λ s c. s ≡ c;
  shows_initial = refl;
  refines =
      λ s s' e c (ok, is) same. subst (λ d. Allowed 2 d e × (s' ≡ after_event d e)) same (ok, is);
}

-- The first call on the first queue: a push, and its return.
abbrev after_call : (P C : Worker) → Event ℕ → System (Channel ℕ) P C → System (Channel ℕ) P C
after_call P C e s = record {
  q0 = after_event s.q0 e;
  q1 = s.q1;
  p = sender_after P C e s.p;
  c = receiver_after P C e s.c;
}

abbrev start_of : (P C : Worker) → System (Channel ℕ) P C
start_of P C = record { q0 = empty_channel; q1 = empty_channel; p = P.begin; c = C.begin }

call :
    {P C : Worker} {s : System (Channel ℕ) P C} (e : Event ℕ)
    → SystemReach plain_queue P C s
    → Allowed 2 s.q0 e
    → Permits P C s.p s.c e
    → SystemReach plain_queue P C (after_call P C e s)
call e r ok may = next r (first {e = e} (ok, refl) may)

-- Item 0 sent, then a pop that gives it.
abbrev sent_one : (P C : Worker) → System (Channel ℕ) P C
sent_one P C = after_call P C (push_done 0) (after_call P C (push_called 0) (start_of P C))

abbrev got_one : (P C : Worker) → System (Channel ℕ) P C
got_one P C = after_call P C (pop_done 0) (after_call P C pop_called (sent_one P C))

abbrev stream_state : System (Channel ℕ) (producer_thread 3) (consumer_thread 3)
stream_state = got_one (producer_thread 3) (consumer_thread 3)

stream_Reach : SystemReach plain_queue (producer_thread 3) (consumer_thread 3) stream_state
unfolding to_int
stream_Reach =
    call (pop_done 0)
      (call pop_called
        (call (push_done 0) (call (push_called 0) started refl refl) (refl, omega arith) tt) refl
        refl)
      (refl, ([], refl)) tt

stream_assert_holds_example :
    (stream_state.c.failed ≡ false)
    × (stream_state.c.expected ≤ stream_state.p)
    × (stream_state.p ≤ stream_state.c.expected + 2)
    × (stream_state.p ≤ 3)
stream_assert_holds_example = stream_assert_holds plain_queue 3 stream_Reach

-- The request of round 0 has arrived.
abbrev echo_state : System (Channel ℕ) (producer_req 3) (consumer_resp 3)
echo_state = got_one (producer_req 3) (consumer_resp 3)

echo_Reach : SystemReach plain_queue (producer_req 3) (consumer_resp 3) echo_state
unfolding to_int
echo_Reach =
    call (pop_done 0)
      (call pop_called
        (call (push_done 0) (call (push_called 0) started refl refl) (refl, omega arith) tt) refl
        refl)
      (refl, ([], refl)) tt

echo_in_step_example :
    (round_of echo_state.p ≤ answers echo_state.c)
    × (answers echo_state.c ≤ round_of echo_state.p + 1)
    × (answers echo_state.c ≤ 3)
    × Answers echo_state.p echo_state.c
    × ((c0 : Channel ℕ) × ((c1 : Channel ℕ) × ((echo_state.q0 ≡ c0)
            × (echo_state.q1 ≡ c1)
            × (length c0.items + length c1.items ≡ under_way echo_state.p echo_state.c))))
echo_in_step_example = echo_in_step plain_queue 3 echo_Reach

-- Batch 0, of one item, has arrived.
abbrev ticks : ℕ → ℕ
ticks k = k + 5

abbrev burst_state : System (Channel ℕ) (producer_burst 2 1) (consumer_burst 2 1 ticks)
burst_state = got_one (producer_burst 2 1) (consumer_burst 2 1 ticks)

burst_Reach : SystemReach plain_queue (producer_burst 2 1) (consumer_burst 2 1 ticks) burst_state
burst_Reach =
    call (pop_done 0)
      (call pop_called
        (call (push_done 0) (call (push_called 0) started refl refl) (refl, omega arith) tt) refl
        refl)
      (refl, ([], refl)) tt

bursts_in_order_example :
    ((c0 : Channel ℕ) × ((burst_state.q0 ≡ c0) × Between 1 burst_state.c.at burst_state.p c0.items))
    × (burst_state.c.times ≡ batch_times ticks burst_state.c.at.b)
    × (burst_state.c.at.b ≤ 2)
bursts_in_order_example = bursts_in_order plain_queue 2 1 ticks (omega arith) burst_Reach

-- The first of three items of a benchmark has arrived.
abbrev bench_state : System (Channel ℕ) (producer_bench_thread 3) (consumer_bench_thread ticks 3)
bench_state = got_one (producer_bench_thread 3) (consumer_bench_thread ticks 3)

bench_Reach :
    SystemReach plain_queue (producer_bench_thread 3) (consumer_bench_thread ticks 3) bench_state
unfolding to_int
bench_Reach =
    call (pop_done 0)
      (call pop_called
        (call (push_done 0) (call (push_called 0) started refl refl) (refl, omega arith) tt) refl
        refl)
      (refl, ([], refl)) tt

timestamps_filled_example :
    (length bench_state.c.timestamps ≡ 3)
    × (bench_state.c.i ≤ bench_state.p)
    × (bench_state.p ≤ 3)
    × ((k : ℕ) → k < bench_state.c.i → get_elem? bench_state.c.timestamps k ≡ some (ticks k))
timestamps_filled_example = timestamps_filled plain_queue ticks 3 bench_Reach

-- The only batch, of one item, has arrived.
abbrev last_state : System (Channel ℕ) (producer_burst 1 1) (consumer_burst 1 1 ticks)
last_state = got_one (producer_burst 1 1) (consumer_burst 1 1 ticks)

last_Reach : SystemReach plain_queue (producer_burst 1 1) (consumer_burst 1 1 ticks) last_state
last_Reach =
    call (pop_done 0)
      (call pop_called
        (call (push_done 0) (call (push_called 0) started refl refl) (refl, omega arith) tt) refl
        refl)
      (refl, ([], refl)) tt

burst_percentiles_example :
    (length last_state.c.times ≡ 1)
    × ((v : ℕ) × (percentile_of last_state.c.times 99 ≡ some v)
        × (count (λ x. ltb x v) last_state.c.times * 100 ≤ 1 * 99)
        × (1 * 99 < count (λ x. leb x v) last_state.c.times * 100))
burst_percentiles_example =
    burst_percentiles plain_queue 1 1 ticks 99 (omega arith) (omega arith) (omega arith) last_Reach
      refl
