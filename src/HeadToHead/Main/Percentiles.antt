-- ===== src/HeadToHead/Main/Percentiles.antt =====
-- The percentiles that test case 3 of bench/spsc_head_to_head.cpp prints.
use native.Mathlib.Nat.{mul-lt-mul_of_pos_left}
use market_data_pipeline.Base.{
  ℕ, ◌*◌, ◌/◌, ◌<◌, ◌≤◌, ◌≡◌, ◌∙◌, ap, some, List, length, arith, ltb, leb,
}
use market_data_pipeline.Channel.{ConcurrentQueue}
use market_data_pipeline.Samples.{count, sample_at-rank}
use market_data_pipeline.HeadToHead.{stop, producer_burst, consumer_burst}
use market_data_pipeline.HeadToHead.Loops.{loop_stopped}
use market_data_pipeline.HeadToHead.System.{System, SystemReach}
use market_data_pipeline.HeadToHead.Bursts.{bursts_in_order, batch_times-length}
use market_data_pipeline.HeadToHead.Main.{percentile_of}

-- A percentile `p` below 100 that is printed, of one time or more, is there, and is one by the
-- nearest rank: no more than `p` in a hundred of the times are less than it, and more than `p` in
-- a hundred are at most it.
pub percentile_of-rank :
    (times : List ℕ) (p : ℕ)
    → 0 < length times
    → p < 100
    → (v : ℕ) × (percentile_of times p ≡ some v)
      × (count (λ x. ltb x v) times * 100 ≤ length times * p)
      × (length times * p < count (λ x. leb x v) times * 100)
unfolding percentile_of
percentile_of-rank times p some_times part =
    let part_of : length times * p < length times * 100 = mul-lt-mul_of_pos_left part some_times in
    let (v, is, below, upto) =
      sample_at-rank times (length times * p / 100) (omega (arith, part_of)) in
    (v, is, omega (arith, below), omega (arith, upto))

-- Once the consumer of test case 3 has returned, with any concurrent queue and batches of one item or more,
-- there is one time for each batch; so each percentile `p` below 100 that is printed is there, if there is a
-- batch, and is one by the nearest rank: no more than `p` in a hundred of the times are less than it,
-- and more than `p` in a hundred are at most it.
pub burst_percentiles :
    {bound : ℕ} (Q : ConcurrentQueue ℕ bound) (batches size : ℕ) (elapsed : ℕ → ℕ) (p : ℕ)
    → 0 < batches
    → 0 < size
    → p < 100
    → {s : System Q.State (producer_burst batches size) (consumer_burst batches size elapsed)}
    → SystemReach Q (producer_burst batches size) (consumer_burst batches size elapsed) s
    → (consumer_burst batches size elapsed).action s.c ≡ stop
    → (length s.c.times ≡ batches)
      × ((v : ℕ) × (percentile_of s.c.times p ≡ some v)
          × (count (λ x. ltb x v) s.c.times * 100 ≤ batches * p)
          × (batches * p < count (λ x. leb x v) s.c.times * 100))
burst_percentiles {bound} Q batches size elapsed p some_batch some_size part {s} r over =
    let (seq, times, most) = bursts_in_order Q batches size elapsed some_size r in
    let past = loop_stopped s.c.at.b batches over in
    let all : length s.c.times ≡ batches =
      ap length times ∙ batch_times-length elapsed s.c.at.b ∙ omega (arith, past, most) in
    let (v, is, below, upto) =
      percentile_of-rank s.c.times p (omega (arith, all, some_batch)) part in
    let product : length s.c.times * p ≡ batches * p = ap (λ k. k * p) all in
    (all, (v, is, omega (arith, below, product), omega (arith, upto, product)))
