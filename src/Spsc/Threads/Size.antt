-- ===== src/Spsc/Threads/Size.antt =====
-- `size()` and `empty()` of spsc/SpscQueue.h while both threads run: what the two loads may return.
use market_data_pipeline.Base.{ℕ, ◌+◌, ◌-◌, ◌≤◌, ◌<◌, ◌≡◌, ◌⊎◌, Bool, false, arith, ◌==◌}
use market_data_pipeline.Base.Word.{word_mod, sub_size}
use market_data_pipeline.Spsc.Capacity.{IsCapacity, capacity_le}
use market_data_pipeline.Spsc.Threads.{State, History, Reach}
use market_data_pipeline.Spsc.Threads.Inv.{Inv}
use market_data_pipeline.Spsc.Threads.Safety.{Reach-Inv}

module _ {ℓ} {T : Type ℓ} where
  -- `tail_.load(relaxed) - head_.load(relaxed)`, where the loads read messages `j` and `k`.
  unfoldable pub size : State T → ℕ → ℕ → ℕ
  size s j k = sub_size (s.tail.message j).value (s.head.message k).value

  -- `head_.load(relaxed) == tail_.load(relaxed)`, of messages `k` and `j`.
  unfoldable pub empty : State T → ℕ → ℕ → Bool
  empty s j k = (s.head.message k).value == (s.tail.message j).value

  module _ {capacity : ℕ} (c : IsCapacity capacity) {junk : ℕ → T} {s : State T} {t : History T}
      (r : Reach capacity junk s t) where
    -- In every reachable state of a queue with a power-of-two capacity, what the producer or the
    -- consumer sees of `size`, its loads returning no older messages than the thread has read and
    -- stored, is at most `capacity`.
    pub size_seen_by_owner :
        (j k : ℕ)
        → j ≤ s.tail.newest
        → k ≤ s.head.newest
        → ((s.producer.seen_tail ≤ j) × (s.producer.seen_head ≤ k))
          ⊎ ((s.consumer.seen_tail ≤ j) × (s.consumer.seen_head ≤ k))
        → size s j k ≤ capacity
    unfolding size
    size_seen_by_owner j k jn kn seen =
        let inv : Inv capacity s t = Reach-Inv c r in
        omega (
          arith,
          (inv.indices.tails j jn).0,
          (inv.indices.heads k kn).0,
          inv.indices,
          capacity_le c,
        )

    -- In every reachable state of a queue with a power-of-two capacity, if the loads of `size`
    -- and `empty` return a tail message `j` that is older than the head message `k`, by less than
    -- `capacity`, then `size` wraps: it returns `2 ^ 64 - (k - j)`, more than the capacity, and
    -- `empty` returns false.
    pub size_wraps :
        (j k : ℕ)
        → j < k
        → k ≤ s.head.newest
        → k < j + capacity
        → (size s j k + (k - j) ≡ word_mod) × (capacity < size s j k) × (empty s j k ≡ false)
    unfolding size empty
    size_wraps j k lt kn near =
        let inv : Inv capacity s t = Reach-Inv c r in
        let jn : j ≤ s.tail.newest = omega (arith, inv.indices) in
        ground (arith, (inv.indices.tails j jn).0, (inv.indices.heads k kn).0, capacity_le c)
