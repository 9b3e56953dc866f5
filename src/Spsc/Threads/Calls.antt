-- ===== src/Spsc/Threads/Calls.antt =====
-- When a call of `try_push` or `try_pop` returns false, and when it succeeds, under both threads.
use market_data_pipeline.Base.{ℕ, ◌+◌, ◌≤◌, ◌≡◌, ◌↔◌, arith, length}
use market_data_pipeline.Base.Word.{word}
use market_data_pipeline.Spsc.Capacity.{IsCapacity, capacity_le}
use market_data_pipeline.Spsc.Threads.{PushAt, PopAt, State, History, Reach, load_head, load_tail}
use market_data_pipeline.Spsc.Threads.Inv.{Inv}
use market_data_pipeline.Spsc.Threads.Safety.{Reach-Inv}

module _ {ℓ} {T : Type ℓ} {capacity : ℕ} (c : IsCapacity capacity) {junk : ℕ → T} {s : State T}
    {t : History T} (r : Reach capacity junk s t) where
  -- In every reachable state of a queue with a power-of-two capacity, when `try_push` reloads
  -- `head_` and reads message `k`, stale or current (the one stored by the `k`th successful
  -- `try_pop`), it returns false exactly when `k + capacity` items have been pushed; and at least
  -- `k` have been popped by then.
  pub push_refused_iff :
      {item : T} {at : ℕ} (k : ℕ)
      → s.push_at ≡ PushAt.reload_head item at
      → s.producer.seen_head ≤ k
      → k ≤ s.head.newest
      → (((load_head capacity item at k s).push_at ≡ PushAt.outside)
          ↔ (length t.pushed ≡ k + capacity))
        × (k ≤ length t.popped)
  unfolding load_head
  push_refused_iff {item} {at} k e ge le =
      let inv : Inv capacity s t = Reach-Inv c r in
      let now : (at ≡ word s.tail.newest) × (s.producer.clock ≡ s.tail.newest) =
        rw e at inv.pushing in
      let value : (s.head.message k).value ≡ word k = (inv.indices.heads k le).0 in
      let counts : (length t.pushed ≡ s.tail.newest) × (length t.popped ≡ s.head.newest) =
        (inv.log.count_pushed, inv.log.count_popped) in
      let near : (k ≤ s.tail.newest) × (s.tail.newest ≤ k + capacity) =
        omega (arith, inv.indices) in
      (ground (arith, now.0, value, counts, near, capacity_le c), omega (arith, counts))

  -- In every reachable state of a queue with a power-of-two capacity, when `try_pop` reloads
  -- `tail_` and reads message `k`, stale or current (the one stored by the `k`th successful
  -- `try_push`), it returns false exactly when `k` items have been popped; and at least `k` have
  -- been pushed by then.
  pub pop_refused_iff :
      {h : ℕ} (k : ℕ)
      → s.pop_at ≡ PopAt.reload_tail h
      → s.consumer.seen_tail ≤ k
      → k ≤ s.tail.newest
      → (((load_tail h k s).pop_at ≡ PopAt.outside) ↔ (length t.popped ≡ k)) × (k ≤ length t.pushed)
  unfolding load_tail
  pop_refused_iff {h} k e ge le =
      let inv : Inv capacity s t = Reach-Inv c r in
      let now : (h ≡ word s.head.newest) × (s.consumer.clock ≡ s.head.newest) =
        rw e at inv.popping in
      let value : (s.tail.message k).value ≡ word k = (inv.indices.tails k le).0 in
      let counts : (length t.pushed ≡ s.tail.newest) × (length t.popped ≡ s.head.newest) =
        (inv.log.count_pushed, inv.log.count_popped) in
      let near : (s.head.newest ≤ k) × (k ≤ s.head.newest + capacity) =
        omega (arith, inv.indices) in
      (ground (arith, now.0, value, counts, near, capacity_le c), omega (arith, counts))
