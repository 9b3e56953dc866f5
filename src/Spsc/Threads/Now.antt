-- ===== src/Spsc/Threads/Now.antt =====
-- `try_push` and `try_pop` of spsc/SpscQueue.h as one thread runs them alone, with loads that read the newest
-- messages: the accesses of `Spsc.Threads` one after the other.
use market_data_pipeline.Base.{ℕ, if◌then◌else◌, List, [], ◌∷◌, ◌==◌}
use market_data_pipeline.Base.Word.{sub_size}
use market_data_pipeline.Spsc.{slot_index}
use market_data_pipeline.Spsc.Threads.{
  State, Event, load_tail_own, load_head, write_buf, publish_tail, silent, push_called, push_done,
  push_refused, pop_refused, pop_called, pop_done, load_head_own, load_tail, read_buf, publish_head,
}

module _ {ℓ} {T : Type ℓ} where
  -- `try_push(item)`, run by the producer alone, each load reading the newest message: what the outside sees
  -- of each access, and what is left.
  unfoldable pub push_now : ℕ → T → State T → List (Event T) × State T
  push_now capacity item s =
      let t : ℕ = (s.tail.message s.tail.newest).value in
      let s1 : State T = load_tail_own capacity item s.tail.newest s in
      let s2 : State T = load_head capacity item t s.head.newest s1 in
      if sub_size t s.head_cache == capacity
      then if sub_size t (s.head.message s.head.newest).value == capacity
        then (push_called item ∷ push_refused ∷ [], s2)
        else (
          push_called item ∷ silent ∷ silent ∷ push_done item ∷ [],
          publish_tail t (write_buf capacity item t s2),
        )
      else (
        push_called item ∷ silent ∷ push_done item ∷ [],
        publish_tail t (write_buf capacity item t s1),
      )

  -- `try_pop(out)`, run by the consumer alone, each load reading the newest message.
  unfoldable pub pop_now : ℕ → State T → List (Event T) × State T
  pop_now capacity s =
      let h : ℕ = (s.head.message s.head.newest).value in
      let out : T = (s.slots (slot_index capacity h)).value in
      let s1 : State T = load_head_own s.head.newest s in
      let s2 : State T = load_tail h s.tail.newest s1 in
      if h == s.tail_cache
      then if h == (s.tail.message s.tail.newest).value
        then (pop_called ∷ pop_refused ∷ [], s2)
        else (
          pop_called ∷ silent ∷ silent ∷ pop_done out ∷ [],
          publish_head h (read_buf capacity h s2),
        )
      else (pop_called ∷ silent ∷ pop_done out ∷ [], publish_head h (read_buf capacity h s1))
