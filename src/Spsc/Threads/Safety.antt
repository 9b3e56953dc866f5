-- ===== src/Spsc/Threads/Safety.antt =====
-- What holds of a queue under its producer and its consumer, in every interleaving.
use market_data_pipeline.Base.{
  ℕ, ◌≤◌, ◌≡◌, refl, false, List, ◌++◌, arith, length, length-append, ap,
}
use market_data_pipeline.Spsc.Capacity.{IsCapacity}
use market_data_pipeline.Spsc.Threads.{
  PushAt, PopAt, State, Event, History, Step, Reach, start, later, record_event, load_head,
  load_tail, push_call, push_reload, push_write, push_publish, pop_call, pop_reload, pop_read,
  pop_publish, push_event, pop_event,
}
use market_data_pipeline.Spsc.Threads.Inv.{Inv, initial-Inv}
use market_data_pipeline.Spsc.Threads.Push.{
  load_tail_own-Inv, load_head-Inv, write_buf-Inv, publish_tail-Inv,
}
use market_data_pipeline.Spsc.Threads.Pop.{
  load_head_own-Inv, load_tail-Inv, read_buf-Inv, publish_head-Inv,
}

module _ {ℓ} {T : Type ℓ} where
  pub quiet_push : (t : History T) (a : PushAt T) → record_event t (push_event a) ≡ t
  quiet_push t PushAt.outside = refl
  quiet_push t (PushAt.reload_head _ _) = refl
  quiet_push t (PushAt.write_slot _ _) = refl
  quiet_push t (PushAt.store_tail _ _) = refl

  pub quiet_pop : (t : History T) (a : PopAt T) → record_event t (pop_event a) ≡ t
  quiet_pop t PopAt.outside = refl
  quiet_pop t (PopAt.reload_tail _) = refl
  quiet_pop t (PopAt.read_slot _) = refl
  quiet_pop t (PopAt.store_head _ _) = refl

  pub Step-Inv :
      {capacity : ℕ}
      → IsCapacity capacity
      → {s s' : State T} {t : History T} {e : Event T} → Step capacity s e s'
      → Inv capacity s t
      → Inv capacity s' (record_event t e)
  Step-Inv c (push_call item k p ge le) inv = load_tail_own-Inv c inv item k p ge le
  Step-Inv {capacity} c {s = s} {t = t} (push_reload {item} {t = at} k p ge le) inv =
      rw (quiet_push t (load_head capacity item at k s).push_at) (load_head-Inv c inv k p ge le)
  Step-Inv c (push_write p) inv = write_buf-Inv c inv p
  Step-Inv c (push_publish p) inv = publish_tail-Inv c inv p
  Step-Inv c (pop_call k p ge le) inv = load_head_own-Inv c inv k p ge le
  Step-Inv c {s = s} {t = t} (pop_reload {h} k p ge le) inv =
      rw (quiet_pop t (load_tail h k s).pop_at) (load_tail-Inv c inv k p ge le)
  Step-Inv c (pop_read p) inv = read_buf-Inv c inv p
  Step-Inv c (pop_publish p) inv = publish_head-Inv c inv p

  pub Reach-Inv :
      {capacity : ℕ}
      → IsCapacity capacity
      → {junk : ℕ → T} {s : State T} {t : History T} → Reach capacity junk s t
      → Inv capacity s t
  Reach-Inv {capacity} c {junk} start = initial-Inv capacity junk
  Reach-Inv c (later r st) = Step-Inv c st (Reach-Inv c r)

  -- With a power-of-two capacity, in no interleaving of a producer that calls `try_push` and a
  -- consumer that calls `try_pop`, and whatever stale messages the loads return, is there a data race
  -- on a slot or an access outside the array.
  pub Reach-defined :
      {capacity : ℕ}
      → IsCapacity capacity
      → {junk : ℕ → T} {s : State T} {t : History T} → Reach capacity junk s t
      → s.undefined ≡ false
  Reach-defined c r = (Reach-Inv c r).defined

  -- With a power-of-two capacity, in every interleaving of a producer that calls `try_push` and a
  -- consumer that calls `try_pop`, whatever stale messages the loads return, the items popped are the
  -- first of the items pushed, in the same order, none lost, doubled or changed, and at most
  -- `capacity` items are pushed and not popped.
  pub Reach-fifo :
      {capacity : ℕ}
      → IsCapacity capacity
      → {junk : ℕ → T} {s : State T} {t : History T} → Reach capacity junk s t
      → (rest : List T) × (t.pushed ≡ t.popped ++ rest) × (length rest ≤ capacity)
  Reach-fifo c {t = t} r =
      let inv = Reach-Inv c r in
      (
        inv.log.rest,
        inv.log.in_order,
        omega (
          arith,
          ap length inv.log.in_order,
          length-append t.popped inv.log.rest,
          inv.log.count_pushed,
          inv.log.count_popped,
          inv.indices,
        ),
      )
