-- ===== src/Spsc/Refine.antt =====
-- A queue of spsc/SpscQueue.h, used by one thread at a time, against the bounded list of `Fifo`.
use market_data_pipeline.Base.{
  ℕ, ◌≡◌, refl, false, Option, none, some, List, [], ◌∷◌, arith, length, ◌==◌,
}
use market_data_pipeline.Fifo.{Call, Reply, replies}
use market_data_pipeline.Spsc.{SpscQueue, new_queue, try_push, try_pop, size, empty}
use market_data_pipeline.Spsc.Capacity.{IsCapacity, capacity_le}
use market_data_pipeline.Spsc.Holds.{Holds, Holds-length, new_queue-Holds}
use market_data_pipeline.Spsc.Push.{try_push-offer}
use market_data_pipeline.Spsc.Pop.{try_pop-take_one}

-- A sequence of calls on one queue, with what each returns; `none` once a call left the array.
module _ {ℓ} {T : Type ℓ} where
  cons_reply : Reply T → Option (List (Reply T)) → Option (List (Reply T))
  cons_reply r none = none
  cons_reply r (some rs) = some (r ∷ rs)

  unfoldable pub run : ℕ → SpscQueue T → List (Call T) → Option (List (Reply T))
  unfolding cons_reply
  run capacity q [] = some []
  run capacity q (Call.push x ∷ cs) = elim (try_push capacity q x) [
    | none ↦ none
    | some (b, q') ↦ cons_reply (Reply.pushed b) (run capacity q' cs)
  ]
  run capacity q (Call.pop ∷ cs) = elim (try_pop capacity q) [
    | none ↦ none
    | some (o, q') ↦ cons_reply (Reply.popped o) (run capacity q' cs)
  ]

  run-Holds :
      {capacity : ℕ} (c : IsCapacity capacity) (cs : List (Call T)) {q : SpscQueue T} {xs : List T}
      → Holds capacity q xs
      → run capacity q cs ≡ some (replies capacity xs cs)
  unfolding run replies
  run-Holds c [] h = refl
  run-Holds c (Call.push x ∷ cs) h =
      let (q', done, h') = try_push-offer c x h in rw (done, run) (rw (run-Holds c cs h') refl)
  run-Holds c (Call.pop ∷ cs) {xs} h =
      let (q', done, h') = try_pop-take_one c xs h in rw (done, run) (rw (run-Holds c cs h') refl)

  -- A queue made with a power-of-two capacity, whatever its array held before, answers every
  -- sequence of calls of `try_push` and `try_pop` as a first-in first-out list bounded by the
  -- capacity does, and no call reads or writes outside the array.
  pub run-replies :
      (junk : List T)
      → IsCapacity (length junk)
      → (cs : List (Call T))
      → run (length junk) (new_queue junk) cs ≡ some (replies (length junk) [] cs)
  run-replies junk c cs = run-Holds c cs (new_queue-Holds junk)

  -- On a queue of power-of-two capacity that holds a list and is used by one thread at a time,
  -- `size` is the number of items held, and `empty` tests whether it is 0.
  pub size-length :
      {capacity : ℕ} {q : SpscQueue T} {xs : List T}
      → IsCapacity capacity
      → Holds capacity q xs
      → (size q ≡ length xs) × (empty q ≡ (length xs == 0))
  unfolding size empty
  size-length {q} {xs} c h = ground (arith, h.head_is, h.tail_is, Holds-length h, capacity_le c)

  -- With `Capacity` 0, which the `static_assert` lets pass, a new queue refuses every item and
  -- gives none, and touches no slot.
  pub zero_capacity :
      (x : T)
      → (try_push 0 (new_queue []) x ≡ some (false, new_queue []))
        × (try_pop 0 (new_queue {T = T} []) ≡ some (none, new_queue []))
  unfolding try_push try_pop new_queue
  zero_capacity x = (refl, refl)
