-- ===== src/Spsc/Push.antt =====
-- `try_push` of spsc/SpscQueue.h, used by one thread at a time.
use market_data_pipeline.Base.{
  ℕ, ◌+◌, ◌%◌, ◌^◌, ◌≤◌, ◌<◌, ◌≡◌, refl, ◌∙◌, true, false, some, List, [], ◌∷◌, ◌++◌, arith, ◌==◌,
  length, set, length-set, length-append, inl, inr, Bool-cases, lt→ltb,
}
use market_data_pipeline.Base.Word.{word, sub_size, add_size}
use market_data_pipeline.Fifo.{offer}
use market_data_pipeline.Spsc.{SpscQueue, try_push, slot_index, write_slot}
use market_data_pipeline.Spsc.Capacity.{IsCapacity, capacity_pos, capacity_le, slot_index-word}
use market_data_pipeline.Spsc.Holds.{Holds, items-set}

module _ {ℓ} {T : Type ℓ} {capacity : ℕ} (c : IsCapacity capacity) where
  reload_head-Holds :
      {q : SpscQueue T} {xs : List T}
      → Holds capacity q xs
      → Holds capacity (record q { head_cache = q.head }) xs
  reload_head-Holds {q} {xs} h = record {
    first = h.first;
    seen_head = h.first;
    seen_tail = h.seen_tail;
    head_is = h.head_is;
    tail_is = h.tail_is;
    head_cache_is = h.head_is;
    tail_cache_is = h.tail_cache_is;
    head_lags = omega arith;
    tail_lags = h.tail_lags;
    room = omega (arith, h.room, h.head_lags);
    slots = h.slots;
    items = h.items;
  }

  -- With room behind the cached head, the write is inside the array and appends the item.
  write_slot-Holds :
      {q : SpscQueue T} {xs : List T} (h : Holds capacity q xs) (x : T)
      → h.first + length xs < h.seen_head + capacity
      → (q' : SpscQueue T) × (write_slot capacity q q.tail x ≡ some (true, q'))
        × Holds capacity q' (xs ++ x ∷ [])
  unfolding write_slot
  write_slot-Holds {q} {xs} h x room = (
    record q { buf = set q.buf (slot_index capacity q.tail) x; tail = add_size q.tail 1 },
    rw (lt→ltb (slot_index capacity q.tail) (length q.buf) inside),
    record {
      first = h.first;
      seen_head = h.seen_head;
      seen_tail = h.seen_tail;
      head_is = h.head_is;
      tail_is = omega (arith, h.tail_is, length-append xs (x ∷ []));
      head_cache_is = h.head_cache_is;
      tail_cache_is = h.tail_cache_is;
      head_lags = h.head_lags;
      tail_lags = omega (arith, h.tail_lags, length-append xs (x ∷ []));
      room = omega (arith, length-append xs (x ∷ []));
      slots = length-set q.buf (slot_index capacity q.tail) x ∙ h.slots;
      items =
          rw at
            (items-set q.buf capacity h.first xs x h.slots (omega (arith, h.head_lags)) h.items);
    },
  )
    where
      at : slot_index capacity q.tail ≡ (h.first + length xs) % capacity
      at = rw h.tail_is (slot_index-word c (h.first + length xs))

      inside : slot_index capacity q.tail < length q.buf
      inside = omega (arith, at, h.slots, capacity_pos c)

  -- On a queue of power-of-two capacity that holds a list, `try_push` does not leave the array,
  -- returns what `offer` returns, and leaves the queue holding what `offer` leaves.
  pub try_push-offer :
      {q : SpscQueue T} {xs : List T} (x : T)
      → Holds capacity q xs
      → (q' : SpscQueue T) × (try_push capacity q x ≡ some ((offer capacity xs x).0, q'))
        × Holds capacity q' (offer capacity xs x).1
  unfolding try_push offer
  try_push-offer {q} {xs} x h = elim (Bool-cases (sub_size q.tail q.head_cache == capacity)) [
    | inr open_now ↦
        let (q', done, holds) = write_slot-Holds h x (ground (arith, bounds)) in
        let fits : (length xs == capacity) ≡ false = ground (arith, bounds) in
        rw (open_now, fits) (q', done, holds)
    | inl stale ↦ elim (Bool-cases (sub_size q.tail q.head == capacity)) [
      | inl full ↦
          let is_full : (length xs == capacity) ≡ true = ground (arith, bounds) in
          rw (stale, full, is_full) (record q { head_cache = q.head }, refl, reload_head-Holds h)
      | inr freed ↦
          let (q', done, holds) =
            write_slot-Holds (reload_head-Holds h) x (ground (arith, bounds)) in
          let fits : (length xs == capacity) ≡ false = ground (arith, bounds) in
          rw (stale, freed, fits) (q', done, holds)
    ]
  ]
    where
      bounds :
          (q.tail ≡ word (h.first + length xs))
          × (q.head ≡ word h.first)
          × (q.head_cache ≡ word h.seen_head)
          × (h.seen_head ≤ h.first)
          × (h.first + length xs ≤ h.seen_head + capacity)
          × (capacity ≤ 2 ^ 63)
      bounds = (h.tail_is, h.head_is, h.head_cache_is, h.head_lags, h.room, capacity_le c)
