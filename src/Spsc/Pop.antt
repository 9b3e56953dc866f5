-- ===== src/Spsc/Pop.antt =====
-- `try_pop` of spsc/SpscQueue.h, used by one thread at a time.
use native.Mathlib.Nat.{add-zero}
use market_data_pipeline.Base.{
  ℕ, suc, ◌+◌, ◌^◌, ◌≤◌, ◌<◌, ◌≡◌, refl, true, false, some, List, [], ◌∷◌, arith, ◌==◌, length,
  get_elem?, inl, inr, Bool-cases,
}
use market_data_pipeline.Base.Word.{word, add_size}
use market_data_pipeline.Fifo.{take_one}
use market_data_pipeline.Spsc.{SpscQueue, try_pop, slot_index, read_slot}
use market_data_pipeline.Spsc.Capacity.{IsCapacity, capacity_le, slot_index-word}
use market_data_pipeline.Spsc.Holds.{Holds, items-tail}

module _ {ℓ} {T : Type ℓ} {capacity : ℕ} (c : IsCapacity capacity) where
  reload_tail-Holds :
      {q : SpscQueue T} {xs : List T}
      → Holds capacity q xs
      → Holds capacity (record q { tail_cache = q.tail }) xs
  reload_tail-Holds {q} {xs} h = record {
    first = h.first;
    seen_head = h.seen_head;
    seen_tail = h.first + length xs;
    head_is = h.head_is;
    tail_is = h.tail_is;
    head_cache_is = h.head_cache_is;
    tail_cache_is = h.tail_is;
    head_lags = h.head_lags;
    tail_lags = omega arith;
    room = h.room;
    slots = h.slots;
    items = h.items;
  }

  -- Where the cached tail is ahead of the head, the read is inside the array and gives the oldest item.
  read_slot-Holds :
      {q : SpscQueue T} {x : T} {xs : List T} (h : Holds capacity q (x ∷ xs))
      → (q.head == q.tail_cache) ≡ false
      → (q' : SpscQueue T) × (read_slot capacity q q.head ≡ some (some x, q'))
        × Holds capacity q' xs
  unfolding read_slot
  read_slot-Holds {q} {x} {xs} h ahead = (
    record q { head = add_size q.head 1 },
    rw (found, read_slot),
    record {
      first = h.first + 1;
      seen_head = h.seen_head;
      seen_tail = h.seen_tail;
      head_is = omega (arith, h.head_is);
      tail_is = omega (arith, h.tail_is);
      head_cache_is = h.head_cache_is;
      tail_cache_is = h.tail_cache_is;
      head_lags = omega (arith, h.head_lags);
      tail_lags = omega (arith, behind, h.tail_lags);
      room = omega (arith, h.room);
      slots = h.slots;
      items = items-tail q.buf capacity h.first x xs h.items;
    },
  )
    where
      behind : h.first < h.seen_tail
      behind = ground (
        arith,
        h.head_is,
        h.tail_cache_is,
        h.tail_lags.0,
        h.tail_lags.1,
        h.room,
        h.head_lags,
        capacity_le c,
      )

      found : get_elem? q.buf (slot_index capacity q.head) ≡ some x
      found =
          rw (h.head_is, slot_index-word c h.first, ← add-zero h.first) (h.items 0 (omega arith))

  -- On a queue of power-of-two capacity that holds a list, `try_pop` does not leave the array,
  -- returns what `take_one` returns, and leaves the queue holding what `take_one` leaves.
  pub try_pop-take_one :
      {q : SpscQueue T} (xs : List T)
      → Holds capacity q xs
      → (q' : SpscQueue T) × (try_pop capacity q ≡ some ((take_one xs).0, q'))
        × Holds capacity q' (take_one xs).1
  unfolding try_pop take_one
  try_pop-take_one {q} [] h =
      let stale : (q.head == q.tail_cache) ≡ true =
        ground (arith, h.head_is, h.tail_cache_is, h.tail_lags) in
      let none_left : (q.head == q.tail) ≡ true = ground (arith, h.head_is, h.tail_is) in
      rw (stale, none_left) (record q { tail_cache = q.tail }, refl, reload_tail-Holds h)
  try_pop-take_one {q} (x ∷ xs) h = elim (Bool-cases (q.head == q.tail_cache)) [
    | inr ahead ↦ rw ahead (read_slot-Holds h ahead)
    | inl stale ↦
        let some_left : (q.head == q.tail) ≡ false = ground (arith, bounds) in
        rw (stale, some_left) (read_slot-Holds (reload_tail-Holds h) some_left)
  ]
    where
      bounds :
          (q.tail ≡ word (h.first + suc (length xs)))
          × (q.head ≡ word h.first)
          × (q.tail_cache ≡ word h.seen_tail)
          × (h.first ≤ h.seen_tail)
          × (h.first + suc (length xs) ≤ h.seen_head + capacity)
          × (h.seen_head ≤ h.first)
          × (capacity ≤ 2 ^ 63)
      bounds =
          (h.tail_is, h.head_is, h.tail_cache_is, h.tail_lags.0, h.room, h.head_lags, capacity_le c)
