-- ===== src/Spsc/Threads/Push.antt =====
-- Each access of `try_push` keeps the invariant of the two threads.
use mathlib.Core.List.{append_assoc}
use market_data_pipeline.Base.{
  ℕ, ◌+◌, ◌%◌, ◌≤◌, ◌<◌, ◌≡◌, refl, Bool, true, false, [], ◌∷◌, ◌++◌, arith, ◌==◌, if◌then◌else◌,
  length-append,
}
use market_data_pipeline.Base.Word.{word, sub_size, add_size}
use market_data_pipeline.Atomics.{store}
use market_data_pipeline.Spsc.{slot_index}
use market_data_pipeline.Spsc.Capacity.{
  IsCapacity, capacity_pos, slot_index-word, room_of_full_test,
}
use market_data_pipeline.Spsc.Threads.{
  Slot, PushAt, State, History, load_tail_own, load_head, write_buf, publish_tail,
}
use market_data_pipeline.Spsc.Threads.Inv.{
  Pushing, Written, Inv, Popping-clock, Fetched-append, store-IsMessage,
}
use market_data_pipeline.Spsc.Threads.Slots.{Items-write, Items-publish, put_slot_self}

module _ {ℓ} {T : Type ℓ} where
  -- Where a test for a full queue leads, in either of the two places that make it.
  tested :
      (capacity pushes clock seen : ℕ) (item : T) (t : ℕ) (full : Bool)
      → t ≡ word pushes
      → clock ≡ pushes
      → (full ≡ false → pushes < seen + capacity)
      → Pushing capacity pushes clock seen
          (if full then PushAt.reload_head item t else PushAt.write_slot item t)
        × Pushing capacity pushes clock seen
            (if full then PushAt.outside else PushAt.write_slot item t)
  tested capacity pushes clock seen item t true at now room = ((at, now), now)
  tested capacity pushes clock seen item t false at now room =
      ((at, now, room refl), (at, now, room refl))

  nothing-Written :
      (slots : ℕ → Slot T) (capacity pushes : ℕ) (item : T) (t : ℕ) (full : Bool)
      → Written slots capacity pushes
          (if full then PushAt.reload_head item t else PushAt.write_slot item t)
        × Written slots capacity pushes (if full then PushAt.outside else PushAt.write_slot item t)
  nothing-Written slots capacity pushes item t true = (tt, tt)
  nothing-Written slots capacity pushes item t false = (tt, tt)

module _ {ℓ} {T : Type ℓ} {capacity : ℕ} (c : IsCapacity capacity) {s : State T} {t : History T}
    (inv : Inv capacity s t) where
  open inv use {indices}

  pub load_tail_own-Inv :
      (item : T) (k : ℕ)
      → s.push_at ≡ PushAt.outside
      → s.producer.seen_tail ≤ k
      → k ≤ s.tail.newest
      → Inv capacity (load_tail_own capacity item k s) t
  unfolding load_tail_own
  load_tail_own-Inv item k e ge le = record {
    indices = record {
      own_tail = omega (arith, indices.own_tail);
      own_head = indices.own_head;
      head_lags = indices.head_lags;
      head_behind = indices.head_behind;
      tail_lags = indices.tail_lags;
      room = indices.room;
      head_cache_is = indices.head_cache_is;
      tail_cache_is = indices.tail_cache_is;
      knows_pops = indices.knows_pops;
      knows_pushes = indices.knows_pushes;
      tails = indices.tails;
      heads = indices.heads;
    };
    pushing =
        (tested capacity s.tail.newest s.producer.clock s.producer.seen_head item
          (s.tail.message k).value (sub_size (s.tail.message k).value s.head_cache == capacity)
          value now room).0;
    popping = inv.popping;
    written =
        (nothing-Written s.slots capacity s.tail.newest item (s.tail.message k).value
          (sub_size (s.tail.message k).value s.head_cache == capacity)).0;
    fetched = inv.fetched;
    items = inv.items;
    log = inv.log;
    defined = inv.defined;
  }
    where
      value : (s.tail.message k).value ≡ word s.tail.newest
      value = omega (arith, indices.own_tail, (indices.tails k le).0)

      now : s.producer.clock ≡ s.tail.newest
      now = rw e at inv.pushing

      room :
          (sub_size (s.tail.message k).value s.head_cache == capacity) ≡ false
          → s.tail.newest < s.producer.seen_head + capacity
      room open_now =
          room_of_full_test c s.tail.newest s.producer.seen_head value indices.head_cache_is
            (omega (arith, indices)) indices.room open_now

  pub load_head-Inv :
      {item : T} {at : ℕ} (k : ℕ)
      → s.push_at ≡ PushAt.reload_head item at
      → s.producer.seen_head ≤ k
      → k ≤ s.head.newest
      → Inv capacity (load_head capacity item at k s) t
  unfolding load_head
  load_head-Inv {item} {at} k e ge le = record {
    indices = record {
      own_tail = indices.own_tail;
      own_head = indices.own_head;
      head_lags = le;
      head_behind = indices.head_behind;
      tail_lags = indices.tail_lags;
      room = omega (arith, indices.room);
      head_cache_is = value;
      tail_cache_is = indices.tail_cache_is;
      knows_pops = omega (arith, (indices.heads k le).1);
      knows_pushes = indices.knows_pushes;
      tails = indices.tails;
      heads = indices.heads;
    };
    pushing =
        (tested capacity s.tail.newest s.producer.clock k item at
          (sub_size at (s.head.message k).value == capacity) now.0 now.1 room).1;
    popping = inv.popping;
    written =
        (nothing-Written s.slots capacity s.tail.newest item at
          (sub_size at (s.head.message k).value == capacity)).1;
    fetched = inv.fetched;
    items = inv.items;
    log = inv.log;
    defined = inv.defined;
  }
    where
      value : (s.head.message k).value ≡ word k
      value = (indices.heads k le).0

      now : (at ≡ word s.tail.newest) × (s.producer.clock ≡ s.tail.newest)
      now = rw e at inv.pushing

      room :
          (sub_size at (s.head.message k).value == capacity) ≡ false → s.tail.newest < k + capacity
      room open_now =
          room_of_full_test c s.tail.newest k now.0 value (omega (arith, indices))
            (omega (arith, indices.room)) open_now

  pub write_buf-Inv :
      {item : T} {at : ℕ}
      → s.push_at ≡ PushAt.write_slot item at
      → Inv capacity (write_buf capacity item at s) t
  unfolding write_buf
  write_buf-Inv {item} {at} e = record {
    indices = record {
      own_tail = indices.own_tail;
      own_head = indices.own_head;
      head_lags = indices.head_lags;
      head_behind = indices.head_behind;
      tail_lags = indices.tail_lags;
      room = indices.room;
      head_cache_is = indices.head_cache_is;
      tail_cache_is = indices.tail_cache_is;
      knows_pops = indices.knows_pops;
      knows_pushes = indices.knows_pushes;
      tails = indices.tails;
      heads = indices.heads;
    };
    pushing = omega (arith, now);
    popping = inv.popping;
    written = stored_now;
    fetched = inv.fetched;
    items =
        Items-write inv.items (slot_index capacity at) item (s.producer.clock + 1) here
          (omega (arith, now, indices.head_lags));
    log = inv.log;
    defined = ground (arith, inv.defined, inside, no_race);
  }
    where
      now :
          (at ≡ word s.tail.newest)
          × (s.producer.clock ≡ s.tail.newest)
          × (s.tail.newest < s.producer.seen_head + capacity)
      now = rw e at inv.pushing

      here : slot_index capacity at ≡ s.tail.newest % capacity
      here = rw now.0 (slot_index-word c s.tail.newest)

      stored_now :
          Written
            (write_buf capacity item at s).slots
            capacity
            s.tail.newest
            (PushAt.store_tail item at)
      stored_now =
          rw (here, put_slot_self s.slots (s.tail.newest % capacity)) (refl, omega (arith, now.1))

      inside : slot_index capacity at < capacity
      inside = omega (arith, here, capacity_pos c)

      clock : (s.head.newest ≤ s.consumer.clock) × (s.consumer.clock ≤ s.consumer.seen_tail)
      clock =
          Popping-clock s.head.newest s.consumer.clock s.consumer.seen_tail s.pop_at
            indices.head_behind inv.popping

      no_race : (s.slots (slot_index capacity at)).read_at ≤ s.producer.known
      no_race = rw here (omega (arith, now, clock, indices, inv.items.read_before s.tail.newest))

  pub publish_tail-Inv :
      {item : T} {at : ℕ}
      → s.push_at ≡ PushAt.store_tail item at
      → Inv capacity (publish_tail at s) (record t { pushed = t.pushed ++ item ∷ [] })
  unfolding publish_tail store
  publish_tail-Inv {item} {at} e = record {
    indices = record {
      own_tail = refl;
      own_head = indices.own_head;
      head_lags = indices.head_lags;
      head_behind = indices.head_behind;
      tail_lags = omega (arith, indices.tail_lags);
      room = omega (arith, now);
      head_cache_is = indices.head_cache_is;
      tail_cache_is = indices.tail_cache_is;
      knows_pops = indices.knows_pops;
      knows_pushes = indices.knows_pushes;
      tails =
          store-IsMessage s.tail (add_size at 1) s.producer.clock indices.tails
            (omega (arith, now.0)) (omega (arith, now.1));
      heads = indices.heads;
    };
    pushing = now.1;
    popping = inv.popping;
    written = tt;
    fetched =
        Fetched-append t.pushed s.head.newest s.consumer.clock s.consumer.seen_tail item s.pop_at
          (omega (arith, inv.log.count_pushed, indices.tail_lags)) inv.popping inv.fetched;
    items = Items-publish inv.items item inv.log.count_pushed there.0 there.1;
    log = record {
      count_pushed = omega (arith, length-append t.pushed (item ∷ []), inv.log.count_pushed);
      count_popped = inv.log.count_popped;
      rest = inv.log.rest ++ item ∷ [];
      in_order = rw inv.log.in_order (append_assoc t.popped inv.log.rest (item ∷ []));
    };
    defined = inv.defined;
  }
    where
      now :
          (at ≡ word s.tail.newest)
          × (s.producer.clock ≡ s.tail.newest + 1)
          × (s.tail.newest < s.producer.seen_head + capacity)
      now = rw e at inv.pushing

      there : Written s.slots capacity s.tail.newest (PushAt.store_tail item at)
      there = rw e at inv.written
