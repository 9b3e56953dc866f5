-- ===== src/Spsc/Threads/Pop.antt =====
-- Each access of `try_pop` keeps the invariant of the two threads.
use mathlib.Core.List.{append_assoc}
use market_data_pipeline.Base.{
  ℕ, ◌+◌, ◌%◌, ◌≤◌, ◌<◌, ◌≡◌, ◌∙◌, refl, sym, ap, Bool, true, false, some, List, [], ◌∷◌, ◌++◌,
  arith, get_elem?, ◌==◌, length-append, if◌then◌else◌,
}
use market_data_pipeline.Base.Word.{word, add_size}
use market_data_pipeline.Atomics.{store}
use market_data_pipeline.Spsc.{slot_index}
use market_data_pipeline.Spsc.Capacity.{
  IsCapacity, capacity_pos, slot_index-word, item_of_empty_test,
}
use market_data_pipeline.Spsc.Threads.{
  PopAt, State, History, load_head_own, load_tail, read_buf, publish_head,
}
use market_data_pipeline.Spsc.Threads.Inv.{Popping, Fetched, Inv, store-IsMessage}
use market_data_pipeline.Spsc.Threads.Slots.{Items-read, Items-retire, next_of_rest, Written-read}

module _ {ℓ} (T : Type ℓ) where
  -- Where a test for an empty queue leads, in either of the two places that make it.
  tested :
      (pops clock seen h : ℕ) (none_left : Bool)
      → h ≡ word pops
      → clock ≡ pops
      → (none_left ≡ false → pops < seen)
      → Popping {T = T} pops clock seen
          (if none_left then PopAt.reload_tail h else PopAt.read_slot h)
        × Popping {T = T} pops clock seen (if none_left then PopAt.outside else PopAt.read_slot h)
  tested pops clock seen h true at now ahead = ((at, now), now)
  tested pops clock seen h false at now ahead = ((at, now, ahead refl), (at, now, ahead refl))

module _ {ℓ} {T : Type ℓ} where
  nothing-Fetched :
      (pushed : List T) (pops h : ℕ) (none_left : Bool)
      → Fetched pushed pops (if none_left then PopAt.reload_tail h else PopAt.read_slot h)
        × Fetched pushed pops (if none_left then PopAt.outside else PopAt.read_slot h)
  nothing-Fetched pushed pops h true = (tt, tt)
  nothing-Fetched pushed pops h false = (tt, tt)

module _ {ℓ} {T : Type ℓ} {capacity : ℕ} (c : IsCapacity capacity) {s : State T} {t : History T}
    (inv : Inv capacity s t) where
  open inv use {indices}

  pub load_head_own-Inv :
      (k : ℕ)
      → s.pop_at ≡ PopAt.outside
      → s.consumer.seen_head ≤ k
      → k ≤ s.head.newest
      → Inv capacity (load_head_own k s) t
  unfolding load_head_own
  load_head_own-Inv k e ge le = record {
    indices = record {
      own_tail = indices.own_tail;
      own_head = omega (arith, indices.own_head);
      head_lags = indices.head_lags;
      head_behind = indices.head_behind;
      tail_lags = indices.tail_lags;
      room = indices.room;
      head_cache_is = indices.head_cache_is;
      tail_cache_is = indices.tail_cache_is;
      knows_pops = indices.knows_pops;
      knows_pushes = indices.knows_pushes;
      tails = indices.tails;
      heads = indices.heads;
    };
    pushing = inv.pushing;
    popping =
        (tested T s.head.newest s.consumer.clock s.consumer.seen_tail (s.head.message k).value
          ((s.head.message k).value == s.tail_cache) value now ahead).0;
    written = inv.written;
    fetched =
        (nothing-Fetched t.pushed s.head.newest (s.head.message k).value
          ((s.head.message k).value == s.tail_cache)).0;
    items = inv.items;
    log = inv.log;
    defined = inv.defined;
  }
    where
      value : (s.head.message k).value ≡ word s.head.newest
      value = omega (arith, indices.own_head, (indices.heads k le).0)

      now : s.consumer.clock ≡ s.head.newest
      now = rw e at inv.popping

      ahead :
          ((s.head.message k).value == s.tail_cache) ≡ false → s.head.newest < s.consumer.seen_tail
      ahead left =
          item_of_empty_test c s.head.newest s.consumer.seen_tail value indices.tail_cache_is
            indices.head_behind (omega (arith, indices)) left

  pub load_tail-Inv :
      {h : ℕ} (k : ℕ)
      → s.pop_at ≡ PopAt.reload_tail h
      → s.consumer.seen_tail ≤ k
      → k ≤ s.tail.newest
      → Inv capacity (load_tail h k s) t
  unfolding load_tail
  load_tail-Inv {h} k e ge le = record {
    indices = record {
      own_tail = indices.own_tail;
      own_head = indices.own_head;
      head_lags = indices.head_lags;
      head_behind = omega (arith, indices.head_behind);
      tail_lags = le;
      room = indices.room;
      head_cache_is = indices.head_cache_is;
      tail_cache_is = value;
      knows_pops = indices.knows_pops;
      knows_pushes = omega (arith, (indices.tails k le).1);
      tails = indices.tails;
      heads = indices.heads;
    };
    pushing = inv.pushing;
    popping =
        (tested T s.head.newest s.consumer.clock k h (h == (s.tail.message k).value) now.0 now.1
          ahead).1;
    written = inv.written;
    fetched = (nothing-Fetched t.pushed s.head.newest h (h == (s.tail.message k).value)).1;
    items = inv.items;
    log = inv.log;
    defined = inv.defined;
  }
    where
      value : (s.tail.message k).value ≡ word k
      value = (indices.tails k le).0

      now : (h ≡ word s.head.newest) × (s.consumer.clock ≡ s.head.newest)
      now = rw e at inv.popping

      ahead : (h == (s.tail.message k).value) ≡ false → s.head.newest < k
      ahead left =
          item_of_empty_test c s.head.newest k now.0 value (omega (arith, indices))
            (omega (arith, indices)) left

  pub read_buf-Inv : {h : ℕ} → s.pop_at ≡ PopAt.read_slot h → Inv capacity (read_buf capacity h s) t
  unfolding read_buf
  read_buf-Inv {h} e = record {
    indices = record {
      own_tail = indices.own_tail;
      own_head = indices.own_head;
      head_lags = indices.head_lags;
      head_behind = indices.head_behind;
      tail_lags = indices.tail_lags;
      room = indices.room;
      head_cache_is = indices.head_cache_is;
      tail_cache_is = indices.tail_cache_is;
      knows_pops = indices.knows_pops;
      knows_pushes = indices.knows_pushes;
      tails = indices.tails;
      heads = indices.heads;
    };
    pushing = inv.pushing;
    popping = omega (arith, now);
    written =
        Written-read s.slots capacity s.tail.newest (slot_index capacity h) (s.consumer.clock + 1)
          s.push_at inv.written;
    fetched = found;
    items = Items-read inv.items (slot_index capacity h) (rw now.1 here) (capacity_pos c);
    log = inv.log;
    defined = ground (arith, inv.defined, inside, no_race);
  }
    where
      now :
          (h ≡ word s.head.newest)
          × (s.consumer.clock ≡ s.head.newest)
          × (s.head.newest < s.consumer.seen_tail)
      now = rw e at inv.popping

      here : slot_index capacity h ≡ s.head.newest % capacity
      here = rw now.0 (slot_index-word c s.head.newest)

      queued : s.head.newest < s.tail.newest
      queued = omega (arith, now, indices.tail_lags)

      found : get_elem? t.pushed s.head.newest ≡ some (s.slots (slot_index capacity h)).value
      found = rw here (inv.items.stored s.head.newest (omega arith) queued)

      inside : slot_index capacity h < capacity
      inside = omega (arith, here, capacity_pos c)

      no_race : (s.slots (slot_index capacity h)).written_at ≤ s.consumer.known
      no_race = rw here (
          omega (
            arith,
            now,
            indices.knows_pushes,
            inv.items.written s.head.newest (omega arith) queued,
          ))

  pub publish_head-Inv :
      {out : T} {h : ℕ}
      → s.pop_at ≡ PopAt.store_head out h
      → Inv capacity (publish_head h s) (record t { popped = t.popped ++ out ∷ [] })
  unfolding publish_head store
  publish_head-Inv {out} {h} e = record {
    indices = record {
      own_tail = indices.own_tail;
      own_head = refl;
      head_lags = omega (arith, indices.head_lags);
      head_behind = omega (arith, now);
      tail_lags = indices.tail_lags;
      room = indices.room;
      head_cache_is = indices.head_cache_is;
      tail_cache_is = indices.tail_cache_is;
      knows_pops = indices.knows_pops;
      knows_pushes = indices.knows_pushes;
      tails = indices.tails;
      heads =
          store-IsMessage s.head (add_size h 1) s.consumer.clock indices.heads
            (omega (arith, now.0)) (omega (arith, now.1));
    };
    pushing = inv.pushing;
    popping = now.1;
    written = inv.written;
    fetched = tt;
    items = Items-retire inv.items;
    log = record {
      count_pushed = inv.log.count_pushed;
      count_popped = omega (arith, length-append t.popped (out ∷ []), inv.log.count_popped);
      rest = next.0;
      in_order =
          inv.log.in_order
          ∙ ap (λ r. t.popped ++ r) next.1
          ∙ sym (append_assoc t.popped (out ∷ []) next.0);
    };
    defined = inv.defined;
  }
    where
      now :
          (h ≡ word s.head.newest)
          × (s.consumer.clock ≡ s.head.newest + 1)
          × (s.head.newest < s.consumer.seen_tail)
      now = rw e at inv.popping

      found : get_elem? t.pushed s.head.newest ≡ some out
      found = rw e at inv.fetched

      next : (more : List T) × (inv.log.rest ≡ out ∷ more)
      next =
          next_of_rest t.popped inv.log.rest out
            (rw (← inv.log.in_order, inv.log.count_popped) found)
