-- ===== src/Spsc/Threads/Progress.antt =====
-- A call of `try_push` or `try_pop` that finds room or an item completes by its own thread's steps.
use mathlib.Core.Path.{subst}
use market_data_pipeline.Base.{
  ℕ, replicate, get_elem?, some, ◌++◌, ◌+◌, ◌≤◌, ◌<◌, ◌≡◌, refl, true, false, List, [], ◌∷◌, arith,
  length, ◌==◌, Bool-cases, inl, inr,
}
use market_data_pipeline.Base.Word.{word, sub_size}
use market_data_pipeline.Spsc.Capacity.{IsCapacity, capacity_le, slot_index-word}
use market_data_pipeline.Spsc.{slot_index}
use market_data_pipeline.Spsc.Threads.{
  PushAt, PopAt, State, Event, History, Step, Reach, load_tail_own, load_head, write_buf,
  publish_tail, push_call, push_reload, push_write, push_publish, silent, push_called, push_done,
  pop_called, pop_done, pop_call, pop_reload, pop_read, pop_publish, load_head_own, load_tail,
  read_buf, publish_head,
}
use market_data_pipeline.Spsc.Threads.Now.{push_now, pop_now}
use market_data_pipeline.Spsc.Threads.Inv.{Inv}
use market_data_pipeline.Spsc.Threads.Safety.{Reach-Inv}

-- Several steps, with what the outside sees of each.
pub data Steps {ℓ} {T : Type ℓ} (capacity : ℕ) : State T → List (Event T) → State T → Type ℓ where
  stop : {s : State T} → Steps capacity s [] s
  step :
      {s u v : State T} {e : Event T} {es : List (Event T)}
      → Step capacity s e u
      → Steps capacity u es v
      → Steps capacity s (e ∷ es) v

-- The consumer stands where it stood, with what it knew.
pub record ConsumerIdle {ℓ} {T : Type ℓ} (s s' : State T) : Type ℓ where
  pub same_place : s'.pop_at ≡ s.pop_at
  pub same_thread : s'.consumer ≡ s.consumer

-- The producer stands where it stood, with what it knew.
pub record ProducerIdle {ℓ} {T : Type ℓ} (s s' : State T) : Type ℓ where
  pub same_place : s'.push_at ≡ s.push_at
  pub same_thread : s'.producer ≡ s.producer

module _ {ℓ} {T : Type ℓ} {capacity : ℕ} where
  -- From the write on, a push completes.
  write_publish :
      {s : State T} {item : T} {at : ℕ}
      → s.push_at ≡ PushAt.write_slot item at
      → Steps capacity s
          (silent ∷ push_done item ∷ [])
          (publish_tail at (write_buf capacity item at s))
  unfolding write_buf
  write_publish e = step (push_write e) (step (push_publish refl) stop)

  -- What loads of the newest messages read.
  module _ (c : IsCapacity capacity) {s : State T} {t : History T} (inv : Inv capacity s t) where
    newest_tail : (s.tail.message s.tail.newest).value ≡ word s.tail.newest
    newest_tail = (inv.indices.tails s.tail.newest (omega arith)).0

    newest_head : (s.head.message s.head.newest).value ≡ word s.head.newest
    newest_head = (inv.indices.heads s.head.newest (omega arith)).0

    pub call_push :
        (item : T)
        → s.push_at ≡ PushAt.outside
        → Step capacity s (push_called item) (load_tail_own capacity item s.tail.newest s)
    call_push item e =
        push_call item s.tail.newest e (omega (arith, inv.indices.own_tail)) (omega arith)

    pub newest_freed :
        length t.pushed < length t.popped + capacity
        → (sub_size (s.tail.message s.tail.newest).value (s.head.message s.head.newest).value
            == capacity)
          ≡ false
    newest_freed room = ground (
      arith,
      newest_tail,
      newest_head,
      inv.log.count_pushed,
      inv.log.count_popped,
      inv.indices.head_behind,
      inv.indices.tail_lags,
      capacity_le c,
    )

    pub call_pop :
        s.pop_at ≡ PopAt.outside → Step capacity s pop_called (load_head_own s.head.newest s)
    call_pop e = pop_call s.head.newest e (omega (arith, inv.indices.own_head)) (omega arith)

    pub newest_ahead :
        length t.popped < length t.pushed
        → ((s.head.message s.head.newest).value == (s.tail.message s.tail.newest).value) ≡ false
    newest_ahead left = ground (
      arith,
      newest_tail,
      newest_head,
      inv.log.count_pushed,
      inv.log.count_popped,
      inv.indices.room,
      inv.indices.head_lags,
      capacity_le c,
    )

    newest_oldest :
        length t.popped < length t.pushed
        → get_elem? t.pushed (length t.popped)
          ≡ some (s.slots (slot_index capacity (s.head.message s.head.newest).value)).value
    newest_oldest left =
        rw (newest_head, slot_index-word c s.head.newest, inv.log.count_popped)
          (inv.items.stored s.head.newest (omega arith)
            (omega (arith, inv.log.count_pushed, inv.log.count_popped)))

  module _ (c : IsCapacity capacity) {junk : ℕ → T} {s : State T} {t : History T}
      (r : Reach capacity junk s t) where
    -- In every reachable state of a queue with a power-of-two capacity, in which the producer is
    -- between two calls and fewer than `capacity` items are in the queue, the call of `try_push` that
    -- the producer makes alone, each of its loads reading the newest message, is made of at most four
    -- accesses, each a step of the queue, of which the last returns true; the consumer stays where it is.
    pub push_completes :
        (item : T)
        → s.push_at ≡ PushAt.outside
        → length t.pushed < length t.popped + capacity
        → (n : ℕ) × (n ≤ 2)
          × ((push_now capacity item s).0
              ≡ push_called item ∷ (replicate n silent ++ push_done item ∷ []))
          × Steps capacity s (push_now capacity item s).0 (push_now capacity item s).1
          × ConsumerIdle s (push_now capacity item s).1
    unfolding push_now load_tail_own load_head write_buf publish_tail
    push_completes item e room = elim (Bool-cases (sub_size at s.head_cache == capacity)) [
      | inr open_now ↦ rw open_now (
        1,
        omega arith,
        refl,
        step call (write_publish {s = s1} {item = item} {at = at} (rw open_now)),
        record { same_place = refl; same_thread = refl },
      )
      | inl stale ↦
          rw (stale, freed)
            (
              2,
              omega arith,
              refl,
              step call
                  (step (reload stale) (write_publish {s = s2} {item = item} {at = at} (rw freed))),
              record { same_place = refl; same_thread = refl },
            )
    ]
      where
        at : ℕ
        at = (s.tail.message s.tail.newest).value

        s1 : State T
        s1 = load_tail_own capacity item s.tail.newest s

        s2 : State T
        s2 = load_head capacity item at s.head.newest s1

        inv : Inv capacity s t
        inv = Reach-Inv c r

        call : Step capacity s (push_called item) s1
        call = call_push c inv item e

        freed : (sub_size at (s.head.message s.head.newest).value == capacity) ≡ false
        freed = newest_freed c inv room

        reload : (sub_size at s.head_cache == capacity) ≡ true → Step capacity s1 silent s2
        reload stale =
            subst (λ ev. Step capacity s1 ev s2) (rw freed refl)
              (push_reload s.head.newest (rw stale refl) inv.indices.head_lags (omega arith))

  -- From the read on, a pop completes, with the item that the slot holds.
  read_publish :
      {s : State T} {h : ℕ}
      → s.pop_at ≡ PopAt.read_slot h
      → Steps capacity s
          (silent ∷ pop_done (s.slots (slot_index capacity h)).value ∷ [])
          (publish_head h (read_buf capacity h s))
  unfolding read_buf
  read_publish e = step (pop_read e) (step (pop_publish refl) stop)

  module _ (c : IsCapacity capacity) {junk : ℕ → T} {s : State T} {t : History T}
      (r : Reach capacity junk s t) where
    -- In every reachable state of a queue with a power-of-two capacity, in which the consumer is
    -- between two calls and some item is in the queue, the call of `try_pop` that the consumer makes
    -- alone, each of its loads reading the newest message, is made of at most four accesses, each a step
    -- of the queue, of which the last returns true and the oldest item; the producer stays where it is.
    pub pop_completes :
        s.pop_at ≡ PopAt.outside
        → length t.popped < length t.pushed
        → (n : ℕ) × (item : T) × (n ≤ 2)
          × ((pop_now capacity s).0 ≡ pop_called ∷ (replicate n silent ++ pop_done item ∷ []))
          × Steps capacity s (pop_now capacity s).0 (pop_now capacity s).1
          × (get_elem? t.pushed (length t.popped) ≡ some item)
          × ProducerIdle s (pop_now capacity s).1
    unfolding pop_now load_head_own load_tail read_buf publish_head
    pop_completes e left = elim (Bool-cases (at == s.tail_cache)) [
      | inr ahead ↦ rw ahead (
        1,
        (s.slots (slot_index capacity at)).value,
        omega arith,
        refl,
        step call (read_publish {s = s1} {h = at} (rw ahead)),
        oldest,
        record { same_place = refl; same_thread = refl },
      )
      | inl stale ↦
          rw (stale, more)
            (
              2,
              (s.slots (slot_index capacity at)).value,
              omega arith,
              refl,
              step call (step (reload stale) (read_publish {s = s2} {h = at} (rw more))),
              oldest,
              record { same_place = refl; same_thread = refl },
            )
    ]
      where
        at : ℕ
        at = (s.head.message s.head.newest).value

        s1 : State T
        s1 = load_head_own s.head.newest s

        s2 : State T
        s2 = load_tail at s.tail.newest s1

        inv : Inv capacity s t
        inv = Reach-Inv c r

        call : Step capacity s pop_called s1
        call = call_pop c inv e

        more : (at == (s.tail.message s.tail.newest).value) ≡ false
        more = newest_ahead c inv left

        oldest :
            get_elem? t.pushed (length t.popped) ≡ some (s.slots (slot_index capacity at)).value
        oldest = newest_oldest c inv left

        reload : (at == s.tail_cache) ≡ true → Step capacity s1 silent s2
        reload stale =
            subst (λ ev. Step capacity s1 ev s2) (rw more refl)
              (pop_reload s.tail.newest (rw stale refl) inv.indices.tail_lags (omega arith))
