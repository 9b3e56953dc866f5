-- ===== src/SpscBench/InOrder.antt =====
-- The `assert` of the concurrency test never fails, and all items arrive.
use market_data_pipeline.Base.Word.{sub_size}
use market_data_pipeline.Base.{
  ℕ, ◌+◌, ◌≤◌, ◌<◌, ◌≡◌, refl, sym, ap, ◌∙◌, true, false, some, [], ◌∷◌, ◌++◌, arith, length,
  get_elem?, length-append, get_elem?-append_left, get_elem?-append_right, dec_lt, ◌==◌, Bool,
  if◌then◌else◌,
}
use market_data_pipeline.Spsc.Capacity.{IsCapacity}
use market_data_pipeline.Spsc.Threads.{
  push_event, pop_event, publish_tail, publish_head, load_tail_own, load_head, write_buf,
  load_head_own, load_tail, read_buf, PushAt, PopAt, State, Event, History, Step, Reach, start,
  later, record_event, push_done, pop_done, push_call, push_reload, push_write, push_publish,
  pop_call, pop_reload, pop_read, pop_publish,
}
use market_data_pipeline.Spsc.Threads.Inv.{Inv}
use market_data_pipeline.Spsc.Threads.Safety.{Reach-Inv, quiet_push, quiet_pop}
use market_data_pipeline.SpscBench.{Test, TestReach, Calls, react, run, started, next, to_int}

-- The item of the call that the producer is in.
abbrev Sends : ℕ → PushAt ℕ → Type 0
Sends x PushAt.outside = Unit
Sends x (PushAt.reload_head item _) = item ≡ x
Sends x (PushAt.write_slot item _) = item ≡ x
Sends x (PushAt.store_tail item _) = item ≡ x

record InOrder (capacity : ℕ) (junk : ℕ → ℕ) (s : Test) : Type 0 where
  history : History ℕ
  reach : Reach capacity junk s.queue history
  sent_all : length history.pushed ≡ s.sent
  got_all : length history.popped ≡ s.received
  sequence : (k : ℕ) → k < s.sent → get_elem? history.pushed k ≡ some (to_int k)
  sending : Sends (to_int s.sent) s.queue.push_at
  passed : s.failed ≡ false

Sends-tested :
    (x item t : ℕ) (full : Bool)
    → item ≡ x
    → Sends x (if full then PushAt.reload_head item t else PushAt.write_slot item t)
      × Sends x (if full then PushAt.outside else PushAt.write_slot item t)
Sends-tested x item t true e = (e, tt)
Sends-tested x item t false e = (e, e)

react-push_event :
    (s : Test) (q : State ℕ) (a : PushAt ℕ) → react s q (push_event a) ≡ record s { queue = q }
unfolding react
react-push_event s q PushAt.outside = refl
react-push_event s q (PushAt.reload_head _ _) = refl
react-push_event s q (PushAt.write_slot _ _) = refl
react-push_event s q (PushAt.store_tail _ _) = refl

react-pop_event :
    (s : Test) (q : State ℕ) (a : PopAt ℕ) → react s q (pop_event a) ≡ record s { queue = q }
unfolding react
react-pop_event s q PopAt.outside = refl
react-pop_event s q (PopAt.reload_tail _) = refl
react-pop_event s q (PopAt.read_slot _) = refl
react-pop_event s q (PopAt.store_head _ _) = refl

module _ {capacity : ℕ} {junk : ℕ → ℕ} {s : Test} (io : InOrder capacity junk s) where
  -- A step that returns from no successful call.
  keep :
      {q : State ℕ} {e : Event ℕ}
      → Step capacity s.queue e q
      → record_event io.history e ≡ io.history
      → Sends (to_int s.sent) q.push_at
      → InOrder capacity junk (record s { queue = q })
  keep {q} st quiet sends = record {
    history = io.history;
    reach = rw quiet at (later io.reach st);
    sent_all = io.sent_all;
    got_all = io.got_all;
    sequence = io.sequence;
    sending = sends;
    passed = io.passed;
  }

  push_done-InOrder :
      {item t : ℕ}
      → s.queue.push_at ≡ PushAt.store_tail item t
      → InOrder capacity junk (react s (publish_tail t s.queue) (push_done item))
  unfolding react publish_tail
  push_done-InOrder {item} p = record {
    history = record { pushed = io.history.pushed ++ item ∷ []; popped = io.history.popped };
    reach = later io.reach (push_publish p);
    sent_all = omega (arith, length-append io.history.pushed (item ∷ []), io.sent_all);
    got_all = io.got_all;
    sequence = λ k lt. elim (dec_lt k s.sent) [
      | yes old ↦
          get_elem?-append_left io.history.pushed (item ∷ []) k (omega (arith, io.sent_all))
          ∙ io.sequence k old
      | no new ↦
          let e : k ≡ length io.history.pushed = omega (arith, io.sent_all) in
          rw (e, get_elem?-append_right io.history.pushed item [], io.sent_all) (ap some sent_is)
    ];
    sending = tt;
    passed = io.passed;
  }
    where
      sent_is : item ≡ to_int s.sent
      sent_is = rw p at io.sending

  pop_done-InOrder :
      IsCapacity capacity
      → {out h : ℕ} → s.queue.pop_at ≡ PopAt.store_head out h
      → InOrder capacity junk (react s (publish_head h s.queue) (pop_done out))
  unfolding react publish_head
  pop_done-InOrder c {out} p = record {
    history = record { pushed = io.history.pushed; popped = io.history.popped ++ out ∷ [] };
    reach = later io.reach (pop_publish p);
    sent_all = io.sent_all;
    got_all = omega (arith, length-append io.history.popped (out ∷ []), io.got_all);
    sequence = io.sequence;
    sending = io.sending;
    passed = ground (arith, io.passed, expected);
  }
    where
      inv : Inv capacity s.queue io.history
      inv = Reach-Inv c io.reach

      next_is : get_elem? io.history.pushed s.received ≡ some out
      next_is = rw (← io.got_all, inv.log.count_popped) (rw p at inv.fetched)

      sent_before : s.received < s.sent
      sent_before = omega (
        arith, io.sent_all, io.got_all, inv.log.count_pushed, inv.log.count_popped,
        inv.indices.tail_lags, ahead,
      )
        where
          ahead : s.queue.head.newest < s.queue.consumer.seen_tail
          ahead = let q = rw p at inv.popping in q.2

      expected : out ≡ to_int s.received
      expected = cc (next_is, io.sequence s.received sent_before)

module _ {capacity : ℕ} (n : ℕ) (c : IsCapacity capacity) {junk : ℕ → ℕ} where
  Step-InOrder :
      {s : Test} {q : State ℕ} {e : Event ℕ}
      → Step capacity s.queue e q
      → Calls n s e
      → InOrder capacity junk s
      → InOrder capacity junk (react s q e)
  unfolding react load_tail_own load_head write_buf load_head_own load_tail read_buf
  Step-InOrder {s} (push_call item k p ge le) calls io =
      keep io (push_call item k p ge le) refl
        (Sends-tested (to_int s.sent) item (s.queue.tail.message k).value
          (sub_size (s.queue.tail.message k).value s.queue.head_cache == capacity) calls.1).0
  Step-InOrder {s} (push_reload {item} {t} k p ge le) calls io =
      rw (react-push_event s _ (load_head capacity item t k s.queue).push_at) (
        keep io (push_reload k p ge le)
          (quiet_push io.history (load_head capacity item t k s.queue).push_at)
          (Sends-tested (to_int s.sent) item t
            (sub_size t (s.queue.head.message k).value == capacity) (rw p at io.sending)).1)
  Step-InOrder (push_write p) calls io = keep io (push_write p) refl (rw p at io.sending)
  Step-InOrder (push_publish p) calls io = push_done-InOrder io p
  Step-InOrder (pop_call k p ge le) calls io = keep io (pop_call k p ge le) refl io.sending
  Step-InOrder {s} (pop_reload {h} k p ge le) calls io =
      rw (react-pop_event s _ (load_tail h k s.queue).pop_at) (
        keep io (pop_reload k p ge le) (quiet_pop io.history (load_tail h k s.queue).pop_at)
          io.sending)
  Step-InOrder (pop_read p) calls io = keep io (pop_read p) refl io.sending
  Step-InOrder (pop_publish p) calls io = pop_done-InOrder io c p

  TestReach-InOrder : {s : Test} → TestReach capacity n junk s → InOrder capacity junk s
  TestReach-InOrder started = record {
    history = record { pushed = []; popped = [] };
    reach = start;
    sent_all = refl;
    got_all = refl;
    sequence = λ k lt. absurd (omega arith);
    sending = tt;
    passed = refl;
  }
  TestReach-InOrder (next r (run st calls)) = Step-InOrder st calls (TestReach-InOrder r)

  -- With a power-of-two capacity, for every number `n` of items and in every interleaving of the
  -- two threads, the consumer's `assert` has not failed, it has received no more than was sent,
  -- at most the capacity is sent and not received, and what was received is the sequence of the
  -- `int`s of 0, 1, 2, ... .
  pub assert_holds :
      {s : Test}
      → TestReach capacity n junk s
      → (s.failed ≡ false)
        × (s.received ≤ s.sent)
        × (s.sent ≤ s.received + capacity)
        × ((t : History ℕ) × Reach capacity junk s.queue t
            × (length t.popped ≡ s.received)
            × ((k : ℕ) → k < s.received → get_elem? t.popped k ≡ some (to_int k)))
  assert_holds {s} r = (
    io.passed,
    omega (arith, counts, inv.indices),
    omega (arith, counts, inv.indices),
    (io.history, io.reach, io.got_all, λ k lt. received k lt),
  )
    where
      io : InOrder capacity junk s
      io = TestReach-InOrder r

      inv : Inv capacity s.queue io.history
      inv = Reach-Inv c io.reach

      counts : (s.sent ≡ s.queue.tail.newest) × (s.received ≡ s.queue.head.newest)
      counts = omega (arith, io.sent_all, io.got_all, inv.log.count_pushed, inv.log.count_popped)

      received : (k : ℕ) → k < s.received → get_elem? io.history.popped k ≡ some (to_int k)
      received k lt =
          sym (get_elem?-append_left io.history.popped inv.log.rest k (omega (arith, io.got_all)))
          ∙ ap (λ xs. get_elem? xs k) (sym inv.log.in_order)
          ∙ io.sequence k (omega (arith, counts, inv.indices))
