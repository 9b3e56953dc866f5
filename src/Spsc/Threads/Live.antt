-- ===== src/Spsc/Threads/Live.antt =====
-- How the calls of `try_push` and `try_pop` of spsc/SpscQueue.h return: the steps of their own threads that
-- end them, from a state that shows a channel.
use market_data_pipeline.Base.{
  ℕ, ◌+◌, ◌<◌, ◌≡◌, refl, ◌∙◌, ap, true, false, some, none, List, ◌∷◌, arith, length, length-append,
  ◌⊎◌, inl, inr, subst, ◌==◌, Bool-cases,
}
use market_data_pipeline.Base.Word.{sub_size}
use market_data_pipeline.Channel.{Channel, Quiet, stays, more, Returns, LiveQueue}
use market_data_pipeline.Spsc.Capacity.{IsCapacity}
use market_data_pipeline.Spsc.Threads.{
  PushAt, PopAt, State, Event, Step, push_reload, push_write, push_publish, pop_reload, pop_read,
  pop_publish, load_tail_own, load_head, write_buf, load_head_own, load_tail, read_buf, push_called,
  push_done, push_refused, pop_called, pop_done, pop_refused,
}
use market_data_pipeline.Spsc.Threads.Progress.{call_push, newest_freed, call_pop, newest_ahead}
use market_data_pipeline.Spsc.Threads.Refine.{item_of, is_inside, Shows, spsc_queue}

module _ {T : Type 0} {capacity : ℕ} (cap : IsCapacity capacity) (junk : ℕ → T) where
  abbrev Ends : State T → Event T → Type 0
  Ends = Returns (spsc_queue cap junk)

  abbrev Silently : State T → State T → Type 0
  Silently = Quiet (spsc_queue cap junk)

  -- From the write on, a push returns true; from the read on, a pop does.
  store_returns :
      {s u : State T} {item : T} {t : ℕ}
      → Silently s u
      → u.push_at ≡ PushAt.store_tail item t
      → Ends s (push_done item)
  store_returns quiet at = (_, _, quiet, push_publish at)

  write_returns :
      {s u : State T} {item : T} {t : ℕ}
      → Silently s u
      → u.push_at ≡ PushAt.write_slot item t
      → Ends s (push_done item)
  unfolding write_buf
  write_returns quiet at = store_returns (more quiet (push_write at)) refl

  give_returns :
      {s u : State T} {out : T} {h : ℕ}
      → Silently s u
      → u.pop_at ≡ PopAt.store_head out h
      → (y : T) × Ends s (pop_done y)
  give_returns {out} quiet at = (out, (_, _, quiet, pop_publish at))

  read_returns :
      {s u : State T} {h : ℕ}
      → Silently s u
      → u.pop_at ≡ PopAt.read_slot h
      → (y : T) × Ends s (pop_done y)
  unfolding read_buf
  read_returns quiet at = give_returns (more quiet (pop_read at)) refl

  module _ {s : State T} {c : Channel T} (shown : Shows capacity s c) where
    -- A push that reloads `head_` and reads its newest message.
    reload_returns :
        {item : T} {t : ℕ}
        → s.push_at ≡ PushAt.reload_head item t
        → Ends s (push_done item) ⊎ Ends s push_refused
    unfolding load_head
    reload_returns {item} {t} at =
        let k : ℕ = s.head.newest in
        let s' : State T = load_head capacity item t k s in
        let inv = shown.inv in
        let reload = push_reload k at inv.indices.head_lags (omega arith) in
        elim (Bool-cases (sub_size t (s.head.message k).value == capacity)) [
          | inl full ↦ inr (s, s', stays, subst (λ e. Step capacity s e s') (rw full refl) reload)
          | inr free ↦ inl (
              write_returns {item = item} {t = t}
                (more stays (subst (λ e. Step capacity s e s') (rw free refl) reload))
                (rw free refl))
        ]

    -- A pop that reloads `tail_` and reads its newest message.
    fetch_returns :
        {h : ℕ}
        → s.pop_at ≡ PopAt.reload_tail h
        → ((y : T) × Ends s (pop_done y)) ⊎ Ends s pop_refused
    unfolding load_tail
    fetch_returns {h} at =
        let k : ℕ = s.tail.newest in
        let s' : State T = load_tail h k s in
        let inv = shown.inv in
        let reload = pop_reload k at inv.indices.tail_lags (omega arith) in
        elim (Bool-cases (h == (s.tail.message k).value)) [
          | inl none_left ↦
              inr (s, s', stays, subst (λ e. Step capacity s e s') (rw none_left refl) reload)
          | inr ahead ↦ inl (
              read_returns {h = h}
                (more stays (subst (λ e. Step capacity s e s') (rw ahead refl) reload))
                (rw ahead refl))
        ]

    pub push_returns_at :
        (x : T) (at : PushAt T)
        → s.push_at ≡ at
        → c.sending ≡ some x
        → Ends s (push_done x) ⊎ Ends s push_refused
    push_returns_at x PushAt.outside e is = cc (shown.sends, ap item_of e, is)
    push_returns_at x (PushAt.reload_head item t) e is =
        subst (λ y. Ends s (push_done y) ⊎ Ends s push_refused) (cc (shown.sends, ap item_of e, is))
          (reload_returns e)
    push_returns_at x (PushAt.write_slot item t) e is =
        subst (λ y. Ends s (push_done y) ⊎ Ends s push_refused) (cc (shown.sends, ap item_of e, is))
          (inl (write_returns stays e))
    push_returns_at x (PushAt.store_tail item t) e is =
        subst (λ y. Ends s (push_done y) ⊎ Ends s push_refused) (cc (shown.sends, ap item_of e, is))
          (inl (store_returns stays e))

    pub pop_returns_at :
        (at : PopAt T)
        → s.pop_at ≡ at
        → c.receiving ≡ true
        → ((y : T) × Ends s (pop_done y)) ⊎ Ends s pop_refused
    pop_returns_at PopAt.outside e is = cc (shown.receives, ap is_inside e, is)
    pop_returns_at (PopAt.reload_tail h) e is = fetch_returns e
    pop_returns_at (PopAt.read_slot h) e is = inl (read_returns stays e)
    pop_returns_at (PopAt.store_head out h) e is = inl (give_returns stays e)

    is_outside : (at : PushAt T) → s.push_at ≡ at → c.sending ≡ none → s.push_at ≡ PushAt.outside
    is_outside PushAt.outside e is = e
    is_outside (PushAt.reload_head item t) e is = cc (shown.sends, ap item_of e, is)
    is_outside (PushAt.write_slot item t) e is = cc (shown.sends, ap item_of e, is)
    is_outside (PushAt.store_tail item t) e is = cc (shown.sends, ap item_of e, is)

    pop_is_outside : (at : PopAt T) → s.pop_at ≡ at → c.receiving ≡ false → s.pop_at ≡ PopAt.outside
    pop_is_outside PopAt.outside e is = e
    pop_is_outside (PopAt.reload_tail h) e is = cc (shown.receives, ap is_inside e, is)
    pop_is_outside (PopAt.read_slot h) e is = cc (shown.receives, ap is_inside e, is)
    pop_is_outside (PopAt.store_head out h) e is = cc (shown.receives, ap is_inside e, is)

    held : length shown.history.pushed ≡ length shown.history.popped + length c.items
    held = ap length shown.in_order ∙ length-append shown.history.popped c.items

    pub push_finds_room :
        (x : T)
        → c.sending ≡ none
        → length c.items < capacity
        → (u : State T) × Step capacity s (push_called x) u × Ends u (push_done x)
    unfolding load_tail_own load_head
    push_finds_room x is room = (
      s1,
      call_push cap shown.inv x (is_outside s.push_at refl is),
      elim (Bool-cases (sub_size at s.head_cache == capacity)) [
        | inr open_now ↦ write_returns {item = x} {t = at} stays (rw open_now refl)
        | inl stale ↦
            write_returns {item = x} {t = at}
              (more stays (
                subst (λ e. Step capacity s1 e s2) (rw freed refl)
                  (push_reload s.head.newest (rw stale refl) shown.inv.indices.head_lags
                    (omega arith))))
              (rw freed refl)
      ],
    )
      where
        at : ℕ
        at = (s.tail.message s.tail.newest).value

        s1 : State T
        s1 = load_tail_own capacity x s.tail.newest s

        s2 : State T
        s2 = load_head capacity x at s.head.newest s1

        freed : (sub_size at (s.head.message s.head.newest).value == capacity) ≡ false
        freed = newest_freed cap shown.inv (omega (arith, held, room))

    pub pop_finds_item :
        (x : T) (rest : List T)
        → c.receiving ≡ false
        → c.items ≡ x ∷ rest
        → (u : State T) × Step capacity s pop_called u × ((y : T) × Ends u (pop_done y))
    unfolding load_head_own load_tail
    pop_finds_item x rest is items = (
      s1,
      call_pop cap shown.inv (pop_is_outside s.pop_at refl is),
      elim (Bool-cases (at == s.tail_cache)) [
        | inr ahead ↦ read_returns {h = at} stays (rw ahead refl)
        | inl stale ↦
            read_returns {h = at}
              (more stays (
                subst (λ e. Step capacity s1 e s2) (rw left refl)
                  (pop_reload s.tail.newest (rw stale refl) shown.inv.indices.tail_lags
                    (omega arith))))
              (rw left refl)
      ],
    )
      where
        at : ℕ
        at = (s.head.message s.head.newest).value

        s1 : State T
        s1 = load_head_own s.head.newest s

        s2 : State T
        s2 = load_tail at s.tail.newest s1

        left : (at == (s.tail.message s.tail.newest).value) ≡ false
        left = newest_ahead cap shown.inv (omega (arith, held, ap length items))

  abbrev pub live_spsc_queue : LiveQueue T capacity
  live_spsc_queue = record {
    queue = spsc_queue cap junk;
    push_returns = λ s c x shown is. push_returns_at shown x s.push_at refl is;
    push_completes = λ s c x shown is room. push_finds_room shown x is room;
    pop_returns = λ s c shown is. pop_returns_at shown s.pop_at refl is;
    pop_completes = λ s c x rest shown is items. pop_finds_item shown x rest is items;
  }
