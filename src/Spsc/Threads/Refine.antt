-- ===== src/Spsc/Threads/Refine.antt =====
-- A queue of spsc/SpscQueue.h under its two threads shows a channel.
use mathlib.Core.List.{append_assoc}
use market_data_pipeline.Base.{
  ℕ, ◌+◌, ◌<◌, ◌≡◌, refl, sym, ◌∙◌, ap, Bool, true, false, Option, none, some, List, [], ◌∷◌, ◌++◌,
  arith, length, length-append, get_elem?, ◌⊎◌, subst, inl, inr, ◌==◌, if◌then◌else◌,
}
use market_data_pipeline.Base.Word.{sub_size}
use market_data_pipeline.Channel.{
  Channel, empty_channel, Allowed, tail_of, after_event, ConcurrentQueue,
}
use market_data_pipeline.Spsc.Capacity.{IsCapacity}
use market_data_pipeline.Spsc.Threads.{
  PushAt, PopAt, State, Event, History, Step, initial, record_event, push_done, pop_done, push_call,
  push_reload, push_write, push_publish, pop_call, pop_reload, pop_read, pop_publish, load_tail_own,
  load_head, write_buf, publish_tail, load_head_own, load_tail, read_buf, publish_head, push_event,
  pop_event,
}
use market_data_pipeline.Spsc.Threads.Inv.{Inv, initial-Inv}
use market_data_pipeline.Spsc.Threads.Safety.{Step-Inv, quiet_push, quiet_pop}

if-cases {ℓ} :
    {A : Type ℓ} (b : Bool) (x y : A) → ((if b then x else y) ≡ x) ⊎ ((if b then x else y) ≡ y)
if-cases true x y = inl refl
if-cases false x y = inr refl

module _ {T : Type 0} where
  abbrev pub item_of : PushAt T → Option T
  item_of PushAt.outside = none
  item_of (PushAt.reload_head item _) = some item
  item_of (PushAt.write_slot item _) = some item
  item_of (PushAt.store_tail item _) = some item

  abbrev pub is_inside : PopAt T → Bool
  is_inside PopAt.outside = false
  is_inside (PopAt.reload_tail _) = true
  is_inside (PopAt.read_slot _) = true
  is_inside (PopAt.store_head _ _) = true

  -- The channel holds what was pushed and not popped, and the calls are those that the threads are in.
  pub record Shows (capacity : ℕ) (s : State T) (c : Channel T) : Type 0 where
    pub history : History T
    pub inv : Inv capacity s history
    pub in_order : history.pushed ≡ history.popped ++ c.items
    pub sends : c.sending ≡ item_of s.push_at
    pub receives : c.receiving ≡ is_inside s.pop_at

  head_of : List T → Option T
  head_of [] = none
  head_of (x ∷ xs) = some x

  -- The item after those popped is the first of the items held.
  next_item :
      (popped items : List T) (x : T)
      → get_elem? (popped ++ items) (length popped) ≡ some x
      → items ≡ x ∷ tail_of items
  next_item [] [] x e = cc e
  next_item [] (y ∷ items) x e = ap (λ z. z ∷ items) (cc e)
  next_item (_ ∷ popped) items x e = next_item popped items x e

  item_of-tested :
      (full : Bool) (item : T) (t : ℕ)
      → some item ≡ item_of (if full then PushAt.reload_head item t else PushAt.write_slot item t)
  item_of-tested true item t = refl
  item_of-tested false item t = refl

  is_inside-tested :
      (stale : Bool) (a b : PopAt T)
      → is_inside a ≡ true
      → is_inside b ≡ true
      → true ≡ is_inside (if stale then a else b)
  is_inside-tested true a b in_a in_b = sym in_a
  is_inside-tested false a b in_a in_b = sym in_b

  module _ {capacity : ℕ} (cap : IsCapacity capacity) {s : State T} {c : Channel T}
      (shown : Shows capacity s c) where
    -- A step that returns from no successful call.
    quiet_Shows :
        {s' : State T} {e : Event T} (c' : Channel T)
        → Step capacity s e s'
        → record_event shown.history e ≡ shown.history
        → c'.items ≡ c.items
        → c'.sending ≡ item_of s'.push_at
        → c'.receiving ≡ is_inside s'.pop_at
        → Shows capacity s' c'
    quiet_Shows c' st quiet same sends receives = record {
      history = shown.history;
      inv = rw quiet at (Step-Inv cap st shown.inv);
      in_order = rw same shown.in_order;
      sends = sends;
      receives = receives;
    }

    -- A push after it reloaded `head_`: it returns false or goes on.
    push_reply-Shows :
        {item : T} {t : ℕ} (s' : State T)
        → Step capacity s (push_event s'.push_at) s'
        → s.push_at ≡ PushAt.reload_head item t
        → (s'.push_at ≡ PushAt.outside) ⊎ (s'.push_at ≡ PushAt.write_slot item t)
        → s'.pop_at ≡ s.pop_at
        → Allowed capacity c (push_event s'.push_at)
          × Shows capacity s' (after_event c (push_event s'.push_at))
    push_reply-Shows {item} {t} s' st p (inl e) same =
        subst (λ v. Allowed capacity c v × Shows capacity s' (after_event c v))
          (ap push_event (sym e))
          (
            (item, shown.sends ∙ ap item_of p),
            quiet_Shows (record c { sending = none }) st (quiet_push shown.history s'.push_at) refl
                (ap item_of (sym e)) (shown.receives ∙ ap is_inside (sym same)),
          )
    push_reply-Shows {item} {t} s' st p (inr e) same =
        subst (λ v. Allowed capacity c v × Shows capacity s' (after_event c v))
          (ap push_event (sym e))
          (
            tt,
            quiet_Shows c st (quiet_push shown.history s'.push_at) refl
                (shown.sends ∙ ap item_of p ∙ ap item_of (sym e))
                (shown.receives ∙ ap is_inside (sym same)),
          )

    -- A pop after it reloaded `tail_`.
    pop_reply-Shows :
        {h : ℕ} (s' : State T)
        → Step capacity s (pop_event s'.pop_at) s'
        → s.pop_at ≡ PopAt.reload_tail h
        → (s'.pop_at ≡ PopAt.outside) ⊎ (s'.pop_at ≡ PopAt.read_slot h)
        → s'.push_at ≡ s.push_at
        → Allowed capacity c (pop_event s'.pop_at)
          × Shows capacity s' (after_event c (pop_event s'.pop_at))
    pop_reply-Shows s' st p (inl e) same =
        subst (λ v. Allowed capacity c v × Shows capacity s' (after_event c v))
          (ap pop_event (sym e))
          (
            shown.receives ∙ ap is_inside p,
            quiet_Shows (record c { receiving = false }) st (quiet_pop shown.history s'.pop_at) refl
                (shown.sends ∙ ap item_of (sym same)) (ap is_inside (sym e)),
          )
    pop_reply-Shows s' st p (inr e) same =
        subst (λ v. Allowed capacity c v × Shows capacity s' (after_event c v))
          (ap pop_event (sym e))
          (
            tt,
            quiet_Shows c st (quiet_pop shown.history s'.pop_at) refl
                (shown.sends ∙ ap item_of (sym same))
                (shown.receives ∙ ap is_inside p ∙ ap is_inside (sym e)),
          )

    -- The store that publishes an item.
    publish_tail-Shows :
        {item : T} {t : ℕ}
        → s.push_at ≡ PushAt.store_tail item t
        → Allowed capacity c (push_done item)
          × Shows capacity (publish_tail t s) (after_event c (push_done item))
    unfolding publish_tail
    publish_tail-Shows {item} {t} p =
        let inv = shown.inv in
        let at : (t ≡ _)
            × (s.producer.clock ≡ s.tail.newest + 1)
            × (s.tail.newest < s.producer.seen_head + capacity) =
          rw p at inv.pushing in
        let held = ap length shown.in_order in
        (
          (
            shown.sends ∙ ap item_of p,
            omega (
              arith,
              held,
              length-append shown.history.popped c.items,
              inv.log.count_pushed,
              inv.log.count_popped,
              inv.indices.head_lags,
              at,
            ),
          ),
          record {
            history = record {
              pushed = shown.history.pushed ++ item ∷ [];
              popped = shown.history.popped;
            };
            inv = Step-Inv cap (push_publish p) inv;
            in_order =
                ap (λ xs. xs ++ item ∷ []) shown.in_order
                ∙ append_assoc shown.history.popped c.items (item ∷ []);
            sends = refl;
            receives = shown.receives;
          },
        )

    -- The store that gives a slot back.
    publish_head-Shows :
        {out : T} {h : ℕ}
        → s.pop_at ≡ PopAt.store_head out h
        → Allowed capacity c (pop_done out)
          × Shows capacity (publish_head h s) (after_event c (pop_done out))
    unfolding publish_head
    publish_head-Shows {out} {h} p =
        let inv = shown.inv in
        let fetched : get_elem? shown.history.pushed s.head.newest ≡ some out =
          rw p at inv.fetched in
        let first : c.items ≡ out ∷ tail_of c.items = next_item shown.history.popped c.items out (
          ap (λ n. get_elem? (shown.history.popped ++ c.items) n) inv.log.count_popped
          ∙ ap (λ xs. get_elem? xs s.head.newest) (sym shown.in_order)
          ∙ fetched) in
        (
          (shown.receives ∙ ap is_inside p, (tail_of c.items, first)),
          record {
            history = record {
              pushed = shown.history.pushed;
              popped = shown.history.popped ++ out ∷ [];
            };
            inv = Step-Inv cap (pop_publish p) inv;
            in_order =
                shown.in_order
                ∙ ap (λ xs. shown.history.popped ++ xs) first
                ∙ sym (append_assoc shown.history.popped (out ∷ []) (tail_of c.items));
            sends = shown.sends;
            receives = refl;
          },
        )

  -- With a power-of-two capacity, the two threads of the queue do what the channel promises:
  -- from a state that shows a channel, every step of a call of `try_push` or `try_pop`,
  -- whatever stale messages its loads return, is an event that the channel allows, a successful
  -- push only below the capacity and a successful pop only of the oldest item, and leads to a
  -- state that shows what the channel becomes.
  pub Step-Shows :
      {capacity : ℕ}
      → IsCapacity capacity
      → (s s' : State T) (e : Event T) (c : Channel T) → Step capacity s e s'
      → Shows capacity s c
      → Allowed capacity c e × Shows capacity s' (after_event c e)
  unfolding load_tail_own load_head write_buf load_head_own load_tail read_buf
  Step-Shows {capacity} cap s s' e c (push_call item k p ge le) h = (
    h.sends ∙ ap item_of p,
    quiet_Shows cap h (record c { sending = some item }) (push_call item k p ge le) refl refl
        (item_of-tested (sub_size (s.tail.message k).value s.head_cache == capacity) item
          (s.tail.message k).value)
        h.receives,
  )
  Step-Shows {capacity} cap s s' e c (push_reload {item} {t} k p ge le) h =
      push_reply-Shows cap h (load_head capacity item t k s) (push_reload k p ge le) p
        (if-cases (sub_size t (s.head.message k).value == capacity) PushAt.outside
          (PushAt.write_slot item t))
        refl
  Step-Shows cap s s' e c (push_write p) h =
      (tt, quiet_Shows cap h c (push_write p) refl refl (h.sends ∙ ap item_of p) h.receives)
  Step-Shows cap s s' e c (push_publish p) h = publish_tail-Shows cap h p
  Step-Shows cap s s' e c (pop_call k p ge le) h = (
    h.receives ∙ ap is_inside p,
    quiet_Shows cap h (record c { receiving = true }) (pop_call k p ge le) refl refl h.sends
        (is_inside-tested ((s.head.message k).value == s.tail_cache)
          (PopAt.reload_tail (s.head.message k).value) (PopAt.read_slot (s.head.message k).value)
          refl refl),
  )
  Step-Shows cap s s' e c (pop_reload {h = at} k p ge le) h =
      pop_reply-Shows cap h (load_tail at k s) (pop_reload k p ge le) p
        (if-cases (at == (s.tail.message k).value) PopAt.outside (PopAt.read_slot at)) refl
  Step-Shows cap s s' e c (pop_read p) h =
      (tt, quiet_Shows cap h c (pop_read p) refl refl h.sends (h.receives ∙ ap is_inside p))
  Step-Shows cap s s' e c (pop_publish p) h = publish_head-Shows cap h p

  pub initial-Shows : (capacity : ℕ) (junk : ℕ → T) → Shows capacity (initial junk) empty_channel
  initial-Shows capacity junk = record {
    history = record { pushed = []; popped = [] };
    inv = initial-Inv capacity junk;
    in_order = refl;
    sends = refl;
    receives = refl;
  }

  -- The queue of spsc/SpscQueue.h, its array holding `junk` at first.
  abbrev pub spsc_queue :
      {capacity : ℕ} → IsCapacity capacity → (ℕ → T) → ConcurrentQueue T capacity
  spsc_queue {capacity} cap junk = record {
    State = State T;
    initial = initial junk;
    Step = Step capacity;
    Shows = Shows capacity;
    shows_initial = initial-Shows capacity junk;
    refines = Step-Shows cap;
  }
