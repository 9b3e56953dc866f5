-- ===== src/Tests/Threads.antt =====
-- A push and a pop of a queue of four slots, one access at a time, alone and in the concurrency test.
use market_data_pipeline.Base.{
  ℕ, ◌+◌, ◌-◌, ◌≤◌, ◌<◌, ◌≡◌, refl, ◌↔◌, inl, false, some, List, [], ◌∷◌, ◌++◌, arith, length,
  get_elem?, replicate,
}
use market_data_pipeline.Base.Word.{word_mod}
use market_data_pipeline.Atomics.{store}
use market_data_pipeline.Spsc.{slot_index}
use market_data_pipeline.Spsc.Threads.{
  PushAt, PopAt, State, History, Reach, initial, load_tail_own, load_head, write_buf, publish_tail,
  load_head_own, load_tail, read_buf, publish_head, start, later, silent, push_called, push_done,
  pop_called, pop_done, push_call, push_write, push_publish, pop_call, pop_reload, pop_read,
  pop_publish,
}
use market_data_pipeline.Spsc.Threads.Safety.{Reach-defined, Reach-fifo}
use market_data_pipeline.Spsc.Threads.Calls.{push_refused_iff, pop_refused_iff}
use market_data_pipeline.Spsc.Threads.Now.{push_now, pop_now}
use market_data_pipeline.Spsc.Threads.Progress.{
  Steps, ConsumerIdle, ProducerIdle, push_completes, pop_completes,
}
use market_data_pipeline.Spsc.Threads.Size.{size, empty, size_seen_by_owner, size_wraps}
use market_data_pipeline.SpscBench.{Test, TestReach, begin, react, run, started, next, to_int}
use market_data_pipeline.SpscBench.InOrder.{assert_holds}
use market_data_pipeline.Tests.Spsc.{four-IsCapacity, one-IsCapacity}

abbrev no_items : ℕ → ℕ
no_items _ = 0

abbrev no_list : List ℕ
no_list = []

abbrev one_list : List ℕ
one_list = 7 ∷ []

-- After the push of 7
abbrev pushed_state : State ℕ
pushed_state = publish_tail 0 (write_buf 4 7 0 (load_tail_own 4 7 0 (initial no_items)))

-- In the pop, after its load of `head_`
abbrev popping_state : State ℕ
popping_state = load_head_own 0 pushed_state

-- After the pop of 7
abbrev popped_state : State ℕ
popped_state = publish_head 0 (read_buf 4 0 (load_tail 0 1 popping_state))

pushed-Reach : Reach 4 no_items pushed_state (record { pushed = 7 ∷ []; popped = [] })
unfolding load_tail_own write_buf publish_tail
pushed-Reach =
    later
      (later (later start (push_call 7 0 refl (omega arith) (omega arith)))
        (push_write {item = 7} {t = 0} refl))
      (push_publish {item = 7} {t = 0} refl)

popping-Reach : Reach 4 no_items popping_state (record { pushed = 7 ∷ []; popped = [] })
unfolding load_tail_own write_buf publish_tail load_head_own store
popping-Reach = later pushed-Reach (pop_call 0 refl (omega arith) (omega arith))

popped-Reach : Reach 4 no_items popped_state (record { pushed = 7 ∷ []; popped = 7 ∷ [] })
unfolding load_tail_own write_buf publish_tail load_head_own load_tail read_buf store slot_index
popped-Reach =
    later
      (later (later popping-Reach (pop_reload {h = 0} 1 refl (omega arith) (omega arith)))
        (pop_read {h = 0} refl))
      (pop_publish {out = 7} {h = 0} refl)

Reach-defined_example : popped_state.undefined ≡ false
Reach-defined_example = Reach-defined four-IsCapacity popped-Reach

Reach-fifo_example : (rest : List ℕ) × (one_list ≡ one_list ++ rest) × (length rest ≤ 4)
Reach-fifo_example = Reach-fifo four-IsCapacity popped-Reach

push_completes_example :
    (n : ℕ) × (n ≤ 2)
    × ((push_now 4 8 pushed_state).0 ≡ push_called 8 ∷ (replicate n silent ++ push_done 8 ∷ []))
    × Steps 4 pushed_state (push_now 4 8 pushed_state).0 (push_now 4 8 pushed_state).1
    × ConsumerIdle pushed_state (push_now 4 8 pushed_state).1
unfolding publish_tail
push_completes_example = push_completes four-IsCapacity pushed-Reach 8 refl (omega arith)

pop_completes_example :
    (n : ℕ) × (item : ℕ) × (n ≤ 2)
    × ((pop_now 4 pushed_state).0 ≡ pop_called ∷ (replicate n silent ++ pop_done item ∷ []))
    × Steps 4 pushed_state (pop_now 4 pushed_state).0 (pop_now 4 pushed_state).1
    × (get_elem? one_list 0 ≡ some item)
    × ProducerIdle pushed_state (pop_now 4 pushed_state).1
unfolding publish_tail write_buf load_tail_own
pop_completes_example = pop_completes four-IsCapacity pushed-Reach refl (omega arith)

pop_refused_iff_example :
    (((load_tail 0 0 popping_state).pop_at ≡ PopAt.outside) ↔ (length no_list ≡ 0)) × (0 ≤ 1)
unfolding load_tail_own write_buf publish_tail load_head_own store
pop_refused_iff_example =
    pop_refused_iff four-IsCapacity popping-Reach {h = 0} 0 refl (omega arith) (omega arith)

-- A queue of one slot, in a second push, after its load of `tail_`
abbrev full_state : State ℕ
full_state =
    load_tail_own 1 8 1 (publish_tail 0 (write_buf 1 7 0 (load_tail_own 1 7 0 (initial no_items))))

full-Reach : Reach 1 no_items full_state (record { pushed = 7 ∷ []; popped = [] })
unfolding load_tail_own write_buf publish_tail store
full-Reach =
    later
      (later
        (later (later start (push_call 7 0 refl (omega arith) (omega arith)))
          (push_write {item = 7} {t = 0} refl))
        (push_publish {item = 7} {t = 0} refl))
      (push_call 8 1 refl (omega arith) (omega arith))

push_refused_iff_example :
    (((load_head 1 8 1 0 full_state).push_at ≡ PushAt.outside) ↔ (length one_list ≡ 1)) × (0 ≤ 0)
unfolding load_tail_own write_buf publish_tail store
push_refused_iff_example =
    push_refused_iff one-IsCapacity full-Reach {item = 8} {at = 1} 0 refl (omega arith)
      (omega arith)

-- The concurrency test, in the call that sends 0
abbrev sending_test : Test
sending_test = react (begin no_items) (load_tail_own 4 0 0 (initial no_items)) (push_called 0)

sending-TestReach : TestReach 4 2 no_items sending_test
unfolding to_int
sending-TestReach =
    next started (run (push_call 0 0 refl (omega arith) (omega arith)) (omega arith, refl))

assert_holds_example :
    (sending_test.failed ≡ false)
    × (sending_test.received ≤ sending_test.sent)
    × (sending_test.sent ≤ sending_test.received + 4)
    × ((t : History ℕ) × Reach 4 no_items sending_test.queue t
        × (length t.popped ≡ sending_test.received)
        × ((k : ℕ) → k < sending_test.received → get_elem? t.popped k ≡ some (to_int k)))
assert_holds_example = assert_holds 2 four-IsCapacity sending-TestReach

size_seen_by_owner_example : size pushed_state 1 0 ≤ 4
unfolding load_tail_own write_buf publish_tail store
size_seen_by_owner_example =
    size_seen_by_owner four-IsCapacity pushed-Reach 1 0 (omega arith) (omega arith)
      (inl (omega arith, omega arith))

size_wraps_example :
    (size popped_state 0 1 + (1 - 0) ≡ word_mod)
    × (4 < size popped_state 0 1)
    × (empty popped_state 0 1 ≡ false)
unfolding load_tail_own write_buf publish_tail load_head_own load_tail read_buf publish_head store
size_wraps_example =
    size_wraps four-IsCapacity popped-Reach 0 1 (omega arith) (omega arith) (omega arith)
