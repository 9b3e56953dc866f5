-- ===== src/Tests/Stacks.antt =====
-- Runs of the stack of experiments/broken_aba.cpp with two threads, one access at a time.
use market_data_pipeline.Base.{◌≡◌, ◌⊎◌, refl, true, false, some, List, [], ◌∷◌, arith}
use market_data_pipeline.Memory.{Ptr}
use market_data_pipeline.LockFreeStack.Chain.{Chain}
use market_data_pipeline.LockFreeStack.Threads.{
  Threads, Event, silent, push_called, pushed, popped, reloaded, Reach, start, later, initial,
  begin_push, link, begin_pop, read_next, swap, learn, push_begins, push_tries, pop_begins,
  pop_reads, pop_tries, replay,
}
use market_data_pipeline.LockFreeStack.Threads.Races.{NoReload}
use market_data_pipeline.LockFreeStack.Threads.Order.{Reach-replay}

-- Thread 0 pushes node 1, which holds 10, and thread 1 pops it.
after_push : Threads
after_push = link 0 true 0 1 (begin_push 0 1 10 0 initial)

after_pop : Threads
after_pop = swap 1 true 0 1 0 (read_next 1 1 0 (begin_pop 1 1 after_push))

abbrev events : List Event
events = popped 1 ∷ silent ∷ silent ∷ pushed 1 ∷ push_called 1 ∷ []

after_pop-Reach : Reach after_pop events
unfolding after_pop after_push begin_push link begin_pop read_next swap learn
after_pop-Reach =
    later
      (later
        (later
          (later (later start (push_begins 0 1 10 0 refl (λ e. omega (arith, e)) refl) tt)
            (push_tries 0 true 0 refl refl) tt)
          (pop_begins 1 1 refl refl) tt)
        (pop_reads 1 0 refl) tt)
      (pop_tries 1 true 0 refl refl) tt

Reach-replay_example :
    ((after_pop.undefined ≡ true) × (¬ NoReload events))
    ⊎ ((after_pop.undefined ≡ false)
        × (xs : List Ptr) × (replay events ≡ some xs)
        × Chain after_pop.stack.next after_pop.stack.head xs)
Reach-replay_example = Reach-replay after_pop-Reach

after_pop-defined : after_pop.undefined ≡ false
unfolding after_pop after_push begin_push link begin_pop read_next swap learn
after_pop-defined = refl

-- Thread 1 reads node 1 as the head and its successor; thread 0 pushes node 2; the attempt of thread 1
-- fails and gives it node 2, whose successor it reads.
after_reload : Threads
after_reload = read_next 1 2 9 (
    swap 1 true 2 1 0
      (link 0 true 1 2 (begin_push 0 2 20 1 (read_next 1 1 0 (begin_pop 1 1 after_push)))))

abbrev reload_events : List Event
reload_events =
    silent ∷ reloaded ∷ pushed 2 ∷ push_called 2 ∷ silent ∷ silent ∷ pushed 1 ∷ push_called 1 ∷ []

after_reload-Reach : Reach after_reload reload_events
unfolding after_reload after_push begin_push link begin_pop read_next swap learn
after_reload-Reach =
    later
      (later
        (later
          (later
            (later
              (later
                (later (later start (push_begins 0 1 10 0 refl (λ e. omega (arith, e)) refl) tt)
                  (push_tries 0 true 0 refl refl) tt)
                (pop_begins 1 1 refl refl) tt)
              (pop_reads 1 0 refl) tt)
            (push_begins 0 2 20 1 refl (λ e. omega (arith, e)) refl) ((λ e. omega (arith, e)), tt))
          (push_tries 0 true 1 refl refl) tt)
        (pop_tries 1 true 2 refl refl) tt)
      (pop_reads 1 9 refl) tt

after_reload-undefined : after_reload.undefined ≡ true
unfolding after_reload after_push begin_push link begin_pop read_next swap learn
after_reload-undefined = refl
