-- ===== src/LockFreeStack/Threads/Order.antt =====
-- The stack of experiments/broken_aba.cpp under threads that push no node twice, and one call after the other.
use market_data_pipeline.Base.{
  ◌≡◌, ◌⊎◌, inl, inr, refl, true, false, some, List, [], ==_iff, Bool-cases,
}
use market_data_pipeline.Memory.{Ptr, null}
use market_data_pipeline.LockFreeStack.Chain.{Chain}
use market_data_pipeline.LockFreeStack.Threads.{
  Threads, Event, Reach, start, later, initial, replay,
}
use market_data_pipeline.LockFreeStack.Threads.Inv.{unused, Inv}
use market_data_pipeline.LockFreeStack.Threads.Steps.{Step-Inv}
use market_data_pipeline.LockFreeStack.Threads.Races.{Step-undefined, NoReload, NoReload-AllMet}

initial-Inv : Inv initial []
unfolding replay
initial-Inv = record {
  items = [];
  status = λ _. unused;
  chain = refl;
  replayed = refl;
  in_stack = tt;
  past_published = λ p is live. absurd (live ((==_iff p null).0 is));
  never_pushed = λ p new. refl;
  knows = λ t. tt;
}

Reach-Inv : {s : Threads} {h : List Event} → Reach s h → s.undefined ≡ false → Inv s h
Reach-Inv start defined = initial-Inv
Reach-Inv (later r st new) defined =
    Step-Inv st new defined (Reach-Inv r (Step-undefined st defined))

-- If no node is pushed twice, any number of threads that call `push`, `pop_normal` and `pop_vulnerable` at
-- once, whatever the order of their accesses and however old the heads that their loads and failed attempts
-- read, do what the same pushes and pops do one after another, unless a read of `old->next` counts as a
-- data race: each node that a pop takes is the newest one left, and the nodes linked from the head are the
-- ones left. No read does before a failed attempt of `pop_normal` has read a node to try again with.
pub Reach-replay :
    {s : Threads} {h : List Event}
    → Reach s h
    → ((s.undefined ≡ true) × (¬ NoReload h))
      ⊎ ((s.undefined ≡ false)
          × (xs : List Ptr) × (replay h ≡ some xs)
          × Chain s.stack.next s.stack.head xs)
Reach-replay {s} r = elim (Bool-cases s.undefined) [
  | inl raced ↦ inl (raced, λ quiet. cc ((NoReload-AllMet r quiet).0, raced))
  | inr defined ↦ let inv = Reach-Inv r defined in inr (defined, inv.items, inv.replayed, inv.chain)
]
