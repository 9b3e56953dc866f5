-- ===== src/HeadToHead/Wrappers/Calls.antt =====
-- What a sequence of calls on a wrapper of bench/spsc_head_to_head.cpp returns, and what it leaves.
use market_data_pipeline.Base.{ℕ, ◌≡◌, refl, Option, none, some, List, [], ◌∷◌}
use market_data_pipeline.Fifo.{Call, Reply, offer, take_one, replies}
use market_data_pipeline.HeadToHead.Wrappers.{
  Wrapper, FifoLaws, FrontQueue, FrontQueueLaws, front_wrapper, front_laws,
}

module _ {T : Type 0} where
  abbrev cons_reply :
      {Q : Type 0} → Reply T → Option (List (Reply T) × Q) → Option (List (Reply T) × Q)
  cons_reply r none = none
  cons_reply r (some (rs, q)) = some (r ∷ rs, q)

  -- What a sequence of calls returns, and the queue after it; `none` once a call was undefined.
  unfoldable pub run_calls :
      (w : Wrapper T) → w.Queue → List (Call T) → Option (List (Reply T) × w.Queue)
  run_calls w q [] = some ([], q)
  run_calls w q (Call.push x ∷ cs) = elim (w.push q x) [
    | none ↦ none
    | some (b, q') ↦ cons_reply (Reply.pushed b) (run_calls w q' cs)
  ]
  run_calls w q (Call.pop ∷ cs) = elim (w.pop q) [
    | none ↦ none
    | some (o, q') ↦ cons_reply (Reply.popped o) (run_calls w q' cs)
  ]

  -- The list of at most `bound` items that the calls leave.
  unfoldable pub remains : ℕ → List T → List (Call T) → List T
  unfolding offer take_one
  remains bound xs [] = xs
  remains bound xs (Call.push x ∷ cs) = remains bound (offer bound xs x).1 cs
  remains bound xs (Call.pop ∷ cs) = remains bound (take_one xs).1 cs

  run_calls-replies :
      {bound : ℕ} (w : Wrapper T) (laws : FifoLaws w bound) (cs : List (Call T)) (q : w.Queue)
      (xs : List T)
      → laws.Stores q xs
      → (q' : w.Queue) × (run_calls w q cs ≡ some (replies bound xs cs, q'))
        × laws.Stores q' (remains bound xs cs)
  unfolding run_calls replies remains offer take_one
  run_calls-replies w laws [] q xs h = (q, refl, h)
  run_calls-replies {bound} w laws (Call.push x ∷ cs) q xs h =
      let (q1, done, h1) = laws.pushes q xs x h in
      let (q', ran, h') = run_calls-replies w laws cs q1 (offer bound xs x).1 h1 in
      (q', rw (done, run_calls) (rw ran refl), h')
  run_calls-replies {bound} w laws (Call.pop ∷ cs) q xs h =
      let (q1, done, h1) = laws.pops q xs h in
      let (q', ran, h') = run_calls-replies w laws cs q1 (take_one xs).1 h1 in
      (q', rw (done, run_calls) (rw ran refl), h')

  -- `RigtorpWrapper` and `FollyWrapper`, over a queue with room for `bound` items that keeps to its
  -- documentation, are bounded first-in first-out lists: from a queue that stores a list, every
  -- sequence of calls is defined, so that no pop meets an empty queue, returns what the list
  -- returns, with a push refused just when `bound` items are in, and leaves a queue that stores
  -- what is left of the list.
  pub front_wrapper-replies :
      (F : FrontQueue T) (bound : ℕ) (laws : FrontQueueLaws F bound) (cs : List (Call T))
      (xs : List T) (q : F.Queue)
      → laws.Stores q xs
      → (q' : F.Queue) × (run_calls (front_wrapper F) q cs ≡ some (replies bound xs cs, q'))
        × laws.Stores q' (remains bound xs cs)
  front_wrapper-replies F bound laws cs xs q h =
      run_calls-replies (front_wrapper F) (front_laws F laws) cs q xs h
