-- ===== src/HeadToHead/Wrappers.antt =====
-- The queues that bench/spsc_head_to_head.cpp compares, each behind a wrapper with `try_push` and `try_pop`:
-- `MySpscWrapper`, and those of the queues of other projects, which are parameters here: `RigtorpWrapper`
-- and `FollyWrapper` over a queue with a pointer to its front, `MoodyCamelWrapper` and `BoostWrapper` over
-- a queue whose pop moves the item out. One thread calls at a time. `none` is an undefined call.
pub mod Calls
use mathlib.Core.List.{append-nil, append_assoc}
use market_data_pipeline.Base.{
  ℕ, ◌≡◌, ◌⊎◌, inl, inr, refl, sym, ◌∙◌, ap, Bool, true, false, Option, none, some, List, [], ◌∷◌,
  ◌++◌, length, if◌then◌else◌, ◌==◌, Bool-cases,
}
use market_data_pipeline.Fifo.{Call, Reply, offer, take_one}
use market_data_pipeline.Spsc.{SpscQueue, new_queue, try_push, try_pop}
use market_data_pipeline.Spsc.Capacity.{IsCapacity}
use market_data_pipeline.Spsc.Holds.{Holds, new_queue-Holds}
use market_data_pipeline.Spsc.Push.{try_push-offer}
use market_data_pipeline.Spsc.Pop.{try_pop-take_one}

-- A wrapper as `run` uses it.
pub record Wrapper (T : Type 0) : Type 1 where
  pub Queue : Type 0
  pub push : Queue → T → Option (Bool × Queue)
  pub pop : Queue → Option (Option T × Queue)

-- A wrapper that behaves as a list of at most `bound` items, oldest first.
pub record FifoLaws {T : Type 0} (w : Wrapper T) (bound : ℕ) : Type 1 where
  pub Stores : w.Queue → List T → Type 0
  pub pushes :
      (q : w.Queue) (xs : List T) (x : T)
      → Stores q xs
      → (q' : w.Queue) × (w.push q x ≡ some ((offer bound xs x).0, q'))
        × Stores q' (offer bound xs x).1
  pub pops :
      (q : w.Queue) (xs : List T)
      → Stores q xs
      → (q' : w.Queue) × (w.pop q ≡ some ((take_one xs).0, q')) × Stores q' (take_one xs).1

-- `rigtorp::SPSCQueue` (`try_push`, `front`, `pop`) and `folly::ProducerConsumerQueue` (`write`,
-- `frontPtr`, `popFront`); their `pop` is undefined on an empty queue.
pub record FrontQueue (T : Type 0) : Type 1 where
  pub Queue : Type 0
  pub write : Queue → T → Bool × Queue
  pub front : Queue → Option T
  pub pop_front : Queue → Option Queue

-- What their documentation says of a queue with room for `bound` items, one call at a time: a write fails
-- just if the queue is full, the front is the oldest item, or null, and the pop drops it.
pub record FrontQueueLaws {T : Type 0} (F : FrontQueue T) (bound : ℕ) : Type 1 where
  pub Stores : F.Queue → List T → Type 0
  pub writes :
      (q : F.Queue) (xs : List T) (x : T)
      → Stores q xs
      → ((F.write q x).0 ≡ (offer bound xs x).0) × Stores (F.write q x).1 (offer bound xs x).1
  pub front_of_empty : (q : F.Queue) → Stores q [] → F.front q ≡ none
  pub front_is_oldest : (q : F.Queue) (x : T) (xs : List T) → Stores q (x ∷ xs) → F.front q ≡ some x
  pub drops_oldest :
      (q : F.Queue) (x : T) (xs : List T)
      → Stores q (x ∷ xs)
      → (q' : F.Queue) × (F.pop_front q ≡ some q') × Stores q' xs

-- `moodycamel::ReaderWriterQueue` (`try_enqueue`, `try_dequeue`) and `boost::lockfree::spsc_queue`
-- (`push`, `pop`).
pub record ValueQueue (T : Type 0) : Type 1 where
  pub Queue : Type 0
  pub enqueue : Queue → T → Bool × Queue
  pub dequeue : Queue → Option T × Queue

module _ {T : Type 0} where
  -- `MySpscWrapper::try_push` and `MySpscWrapper::try_pop`
  abbrev pub mine_push : ℕ → SpscQueue T → T → Option (Bool × SpscQueue T)
  mine_push = try_push

  abbrev pub mine_pop : ℕ → SpscQueue T → Option (Option T × SpscQueue T)
  mine_pop = try_pop

  -- `RigtorpWrapper::try_push` and `FollyWrapper::try_push`
  abbrev pub front_push : (F : FrontQueue T) → F.Queue → T → Option (Bool × F.Queue)
  front_push F q v = some (F.write q v)

  -- `v = *p`, then the pop.
  abbrev pub take_front : (F : FrontQueue T) → T → Option F.Queue → Option (Option T × F.Queue)
  take_front F v none = none
  take_front F v (some q) = some (some v, q)

  -- `RigtorpWrapper::try_pop` and `FollyWrapper::try_pop`
  abbrev pub front_pop : (F : FrontQueue T) → F.Queue → Option (Option T × F.Queue)
  front_pop F q = elim (F.front q) [
    | none ↦ some (none, q)
    | some v ↦ take_front F v (F.pop_front q)
  ]

  -- `MoodyCamelWrapper::try_push` and `BoostWrapper::try_push`
  abbrev pub value_push : (V : ValueQueue T) → V.Queue → T → Option (Bool × V.Queue)
  value_push V q v = some (V.enqueue q v)

  -- `MoodyCamelWrapper::try_pop` and `BoostWrapper::try_pop`
  abbrev pub value_pop : (V : ValueQueue T) → V.Queue → Option (Option T × V.Queue)
  value_pop V q = some (V.dequeue q)

  -- `try_pop` of a wrapper that looks at the front first gives the oldest item and drops it, or finds none
  -- and leaves the queue, and never pops an empty queue.
  pub front_pop-take_one :
      (F : FrontQueue T) {bound : ℕ} (laws : FrontQueueLaws F bound) (q : F.Queue) (xs : List T)
      → laws.Stores q xs
      → (q' : F.Queue) × (front_pop F q ≡ some ((take_one xs).0, q'))
        × laws.Stores q' (take_one xs).1
  unfolding take_one
  front_pop-take_one F laws q [] h = (q, rw (laws.front_of_empty q h, front_pop) refl, h)
  front_pop-take_one F laws q (x ∷ xs) h =
      let (q', done, h') = laws.drops_oldest q x xs h in
      (q', rw (laws.front_is_oldest q x xs h, front_pop) (rw done refl), h')

  -- `MySpscWrapper`
  abbrev pub my_spsc_wrapper : ℕ → Wrapper T
  my_spsc_wrapper capacity = record {
    Queue = SpscQueue T;
    push = mine_push capacity;
    pop = mine_pop capacity;
  }

  -- `RigtorpWrapper` and `FollyWrapper`
  abbrev pub front_wrapper : FrontQueue T → Wrapper T
  front_wrapper F = record { Queue = F.Queue; push = front_push F; pop = front_pop F }

  -- `MoodyCamelWrapper` and `BoostWrapper`
  abbrev pub value_wrapper : ValueQueue T → Wrapper T
  value_wrapper V = record { Queue = V.Queue; push = value_push V; pop = value_pop V }

  -- The queue of this repository, of a power-of-two capacity, keeps these laws.
  abbrev pub my_spsc_laws :
      {capacity : ℕ} → IsCapacity capacity → FifoLaws (my_spsc_wrapper capacity) capacity
  my_spsc_laws {capacity} c = record {
    Stores = Holds capacity;
    pushes = λ q xs x h. try_push-offer c x h;
    pops = λ q xs h. try_pop-take_one c xs h;
  }

  abbrev pub front_laws :
      (F : FrontQueue T) {bound : ℕ} → FrontQueueLaws F bound → FifoLaws (front_wrapper F) bound
  front_laws F laws = record {
    Stores = laws.Stores;
    pushes = λ q xs x h.
        let (is, h') = laws.writes q xs x h in
        ((F.write q x).1, ap (λ b. some (b, (F.write q x).1)) is, h');
    pops = front_pop-take_one F laws;
  }
