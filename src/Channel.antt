-- ===== src/Channel.antt =====
-- What spsc/SpscQueue.h promises to a producer and a consumer that run at once: a bounded first-in
-- first-out list, with the call that each of them is in. Calls and returns are `Event`s; a call may
-- return false at any time, since what it loads may be stale.
use market_data_pipeline.Base.{
  ℕ, ◌<◌, ◌≡◌, Bool, true, false, Option, none, some, List, [], ◌∷◌, ◌++◌, length, ◌⊎◌,
}
use market_data_pipeline.Spsc.Threads.{
  Event, silent, push_called, push_done, push_refused, pop_called, pop_done, pop_refused,
}

-- `sending` is the item of the `try_push` that has begun, `receiving` tells whether a `try_pop` has.
pub record Channel (T : Type 0) : Type 0 where
  pub items : List T
  pub sending : Option T
  pub receiving : Bool

module _ {T : Type 0} where
  abbrev pub empty_channel : Channel T
  empty_channel = record { items = []; sending = none; receiving = false }

  -- When an event may happen.
  abbrev pub Allowed : ℕ → Channel T → Event T → Type 0
  Allowed bound c silent = Unit
  Allowed bound c (push_called x) = c.sending ≡ none
  Allowed bound c (push_done x) = (c.sending ≡ some x) × (length c.items < bound)
  Allowed bound c push_refused = (x : T) × (c.sending ≡ some x)
  Allowed bound c pop_called = c.receiving ≡ false
  Allowed bound c (pop_done x) = (c.receiving ≡ true) × ((rest : List T) × (c.items ≡ x ∷ rest))
  Allowed bound c pop_refused = c.receiving ≡ true

  abbrev pub tail_of : List T → List T
  tail_of [] = []
  tail_of (x ∷ xs) = xs

  abbrev pub after_event : Channel T → Event T → Channel T
  after_event c silent = c
  after_event c (push_called x) = record c { sending = some x }
  after_event c (push_done x) = record c { items = c.items ++ x ∷ []; sending = none }
  after_event c push_refused = record c { sending = none }
  after_event c pop_called = record c { receiving = true }
  after_event c (pop_done x) = record c { items = tail_of c.items; receiving = false }
  after_event c pop_refused = record c { receiving = false }

-- A queue that a producer and a consumer may use at once: its steps, each with what the outside sees,
-- and the channel that each state shows.
pub record ConcurrentQueue (T : Type 0) (bound : ℕ) : Type 1 where
  pub State : Type 0
  pub initial : State
  pub Step : State → Event T → State → Type 0
  pub Shows : State → Channel T → Type 0
  pub shows_initial : Shows initial empty_channel
  pub refines :
      (s s' : State) (e : Event T) (c : Channel T)
      → Step s e s'
      → Shows s c
      → Allowed bound c e × Shows s' (after_event c e)

-- Steps that the outside does not see, and such steps up to one that it sees.
pub data Quiet {T : Type 0} {bound : ℕ} (Q : ConcurrentQueue T bound) (s : Q.State)
    : Q.State → Type 0 where
  stays : Quiet Q s s
  more : {u v : Q.State} → Quiet Q s u → Q.Step u silent v → Quiet Q s v

abbrev pub Returns :
    {T : Type 0} {bound : ℕ} (Q : ConcurrentQueue T bound) → Q.State → Event T → Type 0
Returns Q s e = (u : Q.State) × (v : Q.State) × Quiet Q s u × Q.Step u e v

-- A queue whose calls can end: one in progress returns, a new push finds the room that there is, and a new
-- pop the item.
pub record LiveQueue (T : Type 0) (bound : ℕ) : Type 1 where
  pub queue : ConcurrentQueue T bound
  pub push_returns :
      (s : queue.State) (c : Channel T) (x : T)
      → queue.Shows s c
      → c.sending ≡ some x
      → Returns queue s (push_done x) ⊎ Returns queue s push_refused
  pub push_completes :
      (s : queue.State) (c : Channel T) (x : T)
      → queue.Shows s c
      → c.sending ≡ none
      → length c.items < bound
      → (u : queue.State) × queue.Step s (push_called x) u × Returns queue u (push_done x)
  pub pop_returns :
      (s : queue.State) (c : Channel T)
      → queue.Shows s c
      → c.receiving ≡ true
      → ((y : T) × Returns queue s (pop_done y)) ⊎ Returns queue s pop_refused
  pub pop_completes :
      (s : queue.State) (c : Channel T) (x : T) (rest : List T)
      → queue.Shows s c
      → c.receiving ≡ false
      → c.items ≡ x ∷ rest
      → (u : queue.State) × queue.Step s pop_called u × ((y : T) × Returns queue u (pop_done y))
