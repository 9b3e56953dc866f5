-- ===== src/HeadToHead/System.antt =====
-- Two workers of bench/spsc_head_to_head.cpp over two queues: what they reach together, and how a
-- statement about the items in the queues and the locals is proved of all of it.
use market_data_pipeline.Base.{ℕ, ◌<◌, ◌≡◌, true, false, none, some, List, [], ◌∷◌, ◌++◌, length}
use market_data_pipeline.Spsc.Threads.{
  Event, push_called, push_done, push_refused, pop_called, pop_done, pop_refused,
}
use market_data_pipeline.Channel.{Channel, ConcurrentQueue}
use market_data_pipeline.HeadToHead.{send, receive, stop, Worker}

-- One queue between a worker that sends on it and one that receives from it.
module _ (S R : Worker) where
  -- A call begins only as the worker's next action.
  abbrev pub Permits : S.Local → R.Local → Event ℕ → Type 0
  Permits s r (push_called x) = S.action s ≡ send x
  Permits s r pop_called = R.action r ≡ receive
  Permits s r _ = Unit

  abbrev pub sender_after : Event ℕ → S.Local → S.Local
  sender_after (push_done _) s = S.sent true s
  sender_after push_refused s = S.sent false s
  sender_after _ s = s

  abbrev pub receiver_after : Event ℕ → R.Local → R.Local
  receiver_after (pop_done x) r = R.received (some x) r
  receiver_after pop_refused r = R.received none r
  receiver_after _ r = r

  -- The calls that the channel is in are the next actions of the workers.
  pub record InCalls (c : Channel ℕ) (s : S.Local) (r : R.Local) : Type 0 where
    pub sends : (x : ℕ) → c.sending ≡ some x → S.action s ≡ send x
    pub receives : c.receiving ≡ true → R.action r ≡ receive

  -- A statement about the items of the queue and the locals that every return of a call keeps.
  pub record Keeps (bound : ℕ) (J : List ℕ → S.Local → R.Local → Type 0) : Type 0 where
    pub when_sent :
        (x : ℕ) (xs : List ℕ) (s : S.Local) (r : R.Local)
        → S.action s ≡ send x
        → length xs < bound
        → J xs s r
        → J (xs ++ x ∷ []) (S.sent true s) r
    pub when_refused :
        (x : ℕ) (xs : List ℕ) (s : S.Local) (r : R.Local)
        → S.action s ≡ send x
        → J xs s r
        → J xs (S.sent false s) r
    pub when_received :
        (x : ℕ) (xs : List ℕ) (s : S.Local) (r : R.Local)
        → R.action r ≡ receive
        → J (x ∷ xs) s r
        → J xs s (R.received (some x) r)
    pub when_missed :
        (xs : List ℕ) (s : S.Local) (r : R.Local)
        → R.action r ≡ receive
        → J xs s r
        → J xs s (R.received none r)

-- Some worker can go on, or both have returned: a push finds room, or a pop an item.
pub data CanGoOn (P C : Worker) (bound : ℕ) (xs ys : List ℕ) (p : P.Local) (c : C.Local)
    : Type 0 where
  ended : P.action p ≡ stop → C.action c ≡ stop → CanGoOn P C bound xs ys p c
  sends_first : (x : ℕ) → P.action p ≡ send x → length xs < bound → CanGoOn P C bound xs ys p c
  receives_first :
      (x : ℕ) (rest : List ℕ) → C.action c ≡ receive → xs ≡ x ∷ rest → CanGoOn P C bound xs ys p c
  sends_second : (y : ℕ) → C.action c ≡ send y → length ys < bound → CanGoOn P C bound xs ys p c
  receives_second :
      (y : ℕ) (rest : List ℕ) → P.action p ≡ receive → ys ≡ y ∷ rest → CanGoOn P C bound xs ys p c

-- The queues and the locals of the workers: `P` sends on the first queue and receives from the second, `C`
-- the other way round.
pub record System (State : Type 0) (P C : Worker) : Type 0 where
  pub q0 : State
  pub q1 : State
  pub p : P.Local
  pub c : C.Local

module _ {bound : ℕ} (Q : ConcurrentQueue ℕ bound) (P C : Worker) where
  pub data SystemStep (s : System Q.State P C) : System Q.State P C → Type 0 where
    first :
        {q : Q.State} {e : Event ℕ}
        → Q.Step s.q0 e q
        → Permits P C s.p s.c e
        → SystemStep s
            (record { q0 = q; q1 = s.q1; p = sender_after P C e s.p; c = receiver_after P C e s.c })
    second :
        {q : Q.State} {e : Event ℕ}
        → Q.Step s.q1 e q
        → Permits C P s.c s.p e
        → SystemStep s
            (record { q0 = s.q0; q1 = q; p = receiver_after C P e s.p; c = sender_after C P e s.c })

  abbrev pub start_system : System Q.State P C
  start_system = record { q0 = Q.initial; q1 = Q.initial; p = P.begin; c = C.begin }

  pub data SystemReach : System Q.State P C → Type 0 where
    started : SystemReach start_system
    next : {s s' : System Q.State P C} → SystemReach s → SystemStep s s' → SystemReach s'

  -- The queues show channels with which some worker can go on, or both have returned.
  abbrev pub GoesOn : System Q.State P C → Type 0
  GoesOn s =
      (c0 : Channel ℕ) × ((c1 : Channel ℕ) × (Q.Shows s.q0 c0
          × Q.Shows s.q1 c1
          × CanGoOn P C bound c0.items c1.items s.p s.c))
