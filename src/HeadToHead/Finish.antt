-- ===== src/HeadToHead/Finish.antt =====
-- Two workers of bench/spsc_head_to_head.cpp over two queues whose calls can end: what they do
-- next to reach the end of both functions.
use market_data_pipeline.Base.{
  Onward, onward, descends, ℕ, ◌<◌, ◌≤◌, ◌≡◌, true, some, List, ◌∷◌, length, refl,
}
use market_data_pipeline.Channel.{LiveQueue}
use market_data_pipeline.HeadToHead.{send, receive, stop, Worker}
use market_data_pipeline.HeadToHead.System.{
  CanGoOn, ended, sends_first, receives_first, sends_second, receives_second, System, first, second,
  SystemReach,
}
use market_data_pipeline.HeadToHead.Contract.{Contract, Inv, SystemStep-Inv, SystemReach-Inv}
use market_data_pipeline.HeadToHead.Advance.{
  SystemRun, here, after, Patient, OneQueue, push_sent, pop_received,
}

-- Both functions have returned after some more steps.
abbrev pub Finishes :
    {bound : ℕ} (L : LiveQueue ℕ bound) (P C : Worker) → System L.queue.State P C → Type 0
Finishes L P C s =
    (s' : System L.queue.State P C) × SystemRun L P C s s'
    × (P.action s'.p ≡ stop)
    × (C.action s'.c ≡ stop)

-- A measure of what is left to do, which every successful call makes smaller.
pub record Ending {P C : Worker} {bound : ℕ} (k : Contract P C bound) : Type 0 where
  pub producer_waits : Patient P
  pub consumer_waits : Patient C
  pub can :
      (xs ys : List ℕ) (p : P.Local) (c : C.Local)
      → length xs ≤ bound
      → length ys ≤ bound
      → k.Holds xs ys p c
      → CanGoOn P C bound xs ys p c
  pub left : P.Local → C.Local → ℕ
  pub producer_sends :
      (x : ℕ) (xs ys : List ℕ) (p : P.Local) (c : C.Local)
      → P.action p ≡ send x
      → k.Holds xs ys p c
      → left (P.sent true p) c < left p c
  pub consumer_receives :
      (x : ℕ) (xs ys : List ℕ) (p : P.Local) (c : C.Local)
      → C.action c ≡ receive
      → k.Holds (x ∷ xs) ys p c
      → left p (C.received (some x) c) < left p c
  pub consumer_sends :
      (y : ℕ) (xs ys : List ℕ) (p : P.Local) (c : C.Local)
      → C.action c ≡ send y
      → k.Holds xs ys p c
      → left p (C.sent true c) < left p c
  pub producer_receives :
      (y : ℕ) (xs ys : List ℕ) (p : P.Local) (c : C.Local)
      → P.action p ≡ receive
      → k.Holds xs (y ∷ ys) p c
      → left (P.received (some y) p) c < left p c

module _ {bound : ℕ} (L : LiveQueue ℕ bound) {P C : Worker} where
  abbrev first_queue : L.queue.State → OneQueue L P C P C
  first_queue q1 = record {
    put = λ q p c. record { q0 = q; q1 = q1; p = p; c = c };
    step = λ st may. first st may;
  }

  abbrev second_queue : L.queue.State → OneQueue L P C C P
  second_queue q0 = record {
    put = λ q c p. record { q0 = q0; q1 = q; p = p; c = c };
    step = λ st may. second st may;
  }

  SystemRun-Inv :
      (k : Contract P C bound) {s s' : System L.queue.State P C}
      → SystemRun L P C s s'
      → Inv L.queue P C k s
      → Inv L.queue P C k s'
  SystemRun-Inv k here inv = inv
  SystemRun-Inv k (after run st) inv = SystemStep-Inv L.queue P C k st (SystemRun-Inv k run inv)

  joined :
      {s u v : System L.queue.State P C}
      → SystemRun L P C s u
      → SystemRun L P C u v
      → SystemRun L P C s v
  joined run here = run
  joined run (after rest st) = after (joined run rest) st

  abbrev BothReturned : System L.queue.State P C → Type 0
  BothReturned s = (P.action s.p ≡ stop) × (C.action s.c ≡ stop)

  module _ (k : Contract P C bound) (end : Ending k) where
    abbrev left_of : System L.queue.State P C → ℕ
    left_of s = end.left s.p s.c

    abbrev GoesOnward : System L.queue.State P C → Type 0
    GoesOnward = Onward (SystemRun L P C) (Inv L.queue P C k) BothReturned left_of

    runs_on :
        {s : System L.queue.State P C} (u : System L.queue.State P C)
        → Inv L.queue P C k s
        → SystemRun L P C s u
        → left_of u < left_of s
        → GoesOnward s
    runs_on u inv run less = onward u (SystemRun-Inv k run inv) less (λ v rest. joined run rest)

    -- A successful call makes what is left smaller.
    next_call : (s : System L.queue.State P C) → Inv L.queue P C k s → GoesOnward s
    next_call s inv =
        elim (end.can inv.c0.items inv.c1.items s.p s.c inv.small0 inv.small1 inv.holds) [
          | ended p_ends c_ends ↦ Onward.ended (p_ends, c_ends)
          | sends_first x act room ↦
              let (q, run) =
                push_sent L (first_queue s.q1) x inv.c0 inv.c0.sending here inv.shows0 inv.calls0
                  end.producer_waits refl act room in
              runs_on _ inv run
                (end.producer_sends x inv.c0.items inv.c1.items s.p s.c act inv.holds)
          | receives_first x rest act items ↦
              let (q, run) =
                pop_received L (first_queue s.q1) x rest inv.c0 here inv.shows0 end.consumer_waits
                  act items in
              runs_on _ inv run
                (end.consumer_receives x rest inv.c1.items s.p s.c act (rw items at inv.holds))
          | sends_second y act room ↦
              let (q, run) =
                push_sent L (second_queue s.q0) y inv.c1 inv.c1.sending here inv.shows1 inv.calls1
                  end.consumer_waits refl act room in
              runs_on _ inv run
                (end.consumer_sends y inv.c0.items inv.c1.items s.p s.c act inv.holds)
          | receives_second y rest act items ↦
              let (q, run) =
                pop_received L (second_queue s.q0) y rest inv.c1 here inv.shows1 end.producer_waits
                  act items in
              runs_on _ inv run
                (end.producer_receives y inv.c0.items rest s.p s.c act (rw items at inv.holds))
        ]

  pub SystemReach-Finishes :
      (k : Contract P C bound) (end : Ending k) {s : System L.queue.State P C}
      → SystemReach L.queue P C s
      → Finishes L P C s
  SystemReach-Finishes k end {s} r =
      let (s', run, inv, (p_ends, c_ends)) =
        descends (SystemRun L P C) (Inv L.queue P C k) BothReturned (left_of k end) (λ u. here)
          (next_call k end) s (SystemReach-Inv L.queue P C k r) in
      (s', run, p_ends, c_ends)
