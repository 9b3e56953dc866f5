-- ===== src/HeadToHead/Contract.antt =====
-- A statement that every return of a call keeps holds in every state that two workers reach, whatever
-- concurrent queue they use.
use market_data_pipeline.Base.{ℕ, ◌≤◌, ◌∙◌, ap, List, [], ◌∷◌, length, length-append, arith}
use market_data_pipeline.Spsc.Threads.{
  Event, silent, push_called, push_done, push_refused, pop_called, pop_done, pop_refused,
}
use market_data_pipeline.Channel.{Channel, empty_channel, Allowed, after_event, ConcurrentQueue}
use market_data_pipeline.HeadToHead.{send, Worker}
use market_data_pipeline.HeadToHead.System.{
  Permits, sender_after, receiver_after, InCalls, Keeps, CanGoOn, GoesOn, System, SystemStep, first,
  second, SystemReach, started, next,
}

-- The statement of both queues.
pub record Contract (P C : Worker) (bound : ℕ) : Type 1 where
  pub Holds : List ℕ → List ℕ → P.Local → C.Local → Type 0
  pub holds_first : Holds [] [] P.begin C.begin
  pub keeps_first : (ys : List ℕ) → Keeps P C bound (λ xs p c. Holds xs ys p c)
  pub keeps_second : (xs : List ℕ) → Keeps C P bound (λ ys c p. Holds xs ys p c)

-- What holds of one queue of the two, with the channel it shows, and the channel of the other.
module _ (S R : Worker) (bound : ℕ) where
  -- What an event of the queue leaves.
  abbrev After :
      (List ℕ → S.Local → R.Local → Type 0) → Channel ℕ → Channel ℕ → S.Local → R.Local → Type 0
  After J c d s r = InCalls S R c s r × InCalls R S d r s × (length c.items ≤ bound) × J c.items s r

  event-After :
      (J : List ℕ → S.Local → R.Local → Type 0) (e : Event ℕ) (c d : Channel ℕ) (s : S.Local)
      (r : R.Local)
      → Keeps S R bound J
      → Allowed bound c e
      → Permits S R s r e
      → After J c d s r
      → After J (after_event c e) d (sender_after S R e s) (receiver_after S R e r)
  event-After J silent c d s r keeps ok may h = h
  event-After J (push_called x) c d s r keeps ok may (calls, other, small, j) =
      (record { sends = λ y e. may ∙ ap send (cc e); receives = calls.receives }, other, small, j)
  event-After J (push_done x) c d s r keeps (sending, room) may (calls, other, small, j) =
      let act = calls.sends x sending in
      (
        record { sends = λ y e. cc e; receives = calls.receives },
        record { sends = other.sends; receives = λ e. cc (act, other.receives e) },
        omega (arith, length-append c.items (x ∷ [])),
        keeps.when_sent x c.items s r act room j,
      )
  event-After J push_refused c d s r keeps (x, sending) may (calls, other, small, j) =
      let act = calls.sends x sending in
      (
        record { sends = λ y e. cc e; receives = calls.receives },
        record { sends = other.sends; receives = λ e. cc (act, other.receives e) },
        small,
        keeps.when_refused x c.items s r act j,
      )
  event-After J pop_called c d s r keeps ok may (calls, other, small, j) =
      (record { sends = calls.sends; receives = λ _. may }, other, small, j)
  event-After J (pop_done x) c d s r keeps (receiving, (rest, is)) may (calls, other, small, j) =
      let act = calls.receives receiving in
      (
        record { sends = calls.sends; receives = λ e. cc e },
        record { sends = λ y e. cc (act, other.sends y e); receives = other.receives },
        rw is (omega (arith, ap length is)),
        rw is (keeps.when_received x rest s r act (rw is at j)),
      )
  event-After J pop_refused c d s r keeps receiving may (calls, other, small, j) =
      let act = calls.receives receiving in
      (
        record { sends = calls.sends; receives = λ e. cc e },
        record { sends = λ y e. cc (act, other.sends y e); receives = other.receives },
        small,
        keeps.when_missed c.items s r act j,
      )

module _ {bound : ℕ} (Q : ConcurrentQueue ℕ bound) (P C : Worker) (k : Contract P C bound) where
  pub record Inv (s : System Q.State P C) : Type 0 where
    pub c0 : Channel ℕ
    pub c1 : Channel ℕ
    pub shows0 : Q.Shows s.q0 c0
    pub shows1 : Q.Shows s.q1 c1
    pub calls0 : InCalls P C c0 s.p s.c
    pub calls1 : InCalls C P c1 s.c s.p
    pub small0 : length c0.items ≤ bound
    pub small1 : length c1.items ≤ bound
    pub holds : k.Holds c0.items c1.items s.p s.c

  pub SystemStep-Inv : {s s' : System Q.State P C} → SystemStep Q P C s s' → Inv s → Inv s'
  SystemStep-Inv {s} (first {q} {e} st may) inv =
      let (ok, shows) = Q.refines s.q0 q e inv.c0 st inv.shows0 in
      let after =
        event-After P C bound (λ xs p c. k.Holds xs inv.c1.items p c) e inv.c0 inv.c1 s.p s.c
          (k.keeps_first inv.c1.items) ok may (inv.calls0, inv.calls1, inv.small0, inv.holds) in
      record {
        c0 = after_event inv.c0 e;
        c1 = inv.c1;
        shows0 = shows;
        shows1 = inv.shows1;
        calls0 = after.0;
        calls1 = after.1;
        small0 = after.2;
        small1 = inv.small1;
        holds = after.3;
      }
  SystemStep-Inv {s} (second {q} {e} st may) inv =
      let (ok, shows) = Q.refines s.q1 q e inv.c1 st inv.shows1 in
      let after =
        event-After C P bound (λ ys c p. k.Holds inv.c0.items ys p c) e inv.c1 inv.c0 s.c s.p
          (k.keeps_second inv.c0.items) ok may (inv.calls1, inv.calls0, inv.small1, inv.holds) in
      record {
        c0 = inv.c0;
        c1 = after_event inv.c1 e;
        shows0 = inv.shows0;
        shows1 = shows;
        calls0 = after.1;
        calls1 = after.0;
        small0 = inv.small0;
        small1 = after.2;
        holds = after.3;
      }

  -- In every reachable state of the two workers.
  pub SystemReach-Inv : {s : System Q.State P C} → SystemReach Q P C s → Inv s
  SystemReach-Inv started = record {
    c0 = empty_channel;
    c1 = empty_channel;
    shows0 = Q.shows_initial;
    shows1 = Q.shows_initial;
    calls0 = record { sends = λ x e. cc e; receives = λ e. cc e };
    calls1 = record { sends = λ x e. cc e; receives = λ e. cc e };
    small0 = omega arith;
    small1 = omega arith;
    holds = k.holds_first;
  }
  SystemReach-Inv (next r st) = SystemStep-Inv st (SystemReach-Inv r)

  pub SystemReach-GoesOn :
      ((xs ys : List ℕ) (p : P.Local) (c : C.Local)
        → length xs ≤ bound
        → length ys ≤ bound
        → k.Holds xs ys p c
        → CanGoOn P C bound xs ys p c)
      → {s : System Q.State P C} → SystemReach Q P C s
      → GoesOn Q P C s
  SystemReach-GoesOn can {s} r =
      let inv = SystemReach-Inv r in
      (
        inv.c0,
        (
          inv.c1,
          (
            inv.shows0,
            inv.shows1,
            can inv.c0.items inv.c1.items s.p s.c inv.small0 inv.small1 inv.holds,
          ),
        ),
      )
