-- ===== src/HeadToHead/Echo.antt =====
-- Test case 2 of bench/spsc_head_to_head.cpp: `producer_req` and `consumer_resp`, a request on the first
-- queue and its echo on the second, one round after the other.
use market_data_pipeline.Base.{
  ℕ, ◌+◌, ◌<◌, ◌≤◌, ◌≡◌, ◌⊎◌, inl, inr, refl, ap, true, false, none, some, List, [], ◌∷◌, ◌++◌,
  length, ltb, arith, Bool-cases, lt→ltb,
}
use market_data_pipeline.Channel.{Channel, ConcurrentQueue}
use market_data_pipeline.SpscBench.{to_int}
use market_data_pipeline.HeadToHead.{
  send, receive, producer_req, consumer_resp, Requester, pushing, popping, Responder, awaiting,
  answering,
}
use market_data_pipeline.HeadToHead.Loops.{if_send, never_receives, never_sends}
use market_data_pipeline.HeadToHead.System.{
  Keeps, System, SystemReach, GoesOn, CanGoOn, ended, sends_first, receives_first, sends_second,
  receives_second,
}
use market_data_pipeline.HeadToHead.Contract.{Contract, SystemReach-Inv, SystemReach-GoesOn}

module _ (bound n : ℕ) where
  -- Where the item of a round is: with neither, in the first queue, with the responder, in the second queue.
  abbrev pub InRound : List ℕ → List ℕ → Requester → Responder → Type 0
  InRound xs ys (pushing i) (awaiting j) = (xs ≡ []) × (ys ≡ []) × (j ≡ i) × (i ≤ n)
  InRound xs ys (pushing i) (answering j val) = ⊥
  InRound xs ys (popping i) (awaiting j) =
      (i < n)
      × (((xs ≡ to_int i ∷ []) × (ys ≡ []) × (j ≡ i))
          ⊎ ((xs ≡ []) × (ys ≡ to_int i ∷ []) × (j ≡ i + 1)))
  InRound xs ys (popping i) (answering j val) =
      (i < n) × (xs ≡ []) × (ys ≡ []) × (j ≡ i) × (val ≡ to_int i)

  pub echo_first :
      (ys : List ℕ) → Keeps (producer_req n) (consumer_resp n) bound (λ xs p c. InRound xs ys p c)
  echo_first ys = record {
    when_sent = sent;
    when_refused = λ x xs p c act h. refused x xs p c act h;
    when_received = got;
    when_missed = λ xs p c act h. missed xs p c act h;
  }
    where
      sent :
          (x : ℕ) (xs : List ℕ) (p : Requester) (c : Responder)
          → (producer_req n).action p ≡ send x
          → length xs < bound
          → InRound xs ys p c
          → InRound (xs ++ x ∷ []) ys ((producer_req n).sent true p) c
      sent x xs (pushing i) (awaiting j) act room (none_sent, none_back, same, le) =
          let (below, is) = if_send (ltb i n) (to_int i) x act in
          (ground (arith, below), inl (rw (none_sent, is) refl, none_back, same))
      sent x xs (pushing i) (answering j val) act room h = absurd h
      sent x xs (popping i) c act room h = cc act

      refused :
          (x : ℕ) (xs : List ℕ) (p : Requester) (c : Responder)
          → (producer_req n).action p ≡ send x
          → InRound xs ys p c
          → InRound xs ys ((producer_req n).sent false p) c
      refused x xs (pushing i) c act h = h
      refused x xs (popping i) c act h = h

      got :
          (x : ℕ) (xs : List ℕ) (p : Requester) (c : Responder)
          → (consumer_resp n).action c ≡ receive
          → InRound (x ∷ xs) ys p c
          → InRound xs ys p ((consumer_resp n).received (some x) c)
      got x xs (pushing i) (awaiting j) act h = cc (h.0)
      got x xs (pushing i) (answering j val) act h = absurd h
      got x xs (popping i) (awaiting j) act (below, inl (is, none_back, same)) =
          (below, cc is, none_back, same, cc is)
      got x xs (popping i) (awaiting j) act (below, inr (is, back, same)) = cc is
      got x xs (popping i) (answering j val) act h = cc act

      missed :
          (xs : List ℕ) (p : Requester) (c : Responder)
          → (consumer_resp n).action c ≡ receive
          → InRound xs ys p c
          → InRound xs ys p ((consumer_resp n).received none c)
      missed xs p (awaiting j) act h = h
      missed xs p (answering j val) act h = h

  pub echo_second :
      (xs : List ℕ) → Keeps (consumer_resp n) (producer_req n) bound (λ ys c p. InRound xs ys p c)
  echo_second xs = record {
    when_sent = sent;
    when_refused = refused;
    when_received = got;
    when_missed = missed;
  }
    where
      sent :
          (x : ℕ) (ys : List ℕ) (c : Responder) (p : Requester)
          → (consumer_resp n).action c ≡ send x
          → length ys < bound
          → InRound xs ys p c
          → InRound xs (ys ++ x ∷ []) p ((consumer_resp n).sent true c)
      sent x ys (answering j val) (pushing i) act room h = absurd h
      sent x ys (answering j val) (popping i) act room (below, none_sent, none_back, same, is) =
          let item : x ≡ to_int i = cc (act, is) in
          (below, inr (none_sent, rw (none_back, item) refl, omega arith))
      sent x ys (awaiting j) p act room h = absurd (never_sends (ltb j n) x act)

      refused :
          (x : ℕ) (ys : List ℕ) (c : Responder) (p : Requester)
          → (consumer_resp n).action c ≡ send x
          → InRound xs ys p c
          → InRound xs ys p ((consumer_resp n).sent false c)
      refused x ys (awaiting j) p act h = h
      refused x ys (answering j val) p act h = h

      got :
          (x : ℕ) (ys : List ℕ) (c : Responder) (p : Requester)
          → (producer_req n).action p ≡ receive
          → InRound xs (x ∷ ys) p c
          → InRound xs ys ((producer_req n).received (some x) p) c
      got x ys c (pushing i) act h = absurd (never_receives (ltb i n) (to_int i) act)
      got x ys (answering j val) (popping i) act h = cc (h.2)
      got x ys (awaiting j) (popping i) act (below, inl (is, none_back, same)) = cc none_back
      got x ys (awaiting j) (popping i) act (below, inr (none_sent, is, same)) =
          (none_sent, cc is, same, omega arith)

      missed :
          (ys : List ℕ) (c : Responder) (p : Requester)
          → (producer_req n).action p ≡ receive
          → InRound xs ys p c
          → InRound xs ys ((producer_req n).received none p) c
      missed ys c (pushing i) act h = h
      missed ys c (popping i) act h = h

  abbrev pub echo_contract : Contract (producer_req n) (consumer_resp n) bound
  echo_contract = record {
    Holds = InRound;
    holds_first = (refl, refl, refl, omega arith);
    keeps_first = echo_first;
    keeps_second = echo_second;
  }

  pub echo_CanGoOn :
      0 < bound
      → (xs ys : List ℕ) (p : Requester) (c : Responder) → length xs ≤ bound
      → length ys ≤ bound
      → InRound xs ys p c
      → CanGoOn (producer_req n) (consumer_resp n) bound xs ys p c
  echo_CanGoOn room xs ys (pushing i) (answering j val) few back h = absurd h
  echo_CanGoOn room xs ys (pushing i) (awaiting j) few back (none_sent, none_back, same, le) =
      elim (Bool-cases (ltb i n)) [
        | inl more ↦ sends_first (to_int i) (rw more refl) (omega (arith, ap length none_sent))
        | inr over ↦ ended (rw over refl) (rw (same, over) refl)
      ]
  echo_CanGoOn room xs ys (popping i) (answering j val) few back h =
      sends_second val refl (omega (arith, ap length (h.2)))
  echo_CanGoOn room xs ys (popping i) (awaiting j) few back (below, inl (is, none_back, same)) =
      receives_first (to_int i) [] (rw (same, lt→ltb i n below) refl) is
  echo_CanGoOn room xs ys (popping i) (awaiting j) few back (below, inr (none_sent, is, same)) =
      receives_second (to_int i) [] refl is

-- The rounds that the workers are in.
abbrev pub round_of : Requester → ℕ
round_of (pushing i) = i
round_of (popping i) = i

abbrev pub answers : Responder → ℕ
answers (awaiting j) = j
answers (answering j val) = j

-- What a state of the workers tells of the items in both queues: there is one exactly while the requester
-- waits and the responder does not answer.
abbrev pub under_way : Requester → Responder → ℕ
under_way (pushing i) c = 0
under_way (popping i) (awaiting j) = 1
under_way (popping i) (answering j val) = 0

-- The responder sends back what was requested.
abbrev pub Answers : Requester → Responder → Type 0
Answers p (awaiting j) = Unit
Answers p (answering j val) = val ≡ to_int (round_of p)

echo_facts :
    (bound n : ℕ) (xs ys : List ℕ) (p : Requester) (c : Responder)
    → InRound bound n xs ys p c
    → (round_of p ≤ answers c)
      × (answers c ≤ round_of p + 1)
      × (answers c ≤ n)
      × Answers p c
      × (length xs + length ys ≡ under_way p c)
echo_facts bound n xs ys (pushing i) (awaiting j) (none_sent, none_back, same, le) =
    (omega arith, omega arith, omega arith, tt, rw (none_sent, none_back) refl)
echo_facts bound n xs ys (pushing i) (answering j val) h = absurd h
echo_facts bound n xs ys (popping i) (awaiting j) (below, inl (is, none_back, same)) =
    (omega arith, omega arith, omega arith, tt, rw (is, none_back) refl)
echo_facts bound n xs ys (popping i) (awaiting j) (below, inr (none_sent, is, same)) =
    (omega arith, omega arith, omega arith, tt, rw (is, none_sent) refl)
echo_facts bound n xs ys (popping i) (answering j val) (below, none_sent, none_back, same, is) =
    (omega arith, omega arith, omega arith, is, rw (none_sent, none_back) refl)

-- Requests and echoes keep in step, over any concurrent queue: the responder is in the requester's round
-- or has ended it, in no round past the last; the value that it sends back is the one that the requester
-- sent; and the queues, which show their items, hold one item together while the requester waits and the
-- responder has it not, and else none.
pub echo_in_step :
    {bound : ℕ} (Q : ConcurrentQueue ℕ bound) (n : ℕ)
    → {s : System Q.State (producer_req n) (consumer_resp n)}
    → SystemReach Q (producer_req n) (consumer_resp n) s
    → (round_of s.p ≤ answers s.c)
      × (answers s.c ≤ round_of s.p + 1)
      × (answers s.c ≤ n)
      × Answers s.p s.c
      × ((c0 : Channel ℕ) × ((c1 : Channel ℕ) × (Q.Shows s.q0 c0
              × Q.Shows s.q1 c1
              × (length c0.items + length c1.items ≡ under_way s.p s.c))))
echo_in_step {bound} Q n {s} r =
    let inv = SystemReach-Inv Q (producer_req n) (consumer_resp n) (echo_contract bound n) r in
    let (from, to, end, is, few) = echo_facts bound n inv.c0.items inv.c1.items s.p s.c inv.holds in
    (from, to, end, is, (inv.c0, (inv.c1, (inv.shows0, inv.shows1, few))))

-- A round never blocks for good, over any concurrent queue with room for an item: in every reachable state
-- both workers have returned, or the next push of one of them finds room, or the next pop of one an item.
pub echo-GoesOn :
    {bound : ℕ} (Q : ConcurrentQueue ℕ bound) (n : ℕ)
    → 0 < bound
    → {s : System Q.State (producer_req n) (consumer_resp n)}
    → SystemReach Q (producer_req n) (consumer_resp n) s
    → GoesOn Q (producer_req n) (consumer_resp n) s
echo-GoesOn {bound} Q n room r =
    SystemReach-GoesOn Q (producer_req n) (consumer_resp n) (echo_contract bound n)
      (echo_CanGoOn bound n room) r
