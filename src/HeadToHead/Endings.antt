-- ===== src/HeadToHead/Endings.antt =====
-- What is left to do in each of the three test cases of bench/spsc_head_to_head.cpp.
use market_data_pipeline.Base.{
  ℕ, ◌+◌, ◌*◌, ◌-◌, ◌<◌, ◌≡◌, refl, true, some, List, ◌∷◌, ltb, arith, ltb→lt,
}
use market_data_pipeline.SpscBench.{to_int}
use market_data_pipeline.HeadToHead.{
  Requester, pushing, popping, Responder, awaiting, answering, Burst, requested, echoed, answered,
  taken, request, respond, send, receive,
}
use market_data_pipeline.HeadToHead.Loops.{if_send, if_receive, never_sends, never_receives}
use market_data_pipeline.HeadToHead.Finish.{Ending}
use market_data_pipeline.HeadToHead.Stream.{stream_contract, stream_CanGoOn}
use market_data_pipeline.HeadToHead.Echo.{InRound, echo_contract, echo_CanGoOn}
use market_data_pipeline.HeadToHead.Bursts.{
  burst_contract, burst_CanGoOn, items_before, items_before-next_item, items_before-InLoops,
}

-- The items that the producer has to send and those that the consumer has to take.
pub stream_end : (bound n : ℕ) → 0 < bound → Ending (stream_contract bound n)
stream_end bound n room = record {
  producer_waits = record { when_refused = λ l. refl; when_missed = λ l. refl };
  consumer_waits = record { when_refused = λ l. refl; when_missed = λ l. refl };
  can = stream_CanGoOn bound n room;
  left = λ p c. (n - p) + (n - c.expected);
  producer_sends = λ x xs ys p c act h.
      let more = (if_send (ltb p n) (to_int p) x act).0 in ground (arith, more);
  consumer_receives =
      λ x xs ys p c act h. let more = if_receive (ltb c.expected n) act in ground (arith, more);
  consumer_sends = λ y xs ys p c act. absurd (never_sends (ltb c.expected n) y act);
  producer_receives = λ y xs ys p c act. absurd (never_receives (ltb p n) (to_int p) act);
}

-- The calls that are left to a requester and to a responder.
requests_left : ℕ → Requester → ℕ
requests_left n (pushing i) = 2 * (n - i)
requests_left n (popping i) = 2 * (n - i) - 1

answers_left : ℕ → Responder → ℕ
answers_left n (awaiting j) = 2 * (n - j)
answers_left n (answering j val) = 2 * (n - j) - 1

requested_left :
    (n x : ℕ) (p : Requester)
    → request n p ≡ send x
    → requests_left n (requested true p) < requests_left n p
unfolding requests_left
requested_left n x (pushing i) act =
    let more = (if_send (ltb i n) (to_int i) x act).0 in ground (arith, more)
requested_left n x (popping i) act = cc act

taken_left :
    (n x : ℕ) (c : Responder)
    → respond n c ≡ receive
    → answers_left n (taken (some x) c) < answers_left n c
unfolding answers_left
taken_left n x (awaiting j) act = let more = if_receive (ltb j n) act in ground (arith, more)
taken_left n x (answering j val) act = cc act

answered_left :
    (bound n y : ℕ) (xs ys : List ℕ) (p : Requester) (c : Responder)
    → respond n c ≡ send y
    → InRound bound n xs ys p c
    → answers_left n (answered true c) < answers_left n c
unfolding answers_left
answered_left bound n y xs ys p (awaiting j) act h = absurd (never_sends (ltb j n) y act)
answered_left bound n y xs ys (pushing i) (answering j val) act h = absurd h
answered_left bound n y xs ys (popping i) (answering j val) act
      (below, none_sent, none_back, same, is) =
    omega arith

echoed_left :
    (bound n y : ℕ) (xs ys : List ℕ) (p : Requester) (c : Responder)
    → request n p ≡ receive
    → InRound bound n xs (y ∷ ys) p c
    → requests_left n (echoed (some y) p) < requests_left n p
unfolding requests_left
echoed_left bound n y xs ys (pushing i) c act h = absurd (never_receives (ltb i n) (to_int i) act)
echoed_left bound n y xs ys (popping i) (awaiting j) act (below, which) = omega arith
echoed_left bound n y xs ys (popping i) (answering j val) act (below, none_sent, is, same, item) =
    cc is

pub echo_end : (bound n : ℕ) → 0 < bound → Ending (echo_contract bound n)
echo_end bound n room = record {
  producer_waits = record {
    when_refused = λ l. elim l [ pushing i ↦ refl | popping i ↦ refl ];
    when_missed = λ l. elim l [ pushing i ↦ refl | popping i ↦ refl ];
  };
  consumer_waits = record {
    when_refused = λ l. elim l [ awaiting j ↦ refl | answering j val ↦ refl ];
    when_missed = λ l. elim l [ awaiting j ↦ refl | answering j val ↦ refl ];
  };
  can = echo_CanGoOn bound n room;
  left = λ p c. requests_left n p + answers_left n c;
  producer_sends = λ x xs ys p c act h. omega (arith, requested_left n x p act);
  consumer_receives = λ x xs ys p c act h. omega (arith, taken_left n x c act);
  consumer_sends = λ y xs ys p c act h. omega (arith, answered_left bound n y xs ys p c act h);
  producer_receives = λ y xs ys p c act h. omega (arith, echoed_left bound n y xs ys p c act h);
}

-- The items of all batches that the producer has to send and those that the consumer has to take.
pub burst_end :
    (bound batches size : ℕ) (elapsed : ℕ → ℕ) (room : 0 < bound) (some_size : 0 < size)
    → Ending (burst_contract bound batches size elapsed some_size)
burst_end bound batches size elapsed room some_size = record {
  producer_waits = record { when_refused = λ l. refl; when_missed = λ l. refl };
  consumer_waits = record { when_refused = λ l. refl; when_missed = λ l. refl };
  can = burst_CanGoOn bound batches size elapsed room;
  left = λ p c. to_come p + to_come c.at;
  producer_sends = λ x xs ys p c act (none_back, seq, p_in, c_in, times).
      let more = (if_send (ltb p.b batches) p.i x act).0 in
      omega (
        arith,
        items_before-InLoops batches size p (ltb→lt p.b batches more) p_in,
        items_before-next_item size p,
      );
  consumer_receives = λ x xs ys p c act (none_back, seq, p_in, c_in, times).
      let more = if_receive (ltb c.at.b batches) act in
      omega (
        arith,
        items_before-InLoops batches size c.at (ltb→lt c.at.b batches more) c_in,
        items_before-next_item size c.at,
      );
  consumer_sends = λ y xs ys p c act. absurd (never_sends (ltb c.at.b batches) y act);
  producer_receives = λ y xs ys p c act. absurd (never_receives (ltb p.b batches) p.i act);
}
  where
    to_come : Burst → ℕ
    to_come l = batches * size - items_before size l
