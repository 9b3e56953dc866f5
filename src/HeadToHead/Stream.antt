-- ===== src/HeadToHead/Stream.antt =====
-- Test case 1 of bench/spsc_head_to_head.cpp: `producer_thread` and `consumer_thread` over the first of two
-- queues.
use market_data_pipeline.Base.{
  ℕ, ◌+◌, ◌<◌, ◌≤◌, ◌≡◌, inl, inr, refl, false, List, [], ◌∷◌, length, ◌==◌, ltb, ◌||◌, not, arith,
  Bool-cases, lt→ltb,
}
use market_data_pipeline.Channel.{ConcurrentQueue}
use market_data_pipeline.SpscBench.{to_int}
use market_data_pipeline.HeadToHead.{producer_thread, consumer_thread, Checked}
use market_data_pipeline.HeadToHead.Loops.{
  InSequence, InSequence-append, InSequence-length, if_send, never_receives, never_sends,
}
use market_data_pipeline.HeadToHead.System.{
  Keeps, System, SystemReach, GoesOn, CanGoOn, ended, sends_first, receives_first,
}
use market_data_pipeline.HeadToHead.Contract.{Contract, SystemReach-Inv, SystemReach-GoesOn}

module _ (bound n : ℕ) where
  abbrev pub InStep : List ℕ → List ℕ → ℕ → Checked → Type 0
  InStep xs ys p c = (ys ≡ []) × InSequence to_int c.expected p xs × (c.failed ≡ false) × (p ≤ n)

  checked :
      (out : ℕ) (c : Checked)
      → c.failed ≡ false
      → out ≡ to_int c.expected
      → (c.failed || not (out == to_int c.expected)) ≡ false
  checked out c passed is = ground (arith, passed, is)

  pub stream_first :
      (ys : List ℕ)
      → Keeps (producer_thread n) (consumer_thread n) bound (λ xs p c. InStep xs ys p c)
  stream_first ys = record {
    when_sent = λ x xs p c act room (none_back, seq, passed, le).
        let (below, is) = if_send (ltb p n) (to_int p) x act in
        (
          none_back,
          rw is (InSequence-append to_int c.expected p xs seq),
          passed,
          ground (arith, below),
        );
    when_refused = λ x xs p c act h. h;
    when_received = λ x xs p c act (none_back, (is, seq), passed, le).
        (none_back, seq, checked x c passed is, le);
    when_missed = λ xs p c act h. h;
  }

  pub stream_second :
      (xs : List ℕ)
      → Keeps (consumer_thread n) (producer_thread n) bound (λ ys c p. InStep xs ys p c)
  stream_second xs = record {
    when_sent = λ x ys c p act. absurd (never_sends (ltb c.expected n) x act);
    when_refused = λ x ys c p act. absurd (never_sends (ltb c.expected n) x act);
    when_received = λ x ys c p act. absurd (never_receives (ltb p n) (to_int p) act);
    when_missed = λ ys c p act. absurd (never_receives (ltb p n) (to_int p) act);
  }

  abbrev pub stream_contract : Contract (producer_thread n) (consumer_thread n) bound
  stream_contract = record {
    Holds = InStep;
    holds_first = (refl, refl, refl, omega arith);
    keeps_first = stream_first;
    keeps_second = stream_second;
  }

  pub stream_CanGoOn :
      0 < bound
      → (xs ys : List ℕ) (p : ℕ) (c : Checked) → length xs ≤ bound
      → length ys ≤ bound
      → InStep xs ys p c
      → CanGoOn (producer_thread n) (consumer_thread n) bound xs ys p c
  stream_CanGoOn room [] ys p c few back (none_back, seq, passed, le) =
      elim (Bool-cases (ltb p n)) [
        | inl more ↦ sends_first (to_int p) (rw more refl) (omega arith)
        | inr over ↦ ended (rw over refl) (rw (seq, over) refl)
      ]
  stream_CanGoOn room (x ∷ xs) ys p c few back (none_back, seq, passed, le) =
      let ahead = InSequence-length to_int c.expected p (x ∷ xs) seq in
      receives_first x xs (rw (lt→ltb c.expected n (omega (arith, ahead))) refl) refl

-- In every state that `producer_thread` and `consumer_thread` reach over any concurrent queue,
-- for every number `n` of items, the consumer's `assert` has not failed, it has received no more
-- than was sent, at most the queue's bound is sent and not received, and no more than `n` are
-- sent.
pub stream_assert_holds :
    {bound : ℕ} (Q : ConcurrentQueue ℕ bound) (n : ℕ)
    → {s : System Q.State (producer_thread n) (consumer_thread n)}
    → SystemReach Q (producer_thread n) (consumer_thread n) s
    → (s.c.failed ≡ false) × (s.c.expected ≤ s.p) × (s.p ≤ s.c.expected + bound) × (s.p ≤ n)
stream_assert_holds {bound} Q n {s} r =
    let inv =
      SystemReach-Inv Q (producer_thread n) (consumer_thread n) (stream_contract bound n) r in
    let counts = InSequence-length to_int s.c.expected s.p inv.c0.items inv.holds.1 in
    (inv.holds.2, omega (arith, counts), omega (arith, counts, inv.small0), inv.holds.3)

-- A stream never blocks for good, over any concurrent queue with room for an item: in every reachable
-- state both workers have returned, or the queue, which shows its items, has room for the item that the
-- producer sends or an item for the consumer.
pub stream-GoesOn :
    {bound : ℕ} (Q : ConcurrentQueue ℕ bound) (n : ℕ)
    → 0 < bound
    → {s : System Q.State (producer_thread n) (consumer_thread n)}
    → SystemReach Q (producer_thread n) (consumer_thread n) s
    → GoesOn Q (producer_thread n) (consumer_thread n) s
stream-GoesOn {bound} Q n room r =
    SystemReach-GoesOn Q (producer_thread n) (consumer_thread n) (stream_contract bound n)
      (stream_CanGoOn bound n room) r
