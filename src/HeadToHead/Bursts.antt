-- ===== src/HeadToHead/Bursts.antt =====
-- Test case 3 of bench/spsc_head_to_head.cpp: `producer_burst` and `consumer_burst`, in batches over the
-- first of two queues, and the times of the batches.
use market_data_pipeline.Base.{
  ℕ, ◌+◌, ◌*◌, ◌<◌, ◌≤◌, ◌≡◌, refl, sym, ap, List, [], ◌∷◌, ◌++◌, length, ◌==◌, ltb, if◌then◌else◌,
  arith, Bool-cases, lt→ltb, ltb→lt, ==_iff, zero, suc, inl, inr,
}
use native.Mathlib.Nat.{mul-le-mul_right}
use market_data_pipeline.Channel.{Channel, ConcurrentQueue}
use market_data_pipeline.HeadToHead.{
  Worker, producer_burst, consumer_burst, Burst, Timed, next_item,
}
use market_data_pipeline.HeadToHead.Loops.{if_send, if_receive, never_receives, never_sends}
use market_data_pipeline.HeadToHead.System.{
  Keeps, System, SystemReach, GoesOn, CanGoOn, ended, sends_first, receives_first,
}
use market_data_pipeline.HeadToHead.Contract.{Contract, SystemReach-Inv, SystemReach-GoesOn}

-- `xs` is what is sent from one place of the loops on to another.
abbrev pub Between : ℕ → Burst → Burst → List ℕ → Type 0
Between size from to [] = from ≡ to
Between size from to (x ∷ xs) = (x ≡ from.i) × Between size (next_item size from) to xs

-- How many items are sent before a place of the loops.
abbrev pub items_before : ℕ → Burst → ℕ
items_before size l = l.b * size + l.i

-- The times of the first batches, with the newest first.
abbrev pub batch_times : (ℕ → ℕ) → ℕ → List ℕ
batch_times elapsed zero = []
batch_times elapsed (suc k) = elapsed k ∷ batch_times elapsed k

pub items_before-next_item :
    (size : ℕ) (l : Burst) → items_before size (next_item size l) ≡ items_before size l + 1
items_before-next_item size l = elim (Bool-cases (l.i + 1 == size)) [
  | inl last ↦ rw last (omega (arith, (==_iff (l.i + 1) size).0 last))
  | inr not_last ↦ rw not_last (omega arith)
]

Between-append :
    (size : ℕ) (from to : Burst) (xs : List ℕ)
    → Between size from to xs
    → Between size from (next_item size to) (xs ++ to.i ∷ [])
Between-append size from to [] same = (ap (λ l. l.i) (sym same), ap (next_item size) same)
Between-append size from to (x ∷ xs) (is, more) =
    (is, Between-append size (next_item size from) to xs more)

Between-length :
    (size : ℕ) (from to : Burst) (xs : List ℕ)
    → Between size from to xs
    → items_before size from + length xs ≡ items_before size to
Between-length size from to [] same = omega (arith, ap (items_before size) same)
Between-length size from to (x ∷ xs) (is, more) =
    omega (
      arith,
      items_before-next_item size from,
      Between-length size (next_item size from) to xs more,
    )

module _ (batches size : ℕ) where
  -- A place of the loops: in a batch, or past the last one.
  abbrev pub InLoops : Burst → Type 0
  InLoops l = (l.i < size) × (items_before size l ≤ batches * size)

  pub items_before-InLoops :
      (l : Burst) → l.b < batches → InLoops l → items_before size l < batches * size
  items_before-InLoops l more (inside, within) =
      let room : (l.b + 1) * size ≤ batches * size = mul-le-mul_right size (omega (arith, more)) in
      omega (arith, room, inside)

  next_item-InLoops : (l : Burst) → l.b < batches → InLoops l → InLoops (next_item size l)
  next_item-InLoops l more (inside, within) =
      let before = items_before-InLoops l more (inside, within) in
      (next_inside, omega (arith, before, items_before-next_item size l))
    where
      next_inside : (next_item size l).i < size
      next_inside = elim (Bool-cases (l.i + 1 == size)) [
        | inl last ↦ rw last (omega (arith, inside))
        | inr not_last ↦ rw not_last (grind (arith, inside, not_last))
      ]

  in_batch : (l : Burst) → items_before size l < batches * size → l.b < batches
  in_batch l before = elim (Bool-cases (ltb l.b batches)) [
    | inl below ↦ ltb→lt l.b batches below
    | inr past ↦
        let all : batches * size ≤ l.b * size = mul-le-mul_right size (ground (arith, past)) in
        omega (arith, before, all)
  ]

  no_more : (l : Burst) → InLoops l → l.b ≤ batches
  no_more l (inside, within) = elim (Bool-cases (ltb batches l.b)) [
    | inr not_past ↦ ground (arith, not_past)
    | inl past ↦
        let all : (batches + 1) * size ≤ l.b * size =
          mul-le-mul_right size (ground (arith, past)) in
        omega (arith, inside, within, all)
  ]

module _ (bound batches size : ℕ) (elapsed : ℕ → ℕ) where
  abbrev P : Worker
  P = producer_burst batches size

  abbrev C : Worker
  C = consumer_burst batches size elapsed

  abbrev pub InBatches : List ℕ → List ℕ → Burst → Timed → Type 0
  InBatches xs ys p c =
      (ys ≡ [])
      × Between size c.at p xs
      × InLoops batches size p
      × InLoops batches size c.at
      × (c.times ≡ batch_times elapsed c.at.b)

  timed :
      (l : Timed)
      → l.times ≡ batch_times elapsed l.at.b
      → (if l.at.i + 1 == size then elapsed l.at.b ∷ l.times else l.times)
        ≡ batch_times elapsed (next_item size l.at).b
  timed l e = elim (Bool-cases (l.at.i + 1 == size)) [
    | inl last ↦
        let next : suc l.at.b ≡ l.at.b + 1 = omega arith in
        rw (last, e) (ap (batch_times elapsed) next)
    | inr not_last ↦ rw not_last e
  ]

  pub burst_first : (ys : List ℕ) → Keeps P C bound (λ xs p c. InBatches xs ys p c)
  burst_first ys = record {
    when_sent = λ x xs p c act room (none_back, seq, p_in, c_in, times).
        let (below, is) = if_send (ltb p.b batches) p.i x act in
        (
          none_back,
          rw is (Between-append size c.at p xs seq),
          next_item-InLoops batches size p (ltb→lt p.b batches below) p_in,
          c_in,
          times,
        );
    when_refused = λ x xs p c act h. h;
    when_received = λ x xs p c act (none_back, (is, seq), p_in, c_in, times).
        let below = if_receive (ltb c.at.b batches) act in
        (
          none_back,
          seq,
          p_in,
          next_item-InLoops batches size c.at (ltb→lt c.at.b batches below) c_in,
          timed c times,
        );
    when_missed = λ xs p c act h. h;
  }

  pub burst_second : (xs : List ℕ) → Keeps C P bound (λ ys c p. InBatches xs ys p c)
  burst_second xs = record {
    when_sent = λ x ys c p act. absurd (never_sends (ltb c.at.b batches) x act);
    when_refused = λ x ys c p act. absurd (never_sends (ltb c.at.b batches) x act);
    when_received = λ x ys c p act. absurd (never_receives (ltb p.b batches) p.i act);
    when_missed = λ ys c p act. absurd (never_receives (ltb p.b batches) p.i act);
  }

  abbrev pub burst_contract : 0 < size → Contract P C bound
  burst_contract some_size = record {
    Holds = InBatches;
    holds_first = (refl, refl, (some_size, omega arith), (some_size, omega arith), refl);
    keeps_first = burst_first;
    keeps_second = burst_second;
  }

  pub burst_CanGoOn :
      0 < bound
      → (xs ys : List ℕ) (p : Burst) (c : Timed) → length xs ≤ bound
      → length ys ≤ bound
      → InBatches xs ys p c
      → CanGoOn P C bound xs ys p c
  burst_CanGoOn room [] ys p c few back (none_back, same, p_in, c_in, times) =
      elim (Bool-cases (ltb p.b batches)) [
        | inl more ↦ sends_first p.i (rw more refl) (omega arith)
        | inr over ↦ ended (rw over refl) (rw (ap (λ l. l.b) same, over) refl)
      ]
  burst_CanGoOn room (x ∷ xs) ys p c few back (none_back, seq, p_in, c_in, times) =
      let counts = Between-length size c.at p (x ∷ xs) seq in
      let below = in_batch batches size c.at (omega (arith, counts, p_in.1)) in
      receives_first x xs (rw (lt→ltb c.at.b batches below) refl) refl

pub batch_times-length : (elapsed : ℕ → ℕ) (k : ℕ) → length (batch_times elapsed k) ≡ k
batch_times-length elapsed zero = refl
batch_times-length elapsed (suc k) = omega (arith, batch_times-length elapsed k)

-- Batches of one item or more arrive whole and in order, over any concurrent queue: the queue,
-- which shows its items, holds what the producer has sent and the consumer not yet taken, at each
-- place the index in its batch; and `times` has the time of each batch that the consumer has
-- taken, the newest first, of which there are never more than `batches`.
pub bursts_in_order :
    {bound : ℕ} (Q : ConcurrentQueue ℕ bound) (batches size : ℕ) (elapsed : ℕ → ℕ)
    → 0 < size
    → {s : System Q.State (producer_burst batches size) (consumer_burst batches size elapsed)}
    → SystemReach Q (producer_burst batches size) (consumer_burst batches size elapsed) s
    → ((c0 : Channel ℕ) × (Q.Shows s.q0 c0 × Between size s.c.at s.p c0.items))
      × (s.c.times ≡ batch_times elapsed s.c.at.b)
      × (s.c.at.b ≤ batches)
bursts_in_order {bound} Q batches size elapsed some_size {s} r =
    let inv =
      SystemReach-Inv Q (producer_burst batches size) (consumer_burst batches size elapsed)
        (burst_contract bound batches size elapsed some_size) r in
    let (none_back, seq, p_in, c_in, times) = inv.holds in
    ((inv.c0, (inv.shows0, seq)), times, no_more batches size s.c.at c_in)

-- Batches never block for good, over any concurrent queue with room for an item: in every reachable state
-- both workers have returned, or the queue, which shows its items, has room for the next item of the
-- producer or an item for the consumer.
pub bursts-GoesOn :
    {bound : ℕ} (Q : ConcurrentQueue ℕ bound) (batches size : ℕ) (elapsed : ℕ → ℕ)
    → 0 < bound
    → 0 < size
    → {s : System Q.State (producer_burst batches size) (consumer_burst batches size elapsed)}
    → SystemReach Q (producer_burst batches size) (consumer_burst batches size elapsed) s
    → GoesOn Q (producer_burst batches size) (consumer_burst batches size elapsed) s
bursts-GoesOn {bound} Q batches size elapsed room some_size r =
    SystemReach-GoesOn Q (producer_burst batches size) (consumer_burst batches size elapsed)
      (burst_contract bound batches size elapsed some_size)
      (burst_CanGoOn bound batches size elapsed room) r
