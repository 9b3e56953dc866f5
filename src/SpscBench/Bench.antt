-- ===== src/SpscBench/Bench.antt =====
-- `producer_bench_thread` and `consumer_bench_thread` of bench/spsc_bench.cpp, over any concurrent queue. An
-- item is a struct of one `int`, given here by it.
use market_data_pipeline.Base.{
  ℕ, ◌+◌, ◌<◌, ◌≤◌, ◌≡◌, ◌≢◌, inl, inr, refl, ◌∙◌, Option, none, some, List, [], length, length-set,
  length-replicate, set, replicate, get_elem?, get_elem?-set_self, get_elem?-set_ne, ltb,
  if◌then◌else◌, arith, Bool-cases, ltb→lt, ◌==◌, ==_iff,
}
use market_data_pipeline.Channel.{ConcurrentQueue}
use market_data_pipeline.SpscBench.{to_int}
use market_data_pipeline.HeadToHead.{send, receive, stop, Worker}
use market_data_pipeline.HeadToHead.Loops.{
  InSequence, InSequence-append, InSequence-length, if_send, if_receive, never_receives,
  never_sends,
}
use market_data_pipeline.HeadToHead.System.{Keeps, System, SystemReach}
use market_data_pipeline.HeadToHead.Contract.{Contract, SystemReach-Inv}

-- `producer_bench_thread<T>(n, queue_)`
abbrev pub producer_bench_thread : ℕ → Worker
producer_bench_thread n = record {
  Local = ℕ;
  begin = 0;
  action = λ i. if ltb i n then send (to_int i) else stop;
  sent = λ pushed i. if pushed then i + 1 else i;
  received = λ _ i. i;
}

-- The loop variable of `consumer_bench_thread`, and the array that it fills.
pub record Stamped : Type 0 where
  pub i : ℕ
  pub timestamps : List ℕ

-- `now k` is the clock when item `k` has arrived.
abbrev pub stamp : (ℕ → ℕ) → Option ℕ → Stamped → Stamped
stamp now none l = l
stamp now (some out) l = record { i = l.i + 1; timestamps = set l.timestamps l.i (now l.i) }

-- `consumer_bench_thread<T>(n, queue_, timestamps)`, with the array of `n` zeros of `run_benchmark`.
abbrev pub consumer_bench_thread : (ℕ → ℕ) → ℕ → Worker
consumer_bench_thread now n = record {
  Local = Stamped;
  begin = record { i = 0; timestamps = replicate n 0 };
  action = λ l. if ltb l.i n then receive else stop;
  sent = λ _ l. l;
  received = stamp now;
}

module _ (now : ℕ → ℕ) (bound n : ℕ) where
  abbrev P : Worker
  P = producer_bench_thread n

  abbrev C : Worker
  C = consumer_bench_thread now n

  -- The array has the times of the items that have arrived.
  pub record Filled (c : Stamped) : Type 0 where
    pub size : length c.timestamps ≡ n
    pub times : (k : ℕ) → k < c.i → get_elem? c.timestamps k ≡ some (now k)

  abbrev pub InBench : List ℕ → List ℕ → ℕ → Stamped → Type 0
  InBench xs ys p c = (ys ≡ []) × InSequence to_int c.i p xs × (p ≤ n) × Filled c

  stamp-Filled : (out : ℕ) (c : Stamped) → c.i < n → Filled c → Filled (stamp now (some out) c)
  stamp-Filled out c more filled = record {
    size = length-set c.timestamps c.i (now c.i) ∙ filled.size;
    times = filled_times;
  }
    where
      filled_times :
          (k : ℕ) → k < c.i + 1 → get_elem? (set c.timestamps c.i (now c.i)) k ≡ some (now k)
      filled_times k below = elim (Bool-cases (k == c.i)) [
        | inl is ↦
            let same : k ≡ c.i = (==_iff k c.i).0 is in
            rw same
              (get_elem?-set_self c.timestamps c.i (now c.i) (omega (arith, more, filled.size)))
        | inr not_is ↦
            let other : c.i ≢ k = λ e. ground (arith, not_is, e) in
            get_elem?-set_ne c.timestamps c.i k (now c.i) other
            ∙ filled.times k (ground (arith, not_is))
      ]

  pub bench_first : (ys : List ℕ) → Keeps P C bound (λ xs p c. InBench xs ys p c)
  bench_first ys = record {
    when_sent = λ x xs p c act room (none_back, seq, le, filled).
        let (below, is) = if_send (ltb p n) (to_int p) x act in
        (none_back, rw is (InSequence-append to_int c.i p xs seq), ground (arith, below), filled);
    when_refused = λ x xs p c act h. h;
    when_received = λ x xs p c act (none_back, (is, seq), le, filled).
        let below = if_receive (ltb c.i n) act in
        (none_back, seq, le, stamp-Filled x c (ltb→lt c.i n below) filled);
    when_missed = λ xs p c act h. h;
  }

  pub bench_second : (xs : List ℕ) → Keeps C P bound (λ ys c p. InBench xs ys p c)
  bench_second xs = record {
    when_sent = λ x ys c p act. absurd (never_sends (ltb c.i n) x act);
    when_refused = λ x ys c p act. absurd (never_sends (ltb c.i n) x act);
    when_received = λ x ys c p act. absurd (never_receives (ltb p n) (to_int p) act);
    when_missed = λ ys c p act. absurd (never_receives (ltb p n) (to_int p) act);
  }

  abbrev pub bench_contract : Contract P C bound
  bench_contract = record {
    Holds = InBench;
    holds_first = (
      refl,
      refl,
      omega arith,
      record { size = length-replicate n 0; times = λ k below. absurd (omega (arith, below)) },
    );
    keeps_first = bench_first;
    keeps_second = bench_second;
  }

-- The timestamps, over any concurrent queue: in every reachable state the array still has `n` places, and in
-- each place before the consumer's index stands the time at which that item arrived; the index
-- is at most the number of items sent, and that is at most `n`.
pub timestamps_filled :
    {bound : ℕ} (Q : ConcurrentQueue ℕ bound) (now : ℕ → ℕ) (n : ℕ)
    → {s : System Q.State (producer_bench_thread n) (consumer_bench_thread now n)}
    → SystemReach Q (producer_bench_thread n) (consumer_bench_thread now n) s
    → (length s.c.timestamps ≡ n)
      × (s.c.i ≤ s.p)
      × (s.p ≤ n)
      × ((k : ℕ) → k < s.c.i → get_elem? s.c.timestamps k ≡ some (now k))
timestamps_filled {bound} Q now n {s} r =
    let inv =
      SystemReach-Inv Q (producer_bench_thread n) (consumer_bench_thread now n)
        (bench_contract now bound n) r in
    let (none_back, seq, le, filled) = inv.holds in
    let counts = InSequence-length to_int s.c.i s.p inv.c0.items seq in
    (filled.size, omega (arith, counts), le, filled.times)
