-- ===== src/Spsc/Threads/Inv.antt =====
-- What holds between any two steps of the two threads of a queue. In comments `H` and `T` are the
-- numbers of stores to `head_` and `tail_`, that is of successful calls of `try_pop` and `try_push`.
use market_data_pipeline.Base.{
  ℕ, ◌+◌, ◌-◌, ◌%◌, ◌≤◌, ◌<◌, ◌≡◌, refl, false, some, List, [], ◌∷◌, ◌++◌, arith, length, get_elem?,
  dec_lt, get_elem?-append_left,
}
use market_data_pipeline.Base.Word.{word}
use market_data_pipeline.Atomics.{
  Order, Location, Message, Thread, store, store-newest, store-older,
}
use market_data_pipeline.Spsc.Threads.{Slot, PushAt, PopAt, State, History, initial}

-- Message `k` of a location holds index `k`, wrapped, and was stored after `k` accesses.
abbrev pub IsMessage : ℕ → Message → Type 0
IsMessage k m = (m.value ≡ word k) × (k ≤ m.clock)

-- A store of the next index, by a thread that has made enough accesses.
pub store-IsMessage :
    (l : Location) (value clock : ℕ)
    → ((k : ℕ) → k ≤ l.newest → IsMessage k (l.message k))
    → value ≡ word (l.newest + 1)
    → l.newest + 1 ≤ clock
    → (k : ℕ) → k ≤ l.newest + 1
    → IsMessage k ((store Order.release value clock l).message k)
store-IsMessage l value clock old is enough k le = elim (dec_lt k (l.newest + 1)) [
  | yes before ↦ rw (store-older Order.release value clock l k (omega arith)) (old k (omega arith))
  | no last ↦
      let e : k ≡ l.newest + 1 = omega arith in
      rw (e, (store-newest Order.release value clock l).1) (is, enough)
]

pub record Indices (capacity : ℕ) (head tail : Location) (producer consumer : Thread)
    (head_cache tail_cache : ℕ) : Type 0 where
  pub own_tail : producer.seen_tail ≡ tail.newest
  pub own_head : consumer.seen_head ≡ head.newest
  pub head_lags : producer.seen_head ≤ head.newest
  pub head_behind : head.newest ≤ consumer.seen_tail
  pub tail_lags : consumer.seen_tail ≤ tail.newest
  pub room : tail.newest ≤ producer.seen_head + capacity
  pub head_cache_is : head_cache ≡ word producer.seen_head
  pub tail_cache_is : tail_cache ≡ word consumer.seen_tail
  pub knows_pops : producer.seen_head ≤ producer.known
  pub knows_pushes : consumer.seen_tail ≤ consumer.known
  pub tails : (k : ℕ) → k ≤ tail.newest → IsMessage k (tail.message k)
  pub heads : (k : ℕ) → k ≤ head.newest → IsMessage k (head.message k)

module _ {ℓ} {T : Type ℓ} where
  -- The counters behind the producer's locals: `pushes` is `T`, `seen` the head that it has seen.
  abbrev pub Pushing : (capacity pushes clock seen : ℕ) → PushAt T → Type 0
  Pushing capacity pushes clock seen PushAt.outside = clock ≡ pushes
  Pushing capacity pushes clock seen (PushAt.reload_head item t) =
      (t ≡ word pushes) × (clock ≡ pushes)
  Pushing capacity pushes clock seen (PushAt.write_slot item t) =
      (t ≡ word pushes) × (clock ≡ pushes) × (pushes < seen + capacity)
  Pushing capacity pushes clock seen (PushAt.store_tail item t) =
      (t ≡ word pushes) × (clock ≡ pushes + 1) × (pushes < seen + capacity)

  -- The counters behind the consumer's locals: `pops` is `H`, `seen` the tail that it has seen.
  abbrev pub Popping : (pops clock seen : ℕ) → PopAt T → Type 0
  Popping pops clock seen PopAt.outside = clock ≡ pops
  Popping pops clock seen (PopAt.reload_tail h) = (h ≡ word pops) × (clock ≡ pops)
  Popping pops clock seen (PopAt.read_slot h) = (h ≡ word pops) × (clock ≡ pops) × (pops < seen)
  Popping pops clock seen (PopAt.store_head out h) =
      (h ≡ word pops) × (clock ≡ pops + 1) × (pops < seen)

  -- The item written and not yet published is in its slot.
  abbrev pub Written : (slots : ℕ → Slot T) (capacity pushes : ℕ) → PushAt T → Type ℓ
  Written slots capacity pushes (PushAt.store_tail item t) =
      ((slots (pushes % capacity)).value ≡ item)
      × ((slots (pushes % capacity)).written_at ≤ pushes + 1)
  Written slots capacity pushes _ = Unit

  -- The item read and not yet returned is the next one in order.
  abbrev pub Fetched : (pushed : List T) (pops : ℕ) → PopAt T → Type ℓ
  Fetched pushed pops (PopAt.store_head out h) = get_elem? pushed pops ≡ some out
  Fetched pushed pops _ = Unit

  -- The slots of the items between `H` and `T`, and what was last read from each slot: `reads` is the
  -- consumer's clock.
  pub record Items (capacity : ℕ) (slots : ℕ → Slot T) (pops pushes reads : ℕ) (pushed : List T)
      : Type ℓ where
    pub stored :
        (k : ℕ) → pops ≤ k → k < pushes → get_elem? pushed k ≡ some (slots (k % capacity)).value
    pub written : (k : ℕ) → pops ≤ k → k < pushes → (slots (k % capacity)).written_at ≤ k + 1
    pub read_before :
        (k : ℕ)
        → reads ≤ k
        → k < reads + capacity
        → (slots (k % capacity)).read_at ≤ k + 1 - capacity

  pub record Log (pops pushes : ℕ) (t : History T) : Type ℓ where
    pub count_pushed : length t.pushed ≡ pushes
    pub count_popped : length t.popped ≡ pops
    pub rest : List T
    pub in_order : t.pushed ≡ t.popped ++ rest

  pub record Inv (capacity : ℕ) (s : State T) (t : History T) : Type ℓ where
    pub indices : Indices capacity s.head s.tail s.producer s.consumer s.head_cache s.tail_cache
    pub pushing : Pushing capacity s.tail.newest s.producer.clock s.producer.seen_head s.push_at
    pub popping : Popping s.head.newest s.consumer.clock s.consumer.seen_tail s.pop_at
    pub written : Written s.slots capacity s.tail.newest s.push_at
    pub fetched : Fetched t.pushed s.head.newest s.pop_at
    pub items : Items capacity s.slots s.head.newest s.tail.newest s.consumer.clock t.pushed
    pub log : Log s.head.newest s.tail.newest t
    pub defined : s.undefined ≡ false

  pub initial-Inv :
      (capacity : ℕ) (junk : ℕ → T)
      → Inv capacity (initial junk) (record { pushed = []; popped = [] })
  initial-Inv capacity junk = record {
    indices = record {
      own_tail = refl;
      own_head = refl;
      head_lags = omega arith;
      head_behind = omega arith;
      tail_lags = omega arith;
      room = omega arith;
      head_cache_is = refl;
      tail_cache_is = refl;
      knows_pops = omega arith;
      knows_pushes = omega arith;
      tails = λ k h. omega arith;
      heads = λ k h. omega arith;
    };
    pushing = refl;
    popping = refl;
    written = tt;
    fetched = tt;
    items = record {
      stored = λ k le lt. absurd (omega arith);
      written = λ k le lt. absurd (omega arith);
      read_before = λ k le lt. omega arith;
    };
    log = record { count_pushed = refl; count_popped = refl; rest = []; in_order = refl };
    defined = refl;
  }

  -- The consumer's clock is between `H` and what it has seen of `T`.
  pub Popping-clock :
      (pops clock seen : ℕ) (a : PopAt T)
      → pops ≤ seen
      → Popping pops clock seen a
      → (pops ≤ clock) × (clock ≤ seen)
  Popping-clock pops clock seen PopAt.outside h p = omega arith
  Popping-clock pops clock seen (PopAt.reload_tail _) h p = omega arith
  Popping-clock pops clock seen (PopAt.read_slot _) h p = omega arith
  Popping-clock pops clock seen (PopAt.store_head _ _) h p = omega arith

  -- An item read stays the next one in order when another is published.
  pub Fetched-append :
      (pushed : List T) (pops clock seen : ℕ) (item : T) (a : PopAt T)
      → seen ≤ length pushed
      → Popping pops clock seen a
      → Fetched pushed pops a
      → Fetched (pushed ++ item ∷ []) pops a
  Fetched-append pushed pops clock seen item PopAt.outside h p f = tt
  Fetched-append pushed pops clock seen item (PopAt.reload_tail _) h p f = tt
  Fetched-append pushed pops clock seen item (PopAt.read_slot _) h p f = tt
  Fetched-append pushed pops clock seen item (PopAt.store_head out at) h p f =
      rw (get_elem?-append_left pushed (item ∷ []) pops (omega arith)) f
