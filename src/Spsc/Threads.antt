-- ===== src/Spsc/Threads.antt =====
-- spsc/SpscQueue.h under its two threads: `try_push` and `try_pop` one access to shared memory at a
-- time, in any interleaving, with the memory orders that the source names (`Atomics`).
-- The producer alone uses `head_cache_` and stores `tail_`; the consumer alone uses `tail_cache_`
-- and stores `head_`. A step is an access together with the tests on thread-local values after it.
pub mod Inv
mod Slots
pub mod Push
pub mod Pop
pub mod Safety
pub mod Calls
pub mod Now
pub mod Progress
pub mod Live
pub mod Size
pub mod Refine
use Prim.Native.Nat.{bit_and}
use market_data_pipeline.Base.{
  ℕ, ◌+◌, ◌≤◌, ◌<◌, ◌≡◌, Bool, true, false, List, [], ◌∷◌, ◌++◌, ◌==◌, leb, ltb, ◌&&◌, ◌||◌, not,
  if◌then◌else◌,
}
use market_data_pipeline.Base.Word.{add_size, sub_size}
use market_data_pipeline.Spsc.{slot_index}
use market_data_pipeline.Atomics.{Order, Location, Message, Thread, initial_location, learnt, store}

-- A slot of the array, with the clocks of the last write and of the last read.
pub record Slot {ℓ} (T : Type ℓ) : Type ℓ where
  pub value : T
  pub written_at : ℕ
  pub read_at : ℕ

-- Where the producer stands in `try_push(item)`, with `t` once it is loaded.
pub data PushAt {ℓ} (T : Type ℓ) : Type ℓ where
  outside : PushAt T
  reload_head : (item : T) (t : ℕ) → PushAt T
  write_slot : (item : T) (t : ℕ) → PushAt T
  store_tail : (item : T) (t : ℕ) → PushAt T

-- Where the consumer stands in `try_pop(out)`, with `h` once it is loaded.
pub data PopAt {ℓ} (T : Type ℓ) : Type ℓ where
  outside : PopAt T
  reload_tail : (h : ℕ) → PopAt T
  read_slot : (h : ℕ) → PopAt T
  store_head : (out : T) (h : ℕ) → PopAt T

-- `undefined` tells whether a data race or an access outside the array has happened.
pub record State {ℓ} (T : Type ℓ) : Type ℓ where
  pub head : Location
  pub tail : Location
  pub slots : ℕ → Slot T
  pub head_cache : ℕ
  pub tail_cache : ℕ
  pub producer : Thread
  pub consumer : Thread
  pub push_at : PushAt T
  pub pop_at : PopAt T
  pub undefined : Bool

-- What a step lets the outside see: that a call began, and what a call returned.
pub data Event {ℓ} (T : Type ℓ) : Type ℓ where
  silent : Event T
  push_called : T → Event T
  push_done : T → Event T
  push_refused : Event T
  pop_called : Event T
  pop_done : T → Event T
  pop_refused : Event T

-- The items of the successful calls, oldest first.
pub record History {ℓ} (T : Type ℓ) : Type ℓ where
  pub pushed : List T
  pub popped : List T

abbrev pub idle_thread : Thread
idle_thread = record { clock = 0; known = 0; seen_head = 0; seen_tail = 0 }

module _ {ℓ} {T : Type ℓ} where
  -- A new queue whose array holds `junk`, before either thread has made a call.
  abbrev pub initial : (ℕ → T) → State T
  initial junk = record {
    head = initial_location;
    tail = initial_location;
    slots = λ i. record { value = junk i; written_at = 0; read_at = 0 };
    head_cache = 0;
    tail_cache = 0;
    producer = idle_thread;
    consumer = idle_thread;
    push_at = PushAt.outside;
    pop_at = PopAt.outside;
    undefined = false;
  }

  abbrev pub put_slot : (ℕ → Slot T) → ℕ → Slot T → ℕ → Slot T
  put_slot slots i c j = if j == i then c else slots j

  -- `const auto t = tail_.load(relaxed); if (t - head_cache_ == Capacity)`, message `k` being read.
  unfoldable pub load_tail_own : ℕ → T → ℕ → State T → State T
  load_tail_own capacity item k s =
      let t : ℕ = (s.tail.message k).value in
      record s {
        producer = record (s.producer) {
          seen_tail = k;
          known = learnt Order.relaxed s.producer.known (s.tail.message k).clock;
        };
        push_at =
            if sub_size t s.head_cache == capacity
            then PushAt.reload_head item t
            else PushAt.write_slot item t;
      }

  -- `head_cache_ = head_.load(acquire); if (t - head_cache_ == Capacity) return false;`
  unfoldable pub load_head : ℕ → T → ℕ → ℕ → State T → State T
  load_head capacity item t k s =
      let h : ℕ = (s.head.message k).value in
      record s {
        head_cache = h;
        producer = record (s.producer) {
          seen_head = k;
          known = learnt Order.acquire s.producer.known (s.head.message k).clock;
        };
        push_at = if sub_size t h == capacity then PushAt.outside else PushAt.write_slot item t;
      }

  -- `buf_[t & (Capacity - 1)].value = item;`
  unfoldable pub write_buf : ℕ → T → ℕ → State T → State T
  write_buf capacity item t s =
      let i : ℕ = slot_index capacity t in
      record s {
        slots = put_slot s.slots i (record {
          value = item;
          written_at = s.producer.clock + 1;
          read_at = (s.slots i).read_at;
        });
        producer = record (s.producer) { clock = s.producer.clock + 1 };
        push_at = PushAt.store_tail item t;
        undefined = s.undefined || not (ltb i capacity && leb (s.slots i).read_at s.producer.known);
      }

  -- `tail_.store(t + 1, release); return true;`
  unfoldable pub publish_tail : ℕ → State T → State T
  publish_tail t s = record s {
    tail = store Order.release (add_size t 1) s.producer.clock s.tail;
    producer = record (s.producer) { seen_tail = s.tail.newest + 1 };
    push_at = PushAt.outside;
  }

  -- `const auto h = head_.load(relaxed); if (h == tail_cache_)`
  unfoldable pub load_head_own : ℕ → State T → State T
  load_head_own k s =
      let h : ℕ = (s.head.message k).value in
      record s {
        consumer = record (s.consumer) {
          seen_head = k;
          known = learnt Order.relaxed s.consumer.known (s.head.message k).clock;
        };
        pop_at = if h == s.tail_cache then PopAt.reload_tail h else PopAt.read_slot h;
      }

  -- `tail_cache_ = tail_.load(acquire); if (h == tail_cache_) return false;`
  unfoldable pub load_tail : ℕ → ℕ → State T → State T
  load_tail h k s =
      let t : ℕ = (s.tail.message k).value in
      record s {
        tail_cache = t;
        consumer = record (s.consumer) {
          seen_tail = k;
          known = learnt Order.acquire s.consumer.known (s.tail.message k).clock;
        };
        pop_at = if h == t then PopAt.outside else PopAt.read_slot h;
      }

  -- `out = buf_[h & (Capacity - 1)].value;`
  unfoldable pub read_buf : ℕ → ℕ → State T → State T
  read_buf capacity h s =
      let i : ℕ = slot_index capacity h in
      record s {
        slots = put_slot s.slots i (record {
          value = (s.slots i).value;
          written_at = (s.slots i).written_at;
          read_at = s.consumer.clock + 1;
        });
        consumer = record (s.consumer) { clock = s.consumer.clock + 1 };
        pop_at = PopAt.store_head (s.slots i).value h;
        undefined =
            s.undefined || not (ltb i capacity && leb (s.slots i).written_at s.consumer.known);
      }

  -- `head_.store(h + 1, release); return true;`
  unfoldable pub publish_head : ℕ → State T → State T
  publish_head h s = record s {
    head = store Order.release (add_size h 1) s.consumer.clock s.head;
    consumer = record (s.consumer) { seen_head = s.head.newest + 1 };
    pop_at = PopAt.outside;
  }

  abbrev pub push_event : PushAt T → Event T
  push_event PushAt.outside = push_refused
  push_event _ = silent

  abbrev pub pop_event : PopAt T → Event T
  pop_event PopAt.outside = pop_refused
  pop_event _ = silent

  -- A step of either thread. A load chooses the message `k` that it reads.
  pub data Step (capacity : ℕ) (s : State T) : Event T → State T → Type ℓ where
    push_call :
        (item : T) (k : ℕ)
        → s.push_at ≡ PushAt.outside
        → s.producer.seen_tail ≤ k
        → k ≤ s.tail.newest
        → Step capacity s (push_called item) (load_tail_own capacity item k s)
    push_reload :
        {item : T} {t : ℕ} (k : ℕ)
        → s.push_at ≡ PushAt.reload_head item t
        → s.producer.seen_head ≤ k
        → k ≤ s.head.newest
        → Step capacity s
            (push_event (load_head capacity item t k s).push_at)
            (load_head capacity item t k s)
    push_write :
        {item : T} {t : ℕ}
        → s.push_at ≡ PushAt.write_slot item t
        → Step capacity s silent (write_buf capacity item t s)
    push_publish :
        {item : T} {t : ℕ}
        → s.push_at ≡ PushAt.store_tail item t
        → Step capacity s (push_done item) (publish_tail t s)
    pop_call :
        (k : ℕ)
        → s.pop_at ≡ PopAt.outside
        → s.consumer.seen_head ≤ k
        → k ≤ s.head.newest
        → Step capacity s pop_called (load_head_own k s)
    pop_reload :
        {h : ℕ} (k : ℕ)
        → s.pop_at ≡ PopAt.reload_tail h
        → s.consumer.seen_tail ≤ k
        → k ≤ s.tail.newest
        → Step capacity s (pop_event (load_tail h k s).pop_at) (load_tail h k s)
    pop_read :
        {h : ℕ} → s.pop_at ≡ PopAt.read_slot h → Step capacity s silent (read_buf capacity h s)
    pop_publish :
        {out : T} {h : ℕ}
        → s.pop_at ≡ PopAt.store_head out h
        → Step capacity s (pop_done out) (publish_head h s)

  abbrev pub record_event : History T → Event T → History T
  record_event t (push_done x) = record { pushed = t.pushed ++ x ∷ []; popped = t.popped }
  record_event t (pop_done x) = record { pushed = t.pushed; popped = t.popped ++ x ∷ [] }
  record_event t _ = t

  pub data Reach (capacity : ℕ) (junk : ℕ → T) : State T → History T → Type ℓ where
    start : Reach capacity junk (initial junk) (record { pushed = []; popped = [] })
    later :
        {s s' : State T} {t : History T} {e : Event T}
        → Reach capacity junk s t
        → Step capacity s e s'
        → Reach capacity junk s' (record_event t e)
