-- ===== src/Atomics.antt =====
-- The part of the C++ memory model that the lock-free code of the repository relies on: atomic
-- locations with one storing thread, stale loads, release and acquire, and races on plain memory.
--
-- A location keeps every message stored to it, in modification order. A load may return any message
-- that is no older than the newest one its thread has read or stored (coherence). Each thread counts
-- its accesses to plain memory; a release store puts that count into its message, a relaxed one
-- puts nothing, and an acquire load takes the count over. An access to plain memory races with an
-- earlier one of the other thread unless that one's count is known by then. There are two threads,
-- and each location is stored by one of them, so one count stands for what the reader learns.
use market_data_pipeline.Base.{ℕ, ◌+◌, ◌≤◌, ◌==◌, if◌then◌else◌, max, arith, ◌≡◌}

-- `std::memory_order`, as far as the code names it.
pub data Order : Type 0 where
  relaxed acquire release : Order

pub record Message : Type 0 where
  pub value : ℕ
  pub clock : ℕ

-- Messages `0` to `newest` are in the location.
pub record Location : Type 0 where
  pub newest : ℕ
  pub message : ℕ → Message

-- `clock` counts the thread's own accesses to plain memory, `known` those of the other thread that
-- it has learnt of. `seen_head` and `seen_tail` are the newest messages it has met in the two locations.
pub record Thread : Type 0 where
  pub clock : ℕ
  pub known : ℕ
  pub seen_head : ℕ
  pub seen_tail : ℕ

abbrev pub initial_location : Location
initial_location = record { newest = 0; message = λ _. record { value = 0; clock = 0 } }

abbrev pub published : Order → ℕ → ℕ
published Order.release clock = clock
published Order.acquire clock = 0
published Order.relaxed clock = 0

abbrev pub learnt : Order → ℕ → ℕ → ℕ
learnt Order.acquire known clock = max known clock
learnt Order.release known clock = known
learnt Order.relaxed known clock = known

-- `location.store(value, order)` by a thread whose clock is `clock`.
unfoldable pub store : Order → ℕ → ℕ → Location → Location
store order value clock l = record {
  newest = l.newest + 1;
  message = λ k.
      if k == l.newest + 1
      then record { value = value; clock = published order clock }
      else l.message k;
}

pub store-newest :
    (order : Order) (value clock : ℕ) (l : Location)
    → ((store order value clock l).newest ≡ l.newest + 1)
      × ((store order value clock l).message (l.newest + 1)
          ≡ record { value = value; clock = published order clock })
unfolding store
store-newest order value clock l = ground arith

pub store-older :
    (order : Order) (value clock : ℕ) (l : Location) (k : ℕ)
    → k ≤ l.newest
    → (store order value clock l).message k ≡ l.message k
unfolding store
store-older order value clock l k h = ground arith
