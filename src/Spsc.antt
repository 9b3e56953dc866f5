-- ===== src/Spsc.antt =====
-- spsc/SpscQueue.h, called by one thread at a time: the members of the class, `try_push`,
-- `try_pop`, `size` and `empty`. The threads of the real use are in `Spsc.Threads`.
-- `T` is the template's element type, `capacity` its `Capacity`. Indices are `std::size_t`.
pub mod Capacity
pub mod Holds
pub mod Push
pub mod Pop
pub mod Refine
pub mod Threads
use Prim.Native.Nat.{bit_and}
use market_data_pipeline.Base.{
  ℕ, Bool, true, false, Option, none, some, List, ◌==◌, ltb, if◌then◌else◌, length, get_elem?, set,
  replicate,
}
use market_data_pipeline.Base.Word.{add_size, sub_size}

pub record SpscQueue {ℓ} (T : Type ℓ) : Type ℓ where
  pub buf : List T
  pub head : ℕ
  pub tail_cache : ℕ
  pub tail : ℕ
  pub head_cache : ℕ

-- What `static_assert` lets pass.
unfoldable pub static_ok : ℕ → Bool
static_ok capacity = bit_and capacity (sub_size capacity 1) == 0

-- `t & (Capacity - 1)`
unfoldable pub slot_index : ℕ → ℕ → ℕ
slot_index capacity t = bit_and t (sub_size capacity 1)

module _ {ℓ} {T : Type ℓ} where
  -- A new queue. The array is not initialised by the class: it holds whatever `junk` is.
  unfoldable pub new_queue : List T → SpscQueue T
  new_queue junk = record { buf = junk; head = 0; tail_cache = 0; tail = 0; head_cache = 0 }

  -- An access outside the array is `none`.
  unfoldable pub write_slot : ℕ → SpscQueue T → ℕ → T → Option (Bool × SpscQueue T)
  write_slot capacity q t item =
      if ltb (slot_index capacity t) (length q.buf)
      then some
          (true, record q { buf = set q.buf (slot_index capacity t) item; tail = add_size t 1 })
      else none

  unfoldable pub try_push : ℕ → SpscQueue T → T → Option (Bool × SpscQueue T)
  try_push capacity q item =
      let t : ℕ = q.tail in
      if sub_size t q.head_cache == capacity
      then (let q' : SpscQueue T = record q { head_cache = q.head } in
          if sub_size t q'.head_cache == capacity
          then some (false, q')
          else write_slot capacity q' t item)
      else write_slot capacity q t item

  -- The result is what `out` is set to; `none` inside leaves it alone (the call returns false).
  unfoldable pub read_slot : ℕ → SpscQueue T → ℕ → Option (Option T × SpscQueue T)
  read_slot capacity q h = elim (get_elem? q.buf (slot_index capacity h)) [
    | none ↦ none
    | some x ↦ some (some x, record q { head = add_size h 1 })
  ]

  unfoldable pub try_pop : ℕ → SpscQueue T → Option (Option T × SpscQueue T)
  try_pop capacity q =
      let h : ℕ = q.head in
      if h == q.tail_cache
      then (let q' : SpscQueue T = record q { tail_cache = q.tail } in
          if h == q'.tail_cache then some (none, q') else read_slot capacity q' h)
      else read_slot capacity q h

  unfoldable pub size : SpscQueue T → ℕ
  size q = sub_size q.tail q.head

  unfoldable pub empty : SpscQueue T → Bool
  empty q = q.head == q.tail
