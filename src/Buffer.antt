-- ===== src/Buffer.antt =====
-- experiments/move_semantics.cpp: `Buffer`, an array of ints with the five special members. The objects
-- of the class are numbered variables of the program. An int that `new int[n]` leaves without a value is
-- `none`. A call that faults (a double delete, a copy out of an array's bounds) is `none`.
pub mod Owns
pub mod Copies
pub mod Moves
pub mod Main
pub mod Calls
use market_data_pipeline.Base.{
  ℕ, zero, suc, Bool, true, false, Option, none, some, List, [], ◌∷◌, ◌++◌, ◌==◌, leb,
  if◌then◌else◌, length, replicate,
}
use market_data_pipeline.Memory.{Ptr, null, Memory, ◌>>=◌, update, allocate, free, load, assign}

abbrev pub Var : Type 0
Var = ℕ

abbrev pub Array : Type 0
Array = List (Option ℕ)

-- `data` and `size` of each variable, which are constructed and not destroyed, and the free store.
pub record Program : Type 0 where
  pub data_of : Var → Ptr
  pub size_of : Var → ℕ
  pub alive : Var → Bool
  pub memory : Memory Array

-- `std::copy` of the first `n` ints of an array to the start of another.
unfoldable pub copy_ints : ℕ → Array → Array → Option Array
copy_ints zero from to = some to
copy_ints (suc n) [] to = none
copy_ints (suc n) (x ∷ from) [] = none
copy_ints (suc n) (x ∷ from) (_ ∷ to) = do rest ← copy_ints n from to; some (x ∷ rest)

-- `data = new int[size]; std::copy(other.data, other.data + size, data);` with the address of the new
-- array. Nothing is read when `size` is 0.
unfoldable pub copy_array : ℕ → Ptr → Memory Array → Option (Ptr × Memory Array)
copy_array n from m =
    let made : Ptr × Memory Array = allocate (replicate n none) m in
    if n == 0 then some made else (do
      source ← load from made.1
      filled ← copy_ints n source (replicate n none)
      m' ← assign made.0 filled made.1
      some (made.0, m'))

-- `v` holds the array at `p`, of size `n`.
unfoldable pub hold : Var → Ptr → ℕ → Memory Array → Program → Program
hold v p n m s = record s {
  data_of = update s.data_of v p;
  size_of = update s.size_of v n;
  memory = m;
}

-- `Buffer(size_t n)`
unfoldable pub construct : Var → ℕ → Program → Program
construct v n s =
    let (p, m) = allocate (replicate n none) s.memory in
    hold v p n m (record s { alive = update s.alive v true })

-- `~Buffer()`
unfoldable pub destroy : Var → Program → Option Program
destroy v s = do
  m ← free (s.data_of v) s.memory
  some (record s { size_of = update s.size_of v 0; alive = update s.alive v false; memory = m })

-- `Buffer(const Buffer& other)`
unfoldable pub copy_construct : Var → Var → Program → Option Program
copy_construct v other s = do
  made ← copy_array (s.size_of other) (s.data_of other) s.memory
  some (hold v made.0 (s.size_of other) made.1 (record s { alive = update s.alive v true }))

-- `operator=(const Buffer& other)`
unfoldable pub copy_assign : Var → Var → Program → Option Program
copy_assign v other s = if v == other then some s else (do
  m ← free (s.data_of v) s.memory
  made ← copy_array (s.size_of other) (s.data_of other) m
  some (hold v made.0 (s.size_of other) made.1 s))

-- `Buffer(Buffer&& other)`
unfoldable pub move_construct : Var → Var → Program → Program
move_construct v other s = hold other null 0 s.memory (
    hold v (s.data_of other) (s.size_of other) s.memory
      (record s { alive = update s.alive v true }))

-- `operator=(Buffer&& other)`
unfoldable pub move_assign : Var → Var → Program → Option Program
move_assign v other s = if v == other then some s else (do
  m ← free (s.data_of v) s.memory
  some (hold other null 0 m (hold v (s.data_of other) (s.size_of other) m s)))
