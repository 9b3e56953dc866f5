-- ===== src/UniquePtr.antt =====
-- experiments/unique_ptr.cpp: `UniquePtr<T>` and `make_unique`. The objects of the class are numbered
-- variables of the program; two names of one variable are the same number, so `this != &other` is
-- modelled. A call that faults (a double delete, a null or dangling pointer read) is `none`.
pub mod Owns
pub mod Calls
pub mod Misuse
pub mod Main
use market_data_pipeline.Base.{ℕ, Bool, true, false, Option, none, some, ◌==◌, if◌then◌else◌}
use market_data_pipeline.Memory.{Ptr, null, Memory, ◌>>=◌, update, allocate, free, load}

abbrev pub Var : Type 0
Var = ℕ

-- `ptr` of each variable, which of them are constructed and not destroyed, and the free store.
pub record Program {ℓ} (T : Type ℓ) : Type ℓ where
  pub ptr : Var → Ptr
  pub alive : Var → Bool
  pub memory : Memory T

module _ {ℓ} {T : Type ℓ} where
  -- `explicit UniquePtr(T* p)`
  unfoldable pub construct : Var → Ptr → Program T → Program T
  construct v p s = record s { ptr = update s.ptr v p; alive = update s.alive v true }

  -- `~UniquePtr()`
  unfoldable pub destroy : Var → Program T → Option (Program T)
  destroy v s = do
    m ← free (s.ptr v) s.memory
    some (record s { alive = update s.alive v false; memory = m })

  -- `UniquePtr(UniquePtr&& other)`
  unfoldable pub move_construct : Var → Var → Program T → Program T
  move_construct v other s = record s {
    ptr = update (update s.ptr v (s.ptr other)) other null;
    alive = update s.alive v true;
  }

  -- `operator=(UniquePtr&& other)`
  unfoldable pub move_assign : Var → Var → Program T → Option (Program T)
  move_assign v other s = if v == other then some s else (do
    m ← free (s.ptr v) s.memory
    some (record s { ptr = update (update s.ptr v (s.ptr other)) other null; memory = m }))

  unfoldable pub get : Var → Program T → Ptr
  get v s = s.ptr v

  -- The pointer returned, and the program after.
  unfoldable pub release : Var → Program T → Ptr × Program T
  release v s = (s.ptr v, record s { ptr = update s.ptr v null })

  unfoldable pub reset : Var → Ptr → Program T → Option (Program T)
  reset v p s = do
    m ← free (s.ptr v) s.memory
    some (record s { ptr = update s.ptr v p; memory = m })

  -- `operator*` and `operator->`, the object that they lead to.
  unfoldable pub dereference : Var → Program T → Option T
  dereference v s = load (s.ptr v) s.memory

  -- `make_unique<T>(args...)`, `x` being `T(args...)`, into variable `v`.
  unfoldable pub make_unique : Var → T → Program T → Program T
  make_unique v x s = let (p, m) = allocate x s.memory in construct v p (record s { memory = m })
