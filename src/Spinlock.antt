-- ===== src/Spinlock.antt =====
-- experiments/cas_spinlock.cpp: threads that increment one counter under a lock, a flag taken by
-- compare-and-exchange. A state holds the shared variables and where each thread stands; a step runs one
-- thread up to its next access. Threads are numbered from 0. The accesses are taken in one order, as the
-- acquire and release orders of the flag give for what stands between them; the time of a round is an
-- argument, `elapsed`, of the thread and its loop variable.
pub mod Exclusion
pub mod Total
pub mod Ends
pub mod Sampled
pub mod Report
use market_data_pipeline.Base.{
  ℕ, zero, suc, ◌+◌, ◌<◌, List, [], ◌∷◌, ◌++◌, Bool, true, false, ◌==◌, ◌&&◌, not, ltb,
  if◌then◌else◌,
}
use market_data_pipeline.Memory.{update}

-- Where a thread stands in `increment_counter`, with its loop variable `n`.
pub data Place : Type 0 where
  looping : ℕ → Place
  locking : ℕ → Place
  locked : ℕ → Place
  acquired : ℕ → Place
  adding : ℕ → Place
  unlocking : ℕ → Place
  leaving : Place
  finished : Place

pub record State : Type 0 where
  pub flag : Bool
  pub counter : ℕ
  pub acquisitions : ℕ → ℕ
  pub samples : ℕ → List ℕ
  pub place : ℕ → Place

abbrev pub initial : State
initial = record {
  flag = false;
  counter = 0;
  acquisitions = λ _. 0;
  samples = λ _. [];
  place = λ _. looping 0;
}

-- `if (counter == NUM_ROUND_TRIPS)`, the test under the lock
unfoldable pub check_counter : ℕ → ℕ → ℕ → Place
check_counter total counter n = if counter == total then leaving else acquired n

unfoldable pub advance : ℕ → (ℕ → ℕ → ℕ) → Bool → ℕ → Place → State → State
advance total elapsed ready t (looping n) s = record s {
  place = update s.place t (if ltb n total then locking n else finished);
}
advance total elapsed ready t (locking n) s =
    if ready && not s.flag then record s { flag = true; place = update s.place t (locked n) } else s
advance total elapsed ready t (locked n) s = record s {
  place = update s.place t (check_counter total s.counter n);
}
advance total elapsed ready t (acquired n) s = record s {
  acquisitions = update s.acquisitions t (s.acquisitions t + 1);
  place = update s.place t (adding n);
}
advance total elapsed ready t (adding n) s = record s {
  counter = s.counter + 1;
  place = update s.place t (unlocking n);
}
advance total elapsed ready t (unlocking n) s = record s {
  flag = false;
  samples = update s.samples t (s.samples t ++ elapsed t n ∷ []);
  place = update s.place t (looping (n + 1));
}
advance total elapsed ready t leaving s = record s {
  flag = false;
  place = update s.place t finished;
}
advance total elapsed ready t finished s = s

-- The next step of thread `t`, of a run up to `total`. `ready` is false where the exchange of a free flag
-- fails without a reason, as `compare_exchange_weak` may.
unfoldable pub step : ℕ → (ℕ → ℕ → ℕ) → Bool → ℕ → State → State
step total elapsed ready t s = advance total elapsed ready t (s.place t) s

-- The states that `threads` threads reach.
pub data Reach (total : ℕ) (elapsed : ℕ → ℕ → ℕ) (threads : ℕ) : State → Type 0 where
  start : Reach total elapsed threads initial
  after :
      (ready : Bool) (t : ℕ) {s : State}
      → t < threads
      → Reach total elapsed threads s
      → Reach total elapsed threads (step total elapsed ready t s)

-- What `main` returns.
unfoldable pub main_result : ℕ → State → Bool
main_result total s = not (s.counter == total)
