-- ===== src/Spinlock/Ends.antt =====
-- How the threads of experiments/cas_spinlock.cpp return: which of them takes the next step, and what is left
-- to do.
use market_data_pipeline.Base.{
  Onward, ended, onward, descends, sum, sum-change, ℕ, zero, suc, ℕ_discrete, ◌+◌, ◌-◌, ◌*◌, ◌<◌,
  ◌≡◌, ◌≢◌, ◌⊎◌, inl, inr, refl, sym, ◌∙◌, ap, Bool, true, false, ◌==◌, ◌&&◌, not, ltb,
  if◌then◌else◌, arith, Bool-cases,
}
use market_data_pipeline.Memory.{update}
use market_data_pipeline.Spinlock.{
  Place, looping, locking, locked, acquired, adding, unlocking, leaving, finished, State,
  check_counter, advance, step, Reach, start, after, main_result,
}
use market_data_pipeline.Spinlock.Exclusion.{is_inside, Knows}
use market_data_pipeline.Spinlock.Total.{Reach-Inv, finished-total}

-- Several steps of the threads.
pub data Run (total : ℕ) (elapsed : ℕ → ℕ → ℕ) (threads : ℕ) : State → State → Type 0 where
  here : {s : State} → Run total elapsed threads s s
  stepped :
      {s s' : State} (ready : Bool) (t : ℕ)
      → t < threads
      → Run total elapsed threads (step total elapsed ready t s) s'
      → Run total elapsed threads s s'

-- Some thread holds the lock while the flag is set.
Owned : ℕ → State → Type 0
Owned threads s = s.flag ≡ true → (u : ℕ) × (u < threads) × (is_inside (s.place u) ≡ true)

-- What is left to do for a thread, with the accesses of a round.
work : ℕ → Place → ℕ
work total (looping n) = 7 * (total - n) + 1
work total (locking n) = 7 * (total - n)
work total (locked n) = 7 * (total - n) - 1
work total (acquired n) = 7 * (total - n) - 2
work total (adding n) = 7 * (total - n) - 3
work total (unlocking n) = 7 * (total - n) - 4
work total leaving = 1
work total finished = 0

module _ (total : ℕ) (elapsed : ℕ → ℕ → ℕ) (threads t : ℕ) (s : State) (below : t < threads) where
  -- A step that leaves its thread inside, or the flag clear, or the flag as it was and nothing to own.
  keep-Owned :
      (q : Place) (s' : State)
      → s'.place ≡ update s.place t q
      → (is_inside q ≡ true)
        ⊎ ((s'.flag ≡ false) ⊎ ((s'.flag ≡ s.flag) × (is_inside (s.place t) ≡ false)))
      → Owned threads s
      → Owned threads s'
  unfolding Owned
  keep-Owned q s' places (inl inside) owned set =
      (t, below, ap (λ f. is_inside (f t)) places ∙ ground (arith, inside))
  keep-Owned q s' places (inr (inl clear)) owned set = cc (set, clear)
  keep-Owned q s' places (inr (inr (same, out))) owned set =
      let (u, u_below, u_inside) = owned (sym same ∙ set) in
      let other : u ≢ t = λ e. cc (out, u_inside, ap (λ v. is_inside (s.place v)) e) in
      (u, u_below, ap (λ f. is_inside (f u)) places ∙ ground (arith, other, u_inside))

  advance-Owned :
      (ready : Bool) (p : Place)
      → s.place t ≡ p
      → Owned threads s
      → Owned threads (advance total elapsed ready t p s)
  unfolding advance check_counter
  advance-Owned ready (looping n) at = keep-Owned _ _ refl (inr (inr (refl, ap is_inside at)))
  advance-Owned ready (locking n) at = elim (Bool-cases (ready && not s.flag)) [
    | inl hit ↦ rw hit (
        keep-Owned (locked n) (record s { flag = true; place = update s.place t (locked n) }) refl
          (inl refl))
    | inr hit ↦ rw hit (λ owned. owned)
  ]
  advance-Owned ready (locked n) at =
      keep-Owned (if s.counter == total then leaving else acquired n) _ refl (inl inside)
    where
      inside : is_inside (if s.counter == total then leaving else acquired n) ≡ true
      inside = elim (Bool-cases (s.counter == total)) [ inl e ↦ rw e refl | inr e ↦ rw e refl ]
  advance-Owned ready (acquired n) at = keep-Owned (adding n) _ refl (inl refl)
  advance-Owned ready (adding n) at = keep-Owned (unlocking n) _ refl (inl refl)
  advance-Owned ready (unlocking n) at = keep-Owned (looping (n + 1)) _ refl (inr (inl refl))
  advance-Owned ready leaving at = keep-Owned finished _ refl (inr (inl refl))
  advance-Owned ready finished at = λ owned. owned

  -- The next step of a thread that does not wait for the lock makes what is left to it smaller, and
  -- leaves the others where they are.
  advance_works :
      (p : Place)
      → Knows total s.counter (s.acquisitions t) p
      → p ≢ finished
      → (is_inside p ≡ true) ⊎ (s.flag ≡ false)
      → work total ((advance total elapsed true t p s).place t) < work total p
  unfolding advance work check_counter
  advance_works (looping n) k at_work free = elim (Bool-cases (ltb n total)) [
    | inl more ↦ rw more (ground (arith, more))
    | inr over ↦ rw over (ground (arith, over))
  ]
  advance_works (locking n) k at_work (inl inside) = cc inside
  advance_works (locking n) k at_work (inr free) = rw free (ground (arith, k))
  advance_works (locked n) k at_work free = elim (Bool-cases (s.counter == total)) [
    | inl full ↦ rw full (ground (arith, k))
    | inr room ↦ rw room (ground (arith, k))
  ]
  advance_works (acquired n) k at_work free = ground (arith, k)
  advance_works (adding n) k at_work free = ground (arith, k)
  advance_works (unlocking n) k at_work free = ground (arith, k)
  advance_works leaving k at_work free = ground arith
  advance_works finished k at_work free = absurd (at_work refl)

  advance_others :
      (ready : Bool) (p : Place) (u : ℕ)
      → u ≢ t
      → (advance total elapsed ready t p s).place u ≡ s.place u
  unfolding advance
  advance_others ready (looping n) u ne = ground (arith, ne)
  advance_others ready (locking n) u ne = elim (Bool-cases (ready && not s.flag)) [
    | inl hit ↦ rw hit (ground (arith, ne))
    | inr hit ↦ rw hit refl
  ]
  advance_others ready (locked n) u ne = ground (arith, ne)
  advance_others ready (acquired n) u ne = ground (arith, ne)
  advance_others ready (adding n) u ne = ground (arith, ne)
  advance_others ready (unlocking n) u ne = ground (arith, ne)
  advance_others ready leaving u ne = ground (arith, ne)
  advance_others ready finished u ne = refl

-- All of the first threads stand at a place, or one stands elsewhere.
all_or_one :
    (f : ℕ → Place) (n : ℕ)
    → ((t : ℕ) → t < n → f t ≡ finished) ⊎ ((t : ℕ) × (t < n) × (f t ≢ finished))
all_or_one f zero = inl (λ t h. absurd (omega (arith, h)))
all_or_one f (suc n) = elim (all_or_one f n) [
  | inr (t, h, ne) ↦ inr (t, omega (arith, h), ne)
  | inl all ↦ elim (is_finished (f n)) [
    | inr ne ↦ inr (n, omega arith, ne)
    | inl e ↦ inl (λ t h. elim (ℕ_discrete t n) [
      | yes same ↦ ap f same ∙ e
      | no other ↦ all t (omega (arith, h, other))
    ])
  ]
]
  where
    is_finished : (p : Place) → (p ≡ finished) ⊎ (p ≢ finished)
    is_finished (looping k) = inr (λ e. cc e)
    is_finished (locking k) = inr (λ e. cc e)
    is_finished (locked k) = inr (λ e. cc e)
    is_finished (acquired k) = inr (λ e. cc e)
    is_finished (adding k) = inr (λ e. cc e)
    is_finished (unlocking k) = inr (λ e. cc e)
    is_finished leaving = inr (λ e. cc e)
    is_finished finished = inl refl

module _ (total : ℕ) (elapsed : ℕ → ℕ → ℕ) (threads : ℕ) where
  left : State → ℕ
  left s = sum (λ u. work total (s.place u)) threads

  Works : State → Type 0
  Works s = (t : ℕ) × (t < threads) × (left (step total elapsed true t s) < left s)

  -- A step of a thread inside, or of any unfinished one while the flag is clear.
  step-Works :
      (t : ℕ) {s : State}
      → t < threads
      → Reach total elapsed threads s
      → s.place t ≢ finished
      → (is_inside (s.place t) ≡ true) ⊎ (s.flag ≡ false)
      → Works s
  unfolding Works left step
  step-Works t {s} below r at_work free =
      let s' : State = advance total elapsed true t (s.place t) s in
      let less =
        advance_works total elapsed threads t s below (s.place t)
          ((Reach-Inv total elapsed threads r).knows t) at_work free in
      let balance =
        sum-change (λ u. work total (s.place u)) (λ u. work total (s'.place u)) t threads below
          (λ u ne.
            ap (work total)
              (advance_others total elapsed threads t s below true (s.place t) u ne)) in
      (t, below, omega (arith, less, balance))

  Reach-Owned : {s : State} → Reach total elapsed threads s → Owned threads s
  unfolding Owned step
  Reach-Owned start = λ set. cc set
  Reach-Owned (after ready t {s} below r) =
      advance-Owned total elapsed threads t s below ready (s.place t) refl (Reach-Owned r)

  -- Until all threads have finished, some step makes what is left smaller.
  some_step-Works :
      {s : State}
      → Reach total elapsed threads s
      → ((t : ℕ) → t < threads → s.place t ≡ finished) ⊎ Works s
  unfolding Owned
  some_step-Works {s} r = elim (all_or_one s.place threads) [
    | inl all ↦ inl all
    | inr (t, below, at_work) ↦ elim (Bool-cases s.flag) [
      | inr free ↦ inr (step-Works t below r at_work (inr free))
      | inl set ↦
          let (u, u_below, inside) = Reach-Owned r set in
          inr (step-Works u u_below r (λ e. cc (inside, ap is_inside e)) (inl inside))
    ]
  ]

  abbrev AllFinished : State → Type 0
  AllFinished s = (t : ℕ) → t < threads → s.place t ≡ finished

  next :
      (s : State)
      → Reach total elapsed threads s
      → Onward (Run total elapsed threads) (Reach total elapsed threads) AllFinished left s
  unfolding Works
  next s r = elim (some_step-Works r) [
    | inl all ↦ ended all
    | inr works ↦
        let (t, below, less) = works in
        onward (step total elapsed true t s) (after true t below r) less
          (λ v run. stepped true t below run)
  ]

-- The threads, one or more, can always finish, and then all is counted: from every state that they
-- reach some further steps lead to one in which each of them has finished, the counter stands at the total,
-- the acquisitions of the threads sum up to it, and `main` returns 0 (false).
pub all_finish :
    (total : ℕ) (elapsed : ℕ → ℕ → ℕ) (threads : ℕ) {s : State}
    → Reach total elapsed threads s
    → 0 < threads
    → (s' : State) × Run total elapsed threads s s'
      × ((t : ℕ) → t < threads → s'.place t ≡ finished)
      × (s'.counter ≡ total)
      × (sum s'.acquisitions threads ≡ total)
      × (main_result total s' ≡ false)
all_finish total elapsed threads {s} r some_thread =
    let (s', run, r', all) =
      descends (Run total elapsed threads) (Reach total elapsed threads)
        (AllFinished total elapsed threads) (left total elapsed threads) (λ u. here)
        (next total elapsed threads) s r in
    let (counted, all_acquired, result) = finished-total total elapsed threads r' some_thread all in
    (s', run, all, counted, all_acquired, result)
