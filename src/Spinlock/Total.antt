-- ===== src/Spinlock/Total.antt =====
-- What the lock and the counter of experiments/cas_spinlock.cpp guarantee in every reachable state.
use market_data_pipeline.Base.{
  sum, sum-same, sum-const, sum-part, ℕ, subst, ◌+◌, ◌<◌, ◌≡◌, ◌≢◌, inl, inr, [], ◌∷◌, ◌++◌, refl,
  sym, ◌∙◌, ap, Bool, true, false, ◌==◌, ◌&&◌, not, ltb, arith, Bool-cases,
}
use market_data_pipeline.Memory.{update}
use market_data_pipeline.Spinlock.{
  Place, looping, locking, locked, acquired, adding, unlocking, leaving, finished, State,
  check_counter, advance, step, Reach, start, after, main_result,
}
use market_data_pipeline.Spinlock.Exclusion.{
  is_inside, pending, Knows, Inv, Added, Guarded, move-Inv,
}

module _ (total : ℕ) (elapsed : ℕ → ℕ → ℕ) (threads t : ℕ) (s : State) (inv : Inv total threads s)
    (below : t < threads) where
  -- `move-Inv` between known places
  move :
      (p q : Place) (s' : State)
      → s.place t ≡ p
      → s'.place ≡ update s.place t q
      → ((u : ℕ) → u ≢ t → s'.acquisitions u ≡ s.acquisitions u)
      → Guarded s.flag (is_inside p) s'.flag (is_inside q)
      → Added total s.counter s'.counter (is_inside p)
      → Knows total s'.counter (s'.acquisitions t) q
      → s'.acquisitions t + pending p + s.counter ≡ s.acquisitions t + pending q + s'.counter
      → Inv total threads s'
  move p q s' at places counts guarded added knows balance =
      let now : s'.place t ≡ q = ap (λ f. f t) places ∙ ground arith in
      move-Inv total threads t s s' inv below (λ u ne. ap (λ f. f u) places ∙ ground (arith, ne))
        counts (rw (at, now) guarded) (rw at added) (rw now knows) (rw (at, now) balance)

  advance-Inv :
      (ready : Bool) (p : Place)
      → s.place t ≡ p
      → Inv total threads (advance total elapsed ready t p s)
  unfolding advance check_counter
  advance-Inv ready (looping n) at =
      let k : Knows total s.counter (s.acquisitions t) (looping n) =
        subst (Knows total s.counter (s.acquisitions t)) at (inv.knows t) in
      elim (Bool-cases (ltb n total)) [
        | inl hit ↦ rw hit (
            move (looping n) (locking n) (record s { place = update s.place t (locking n) }) at refl
              (λ u ne. refl) (inl (refl, refl)) (inl refl) (k.0, ground (arith, hit)) refl)
        | inr hit ↦ rw hit (
            move (looping n) finished (record s { place = update s.place t finished }) at refl
              (λ u ne. refl) (inl (refl, refl)) (inl refl) (inr (ground (arith, hit, k.0, k.1)))
              refl)
      ]
  advance-Inv ready (locking n) at =
      let k : Knows total s.counter (s.acquisitions t) (locking n) =
        subst (Knows total s.counter (s.acquisitions t)) at (inv.knows t) in
      elim (Bool-cases (ready && not s.flag)) [
        | inl hit ↦ rw hit (
            move (locking n) (locked n)
              (record s { flag = true; place = update s.place t (locked n) }) at refl (λ u ne. refl)
              (inr (inl (ground (arith, hit), refl))) (inl refl) k refl)
        | inr hit ↦ rw hit inv
      ]
  advance-Inv ready (locked n) at =
      let k : Knows total s.counter (s.acquisitions t) (locked n) =
        subst (Knows total s.counter (s.acquisitions t)) at (inv.knows t) in
      elim (Bool-cases (s.counter == total)) [
        | inl hit ↦ rw hit (
            move (locked n) leaving (record s { place = update s.place t leaving }) at refl
              (λ u ne. refl) (inl (refl, refl)) (inl refl) (ground (arith, hit)) refl)
        | inr hit ↦ rw hit (
            move (locked n) (acquired n) (record s { place = update s.place t (acquired n) }) at
              refl (λ u ne. refl) (inl (refl, refl)) (inl refl)
              (k.0, k.1, ground (arith, hit, inv.bounded)) refl)
      ]
  advance-Inv ready (acquired n) at =
      let k : Knows total s.counter (s.acquisitions t) (acquired n) =
        subst (Knows total s.counter (s.acquisitions t)) at (inv.knows t) in
      move (acquired n) (adding n)
        (record s {
          acquisitions = update s.acquisitions t (s.acquisitions t + 1);
          place = update s.place t (adding n);
        })
        at refl (λ u ne. ground (arith, ne)) (inl (refl, refl)) (inl refl)
        (ground (arith, k.0), k.1, k.2) (ground arith)
  advance-Inv ready (adding n) at =
      let k : Knows total s.counter (s.acquisitions t) (adding n) =
        subst (Knows total s.counter (s.acquisitions t)) at (inv.knows t) in
      move (adding n) (unlocking n)
        (record s { counter = s.counter + 1; place = update s.place t (unlocking n) }) at refl
        (λ u ne. refl) (inl (refl, refl)) (inr (refl, k.2, refl)) (k.0, k.1) (omega arith)
  advance-Inv ready (unlocking n) at =
      let k : Knows total s.counter (s.acquisitions t) (unlocking n) =
        subst (Knows total s.counter (s.acquisitions t)) at (inv.knows t) in
      move (unlocking n) (looping (n + 1))
        (record s {
          flag = false;
          samples = update s.samples t (s.samples t ++ elapsed t n ∷ []);
          place = update s.place t (looping (n + 1));
        })
        at refl (λ u ne. refl) (inr (inr (refl, refl))) (inl refl) (k.0, omega (arith, k.1)) refl
  advance-Inv ready leaving at =
      let k : Knows total s.counter (s.acquisitions t) leaving =
        subst (Knows total s.counter (s.acquisitions t)) at (inv.knows t) in
      move leaving finished (record s { flag = false; place = update s.place t finished }) at refl
        (λ u ne. refl) (inr (inr (refl, refl))) (inl refl) (inl k) refl
  advance-Inv ready finished at = inv

pub Reach-Inv :
    (total : ℕ) (elapsed : ℕ → ℕ → ℕ) (threads : ℕ) {s : State}
    → Reach total elapsed threads s
    → Inv total threads s
unfolding step
Reach-Inv total elapsed threads start = record {
  held = λ u in_u. ground (arith, in_u);
  alone = λ u v in_u. ground (arith, in_u);
  knows = λ u. (refl, omega arith);
  counted = sym (omega (arith, sum-const 0 threads));
  bounded = omega arith;
}
Reach-Inv total elapsed threads (after ready t {s} below r) =
    advance-Inv total elapsed threads t s (Reach-Inv total elapsed threads r) below ready
      (s.place t) refl

-- In every state that the threads reach, at most one of them stands between the lock and the
-- unlock, and the flag is set while one does.
pub mutual_exclusion :
    (total : ℕ) (elapsed : ℕ → ℕ → ℕ) (threads : ℕ) {s : State}
    → Reach total elapsed threads s
    → (t u : ℕ) → is_inside (s.place t) ≡ true
    → is_inside (s.place u) ≡ true
    → (t ≡ u) × (s.flag ≡ true)
mutual_exclusion total elapsed threads r t u in_t in_u =
    let inv = Reach-Inv total elapsed threads r in (inv.alone t u in_t in_u, inv.held t in_t)

-- When at least one thread ran and all have finished, the counter stands at the total, the
-- acquisitions of the threads sum up to it, and `main` returns 0 (false).
pub finished-total :
    (total : ℕ) (elapsed : ℕ → ℕ → ℕ) (threads : ℕ) {s : State}
    → Reach total elapsed threads s
    → 0 < threads
    → ((t : ℕ) → t < threads → s.place t ≡ finished)
    → (s.counter ≡ total) × (sum s.acquisitions threads ≡ total) × (main_result total s ≡ false)
unfolding main_result
finished-total total elapsed threads {s} r some_thread done =
    let inv = Reach-Inv total elapsed threads r in
    let none_pending : sum (λ u. pending (s.place u)) threads ≡ 0 =
      sum-same (λ u. pending (s.place u)) (λ _. 0) threads (λ u h. ap pending (done u h))
      ∙ sum-const 0 threads
      ∙ omega arith in
    let k : Knows total s.counter (s.acquisitions 0) finished =
      subst (Knows total s.counter (s.acquisitions 0)) (done 0 some_thread) (inv.knows 0) in
    let at_total : s.counter ≡ total = elim k [
      | inl e ↦ e
      | inr e ↦ omega (
        arith,
        e,
        sum-part s.acquisitions threads 0 some_thread,
        none_pending,
        inv.counted,
        inv.bounded,
      )
    ] in
    (at_total, omega (arith, none_pending, inv.counted, at_total), ground (arith, at_total))
