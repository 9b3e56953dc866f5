-- ===== src/Spinlock/Sampled.antt =====
-- The times that the threads of experiments/cas_spinlock.cpp store, beside the acquisitions that they count.
use market_data_pipeline.Base.{
  ℕ, ◌+◌, ◌≡◌, ◌≢◌, ◌∙◌, refl, Bool, true, [], ◌∷◌, length, ap, length-append, arith, ltb,
  Bool-cases, inl, inr, ◌&&◌, not, ◌==◌, ℕ_discrete,
}
use market_data_pipeline.Memory.{update}
use market_data_pipeline.Spinlock.{
  Place, looping, locking, locked, acquired, adding, unlocking, leaving, finished, State, advance,
  step, check_counter, Reach, start, after,
}

-- Rounds counted whose time is not yet stored.
abbrev unsampled : Place → ℕ
unsampled (adding _) = 1
unsampled (unlocking _) = 1
unsampled _ = 0

Sampled : State → Type 0
Sampled s = (u : ℕ) → length (s.samples u) + unsampled (s.place u) ≡ s.acquisitions u

module _ (total : ℕ) (elapsed : ℕ → ℕ → ℕ) (t : ℕ) (s : State) where
  -- A step that moves its thread and keeps what the others have stored.
  keep-Sampled :
      (q : Place) (s' : State)
      → s'.place ≡ update s.place t q
      → ((u : ℕ) → u ≢ t → length (s'.samples u) ≡ length (s.samples u))
      → ((u : ℕ) → u ≢ t → s'.acquisitions u ≡ s.acquisitions u)
      → length (s'.samples t) + unsampled q ≡ s'.acquisitions t
      → Sampled s
      → Sampled s'
  unfolding Sampled
  keep-Sampled q s' places stored counts own each u = elim (ℕ_discrete u t) [
    | yes same ↦
        let now : s'.place t ≡ q = ap (λ f. f t) places ∙ ground arith in rw (same, now) own
    | no other ↦
        let still : s'.place u ≡ s.place u = ap (λ f. f u) places ∙ ground (arith, other) in
        rw (stored u other, still, counts u other) (each u)
  ]

  advance-Sampled :
      (ready : Bool) (p : Place)
      → s.place t ≡ p
      → Sampled s
      → Sampled (advance total elapsed ready t p s)
  unfolding Sampled advance check_counter
  advance-Sampled ready (looping n) at each =
      let mine : length (s.samples t) + 0 ≡ s.acquisitions t = rw at at (each t) in
      elim (Bool-cases (ltb n total)) [
        | inl more ↦
            keep-Sampled (locking n) (advance total elapsed ready t (looping n) s) (rw more refl)
              (λ u ne. refl) (λ u ne. refl) mine each
        | inr over ↦
            keep-Sampled finished (advance total elapsed ready t (looping n) s) (rw over refl)
              (λ u ne. refl) (λ u ne. refl) mine each
      ]
  advance-Sampled ready (locking n) at each =
      let mine : length (s.samples t) + 0 ≡ s.acquisitions t = rw at at (each t) in
      elim (Bool-cases (ready && not s.flag)) [
        | inl hit ↦ rw hit (
            keep-Sampled (locked n) (record s { flag = true; place = update s.place t (locked n) })
              refl (λ u ne. refl) (λ u ne. refl) mine each)
        | inr hit ↦ rw hit each
      ]
  advance-Sampled ready (locked n) at each =
      let mine : length (s.samples t) + 0 ≡ s.acquisitions t = rw at at (each t) in
      elim (Bool-cases (s.counter == total)) [
        | inl full ↦
            keep-Sampled leaving (advance total elapsed ready t (locked n) s) (rw full refl)
              (λ u ne. refl) (λ u ne. refl) mine each
        | inr room ↦
            keep-Sampled (acquired n) (advance total elapsed ready t (locked n) s) (rw room refl)
              (λ u ne. refl) (λ u ne. refl) mine each
      ]
  advance-Sampled ready (acquired n) at each =
      let mine : length (s.samples t) + 0 ≡ s.acquisitions t = rw at at (each t) in
      keep-Sampled (adding n) (advance total elapsed ready t (acquired n) s) refl (λ u ne. refl)
        (λ u ne. ground (arith, ne)) (ground (arith, mine)) each
  advance-Sampled ready (adding n) at each =
      let mine : length (s.samples t) + 1 ≡ s.acquisitions t = rw at at (each t) in
      keep-Sampled (unlocking n) (advance total elapsed ready t (adding n) s) refl (λ u ne. refl)
        (λ u ne. refl) mine each
  advance-Sampled ready (unlocking n) at each =
      let mine : length (s.samples t) + 1 ≡ s.acquisitions t = rw at at (each t) in
      let one_more = length-append (s.samples t) (elapsed t n ∷ []) in
      keep-Sampled (looping (n + 1)) (advance total elapsed ready t (unlocking n) s) refl
        (λ u ne. ap length (ground (arith, ne))) (λ u ne. refl) (ground (arith, mine, one_more))
        each
  advance-Sampled ready leaving at each =
      let mine : length (s.samples t) + 0 ≡ s.acquisitions t = rw at at (each t) in
      keep-Sampled finished (advance total elapsed ready t leaving s) refl (λ u ne. refl)
        (λ u ne. refl) mine each
  advance-Sampled ready finished at each = each

Reach-Sampled :
    (total : ℕ) (elapsed : ℕ → ℕ → ℕ) (threads : ℕ) {s : State}
    → Reach total elapsed threads s
    → Sampled s
unfolding Sampled step
Reach-Sampled total elapsed threads start = λ u. refl
Reach-Sampled total elapsed threads (after ready t {s} below r) =
    advance-Sampled total elapsed t s ready (s.place t) refl (Reach-Sampled total elapsed threads r)

-- A thread that has finished has stored a time for each of its acquisitions.
pub finished-sampled :
    (total : ℕ) (elapsed : ℕ → ℕ → ℕ) (threads : ℕ) {s : State}
    → Reach total elapsed threads s
    → (t : ℕ) → s.place t ≡ finished
    → length (s.samples t) ≡ s.acquisitions t
unfolding Sampled
finished-sampled total elapsed threads {s} r t at =
    let mine = Reach-Sampled total elapsed threads r t in
    let clear : unsampled (s.place t) ≡ 0 = ap unsampled at in omega (arith, mine, clear)
