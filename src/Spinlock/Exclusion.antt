-- ===== src/Spinlock/Exclusion.antt =====
-- The invariant of the threads of experiments/cas_spinlock.cpp, kept by every step.
use market_data_pipeline.Base.{
  sum, sum-change, ℕ, ℕ_discrete, ◌+◌, ◌<◌, ◌≤◌, ◌≡◌, ◌≢◌, ◌⊎◌, inl, inr, refl, sym, ◌∙◌, ap, Bool,
  true, false, arith,
}
use market_data_pipeline.Spinlock.{
  Place, looping, locking, locked, acquired, adding, unlocking, leaving, finished, State,
}

-- Between the lock and the unlock
abbrev pub is_inside : Place → Bool
is_inside (looping _) = false
is_inside (locking _) = false
is_inside (locked _) = true
is_inside (acquired _) = true
is_inside (adding _) = true
is_inside (unlocking _) = true
is_inside leaving = true
is_inside finished = false

-- Acquisitions counted for the thread and not yet added to the counter
abbrev pub pending : Place → ℕ
pending (looping _) = 0
pending (locking _) = 0
pending (locked _) = 0
pending (acquired _) = 0
pending (adding _) = 1
pending (unlocking _) = 0
pending leaving = 0
pending finished = 0

-- What a thread at a place knows of the counter and of its acquisitions.
abbrev pub Knows : ℕ → ℕ → ℕ → Place → Type 0
Knows total counter mine (looping n) = (mine ≡ n) × (n ≤ total)
Knows total counter mine (locking n) = (mine ≡ n) × (n < total)
Knows total counter mine (locked n) = (mine ≡ n) × (n < total)
Knows total counter mine (acquired n) = (mine ≡ n) × (n < total) × (counter < total)
Knows total counter mine (adding n) = (mine ≡ n + 1) × (n < total) × (counter < total)
Knows total counter mine (unlocking n) = (mine ≡ n + 1) × (n < total)
Knows total counter mine leaving = counter ≡ total
Knows total counter mine finished = (counter ≡ total) ⊎ (mine ≡ total)

pub record Inv (total threads : ℕ) (s : State) : Type 0 where
  pub held : (u : ℕ) → is_inside (s.place u) ≡ true → s.flag ≡ true
  pub alone : (u v : ℕ) → is_inside (s.place u) ≡ true → is_inside (s.place v) ≡ true → u ≡ v
  pub knows : (u : ℕ) → Knows total s.counter (s.acquisitions u) (s.place u)
  pub counted : sum s.acquisitions threads ≡ s.counter + sum (λ u. pending (s.place u)) threads
  pub bounded : s.counter ≤ total

-- How a step may change the flag and whether its thread is inside: it leaves both, it takes the free
-- flag, or it gives the flag back.
abbrev pub Guarded : Bool → Bool → Bool → Bool → Type 0
Guarded flag before flag' now =
    ((flag' ≡ flag) × (now ≡ before))
    ⊎ ((flag ≡ false) × (flag' ≡ true))
    ⊎ ((before ≡ true) × (now ≡ false))

-- What another thread knows outlives an increment under the lock.
Knows-add :
    (total counter mine : ℕ) (p : Place)
    → counter < total
    → is_inside p ≢ true
    → Knows total counter mine p
    → Knows total (counter + 1) mine p
Knows-add total counter mine (looping n) h out k = k
Knows-add total counter mine (locking n) h out k = k
Knows-add total counter mine (locked n) h out k = k
Knows-add total counter mine (acquired n) h out k = absurd (out refl)
Knows-add total counter mine (adding n) h out k = absurd (out refl)
Knows-add total counter mine (unlocking n) h out k = k
Knows-add total counter mine leaving h out k = absurd (out refl)
Knows-add total counter mine finished h out (inl e) = omega arith
Knows-add total counter mine finished h out (inr e) = inr e

-- How a step may change the counter: under the lock, below the total.
abbrev pub Added : ℕ → ℕ → ℕ → Bool → Type 0
Added total counter counter' inside =
    (counter' ≡ counter) ⊎ ((counter' ≡ counter + 1) × (counter < total) × (inside ≡ true))

module _ (total threads t : ℕ) (s s' : State) (inv : Inv total threads s) where
  others_know :
      Added total s.counter s'.counter (is_inside (s.place t))
      → (u : ℕ) → u ≢ t
      → Knows total s'.counter (s.acquisitions u) (s.place u)
  others_know (inl e) u ne = rw e (inv.knows u)
  others_know (inr (e, h, inside)) u ne = rw e (
      Knows-add total s.counter (s.acquisitions u) (s.place u) h
        (λ in_u. ne (inv.alone u t in_u inside)) (inv.knows u))

  module _ (guarded : Guarded s.flag (is_inside (s.place t)) s'.flag (is_inside (s'.place t))) where
    held_own : is_inside (s'.place t) ≡ true → s'.flag ≡ true
    held_own = elim guarded [
      | inl (same, before) ↦ λ now. same ∙ inv.held t (sym before ∙ now)
      | inr (inl (_, taken)) ↦ λ now. taken
      | inr (inr (_, out)) ↦ λ now. ground (arith, now, out)
    ]

    held_other : (u : ℕ) → u ≢ t → is_inside (s.place u) ≡ true → s'.flag ≡ true
    held_other u ne in_u = elim guarded [
      | inl (same, _) ↦ same ∙ inv.held u in_u
      | inr (inl (_, taken)) ↦ taken
      | inr (inr (before, _)) ↦ absurd (ne (inv.alone u t in_u before))
    ]

    excluded : (u : ℕ) → u ≢ t → is_inside (s'.place t) ≡ true → is_inside (s.place u) ≡ true → ⊥
    excluded u ne now in_u = elim guarded [
      | inl (_, before) ↦ ne (inv.alone u t in_u (sym before ∙ now))
      | inr (inl (free, _)) ↦ ground (arith, free, inv.held u in_u)
      | inr (inr (_, out)) ↦ ground (arith, now, out)
    ]

  -- A step of thread `t` that leaves the places and acquisitions of the others keeps the invariant, if
  -- it guards the flag, adds to the counter under the lock alone, and balances the counts.
  pub move-Inv :
      t < threads
      → ((u : ℕ) → u ≢ t → s'.place u ≡ s.place u)
      → ((u : ℕ) → u ≢ t → s'.acquisitions u ≡ s.acquisitions u)
      → Guarded s.flag (is_inside (s.place t)) s'.flag (is_inside (s'.place t))
      → Added total s.counter s'.counter (is_inside (s.place t))
      → Knows total s'.counter (s'.acquisitions t) (s'.place t)
      → s'.acquisitions t + pending (s.place t) + s.counter
        ≡ s.acquisitions t + pending (s'.place t) + s'.counter
      → Inv total threads s'
  move-Inv below places counts guarded added knows balance = record {
    held = λ u in_u. elim (ℕ_discrete u t) [
      | yes e ↦ held_own guarded (ap (λ v. is_inside (s'.place v)) (sym e) ∙ in_u)
      | no ne ↦ held_other guarded u ne (before u ne in_u)
    ];
    alone = λ u v in_u in_v. elim (ℕ_discrete u t) [
      | yes eu ↦ elim (ℕ_discrete v t) [
        | yes ev ↦ eu ∙ sym ev
        | no nv ↦ absurd (excluded guarded v nv (now u eu in_u) (before v nv in_v))
      ]
      | no nu ↦ elim (ℕ_discrete v t) [
        | yes ev ↦ absurd (excluded guarded u nu (now v ev in_v) (before u nu in_u))
        | no nv ↦ inv.alone u v (before u nu in_u) (before v nv in_v)
      ]
    ];
    knows = λ u. elim (ℕ_discrete u t) [
      | yes e ↦ rw e knows
      | no ne ↦ rw (places u ne, counts u ne) (others_know added u ne)
    ];
    counted =
        let mine = sum-change s.acquisitions s'.acquisitions t threads below counts in
        let theirs =
          sum-change (λ u. pending (s.place u)) (λ u. pending (s'.place u)) t threads below
            (λ u ne. ap pending (places u ne)) in
        omega (arith, mine, theirs, inv.counted, balance);
    bounded = elim added [ inl e ↦ omega (arith, inv.bounded) | inr (e, h, _) ↦ omega arith ];
  }
    where
      before : (u : ℕ) → u ≢ t → is_inside (s'.place u) ≡ true → is_inside (s.place u) ≡ true
      before u ne in_u = ap is_inside (sym (places u ne)) ∙ in_u

      now : (u : ℕ) → u ≡ t → is_inside (s'.place u) ≡ true → is_inside (s'.place t) ≡ true
      now u e in_u = ap (λ v. is_inside (s'.place v)) (sym e) ∙ in_u
