-- ===== src/Base/Descent.antt =====
-- A run to an end by a measure that goes down: the induction that the parts share whose threads return.
use Prim.Native.Nat.{ℕ, zero, suc, ◌<◌}
use native.Mathlib.Omega.{arith}

module _ {ℓ} {S : Type ℓ} (Run : S → S → Type ℓ) (Good Done : S → Type ℓ) (measure : S → ℕ) where
  -- A state is at the end, or a run from it leads on to a state with a smaller measure.
  pub data Onward (s : S) : Type ℓ where
    ended : Done s → Onward s
    onward : (u : S) → Good u → measure u < measure s → ((v : S) → Run u v → Run s v) → Onward s

  module _ (here : (s : S) → Run s s) (next : (s : S) → Good s → Onward s) where
    -- With more fuel than the measure.
    descends_within :
        (fuel : ℕ) (s : S) → Good s → measure s < fuel → (s' : S) × Run s s' × Good s' × Done s'
    descends_within zero s good enough = absurd (omega (arith, enough))
    descends_within (suc fuel) s good enough = elim (next s good) [
      | ended done ↦ (s, here s, good, done)
      | onward u good_u less before ↦
          let (s', run, good', done) =
            descends_within fuel u good_u (omega (arith, less, enough)) in
          (s', before s' run, good', done)
    ]

    pub descends : (s : S) → Good s → (s' : S) × Run s s' × Good s' × Done s'
    descends s good = descends_within (suc (measure s)) s good (omega arith)
