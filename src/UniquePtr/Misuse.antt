-- ===== src/UniquePtr/Misuse.antt =====
-- Calls of `UniquePtr` that its ownership does not cover.
use market_data_pipeline.Base.{◌≡◌, ◌≢◌, arith, none, some, Option-cases, inl, inr}
use market_data_pipeline.Memory.{null, free}
use market_data_pipeline.Memory.Laws.{free-free}
use market_data_pipeline.UniquePtr.{Var, Program, destroy, reset, get}

module _ {ℓ} {T : Type ℓ} where
  -- On a variable that holds a pointer other than null, once `v.reset(v.get())` has returned, the
  -- destructor of the variable faults, by a second deletion of the same object.
  pub reset-get-dangles :
      (v : Var) (s s' : Program T)
      → s.ptr v ≢ null
      → reset v (get v s) s ≡ some s'
      → destroy v s' ≡ none
  unfolding reset get destroy
  reset-get-dangles v s s' ne h = elim (Option-cases (free (s.ptr v) s.memory)) [
    | inl fault ↦ ground (arith, fault)
    | inr (m, done) ↦ ground (arith, done, free-free s.memory m (s.ptr v) ne done)
  ]
