-- ===== src/UniquePtr/Owns.antt =====
-- Ownership: which object each variable of class `UniquePtr` owns.
use market_data_pipeline.Base.{◌≡◌, ◌≢◌, true}
use market_data_pipeline.Memory.{null}
use market_data_pipeline.Memory.Laws.{IsTidy, IsFreeable}
use market_data_pipeline.UniquePtr.{Var, Program}

-- Each variable is null or points to a live object, and no two of them to the same.
pub record IsUnique {ℓ} {T : Type ℓ} (s : Program T) : Type ℓ where
  pub tidy : IsTidy s.memory
  pub owns : (v : Var) → s.alive v ≡ true → IsFreeable s.memory (s.ptr v)
  pub alone :
      (v w : Var) → s.alive v ≡ true → s.alive w ≡ true → s.ptr v ≡ s.ptr w → s.ptr v ≢ null → v ≡ w
