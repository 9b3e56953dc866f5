-- ===== src/UniquePtr/Main.antt =====
-- `main` of experiments/unique_ptr.cpp: the calls it makes, what it prints, and the objects left when its
-- variables are destroyed. The variables ptr_x, ptr_y, ptr_z, point_ptr and point_ptr_unique are 0 to 4.
use market_data_pipeline.Base.{ℕ, ◌≡◌, ◌≢◌, refl, false, Option, none, some, List, [], ◌∷◌, arith}
use market_data_pipeline.Memory.{Ptr, null, Memory, ◌>>=◌, empty_memory, allocate, free, load}
use market_data_pipeline.UniquePtr.{
  Program, construct, destroy, move_construct, move_assign, get, release, reset, dereference,
  make_unique,
}

-- A line printed: an object with its address, an object, or a pointer.
pub data Line {ℓ} (T : Type ℓ) : Type ℓ where
  object_at : T → Ptr → Line T
  object : T → Line T
  pointer : Ptr → Line T

module _ {ℓ} {T : Type ℓ} where
  abbrev no_variables : Program T
  no_variables = record { ptr = λ _. null; alive = λ _. false; memory = empty_memory }

  -- `new T(x)` and a new variable that owns it
  abbrev construct_new : ℕ → T → Program T → Program T
  construct_new v x s =
      let made : Ptr × Memory T = allocate x s.memory in
      construct v made.0 (record s { memory = made.1 })

  -- The variables are destroyed in the reverse order of their construction.
  abbrev destroy_all : Program T → Option (Program T)
  destroy_all s = do
    s4 ← destroy 4 s
    s3 ← destroy 3 s4
    s2 ← destroy 2 s3
    s1 ← destroy 1 s2
    destroy 0 s1

  -- `five` and `ten` are the ints, `point` and `unique_point` the points. The fields of a point that are
  -- printed one by one are one line here.
  unfoldable pub main : T → T → T → T → Option (List (Line T) × Program T)
  main five ten point unique_point =
      let s1 : Program T = construct_new 0 five no_variables in
      let s2 : Program T = move_construct 1 0 s1 in
      do
        x ← dereference 0 s1
        y ← dereference 1 s2
        s3 ← move_assign 0 1 s2
        back ← dereference 0 s3
        raw ← load (release 0 s3).0 (release 0 s3).1.memory
        s4 ← reset 2 null (construct_new 2 ten (release 0 s3).1)
        p ← dereference 3 (construct_new 3 point s4)
        q ← dereference 4 (make_unique 4 unique_point (construct_new 3 point s4))
        s5 ← destroy_all (make_unique 4 unique_point (construct_new 3 point s4))
        some (
          object_at x (get 0 s1)
              ∷ object_at y (get 1 s2)
              ∷ pointer (get 0 s2)
              ∷ object_at back (get 0 s3)
              ∷ pointer (get 1 s3)
              ∷ object_at raw (release 0 s3).0
              ∷ pointer (get 2 s4)
              ∷ object p
              ∷ object q
              ∷ [],
          s5,
        )

  -- Whatever objects `main` makes, no call of it faults; it prints the values and null pointers that its
  -- messages announce; and when it ends one object is left undeleted, the first, which `release` gave up.
  pub main-leaks :
      (five ten point unique_point : T)
      → (s : Program T) × (main five ten point unique_point
          ≡ some (
            object_at five 1
                ∷ object_at five 1
                ∷ pointer null
                ∷ object_at five 1
                ∷ pointer null
                ∷ object_at five 1
                ∷ pointer null
                ∷ object point
                ∷ object unique_point
                ∷ [],
            s,
          ))
        × (s.memory.object 1 ≡ some five)
        × ((p : Ptr) → p ≢ 1 → s.memory.object p ≡ none)
  unfolding main construct destroy move_construct move_assign get release reset dereference
      make_unique allocate free load
  main-leaks five ten point unique_point = (_, refl, refl, λ p ne. ground (arith, ne))
