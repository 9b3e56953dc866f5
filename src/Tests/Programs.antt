-- ===== src/Tests/Programs.antt =====
-- Small programs that use `UniquePtr`, the stack, the lock and the counters of the benchmarks.
use market_data_pipeline.Base.{◌∷◌, [], ℕ, ◌≡◌, ◌≢◌, refl, true, false, none, some, arith}
use market_data_pipeline.Memory.{Ptr, null, update, empty_memory, allocate, free}
use market_data_pipeline.Memory.Laws.{Freed}
use market_data_pipeline.UniquePtr.{
  Program, construct, destroy, move_assign, get, reset, make_unique,
}
use market_data_pipeline.UniquePtr.Main.{main, object_at, object, pointer, main-leaks}
use market_data_pipeline.UniquePtr.Owns.{IsUnique}
use market_data_pipeline.UniquePtr.Calls.{move_assign_lem, make_unique_lem}
use market_data_pipeline.UniquePtr.Misuse.{reset-get-dangles}

abbrev no_objects : Program ℕ
no_objects = record { ptr = λ _. null; alive = λ _. false; memory = empty_memory }

no_objects-IsUnique : IsUnique no_objects
no_objects-IsUnique = record {
  tidy = record { null_free = refl; unused = λ p h. refl; started = omega arith };
  owns = λ v h. ground (arith, h);
  alone = λ v w h. ground (arith, h);
}

abbrev first_var : ℕ
first_var = 0

-- `auto v0 = make_unique<int>(42)`
abbrev one_object : Program ℕ
one_object = make_unique 0 42 no_objects

one_object-IsUnique : IsUnique one_object
one_object-IsUnique = (make_unique_lem no_objects-IsUnique 0 42 refl).0

abbrev two_objects : Program ℕ
two_objects = make_unique 1 43 one_object

two_objects-IsUnique : IsUnique two_objects
unfolding make_unique construct
two_objects-IsUnique = (make_unique_lem one_object-IsUnique 1 43 refl).0

move_assign_lem_example :
    (s' : Program ℕ) × (move_assign 0 1 two_objects ≡ some s')
    × IsUnique s'
    × (first_var ≢ 1
        → Freed two_objects.memory (two_objects.ptr 0) s'.memory
          × (s'.ptr 0 ≡ two_objects.ptr 1)
          × (s'.ptr 1 ≡ null))
    × (first_var ≡ 1 → s' ≡ two_objects)
unfolding make_unique construct
move_assign_lem_example = move_assign_lem two_objects-IsUnique 0 1 refl refl

-- `v0.reset(v0.get())`
abbrev dangling : Program ℕ
dangling = record {
  ptr = update (update (λ _. null) 0 1) 0 1;
  alive = update (λ _. false) 0 true;
  memory = record { object = update (update (λ _. none) 1 (some 42)) 1 none; next = 2 };
}

reset-get-dangles_example : destroy 0 dangling ≡ none
unfolding make_unique construct allocate reset get free
reset-get-dangles_example = reset-get-dangles 0 one_object dangling (λ e. omega arith) refl

main-leaks_example :
    (s : Program ℕ) × (main 5 10 12 13
      ≡ some (
        object_at 5 1
            ∷ object_at 5 1
            ∷ pointer null
            ∷ object_at 5 1
            ∷ pointer null
            ∷ object_at 5 1
            ∷ pointer null
            ∷ object 12
            ∷ object 13
            ∷ [],
        s,
      ))
    × (s.memory.object 1 ≡ some 5)
    × ((p : Ptr) → p ≢ 1 → s.memory.object p ≡ none)
main-leaks_example = main-leaks 5 10 12 13
