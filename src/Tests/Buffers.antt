-- ===== src/Tests/Buffers.antt =====
-- A program with one or two variables of class `Buffer`.
use market_data_pipeline.Base.{
  ℕ, ◌≡◌, ◌≢◌, refl, true, false, none, some, [], ◌∷◌, arith, inr, ℕ_discrete,
}
use market_data_pipeline.Memory.{null, update, allocate}
use market_data_pipeline.Memory.Laws.{Freed}
use market_data_pipeline.Buffer.{
  Array, Program, construct, hold, copy_assign, move_construct, move_assign,
}
use market_data_pipeline.Buffer.Owns.{IsOwned}
use market_data_pipeline.Buffer.Copies.{HasContents, KeptBut, copy_assign_lem}
use market_data_pipeline.Buffer.Main.{no_variables}
use market_data_pipeline.Buffer.Calls.{
  Reach, start, next, constructs, moves, move_assigns, run, Reach-run,
}
use market_data_pipeline.Buffer.Moves.{Moved, move_assign-Moved}

abbrev ints : Array
ints = some 1 ∷ some 2 ∷ []

abbrev no_ints : Array
no_ints = none ∷ []

abbrev second_var : ℕ
second_var = 1

-- Variable 0 holds 1 and 2, variable 1 one int without a value.
abbrev two_buffers : Program
two_buffers = record {
  data_of = update (update (λ _. null) 0 1) 1 2;
  size_of = update (update (λ _. 0) 0 2) 1 1;
  alive = update (update (λ _. false) 0 true) 1 true;
  memory = record { object = update (update (λ _. none) 1 (some ints)) 2 (some no_ints); next = 3 };
}

ints-HasContents : HasContents two_buffers 0 ints
ints-HasContents = (refl, inr ((λ e. omega arith), refl))

no_ints-HasContents : HasContents two_buffers 1 no_ints
no_ints-HasContents = (refl, inr ((λ e. omega arith), refl))

two_buffers-IsOwned : IsOwned two_buffers
two_buffers-IsOwned = record {
  tidy = record { null_free = refl; unused = λ p h. ground arith; started = omega arith };
  owns = λ v h. elim (ℕ_discrete v 0) [
    | yes e ↦ rw e (ints, ints-HasContents)
    | no other ↦ elim (ℕ_discrete v 1) [
      | yes e ↦ rw e (no_ints, no_ints-HasContents)
      | no neither ↦ absurd (ground (arith, h, other, neither))
    ]
  ];
  alone = λ v w hv hw e ne. ground (arith, hv, hw, e, ne);
}

copy_assign_lem_example :
    (s' : Program) × (copy_assign 1 0 two_buffers ≡ some s')
    × IsOwned s'
    × KeptBut 1 two_buffers s'
    × HasContents s' 1 ints
    × ((second_var ≢ 0) → (s'.data_of 1 ≢ 1) × (s'.memory.object 2 ≡ none))
    × ((second_var ≡ 0) → s' ≡ two_buffers)
copy_assign_lem_example = copy_assign_lem two_buffers-IsOwned 1 0 ints refl refl ints-HasContents

move_assign-Moved_example :
    (s' : Program) × (move_assign 1 0 two_buffers ≡ some s')
    × ((second_var ≢ 0) → Moved 1 0 ints two_buffers s' × Freed two_buffers.memory 2 s'.memory)
    × ((second_var ≡ 0) → s' ≡ two_buffers)
move_assign-Moved_example =
    move_assign-Moved two_buffers-IsOwned 1 0 ints refl refl ints-HasContents

-- Variable 1 is made with four ints and moved to variable 2.
moved_on : Program
moved_on = move_construct 2 1 (construct 1 4 no_variables)

moved_on-Reach : Reach moved_on
unfolding moved_on run construct move_construct hold allocate
moved_on-Reach = next (moves 2 1) (next (constructs 1 4) start refl refl) (refl, refl) refl

both_live : (moved_on.alive 1 ≡ true) × (moved_on.alive 2 ≡ true)
unfolding moved_on construct move_construct hold allocate
both_live = (refl, refl)

Reach-run_example :
    IsOwned moved_on × (s' : Program) × (run (move_assigns 1 2) moved_on ≡ some s') × IsOwned s'
Reach-run_example = Reach-run (move_assigns 1 2) moved_on-Reach both_live
