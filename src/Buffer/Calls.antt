-- ===== src/Buffer/Calls.antt =====
-- Sequences of calls of the members of `Buffer` of experiments/move_semantics.cpp, in any order, on
-- variables within their lifetimes.
use market_data_pipeline.Base.{
  ◌≡◌, ℕ, refl, sym, subst, true, false, Option, some, ℕ_discrete, arith,
}
use market_data_pipeline.Buffer.{
  Var, Program, construct, destroy, copy_construct, copy_assign, move_construct, move_assign,
}
use market_data_pipeline.Buffer.Owns.{IsOwned}
use market_data_pipeline.Buffer.Copies.{
  destroy-IsOwned, construct-IsOwned, copy_construct_lem, copy_assign_lem,
}
use market_data_pipeline.Buffer.Moves.{move_construct-Moved, move_assign-Moved}
use market_data_pipeline.Buffer.Main.{no_variables}

-- The first variable is the one constructed, assigned to or destroyed, the second the one copied or moved from.
pub data Call : Type 0 where
  constructs : Var → ℕ → Call
  copies : Var → Var → Call
  moves : Var → Var → Call
  copy_assigns : Var → Var → Call
  move_assigns : Var → Var → Call
  destroys : Var → Call

unfoldable pub run : Call → Program → Option Program
run (constructs v n) s = some (construct v n s)
run (copies v other) s = copy_construct v other s
run (moves v other) s = some (move_construct v other s)
run (copy_assigns v other) s = copy_assign v other s
run (move_assigns v other) s = move_assign v other s
run (destroys v) s = destroy v s

-- A call is made within the lifetimes of its variables: a constructor on a new one, from a live one.
abbrev pub InLife : Program → Call → Type 0
InLife s (constructs v n) = s.alive v ≡ false
InLife s (copies v other) = (s.alive v ≡ false) × (s.alive other ≡ true)
InLife s (moves v other) = (s.alive v ≡ false) × (s.alive other ≡ true)
InLife s (copy_assigns v other) = (s.alive v ≡ true) × (s.alive other ≡ true)
InLife s (move_assigns v other) = (s.alive v ≡ true) × (s.alive other ≡ true)
InLife s (destroys v) = s.alive v ≡ true

-- The programs that such calls lead to.
pub data Reach : Program → Type 0 where
  start : Reach no_variables
  next : {s s' : Program} (c : Call) → Reach s → InLife s c → run c s ≡ some s' → Reach s'

no_variables-IsOwned : IsOwned no_variables
no_variables-IsOwned = record {
  tidy = record { null_free = refl; unused = λ p h. refl; started = omega arith };
  owns = λ v h. cc h;
  alone = λ v w hv hw e ne. cc hv;
}

-- A call within lifetimes does not fault, and keeps the ownership.
run-IsOwned :
    (c : Call) (s : Program)
    → IsOwned s
    → InLife s c
    → (s' : Program) × (run c s ≡ some s') × IsOwned s'
unfolding run
run-IsOwned (constructs v n) s o new = (construct v n s, refl, (construct-IsOwned o v n new).0)
run-IsOwned (copies v other) s o (new, live) =
    let (a, held) = o.owns other live in
    let (s', done, owned, _, _, _) = copy_construct_lem o v other a new live held in
    (s', done, owned)
run-IsOwned (moves v other) s o (new, live) =
    let (a, held) = o.owns other live in
    (move_construct v other s, refl, (move_construct-Moved o v other a new live held).0.owned)
run-IsOwned (copy_assigns v other) s o (is, live) =
    let (a, held) = o.owns other live in
    let (s', done, owned, _, _, _, _) = copy_assign_lem o v other a is live held in
    (s', done, owned)
run-IsOwned (move_assigns v other) s o (is, live) =
    let (a, held) = o.owns other live in
    let (s', done, moved, same) = move_assign-Moved o v other a is live held in
    (
      s',
      done,
      elim (ℕ_discrete v other) [
        | yes e ↦ subst IsOwned (sym (same e)) o
        | no ne ↦ (moved ne).0.owned
      ],
    )
run-IsOwned (destroys v) s o live =
    let (s', done, owned, _, _) = destroy-IsOwned o v live in (s', done, owned)

Reach-IsOwned : {s : Program} → Reach s → IsOwned s
Reach-IsOwned start = no_variables-IsOwned
Reach-IsOwned (next {s} {s'} c r life done) =
    let (made, ran, owned) = run-IsOwned c s (Reach-IsOwned r) life in
    subst IsOwned (cc (ran, done)) owned

-- After any sequence of calls of the five special members, the constructor and the destructor on variables
-- within their lifetimes, each further such call does not fault: no array is deleted twice, and
-- none is copied from that was deleted or out of its bounds; and before it and after it each live variable
-- holds an array of its size that lives, or null and the size 0, and no two the same one.
pub Reach-run :
    {s : Program} (c : Call)
    → Reach s
    → InLife s c
    → IsOwned s × (s' : Program) × (run c s ≡ some s') × IsOwned s'
Reach-run {s} c r life =
    let o = Reach-IsOwned r in let (s', ran, owned) = run-IsOwned c s o life in (o, s', ran, owned)
