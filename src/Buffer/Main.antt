-- ===== src/Buffer/Main.antt =====
-- `main` of experiments/move_semantics.cpp: the calls it makes, what it prints, and the arrays left when its
-- variables are destroyed. The variables b1 to b5 are 1 to 5.
use market_data_pipeline.Base.{
  ℕ, ◌≢◌, ℕ_discrete, ◌≡◌, refl, Bool, true, false, not, Option, none, some, List, [], ◌∷◌, ◌==◌,
  ltb, if◌then◌else◌, arith, get_elem?, set, length,
}
use market_data_pipeline.Memory.{Ptr, null, ◌>>=◌, empty_memory, allocate, free, load, assign}
use market_data_pipeline.Buffer.{
  Var, Program, copy_ints, copy_array, hold, construct, destroy, copy_construct, copy_assign,
  move_construct, move_assign,
}

-- A line printed: a size, an int, a pointer with a size, or whether two pointers differ. An int without a
-- value is `none`.
pub data Line : Type 0 where
  size : ℕ → Line
  int : Option ℕ → Line
  pointer : Ptr → ℕ → Line
  differ : Bool → Line

abbrev pub no_variables : Program
no_variables = record {
  data_of = λ _. null;
  size_of = λ _. 0;
  alive = λ _. false;
  memory = empty_memory;
}

-- `v.data[i]` and `v.data[i] = x`; an access out of the array's bounds faults.
unfoldable pub read_int : Var → ℕ → Program → Option (Option ℕ)
read_int v i s = do a ← load (s.data_of v) s.memory; get_elem? a i

unfoldable pub write_int : Var → ℕ → ℕ → Program → Option Program
write_int v i x s = do
  a ← load (s.data_of v) s.memory
  m ← if ltb i (length a) then assign (s.data_of v) (set a i (some x)) s.memory else none
  some (record s { memory = m })

-- `Buffer b1(4)` and the four ints written to it
abbrev fill_first : ℕ → ℕ → ℕ → ℕ → Option Program
fill_first x y z w = do
  s0 ← write_int 1 0 x (construct 1 4 no_variables)
  s1 ← write_int 1 1 y s0
  s2 ← write_int 1 2 z s1
  write_int 1 3 w s2

-- The variables are destroyed in the reverse order of their construction.
abbrev destroy_all : Program → Option Program
destroy_all s = do
  s5 ← destroy 5 s
  s4 ← destroy 4 s5
  s3 ← destroy 3 s4
  s2 ← destroy 2 s3
  destroy 1 s2

-- `x` to `w` are the ints that `b1` is filled with.
unfoldable pub main : ℕ → ℕ → ℕ → ℕ → Option (List Line × Program)
main x y z w = do
  s1 ← fill_first x y z w
  s2 ← copy_construct 2 1 s1
  copied ← read_int 2 0 s2
  s3 ← copy_assign 3 1 (construct 3 2 s2)
  assigned ← read_int 3 1 s3
  s5 ← move_assign 5 2 (construct 5 1 (move_construct 4 1 s3))
  moved ← read_int 5 0 s5
  ended ← destroy_all s5
  some (
    size (s1.size_of 1)
        ∷ int copied
        ∷ differ (not (s2.data_of 1 == s2.data_of 2))
        ∷ int assigned
        ∷ differ (not (s3.data_of 1 == s3.data_of 2))
        ∷ pointer ((move_construct 4 1 s3).data_of 4) ((move_construct 4 1 s3).size_of 4)
        ∷ pointer ((move_construct 4 1 s3).data_of 1) ((move_construct 4 1 s3).size_of 1)
        ∷ int moved
        ∷ pointer (s5.data_of 2) (s5.size_of 2)
        ∷ [],
    ended,
  )

off : (p i : ℕ) → p ≢ i → (p == i) ≡ false
off p i ne = ground (arith, ne)

-- Whatever ints `main` writes, no call of it faults; it prints the size 4, the first int from the copy, the
-- second from the array that was copy-assigned and the first from the one that was moved to, a pointer
-- with the size 4 for the variable that was moved to first, and the null pointer with the size 0 for the
-- two variables that were moved from; the two comparisons, both of `b1.data` with `b2.data`, print that
-- the pointers differ (the message of the second is about `b3`, which it does not compare); and when it
-- ends every array is deleted.
pub main_frees :
    (x y z w : ℕ)
    → (s : Program) × (main x y z w
        ≡ some (
          size 4
              ∷ int (some x)
              ∷ differ true
              ∷ int (some y)
              ∷ differ true
              ∷ pointer 1 4
              ∷ pointer null 0
              ∷ int (some x)
              ∷ pointer null 0
              ∷ [],
          s,
        ))
      × ((p : Ptr) → s.memory.object p ≡ none)
unfolding main read_int write_int construct destroy copy_construct copy_assign move_construct
    move_assign hold copy_array copy_ints allocate free load assign
main_frees x y z w = (
  _,
  refl,
  λ p. elim (ℕ_discrete p 1) [
    | yes e ↦ rw e refl
    | no n1 ↦ elim (ℕ_discrete p 2) [
      | yes e ↦ rw e refl
      | no n2 ↦ elim (ℕ_discrete p 3) [
        | yes e ↦ rw e refl
        | no n3 ↦ elim (ℕ_discrete p 4) [
          | yes e ↦ rw e refl
          | no n4 ↦ elim (ℕ_discrete p 5) [
            | yes e ↦ rw e refl
            | no n5 ↦ rw (off p 1 n1, off p 2 n2, off p 3 n3, off p 4 n4, off p 5 n5) refl
          ]
        ]
      ]
    ]
  ],
)
