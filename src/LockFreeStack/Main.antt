-- ===== src/LockFreeStack/Main.antt =====
-- `main` of experiments/broken_aba.cpp: the three nodes of `pool` are 1, 2 and 3. Each call has the list of
-- its attempts; the sleeps order the two threads as `Aba` says.
use market_data_pipeline.Base.{
  ℕ, suc, ◌≡◌, ◌≢◌, ◌∙◌, refl, ap, Bool, Option, some, none, List, [], ◌∷◌, arith,
}
use market_data_pipeline.Memory.{Ptr}
use market_data_pipeline.LockFreeStack.{Stack, push, pop_vulnerable_begin, pop_vulnerable_end}
use market_data_pipeline.LockFreeStack.Chain.{Chain, Succeeds, push-Chain, pop_normal-Chain}
use market_data_pipeline.LockFreeStack.Aba.{second_thread, second_thread_lem}

abbrev pub new_stack : Stack
new_stack = record { head = 0; value = λ _. 0; next = λ _. 0 }

-- The attempts of the calls of `push`, and of those of the second thread.
pub record Attempts : Type 0 where
  pub push_c : List Bool
  pub push_b : List Bool
  pub push_a : List Bool
  pub pop_a : List Bool
  pub pop_b : List Bool
  pub push_a_back : List Bool

abbrev pub build : Attempts → Option Stack
build k = elim (push k.push_c 3 b'C' new_stack) [
  | none ↦ none
  | some s1 ↦ elim (push k.push_b 2 b'B' s1) [ none ↦ none | some s2 ↦ push k.push_a 1 b'A' s2 ]
]

-- The first thread up to its sleep, the second one, and the rest of the first.
abbrev pub run_threads : Attempts → Stack → Option Stack
run_threads k s = elim (pop_vulnerable_begin s) [
  | none ↦ none
  | some (old, stale_next) ↦ elim (second_thread k.pop_a k.pop_b k.push_a_back 1 b'A' s) [
    | none ↦ none
    | some s' ↦ some (pop_vulnerable_end old stale_next s').1
  ]
]

-- The value of the final head, which `main` prints.
unfoldable pub main : Attempts → Option ℕ
main k = elim (build k) [
  | none ↦ none
  | some s ↦ elim (run_threads k s) [ none ↦ none | some s' ↦ some (s'.value s'.head) ]
]

abbrev pub AllSucceed : Attempts → Type 0
AllSucceed k =
    Succeeds k.push_c
    × Succeeds k.push_b
    × Succeeds k.push_a
    × Succeeds k.pop_a
    × Succeeds k.pop_b
    × Succeeds k.push_a_back

reads_stale :
    (s : Stack) (xs : List Ptr)
    → Chain s.next s.head (1 ∷ 2 ∷ xs)
    → pop_vulnerable_begin s ≡ some (1, 2)
unfolding pop_vulnerable_begin
reads_stale s xs chain = ground (arith, chain.0, chain.1, chain.2.0)

stores_stale : (s : Stack) → s.head ≡ 1 → pop_vulnerable_end 1 2 s ≡ (1, record s { head = 2 })
unfolding pop_vulnerable_end
stores_stale s at = ground (arith, at)

run_threads-value :
    (k : Attempts) (s : Stack)
    → AllSucceed k
    → Chain s.next s.head (1 ∷ 2 ∷ 3 ∷ [])
    → s.value 2 ≡ b'B'
    → (s' : Stack) × (run_threads k s ≡ some s') × (s'.value s'.head ≡ b'B')
run_threads-value k s (_, _, _, ok4, ok5, ok6) chain b_is =
    let (s1, pop1, chain1, next1, value1) = pop_normal-Chain k.pop_a s 1 (2 ∷ 3 ∷ []) ok4 chain in
    let (s2, pop2, chain2, next2, value2) = pop_normal-Chain k.pop_b s1 2 (3 ∷ []) ok5 chain1 in
    let (s3, pushed, effect) =
      push-Chain k.push_a_back 1 b'A' s2 (3 ∷ []) ok6 (λ e. omega (arith, e))
        ((λ e. omega (arith, e)), tt) chain2 in
    let two : s3.value 2 ≡ b'B' =
      (effect.2 2 (λ e. omega (arith, e))).1 ∙ ap (λ f. f 2) (value2 ∙ value1) ∙ b_is in
    let ran =
      second_thread_lem k.pop_a k.pop_b k.push_a_back 1 b'A' 1 2 s s1 s2 s3 pop1 pop2 pushed in
    (
      record s3 { head = 2 },
      rw (reads_stale s (3 ∷ []) chain, ran, run_threads)
          (ap (λ r. some (r.1)) (stores_stale s3 effect.0.0)),
      two,
    )

build-Chain :
    (k : Attempts)
    → AllSucceed k
    → (s : Stack) × (build k ≡ some s) × Chain s.next s.head (1 ∷ 2 ∷ 3 ∷ []) × (s.value 2 ≡ b'B')
build-Chain k (ok1, ok2, ok3, _, _, _) =
    let live : (n : ℕ) → suc n ≢ 0 = λ n e. omega (arith, e) in
    let (s1, push1, effect1) = push-Chain k.push_c 3 b'C' new_stack [] ok1 (live 2) tt refl in
    let (s2, push2, effect2) =
      push-Chain k.push_b 2 b'B' s1 (3 ∷ []) ok2 (live 1) ((λ e. omega (arith, e)), tt) effect1.0 in
    let (s3, push3, effect3) =
      push-Chain k.push_a 1 b'A' s2 (2 ∷ 3 ∷ []) ok3 (live 0)
        ((λ e. omega (arith, e)), ((λ e. omega (arith, e)), tt)) effect2.0 in
    (
      s3,
      rw (push1, push2, build) push3,
      effect3.0,
      (effect3.2 2 (λ e. omega (arith, e))).1 ∙ effect2.1,
    )

-- `main` prints the value of the stale node B, which the second thread has popped, if some attempt of each
-- call does not fail without a reason.
pub main-stale : (k : Attempts) → AllSucceed k → main k ≡ some b'B'
unfolding main
main-stale k ok =
    let (s, built, chain, b_is) = build-Chain k ok in
    let (s', ran, is) = run_threads-value k s ok chain b_is in
    rw (built, main) (rw (ran) (ap some is))
