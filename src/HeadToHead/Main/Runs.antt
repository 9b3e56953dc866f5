-- ===== src/HeadToHead/Main/Runs.antt =====
-- `main` of bench/spsc_head_to_head.cpp against what its arguments ask for (`Main.Asks`).
use market_data_pipeline.Base.{
  ℕ, ◌≢◌, sym, true, arith, ◌≡◌, ◌⊎◌, inl, inr, refl, ◌∙◌, ap, false, List, [], ◌∷◌, ◌==◌,
  Bool-cases, subst,
}
use market_data_pipeline.BenchArgs.{
  ℤ, pos, negsuc, Text, Outcome, value, invalid_argument, out_of_range, stoi, same_text,
}
use market_data_pipeline.HeadToHead.Main.{
  Target, mine, rigtorp, moodycamel, folly, boost, stream, echo, burst, print_bad_size, run,
  name_of, run_for_target, dispatch, with_size, with_test_case, main,
}
use market_data_pipeline.HeadToHead.Main.Asks.{
  IsSize, number_of, Named, is_mine, is_rigtorp, is_moodycamel, is_folly, is_boost, AsksFor,
  for_run, for_no_case, for_no_target, Specified, wrong_count, bad_case, large_case, bad_size,
  large_size, other_size, asked,
}

same_text-eq : (a b : Text) → same_text a b ≡ true → a ≡ b
same_text-eq [] [] e = refl
same_text-eq [] (d ∷ ds) e = cc e
same_text-eq (c ∷ cs) [] e = cc e
same_text-eq (c ∷ cs) (d ∷ ds) e =
    let first : c ≡ d = ground (arith, e) in
    let rest : cs ≡ ds = same_text-eq cs ds (ground (arith, e)) in cc (first, rest)

same_text-Named :
    {target : Text} {t : Target} → Named target t → same_text target (name_of t) ≡ true
same_text-Named is_mine = refl
same_text-Named is_rigtorp = refl
same_text-Named is_moodycamel = refl
same_text-Named is_folly = refl
same_text-Named is_boost = refl

name_of-Named : (t : Target) → Named (name_of t) t
name_of-Named mine = is_mine
name_of-Named rigtorp = is_rigtorp
name_of-Named moodycamel = is_moodycamel
name_of-Named folly = is_folly
name_of-Named boost = is_boost

matched-Named : (target : Text) (t : Target) → same_text target (name_of t) ≡ true → Named target t
matched-Named target t e =
    subst (λ v. Named v t) (sym (same_text-eq target (name_of t) e)) (name_of-Named t)

run-AsksFor :
    (target : Text) (t : Target) (n : ℕ) (test_case : ℤ)
    → Named target t
    → AsksFor target test_case n (run t n test_case)
unfolding run
run-AsksFor target t n (negsuc k) named = for_no_case t named (λ c e. cc e)
run-AsksFor target t n (pos k) named = elim (Bool-cases (k == 1)) [
  | inl is ↦ rw is (for_run t stream named (ap pos (ground (arith, is))))
  | inr not_1 ↦ elim (Bool-cases (k == 2)) [
    | inl is ↦ rw (not_1, is) (for_run t echo named (ap pos (ground (arith, is))))
    | inr not_2 ↦ elim (Bool-cases (k == 3)) [
      | inl is ↦ rw (not_1, not_2, is) (for_run t burst named (ap pos (ground (arith, is))))
      | inr not_3 ↦
          rw (not_1, not_2, not_3)
            (for_no_case t named (λ c. elim c as (λ d. pos k ≢ pos (number_of d)) [
              | stream ↦ differs 1 not_1
              | echo ↦ differs 2 not_2
              | burst ↦ differs 3 not_3
            ]))
    ]
  ]
]
  where
    number : (a b : ℕ) → pos a ≡ pos b → a ≡ b
    number a b e = cc e

    differs : (b : ℕ) → (k == b) ≡ false → pos k ≢ pos b
    differs b off e = let is = number k b e in ground (arith, off, is)

run_for_target-AsksFor :
    (n : ℕ) (target : Text) (test_case : ℤ)
    → AsksFor target test_case n (run_for_target n target test_case)
unfolding run_for_target
run_for_target-AsksFor n target k =
    let runs : (t : Target) → same_text target (name_of t) ≡ true → AsksFor target k n (run t n k) =
      λ t is. run-AsksFor target t n k (matched-Named target t is) in
    elim (Bool-cases (same_text target (name_of mine))) [
      | inl is ↦ rw is (runs mine is)
      | inr no_1 ↦ elim (Bool-cases (same_text target (name_of rigtorp))) [
        | inl is ↦ rw (no_1, is) (runs rigtorp is)
        | inr no_2 ↦ elim (Bool-cases (same_text target (name_of moodycamel))) [
          | inl is ↦ rw (no_1, no_2, is) (runs moodycamel is)
          | inr no_3 ↦ elim (Bool-cases (same_text target (name_of folly))) [
            | inl is ↦ rw (no_1, no_2, no_3, is) (runs folly is)
            | inr no_4 ↦ elim (Bool-cases (same_text target (name_of boost))) [
              | inl is ↦ rw (no_1, no_2, no_3, no_4, is) (runs boost is)
              | inr no_5 ↦
                  let none_named : (t : Target) → same_text target (name_of t) ≡ false = λ t.
                    elim t as (λ u. same_text target (name_of u) ≡ false) [
                      | mine ↦ no_1
                      | rigtorp ↦ no_2
                      | moodycamel ↦ no_3
                      | folly ↦ no_4
                      | boost ↦ no_5
                    ] in
                  rw (no_1, no_2, no_3, no_4, no_5)
                    (for_no_target (λ t named. cc (none_named t, same_text-Named named)))
            ]
          ]
        ]
      ]
    ]

-- What `dispatch` does with a size: it is one of the five, or not.
dispatch-cases :
    (target : Text) (test_case queue_size : ℤ)
    → ((n : ℕ) × (queue_size ≡ pos n)
        × IsSize n
        × (dispatch target test_case queue_size ≡ (0, run_for_target n target test_case)))
      ⊎ (((n : ℕ) → IsSize n → queue_size ≢ pos n)
          × (dispatch target test_case queue_size ≡ (1, print_bad_size)))
unfolding dispatch
dispatch-cases target k (negsuc n) = inr ((λ m ok e. cc e), refl)
dispatch-cases target k (pos n) = elim (Bool-cases (n == 64)) [
  | inl is ↦ inl (64, ap pos (ground (arith, is)), inl refl, rw is refl)
  | inr no_1 ↦ elim (Bool-cases (n == 128)) [
    | inl is ↦ inl (128, ap pos (ground (arith, is)), inr (inl refl), rw (no_1, is) refl)
    | inr no_2 ↦ elim (Bool-cases (n == 256)) [
      | inl is ↦
          inl (256, ap pos (ground (arith, is)), inr (inr (inl refl)), rw (no_1, no_2, is) refl)
      | inr no_3 ↦ elim (Bool-cases (n == 512)) [
        | inl is ↦ inl (
          512,
          ap pos (ground (arith, is)),
          inr (inr (inr (inl refl))),
          rw (no_1, no_2, no_3, is) refl,
        )
        | inr no_4 ↦ elim (Bool-cases (n == 1024)) [
          | inl is ↦ inl (
            1024,
            ap pos (ground (arith, is)),
            inr (inr (inr (inr refl))),
            rw (no_1, no_2, no_3, no_4, is) refl,
          )
          | inr no_5 ↦ inr (
            (λ m ok e.
                let same = number n m e in ground (arith, ok, same, no_1, no_2, no_3, no_4, no_5)),
            rw (no_1, no_2, no_3, no_4, no_5) refl,
          )
        ]
      ]
    ]
  ]
]
  where
    number : (a b : ℕ) → pos a ≡ pos b → a ≡ b
    number a b e = cc e

dispatch-Specified :
    (program target test_case size : Text) (k queue_size : ℤ)
    → stoi test_case ≡ value k
    → stoi size ≡ value queue_size
    → Specified (program ∷ target ∷ test_case ∷ size ∷ []) (value (dispatch target k queue_size))
dispatch-Specified program target test_case size k queue_size case_read size_read =
    elim (dispatch-cases target k queue_size) [
      | inl (n, is, ok, done) ↦ rw done (
          asked program target test_case size k n (run_for_target n target k) case_read
            (size_read ∙ ap value is) ok (run_for_target-AsksFor n target k))
      | inr (other, done) ↦
          rw done (other_size program target test_case size k queue_size case_read size_read other)
    ]

with_size-Specified :
    (program target test_case size : Text) (k : ℤ) (read : Outcome ℤ)
    → stoi test_case ≡ value k
    → stoi size ≡ read
    → Specified (program ∷ target ∷ test_case ∷ size ∷ []) (with_size target k read)
unfolding with_size
with_size-Specified program target test_case size k (value n) case_read size_read =
    dispatch-Specified program target test_case size k n case_read size_read
with_size-Specified program target test_case size k invalid_argument case_read size_read =
    bad_size program target test_case size k case_read size_read
with_size-Specified program target test_case size k out_of_range case_read size_read =
    large_size program target test_case size k case_read size_read

with_test_case-Specified :
    (program target test_case size : Text) (read : Outcome ℤ)
    → stoi test_case ≡ read
    → Specified (program ∷ target ∷ test_case ∷ size ∷ []) (with_test_case target read size)
unfolding with_test_case
with_test_case-Specified program target test_case size (value k) case_read =
    with_size-Specified program target test_case size k (stoi size) case_read refl
with_test_case-Specified program target test_case size invalid_argument case_read =
    bad_case program target test_case size case_read
with_test_case-Specified program target test_case size out_of_range case_read =
    large_case program target test_case size case_read

-- `main` does what its arguments ask for. With other than three arguments after the program's name it
-- prints the usage and returns 1; a test case or a size that `std::stoi` does not read ends it with
-- the exception; a size other than 64, 128, 256, 512 and 1024 makes it return 1 with a message. Else it
-- returns 0, and: for one of the five target names and a test case 1, 2 or 3 it runs that test case (the
-- stream, the echo, the burst) over queues of that target and size; for such a name and another
-- test case, or another name, it prints the message about it.
pub main-Specified : (argv : List Text) → Specified argv (main argv)
unfolding main
main-Specified [] = wrong_count [] (λ e. omega (arith, e))
main-Specified (a ∷ []) = wrong_count (a ∷ []) (λ e. omega (arith, e))
main-Specified (a ∷ b ∷ []) = wrong_count (a ∷ b ∷ []) (λ e. omega (arith, e))
main-Specified (a ∷ b ∷ c ∷ []) = wrong_count (a ∷ b ∷ c ∷ []) (λ e. omega (arith, e))
main-Specified (a ∷ b ∷ c ∷ d ∷ e ∷ es) =
    wrong_count (a ∷ b ∷ c ∷ d ∷ e ∷ es) (λ is. omega (arith, is))
main-Specified (a ∷ target ∷ test_case ∷ size ∷ []) =
    with_test_case-Specified a target test_case size (stoi test_case) refl
