-- ===== src/HeadToHead/Main/Asks.antt =====
-- What the arguments of `main` of bench/spsc_head_to_head.cpp ask for, by its usage text and its messages.
use market_data_pipeline.Base.{ℕ, ◌≢◌, length, ◌≡◌, ◌⊎◌, List, [], ◌∷◌}
use market_data_pipeline.BenchArgs.{
  ℤ, pos, Text, Outcome, value, invalid_argument, out_of_range, stoi,
}
use market_data_pipeline.HeadToHead.Main.{
  Target, mine, rigtorp, moodycamel, folly, boost, TestCase, stream, echo, burst, Work, print_usage,
  print_bad_size, print_bad_target, print_bad_test_case, run_test_case,
}

-- The sizes and the numbers of test cases that `main` takes.
abbrev pub IsSize : ℕ → Type 0
IsSize n = (n ≡ 64) ⊎ ((n ≡ 128) ⊎ ((n ≡ 256) ⊎ ((n ≡ 512) ⊎ (n ≡ 1024))))

abbrev pub number_of : TestCase → ℕ
number_of stream = 1
number_of echo = 2
number_of burst = 3

-- The names of the targets, as the usage text has them.
pub data Named : Text → Target → Type 0 where
  is_mine : Named (b'm' ∷ b'i' ∷ b'n' ∷ b'e' ∷ []) mine
  is_rigtorp : Named (b'r' ∷ b'i' ∷ b'g' ∷ b't' ∷ b'o' ∷ b'r' ∷ b'p' ∷ []) rigtorp
  is_moodycamel :
      Named (b'm' ∷ b'o' ∷ b'o' ∷ b'd' ∷ b'y' ∷ b'c' ∷ b'a' ∷ b'm' ∷ b'e' ∷ b'l' ∷ []) moodycamel
  is_folly : Named (b'f' ∷ b'o' ∷ b'l' ∷ b'l' ∷ b'y' ∷ []) folly
  is_boost : Named (b'b' ∷ b'o' ∷ b'o' ∷ b's' ∷ b't' ∷ []) boost

-- What a valid size and the two other arguments ask for.
pub data AsksFor (target : Text) (test_case : ℤ) (n : ℕ) : Work → Type 0 where
  for_run :
      (t : Target) (k : TestCase)
      → Named target t
      → test_case ≡ pos (number_of k)
      → AsksFor target test_case n (run_test_case t n k)
  for_no_case :
      (t : Target)
      → Named target t
      → ((k : TestCase) → test_case ≢ pos (number_of k))
      → AsksFor target test_case n print_bad_test_case
  for_no_target :
      ((t : Target) → ¬ Named target t) → AsksFor target test_case n (print_bad_target target)

-- What `main` is to do with its arguments.
pub data Specified : List Text → Outcome (ℕ × Work) → Type 0 where
  wrong_count : (argv : List Text) → length argv ≢ 4 → Specified argv (value (1, print_usage))
  bad_case :
      (program target test_case size : Text)
      → stoi test_case ≡ invalid_argument
      → Specified (program ∷ target ∷ test_case ∷ size ∷ []) invalid_argument
  large_case :
      (program target test_case size : Text)
      → stoi test_case ≡ out_of_range
      → Specified (program ∷ target ∷ test_case ∷ size ∷ []) out_of_range
  bad_size :
      (program target test_case size : Text) (k : ℤ)
      → stoi test_case ≡ value k
      → stoi size ≡ invalid_argument
      → Specified (program ∷ target ∷ test_case ∷ size ∷ []) invalid_argument
  large_size :
      (program target test_case size : Text) (k : ℤ)
      → stoi test_case ≡ value k
      → stoi size ≡ out_of_range
      → Specified (program ∷ target ∷ test_case ∷ size ∷ []) out_of_range
  other_size :
      (program target test_case size : Text) (k queue_size : ℤ)
      → stoi test_case ≡ value k
      → stoi size ≡ value queue_size
      → ((n : ℕ) → IsSize n → queue_size ≢ pos n)
      → Specified (program ∷ target ∷ test_case ∷ size ∷ []) (value (1, print_bad_size))
  asked :
      (program target test_case size : Text) (k : ℤ) (n : ℕ) (work : Work)
      → stoi test_case ≡ value k
      → stoi size ≡ value (pos n)
      → IsSize n
      → AsksFor target k n work
      → Specified (program ∷ target ∷ test_case ∷ size ∷ []) (value (0, work))
