-- ===== src/BenchArgs.antt =====
-- Command lines of the benchmarks: `parse_bench_args` of bench/bench_utils.h, the copy of it in
-- `main` of bench/pingpong_bench.cpp, and `std::stoi` as the C++ standard describes it.
-- A text is the list of its bytes. An `int` is an integer in the range of 32 bits.
pub mod Parse
use market_data_pipeline.Base.{
  ℕ, zero, suc, ◌+◌, ◌-◌, ◌*◌, ◌^◌, ◌≤◌, ◌≡◌, Bool, true, false, List, [], ◌∷◌, ◌++◌, ◌==◌, leb,
  ltb, ◌&&◌, ◌||◌, if◌then◌else◌, length,
}

pub data ℤ : Type 0 where
  pos : ℕ → ℤ
  negsuc : ℕ → ℤ

abbrev pub Text : Type 0
Text = List ℕ

-- An exception that leaves the function, or its value.
pub data Outcome {ℓ} (A : Type ℓ) : Type ℓ where
  value : A → Outcome A
  invalid_argument : Outcome A
  out_of_range : Outcome A

abbrev pub is_digit : ℕ → Bool
is_digit c = leb b'0' c && leb c b'9'

-- `isspace` in the C locale: space, and 9 to 13.
abbrev pub is_space : ℕ → Bool
is_space c = c == 32 || (leb 9 c && leb c 13)

unfoldable pub skip_spaces : Text → Text
skip_spaces [] = []
skip_spaces (c ∷ cs) = if is_space c then skip_spaces cs else c ∷ cs

-- The digits that a text begins with, read on from `acc`.
unfoldable pub read_digits : ℕ → Text → ℕ
read_digits acc [] = acc
read_digits acc (c ∷ cs) =
    let rest = read_digits (acc * 10 + (c - b'0')) cs in if is_digit c then rest else acc

abbrev pub negate : ℕ → ℤ
negate zero = pos 0
negate (suc n) = negsuc n

-- `negative` tells the sign read. At least one digit is wanted, and a value that fits an `int`.
unfoldable pub read_number : Bool → Text → Outcome ℤ
read_number negative [] = invalid_argument
read_number true (c ∷ cs) =
    if is_digit c
    then (if leb (read_digits 0 (c ∷ cs)) (2 ^ 31)
        then value (negate (read_digits 0 (c ∷ cs)))
        else out_of_range)
    else invalid_argument
read_number false (c ∷ cs) =
    if is_digit c
    then (if ltb (read_digits 0 (c ∷ cs)) (2 ^ 31)
        then value (pos (read_digits 0 (c ∷ cs)))
        else out_of_range)
    else invalid_argument

unfoldable pub read_signed : Text → Outcome ℤ
read_signed [] = invalid_argument
read_signed (c ∷ cs) =
    if c == b'-'
    then read_number true cs
    else if c == b'+'
    then read_number false cs
    else read_number false (c ∷ cs)

-- `std::stoi(text)`: white space, a sign, digits; what follows them is ignored.
unfoldable pub stoi : Text → Outcome ℤ
stoi text = read_signed (skip_spaces text)

pub record BenchArgs : Type 0 where
  pub mode : ℤ
  pub printed : Bool

-- "_printed"
abbrev pub suffix : Text
suffix = b'_' ∷ b'p' ∷ b'r' ∷ b'i' ∷ b'n' ∷ b't' ∷ b'e' ∷ b'd' ∷ []

abbrev pub same_text : Text → Text → Bool
same_text [] [] = true
same_text [] (_ ∷ _) = false
same_text (_ ∷ _) [] = false
same_text (c ∷ cs) (d ∷ ds) = c == d && same_text cs ds

-- `arg.substr(0, n)` and `arg.substr(n)`
abbrev pub take : ℕ → Text → Text
take zero cs = []
take (suc n) [] = []
take (suc n) (c ∷ cs) = c ∷ take n cs

abbrev pub drop : ℕ → Text → Text
drop zero cs = cs
drop (suc n) [] = []
drop (suc n) (c ∷ cs) = drop n cs

-- The test for the suffix: some text before it, and the last eight bytes the same.
unfoldable pub has_suffix : Text → Bool
has_suffix arg =
    leb (length suffix + 1) (length arg) && same_text (drop (length arg - length suffix) arg) suffix

abbrev pub with_mode : Bool → Outcome ℤ → Outcome BenchArgs
with_mode printed (value m) = value (record { mode = m; printed = printed })
with_mode printed invalid_argument = invalid_argument
with_mode printed out_of_range = out_of_range

unfoldable pub parse_arg : Text → Outcome BenchArgs
parse_arg arg =
    if has_suffix arg
    then with_mode true (stoi (take (length arg - length suffix) arg))
    else with_mode false (stoi arg)

-- The argument is `argv`, the program's name first; further arguments are ignored.
unfoldable pub parse_bench_args : List Text → Outcome BenchArgs
parse_bench_args [] = value (record { mode = pos 0; printed = true })
parse_bench_args (_ ∷ []) = value (record { mode = pos 0; printed = true })
parse_bench_args (_ ∷ arg ∷ _) = parse_arg arg

-- The same lines in `main` of bench/pingpong_bench.cpp, where the mode is 1 at first.
unfoldable pub parse_pingpong_args : List Text → Outcome BenchArgs
parse_pingpong_args [] = value (record { mode = pos 1; printed = true })
parse_pingpong_args (_ ∷ []) = value (record { mode = pos 1; printed = true })
parse_pingpong_args (_ ∷ arg ∷ _) =
    if has_suffix arg
    then with_mode true (stoi (take (length arg - length suffix) arg))
    else with_mode false (stoi arg)
