-- ===== src/PingPong/Main.antt =====
-- `percentile` and `main` of bench/pingpong_bench.cpp, once its threads have been joined. The products of a
-- number and a fraction, of type `double`, are parameters; the frequencies printed are left out.
use market_data_pipeline.Base.{
  ℕ, ◌-◌, ◌≡◌, ◌≢◌, ◌⊎◌, ◌↔◌, inl, inr, refl, ap, sym, subst, Bool, true, false, Option, none, some,
  List, [], ◌∷◌, map, length, ◌==◌, if◌then◌else◌, Bool-cases, arith, ==_iff,
}
use market_data_pipeline.BenchArgs.{
  ℤ, pos, negsuc, Text, Outcome, value, invalid_argument, out_of_range, BenchArgs,
  parse_pingpong_args,
}
use market_data_pipeline.Samples.{AllRanked, IsRanked, AllBelow, sample_at, sample_at-rank}
use market_data_pipeline.PingPong.{SenderAt, ReceiverAt, State, Reach}
use market_data_pipeline.PingPong.Rounds.{threads_end}

-- `percentile(percentage)` of the samples, which `main` has sorted: `none` for 1, else the product of the
-- percentage and the number of samples, as an integer. The result is `none` past the end of the array.
unfoldable pub percentile : List ℕ → Option (ℕ → ℕ) → Option ℕ
percentile samples none = sample_at samples (length samples - 1)
percentile samples (some part) = sample_at samples (part (length samples))

pub data Layout : Type 0 where
  same_cache_line : Layout
  separate_cache_lines : Layout

abbrev pub is_mode : ℤ → ℕ → Bool
is_mode (pos m) n = m == n
is_mode (negsuc m) n = false

-- The variables that `g_flag` and `g_counter` point to: `g_packed` or `g_padded`.
abbrev pub layout_used : ℤ → Layout
layout_used mode = if is_mode mode 2 then separate_cache_lines else same_cache_line

abbrev pub layout_printed : ℤ → Layout
layout_printed mode = if is_mode mode 1 then same_cache_line else separate_cache_lines

pub record Printed : Type 0 where
  pub mode : ℤ
  pub layout : Layout
  pub percentiles : List (Option ℕ)

pub record Result : Type 0 where
  pub layout : Layout
  pub printed : Option Printed
  pub exit_code : ℕ

-- The percentiles of 0.1, 1, 25, 50, 75, 99 and 99.9 are of these products.
abbrev pub printed_of : List (ℕ → ℕ) → List ℕ → BenchArgs → Option Printed
printed_of parts samples args =
    if args.printed
    then some (record {
      mode = args.mode;
      layout = layout_printed args.mode;
      percentiles = map (λ part. percentile samples (some part)) parts;
    })
    else none

abbrev pub with_result : ℕ → List (ℕ → ℕ) → List ℕ → ℕ → Outcome BenchArgs → Outcome Result
with_result num_round_trips parts samples counter (value args) = value (record {
  layout = layout_used args.mode;
  printed = printed_of parts samples args;
  exit_code = if counter == num_round_trips then 0 else 1;
})
with_result num_round_trips parts samples counter invalid_argument = invalid_argument
with_result num_round_trips parts samples counter out_of_range = out_of_range

-- `main`, given the samples and the counter that the threads leave.
unfoldable pub main : ℕ → List (ℕ → ℕ) → List Text → List ℕ → ℕ → Outcome Result
main num_round_trips parts argv samples counter =
    with_result num_round_trips parts samples counter (parse_pingpong_args argv)

-- The layout that is printed is the one used in modes 1 and 2, and in no other.
pub layout_printed_iff :
    (mode : ℤ) → (layout_printed mode ≡ layout_used mode) ↔ ((mode ≡ pos 1) ⊎ (mode ≡ pos 2))
layout_printed_iff (negsuc m) = ((λ e. cc e), λ h. elim h [ inl e ↦ cc e | inr e ↦ cc e ])
layout_printed_iff (pos m) = elim (Bool-cases (m == 1)) [
  | inl is ↦ let one : m ≡ 1 = (==_iff m 1).0 is in rw one ((λ e. inl refl), λ h. refl)
  | inr not_1 ↦ elim (Bool-cases (m == 2)) [
    | inl is ↦ let two : m ≡ 2 = (==_iff m 2).0 is in rw two ((λ e. inr refl), λ h. refl)
    | inr not_2 ↦
        rw (not_1, not_2)
          (
            (λ e. cc e),
            λ h. elim h [
              | inl e ↦ let is : m ≡ 1 = cc e in absurd (ground (arith, not_1, is))
              | inr e ↦ let is : m ≡ 2 = cc e in absurd (ground (arith, not_2, is))
            ],
          )
  ]
]

percentiles-AllRanked :
    (samples : List ℕ) (parts : List (ℕ → ℕ))
    → AllBelow parts (length samples)
    → AllRanked samples parts (map (λ part. percentile samples (some part)) parts)
unfolding percentile
percentiles-AllRanked samples [] below = refl
percentiles-AllRanked samples (part ∷ parts) (first, rest) =
    let (v, is, less, upto) = sample_at-rank samples (part (length samples)) first in
    (
      subst (IsRanked samples (part (length samples))) (sym is) (less, upto),
      percentiles-AllRanked samples parts rest,
    )

-- The padded variables are for mode 2 alone.
abbrev pub UsedIn : ℤ → Layout → Type 0
UsedIn mode same_cache_line = mode ≢ pos 2
UsedIn mode separate_cache_lines = mode ≡ pos 2

-- The line about the layout names the packed variables in mode 1 alone.
abbrev pub PrintedIn : ℤ → Layout → Type 0
PrintedIn mode same_cache_line = mode ≡ pos 1
PrintedIn mode separate_cache_lines = mode ≢ pos 1

-- What is printed is what was asked for, with one sample for each percentage, at its place in their order.
abbrev pub IsPrinted : List (ℕ → ℕ) → List ℕ → BenchArgs → Option Printed → Type 0
IsPrinted parts samples args none = args.printed ≡ false
IsPrinted parts samples args (some p) =
    (args.printed ≡ true)
    × (p.mode ≡ args.mode)
    × PrintedIn args.mode p.layout
    × AllRanked samples parts p.percentiles

pos-injective : (a b : ℕ) → pos a ≡ pos b → a ≡ b
pos-injective a b e = cc e

layout_used-UsedIn : (mode : ℤ) → UsedIn mode (layout_used mode)
layout_used-UsedIn (negsuc m) = λ e. cc e
layout_used-UsedIn (pos m) = elim (Bool-cases (m == 2)) [
  | inl is ↦ rw is (ap pos (ground (arith, is)))
  | inr off ↦ rw off (λ e. let is = pos-injective m 2 e in ground (arith, off, is))
]

layout_printed-PrintedIn : (mode : ℤ) → PrintedIn mode (layout_printed mode)
layout_printed-PrintedIn (negsuc m) = λ e. cc e
layout_printed-PrintedIn (pos m) = elim (Bool-cases (m == 1)) [
  | inl is ↦ rw is (ap pos (ground (arith, is)))
  | inr off ↦ rw off (λ e. let is = pos-injective m 1 e in ground (arith, off, is))
]

printed_of-IsPrinted :
    (parts : List (ℕ → ℕ)) (samples : List ℕ) (args : BenchArgs)
    → AllBelow parts (length samples)
    → IsPrinted parts samples args (printed_of parts samples args)
printed_of-IsPrinted parts samples args below = elim (Bool-cases args.printed) [
  | inl wanted ↦
      rw wanted
        (refl, refl, layout_printed-PrintedIn args.mode, percentiles-AllRanked samples parts below)
  | inr silent ↦ rw silent refl
]

-- When both threads have finished their `n` rounds, the arguments have been read, and each
-- product of a percentage and the number of samples is below this number, `main` returns 0; it has used
-- the padded variables in mode 2 and else the packed ones; it prints nothing unless it is asked to; and
-- then it prints the mode, a line that names the packed layout in mode 1 and else the other one, and
-- for each percentage one of the samples, the one at that place in their order.
pub main_returns :
    (n : ℕ) {s : State} (parts : List (ℕ → ℕ)) (argv : List Text) (samples : List ℕ)
    (args : BenchArgs)
    → Reach n s
    → s.sender ≡ SenderAt.finished
    → s.receiver ≡ ReceiverAt.finished
    → parse_pingpong_args argv ≡ value args
    → AllBelow parts (length samples)
    → (result : Result) × (main n parts argv samples s.counter ≡ value result)
      × (result.exit_code ≡ 0)
      × UsedIn args.mode result.layout
      × IsPrinted parts samples args result.printed
unfolding main
main_returns n {s} parts argv samples args r sent received parsed below =
    let (counted, lowered) = (threads_end n r).2 sent received in
    let exact : (s.counter == n) ≡ true = (==_iff s.counter n).1 counted in
    (
      record {
        layout = layout_used args.mode;
        printed = printed_of parts samples args;
        exit_code = 0;
      },
      rw (parsed, exact) refl,
      refl,
      layout_used-UsedIn args.mode,
      printed_of-IsPrinted parts samples args below,
    )
