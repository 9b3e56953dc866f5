-- ===== src/HeadToHead/Main.antt =====
-- `main`, `run_for_target` and `run` of bench/spsc_head_to_head.cpp: what a command line runs, and what
-- test case 3 prints of the times. The build is that for Linux; elsewhere `main` only returns 1.
pub mod Asks
pub mod Runs
pub mod Ends
pub mod Percentiles
use market_data_pipeline.Base.{
  ℕ, zero, suc, ◌+◌, ◌*◌, ◌/◌, ◌^◌, ◌<◌, ◌≤◌, ◌≡◌, ◌≢◌, ◌⊎◌, inl, inr, refl, sym, ◌∙◌, ap, Bool,
  true, false, Option, none, some, List, [], ◌∷◌, ◌++◌, length, if◌then◌else◌, ◌==◌, Bool-cases,
  arith,
}
use market_data_pipeline.BenchArgs.{
  ℤ, pos, negsuc, Text, Outcome, value, invalid_argument, out_of_range, stoi, same_text,
}
use market_data_pipeline.Spsc.Capacity.{IsCapacity}
use market_data_pipeline.Samples.{sample_at}
use market_data_pipeline.HeadToHead.{
  Worker, batch_size, num_batches, producer_thread, consumer_thread, producer_req, consumer_resp,
  producer_burst, consumer_burst,
}

abbrev pub bench_iteration_count_tc1 : ℕ
bench_iteration_count_tc1 = 10000000

-- The queue types that the targets name.
pub data Target : Type 0 where
  mine : Target
  rigtorp : Target
  moodycamel : Target
  folly : Target
  boost : Target

-- The cases of the `switch` in `run`.
pub data TestCase : Type 0 where
  stream : TestCase
  echo : TestCase
  burst : TestCase

-- What is done when `main` has read its arguments: a message is printed, or a benchmark is run, over two
-- queues of the target of the size given.
pub data Work : Type 0 where
  print_usage : Work
  print_bad_size : Work
  print_bad_target : Text → Work
  print_bad_test_case : Work
  run_test_case : (target : Target) (size : ℕ) (test_case : TestCase) → Work

-- The two functions that `run` starts threads with; `elapsed` is what the clock gives in test case 3.
pub record Threads : Type 1 where
  pub producer : Worker
  pub consumer : Worker

abbrev pub threads_of : (ℕ → ℕ) → TestCase → Threads
threads_of elapsed stream = record {
  producer = producer_thread bench_iteration_count_tc1;
  consumer = consumer_thread bench_iteration_count_tc1;
}
threads_of elapsed echo = record {
  producer = producer_req bench_iteration_count_tc1;
  consumer = consumer_resp bench_iteration_count_tc1;
}
threads_of elapsed burst = record {
  producer = producer_burst num_batches batch_size;
  consumer = consumer_burst num_batches batch_size elapsed;
}

-- What test case 3 prints: `times[n * p / 100]` of the sorted times, for each `p`.
unfoldable pub percentile_of : List ℕ → ℕ → Option ℕ
percentile_of times p = sample_at times (length times * p / 100)

abbrev pub percentiles : List ℕ → List (Option ℕ)
percentiles times =
    percentile_of times 25
    ∷ percentile_of times 50
    ∷ percentile_of times 75
    ∷ percentile_of times 99
    ∷ []

-- `run(q0, q1, test_case)`
unfoldable pub run : Target → ℕ → ℤ → Work
run target size (negsuc n) = print_bad_test_case
run target size (pos test_case) =
    if test_case == 1
    then run_test_case target size stream
    else if test_case == 2
    then run_test_case target size echo
    else if test_case == 3
    then run_test_case target size burst
    else print_bad_test_case

abbrev pub name_of : Target → Text
name_of mine = b'm' ∷ b'i' ∷ b'n' ∷ b'e' ∷ []
name_of rigtorp = b'r' ∷ b'i' ∷ b'g' ∷ b't' ∷ b'o' ∷ b'r' ∷ b'p' ∷ []
name_of moodycamel = b'm' ∷ b'o' ∷ b'o' ∷ b'd' ∷ b'y' ∷ b'c' ∷ b'a' ∷ b'm' ∷ b'e' ∷ b'l' ∷ []
name_of folly = b'f' ∷ b'o' ∷ b'l' ∷ b'l' ∷ b'y' ∷ []
name_of boost = b'b' ∷ b'o' ∷ b'o' ∷ b's' ∷ b't' ∷ []

-- `run_for_target<N>(target, test_case)`
unfoldable pub run_for_target : ℕ → Text → ℤ → Work
run_for_target size target test_case =
    if same_text target (name_of mine)
    then run mine size test_case
    else if same_text target (name_of rigtorp)
    then run rigtorp size test_case
    else if same_text target (name_of moodycamel)
    then run moodycamel size test_case
    else if same_text target (name_of folly)
    then run folly size test_case
    else if same_text target (name_of boost)
    then run boost size test_case
    else print_bad_target target

-- The exit code of `main`, and what it did.
unfoldable pub dispatch : Text → ℤ → ℤ → ℕ × Work
dispatch target test_case (negsuc n) = (1, print_bad_size)
dispatch target test_case (pos queue_size) =
    if queue_size == 64
    then (0, run_for_target 64 target test_case)
    else if queue_size == 128
    then (0, run_for_target 128 target test_case)
    else if queue_size == 256
    then (0, run_for_target 256 target test_case)
    else if queue_size == 512
    then (0, run_for_target 512 target test_case)
    else if queue_size == 1024
    then (0, run_for_target 1024 target test_case)
    else (1, print_bad_size)

unfoldable pub with_size : Text → ℤ → Outcome ℤ → Outcome (ℕ × Work)
with_size target test_case (value queue_size) = value (dispatch target test_case queue_size)
with_size target test_case invalid_argument = invalid_argument
with_size target test_case out_of_range = out_of_range

unfoldable pub with_test_case : Text → Outcome ℤ → Text → Outcome (ℕ × Work)
with_test_case target (value test_case) size = with_size target test_case (stoi size)
with_test_case target invalid_argument size = invalid_argument
with_test_case target out_of_range size = out_of_range

-- `main`; the argument is `argv`, the program's name first.
unfoldable pub main : List Text → Outcome (ℕ × Work)
main (_ ∷ target ∷ test_case ∷ size ∷ []) = with_test_case target (stoi test_case) size
main _ = value (1, print_usage)
