-- ===== src/BenchUtils/Platforms.antt =====
-- bench/bench_utils.h on each of its platforms: the three branches of `#ifdef __linux__`. What the operating
-- system gives is an argument.
use market_data_pipeline.Base.{
  ℕ, suc, ◌*◌, ◌/◌, ◌-◌, ◌%◌, ◌^◌, ◌<◌, ◌≤◌, ◌≡◌, refl, Option, none, some, [], ◌∷◌, arith,
  if◌then◌else◌, ◌==◌,
}
use native.Mathlib.Nat.{mul-le-mul_right, le-div_iff_mul-le, mul-div-le}
use market_data_pipeline.BenchArgs.{ℤ, pos, negsuc, Text, same_text}
use market_data_pipeline.BenchUtils.{CoreSnapshot, take_core_snapshot, print_core_snapshot}

pub data Platform : Type 0 where
  linux : Platform
  apple : Platform
  other : Platform

-- `pin_thread_to_core(core_id)`: the core that its message names, if it writes one. `result` is what
-- `pthread_setaffinity_np` returns.
unfoldable pub pin_thread_to_core : Platform → ℕ → ℕ → Option ℕ
pin_thread_to_core linux result core_id = if result == 0 then none else some core_id
pin_thread_to_core apple result core_id = none
pin_thread_to_core other result core_id = none

-- `take_core_snapshot()`, the same on the last two platforms.
unfoldable pub take_snapshot_on : Platform → ℤ → Option ℤ → CoreSnapshot
take_snapshot_on linux cpu file = take_core_snapshot cpu file
take_snapshot_on apple cpu file = record { cpu = negsuc 0; freq_mhz = negsuc 0 }
take_snapshot_on other cpu file = record { cpu = negsuc 0; freq_mhz = negsuc 0 }

-- `mach_absolute_time() * tb.numer / tb.denom`, in 64 bits.
unfoldable pub rdtsc_apple : (numer denom ticks : ℕ) → ℕ
rdtsc_apple numer denom ticks = ticks * numer % 2 ^ 64 / denom

-- `static_cast<uint64_t>(...count())`
unfoldable pub rdtsc_other : ℤ → ℕ
rdtsc_other (pos n) = n % 2 ^ 64
rdtsc_other (negsuc n) = (2 ^ 64 - suc n % 2 ^ 64) % 2 ^ 64

abbrev pub performance : Text
performance = b'p' ∷ b'e' ∷ b'r' ∷ b'f' ∷ b'o' ∷ b'r' ∷ b'm' ∷ b'a' ∷ b'n' ∷ b'c' ∷ b'e' ∷ []

-- `check_cpu_governor()`: the governor that its warning names. `gov` is what `f >> gov` reads, if anything.
unfoldable pub check_cpu_governor : Platform → Option Text → Option Text
check_cpu_governor linux (some gov) = if same_text gov performance then none else some gov
check_cpu_governor linux none = none
check_cpu_governor apple gov = none
check_cpu_governor other gov = none

-- A snapshot is printed on Linux alone, and there if the core is known.
pub snapshot_printed :
    (file : Option ℤ) (n : ℕ) (cpu : ℤ)
    → (print_core_snapshot (take_snapshot_on linux (pos n) file)
        ≡ some (take_core_snapshot (pos n) file))
      × (print_core_snapshot (take_snapshot_on linux (negsuc 0) file) ≡ none)
      × (print_core_snapshot (take_snapshot_on apple cpu file) ≡ none)
      × (print_core_snapshot (take_snapshot_on other cpu file) ≡ none)
unfolding print_core_snapshot take_snapshot_on take_core_snapshot
snapshot_printed file n cpu = (refl, refl, refl, refl)

-- As long as the product fits 64 bits, the time on Apple is the quotient, and does not go back.
pub rdtsc_apple_lem :
    (numer denom before after : ℕ)
    → 0 < denom
    → before ≤ after
    → after * numer < 2 ^ 64
    → (rdtsc_apple numer denom after ≡ after * numer / denom)
      × (rdtsc_apple numer denom before ≤ rdtsc_apple numer denom after)
unfolding rdtsc_apple
rdtsc_apple_lem numer denom before after some_denom le fits =
    let smaller : before * numer ≤ after * numer = mul-le-mul_right numer le in
    let first : before * numer % 2 ^ 64 ≡ before * numer = omega (arith, smaller, fits) in
    let last : after * numer % 2 ^ 64 ≡ after * numer = omega (arith, fits) in
    rw (first, last)
      (
        refl,
        (le-div_iff_mul-le some_denom).1
            (omega (arith, smaller, mul-div-le (before * numer) denom)),
      )
