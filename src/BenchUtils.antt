-- ===== src/BenchUtils.antt =====
-- bench/bench_utils.h on Linux: the core snapshot, the frequency of a core, and the time stamp counter. What
-- the operating system gives is an argument: the core, the number that `f >> freq_khz` reads from the
-- frequency file, or `none` if the file could not be opened, and the two halves of the counter.
pub mod Platforms
use Prim.Native.Nat.{bit_or}
use market_data_pipeline.Base.{
  ℕ, zero, suc, ◌+◌, ◌*◌, ◌/◌, ◌%◌, ◌^◌, ◌<◌, ◌≡◌, refl, ◌∙◌, ap, Bool, false, Option, none, some,
  ltb, lt→ltb, if◌then◌else◌, arith,
}
use market_data_pipeline.Base.Bits.{bit_or-shift}
use market_data_pipeline.BenchArgs.{ℤ, pos, negsuc, negate}

pub record CoreSnapshot : Type 0 where
  pub cpu : ℤ
  pub freq_mhz : ℤ

-- `-1`, as `freq_khz` is at first; a file that cannot be opened leaves it.
abbrev pub freq_khz : Option ℤ → ℤ
freq_khz none = negsuc 0
freq_khz (some read) = read

-- `freq_khz / 1000`, which rounds towards 0.
abbrev pub per_thousand : ℤ → ℤ
per_thousand (pos n) = pos (n / 1000)
per_thousand (negsuc n) = negate (suc n / 1000)

abbrev pub positive : ℤ → Bool
positive (pos n) = ltb 0 n
positive (negsuc n) = false

unfoldable pub take_core_snapshot : ℤ → Option ℤ → CoreSnapshot
take_core_snapshot cpu file = record { cpu = cpu; freq_mhz = per_thousand (freq_khz file) }

unfoldable pub read_core_freq_mhz : Option ℤ → ℤ
read_core_freq_mhz file =
    if positive (freq_khz file) then per_thousand (freq_khz file) else negsuc 0

-- Nothing for a `cpu` of -1.
abbrev pub printed_for : ℤ → CoreSnapshot → Option CoreSnapshot
printed_for (negsuc zero) snap = none
printed_for _ snap = some snap

-- What `print_core_snapshot` prints, if anything.
unfoldable pub print_core_snapshot : CoreSnapshot → Option CoreSnapshot
print_core_snapshot snap = printed_for snap.cpu snap

-- `(static_cast<uint64_t>(hi) << 32) | lo`
unfoldable pub rdtsc : (hi lo : ℕ) → ℕ
rdtsc hi lo = bit_or (hi * 2 ^ 32 % 2 ^ 64) lo

-- A frequency that has been read is the same in both; when the file cannot be opened the snapshot has 0,
-- while `read_core_freq_mhz` gives -1.
pub frequencies_agree :
    (cpu : ℤ) (n : ℕ)
    → ((take_core_snapshot cpu (some (pos (suc n)))).freq_mhz
        ≡ read_core_freq_mhz (some (pos (suc n))))
      × ((take_core_snapshot cpu none).freq_mhz ≡ pos 0)
      × (read_core_freq_mhz none ≡ negsuc 0)
unfolding take_core_snapshot read_core_freq_mhz
frequencies_agree cpu n = (rw (lt→ltb 0 (suc n) (omega arith)) refl, refl, refl)

-- Of two halves below `2 ^ 32`, the time stamp is the number with `hi` above `lo`, and fits 64
-- bits.
pub rdtsc_lem :
    (hi lo : ℕ)
    → hi < 2 ^ 32
    → lo < 2 ^ 32
    → (rdtsc hi lo ≡ hi * 2 ^ 32 + lo) × (rdtsc hi lo < 2 ^ 64)
unfolding rdtsc
rdtsc_lem hi lo high low =
    let fits : hi * 2 ^ 32 % 2 ^ 64 ≡ hi * 2 ^ 32 = omega (arith, high) in
    let is : bit_or (hi * 2 ^ 32 % 2 ^ 64) lo ≡ hi * 2 ^ 32 + lo =
      ap (λ a. bit_or a lo) fits ∙ bit_or-shift 32 hi lo low in
    (is, omega (arith, is, high, low))
