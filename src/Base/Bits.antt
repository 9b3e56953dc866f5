-- ===== src/Base/Bits.antt =====
-- `a & (2 ^ k - 1)` as a remainder, `(hi << k) | lo` as a sum, and `a & (a - 1)` as a test for powers of two.
use Prim.Native.Nat.{
  ℕ, zero, suc, ◌+◌, ◌-◌, ◌*◌, ◌/◌, ◌%◌, ◌^◌, ◌≤◌, ◌<◌, min, max, ◌∣◌, digits, bit_and, bit_or,
  bit_and-bitwise, bit_or-bitwise,
}
use mathlib.Core.Path.{◌≡◌, refl, sym, ◌∙◌, ap, subst}
use native.Mathlib.Decide.{ℕ_discrete}
use native.Mathlib.Omega.{arith}
use native.Mathlib.Nat.{
  pow-suc, one-le-pow, mod-mod_of_dvd, dvd-mul_right, zero-add, mul-one, suc-add, mul_assoc,
  mod_self,
}

-- The count of digits that the native operations start from is no matter, once it is enough.
module _ (z : ℕ → ℕ) (f : ℕ → ℕ → ℕ) where
  digits_enough : (n m a b : ℕ) → a ≤ n → a ≤ m → digits z f n a b ≡ digits z f m a b
  digits_enough zero zero a b p q = refl
  digits_enough (suc n) zero zero b p q = refl
  digits_enough zero (suc m) zero b p q = refl
  digits_enough (suc n) (suc m) zero b p q = refl
  digits_enough (suc n) zero (suc a) b p q = absurd (omega arith)
  digits_enough zero (suc m) (suc a) b p q = absurd (omega arith)
  digits_enough (suc n) (suc m) (suc a) b p q =
      omega (arith, digits_enough n m (suc a / 2) (b / 2) (omega arith) (omega arith))

pub bit_and-lowest : (a b : ℕ) → bit_and a b ≡ 2 * bit_and (a / 2) (b / 2) + min (a % 2) (b % 2)
bit_and-lowest zero b = omega (arith, bit_and-bitwise 0 b, bit_and-bitwise 0 (b / 2))
bit_and-lowest (suc a) b = omega (
  arith,
  bit_and-bitwise (suc a) b,
  bit_and-bitwise (suc a / 2) (b / 2),
  digits_enough (λ _. 0) min a (suc a / 2) (suc a / 2) (b / 2) (omega arith) (omega arith),
)

pub bit_or-lowest : (a b : ℕ) → bit_or a b ≡ 2 * bit_or (a / 2) (b / 2) + max (a % 2) (b % 2)
bit_or-lowest zero b = omega (arith, bit_or-bitwise 0 b, bit_or-bitwise 0 (b / 2))
bit_or-lowest (suc a) b = omega (
  arith,
  bit_or-bitwise (suc a) b,
  bit_or-bitwise (suc a / 2) (b / 2),
  digits_enough (λ y. y) max a (suc a / 2) (suc a / 2) (b / 2) (omega arith) (omega arith),
)

bit_and-zero_below : (n a : ℕ) → a ≤ n → bit_and a 0 ≡ 0
bit_and-zero_below n zero h = refl
bit_and-zero_below zero (suc a) h = absurd (omega arith)
bit_and-zero_below (suc n) (suc a) h =
    omega (arith, bit_and-lowest (suc a) 0, bit_and-zero_below n (suc a / 2) (omega arith))

bit_or-zero_below : (n a : ℕ) → a ≤ n → bit_or a 0 ≡ a
bit_or-zero_below n zero h = refl
bit_or-zero_below zero (suc a) h = absurd (omega arith)
bit_or-zero_below (suc n) (suc a) h =
    omega (arith, bit_or-lowest (suc a) 0, bit_or-zero_below n (suc a / 2) (omega arith))

-- A number shifted past the digits of another is added to it.
pub bit_or-shift : (k hi lo : ℕ) → lo < 2 ^ k → bit_or (hi * 2 ^ k) lo ≡ hi * 2 ^ k + lo
bit_or-shift zero hi lo h =
    let no_digit : lo ≡ 0 = omega (arith, h) in
    rw no_digit (bit_or-zero_below (hi * 2 ^ 0) (hi * 2 ^ 0) (omega arith) ∙ omega arith)
bit_or-shift (suc k) hi lo h =
    let double : hi * 2 ^ suc k ≡ 2 * (hi * 2 ^ k) = ap (λ p. hi * p) (pow-suc 2 k) ∙ omega arith in
    let half : 2 * (hi * 2 ^ k) / 2 ≡ hi * 2 ^ k = omega arith in
    let rest = bit_or-shift k hi (lo / 2) (omega (arith, h, pow-suc 2 k)) in
    let lowest : bit_or (2 * (hi * 2 ^ k)) lo
        ≡ 2 * bit_or (hi * 2 ^ k) (lo / 2) + max (2 * (hi * 2 ^ k) % 2) (lo % 2) =
      bit_or-lowest (2 * (hi * 2 ^ k)) lo
      ∙ ap (λ a. 2 * bit_or a (lo / 2) + max (2 * (hi * 2 ^ k) % 2) (lo % 2)) half in
    rw double (omega (arith, lowest, rest))

-- The remainder by an even number, by its lowest digit.
mod-double : (a m : ℕ) → 0 < m → a % (2 * m) ≡ 2 * (a / 2 % m) + a % 2
mod-double a m h = grind arith

-- A mask of `k` ones keeps the remainder by `2 ^ k`.
pub bit_and-mask : (k a : ℕ) → bit_and a (2 ^ k - 1) ≡ a % 2 ^ k
bit_and-mask zero a = omega (arith, bit_and-zero_below a a (omega arith))
bit_and-mask (suc k) a = ground (
  arith,
  pow-suc 2 k,
  one-le-pow k 2,
  bit_and-lowest a (2 ^ suc k - 1),
  bit_and-mask k (a / 2),
  mod-double a (2 ^ k),
)

bit_and_self_below : (n a : ℕ) → a ≤ n → bit_and a a ≡ a
bit_and_self_below n zero h = refl
bit_and_self_below zero (suc a) h = absurd (omega arith)
bit_and_self_below (suc n) (suc a) h =
    omega (arith, bit_and-lowest (suc a) (suc a), bit_and_self_below n (suc a / 2) (omega arith))

bit_and_self : (a : ℕ) → bit_and a a ≡ a
bit_and_self a = bit_and_self_below a a (omega arith)

-- A number that shares no binary digit with its predecessor is a power of two.
bit_and-pred_below : (n a : ℕ) → a < n → bit_and (suc a) a ≡ 0 → (k : ℕ) × (suc a ≡ 2 ^ k)
bit_and-pred_below zero a h e = absurd (omega arith)
bit_and-pred_below (suc n) a h e = elim (ℕ_discrete (a % 2) 0) [
  | yes even ↦
      let same : suc a / 2 ≡ a / 2 = omega arith in
      (0, omega (arith, half_zero, same, bit_and_self (a / 2), ap (λ t. bit_and t (a / 2)) same))
  | no odd ↦
      let up : suc a / 2 ≡ suc (a / 2) = omega arith in
      let (k, p) = bit_and-pred_below n (a / 2) (omega arith) (rw up at half_zero) in
      (suc k, omega (arith, pow-suc 2 k, p))
]
  where
    half_zero : bit_and (suc a / 2) (a / 2) ≡ 0
    half_zero = omega (arith, bit_and-lowest (suc a) a)

pub bit_and-pred : (a : ℕ) → bit_and (suc a) a ≡ 0 → (k : ℕ) × (suc a ≡ 2 ^ k)
bit_and-pred a e = bit_and-pred_below (suc a) a (omega arith) e

pub bit_and-pred_pow : (k : ℕ) → bit_and (2 ^ k) (2 ^ k - 1) ≡ 0
bit_and-pred_pow k = bit_and-mask k (2 ^ k) ∙ mod_self (2 ^ k)

pow-split : (k d : ℕ) → 2 ^ (d + k) ≡ 2 ^ k * 2 ^ d
pow-split k zero = rw (zero-add, mul-one)
pow-split k (suc d) = rw (suc-add, pow-suc 2 (d + k), pow-suc 2 d, pow-split k d) (mul_assoc _ _ _)

-- A power of two up to `2 ^ 64` divides it, so the wrap at `2 ^ 64` does not show in the remainder.
pub mod-mod_pow : (k a : ℕ) → k ≤ 64 → a % 2 ^ 64 % 2 ^ k ≡ a % 2 ^ k
mod-mod_pow k a h = mod-mod_of_dvd (2 ^ k) a divides
  where
    divides : 2 ^ k ∣ 2 ^ 64
    divides =
        subst (λ n. 2 ^ k ∣ n) (sym (pow-split k (64 - k)) ∙ ap (λ n. 2 ^ n) {y = 64} (omega arith))
          (dvd-mul_right (2 ^ k) (2 ^ (64 - k)))
