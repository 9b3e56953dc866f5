-- ===== src/Base/Sums.antt =====
-- Sums of a family of numbers over the indices below a bound.
use Prim.Native.Nat.{ℕ, zero, suc, ◌+◌, ◌*◌, ◌<◌, ◌≤◌}
use mathlib.Core.Path.{◌≡◌, refl, sym, ap}
use mathlib.Core.Logic.{◌≢◌}
use native.Mathlib.Omega.{arith}
use native.Mathlib.Decide.{ℕ_discrete}

-- `f 0 + ... + f (n - 1)`
abbrev pub sum : (ℕ → ℕ) → ℕ → ℕ
sum f zero = 0
sum f (suc n) = sum f n + f n

pub sum-same : (f g : ℕ → ℕ) (n : ℕ) → ((i : ℕ) → i < n → f i ≡ g i) → sum f n ≡ sum g n
sum-same f g zero same = refl
sum-same f g (suc n) same =
    let rest = sum-same f g n (λ i h. same i (omega arith)) in
    let last = same n (omega arith) in omega arith

pub sum-change :
    (f g : ℕ → ℕ) (t n : ℕ) → t < n → ((i : ℕ) → i ≢ t → g i ≡ f i) → sum g n + f t ≡ sum f n + g t
sum-change f g t zero h same = omega arith
sum-change f g t (suc n) h same = elim (ℕ_discrete t n) [
  | yes e ↦
      let rest = sum-same g f n (λ i below. same i (omega (arith, e))) in
      let left : f t ≡ f n = ap f e in let right : g t ≡ g n = ap g e in omega arith
  | no ne ↦
      let rest = sum-change f g t n (omega (arith, ne)) same in
      let last : g n ≡ f n = same n (λ e. ne (sym e)) in omega arith
]

pub sum-const : (c n : ℕ) → sum (λ _. c) n ≡ n * c
sum-const c zero = omega arith
sum-const c (suc n) = let rest = sum-const c n in grind arith

pub sum-part : (f : ℕ → ℕ) (n t : ℕ) → t < n → f t ≤ sum f n
sum-part f zero t h = omega arith
sum-part f (suc n) t h = elim (ℕ_discrete t n) [
  | yes e ↦ let same : f t ≡ f n = ap f e in omega arith
  | no ne ↦ let rest = sum-part f n t (omega (arith, ne)) in omega arith
]
