-- ===== src/Base/Word.antt =====
-- Arithmetic of `std::size_t` (64 bits): free-running counters and the words that stand for them.
use Prim.Native.Nat.{ℕ, ◌+◌, ◌-◌, ◌%◌, ◌^◌, ◌≤◌, ◌<◌}
use mathlib.Core.Path.{◌≡◌}
use native.Mathlib.Omega.{arith}

-- 2 ^ 64
abbrev pub word_mod : ℕ
word_mod = 2 ^ 64

abbrev pub word : ℕ → ℕ
word n = n % word_mod

abbrev pub add_size : ℕ → ℕ → ℕ
add_size a b = (a + b) % word_mod

abbrev pub sub_size : ℕ → ℕ → ℕ
sub_size a b = (a + word_mod - b) % word_mod

pub sub_size-word : (t h : ℕ) → h ≤ t → t < h + word_mod → sub_size (word t) (word h) ≡ t - h
sub_size-word t h le near = omega arith

pub word-injective : (t h : ℕ) → h ≤ t → t < h + word_mod → word t ≡ word h → t ≡ h
word-injective t h le near e = omega arith

pub add_size-word : (t : ℕ) → add_size (word t) 1 ≡ word (t + 1)
add_size-word t = omega arith

-- Two counters less than `c` apart meet modulo `c` only if they are equal.
pub mod-injective_near : (c i j : ℕ) → i ≤ j → j < i + c → i % c ≡ j % c → i ≡ j
mod-injective_near c i j le near e = grind arith

-- A full turn of `c` comes back to the same remainder.
pub mod_turn : (i c : ℕ) → (i + c) % c ≡ i % c
mod_turn i c = grind arith
