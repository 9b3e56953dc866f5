-- ===== src/HeadToHead/Loops.antt =====
-- What the three test cases share: items in sequence, and the next call of a loop.
use market_data_pipeline.Base.{
  ℕ, ◌+◌, ◌≡◌, ◌≢◌, refl, sym, ap, Bool, true, false, List, [], ◌∷◌, ◌++◌, length, if◌then◌else◌,
  arith, ltb, Bool-cases, inl, inr, ◌≤◌,
}
use market_data_pipeline.HeadToHead.{send, receive, stop}

-- The items are `f from`, ..., `f (to - 1)`.
abbrev pub InSequence : (ℕ → ℕ) → ℕ → ℕ → List ℕ → Type 0
InSequence f from to [] = from ≡ to
InSequence f from to (x ∷ xs) = (x ≡ f from) × InSequence f (from + 1) to xs

pub InSequence-append :
    (f : ℕ → ℕ) (from to : ℕ) (xs : List ℕ)
    → InSequence f from to xs
    → InSequence f from (to + 1) (xs ++ f to ∷ [])
InSequence-append f from to [] e = (ap f (sym e), omega arith)
InSequence-append f from to (x ∷ xs) (is, more) = (is, InSequence-append f (from + 1) to xs more)

pub InSequence-length :
    (f : ℕ → ℕ) (from to : ℕ) (xs : List ℕ) → InSequence f from to xs → from + length xs ≡ to
InSequence-length f from to [] e = omega arith
InSequence-length f from to (x ∷ xs) (is, more) =
    omega (arith, InSequence-length f (from + 1) to xs more)

-- A loop's next call is a push: its test holds, and the item is the one given.
pub if_send :
    (b : Bool) (item x : ℕ) → (if b then send item else stop) ≡ send x → (b ≡ true) × (x ≡ item)
if_send true item x e = (refl, cc e)
if_send false item x e = cc e

pub if_receive : (b : Bool) → (if b then receive else stop) ≡ receive → b ≡ true
if_receive true e = refl
if_receive false e = cc e

pub never_receives : (b : Bool) (item : ℕ) → (if b then send item else stop) ≢ receive
never_receives true item e = cc e
never_receives false item e = cc e

pub never_sends : (b : Bool) (x : ℕ) → (if b then receive else stop) ≢ send x
never_sends true x e = cc e
never_sends false x e = cc e

-- A loop that receives has returned: its test fails.
pub loop_stopped : (i n : ℕ) → (if ltb i n then receive else stop) ≡ stop → n ≤ i
loop_stopped i n e = elim (Bool-cases (ltb i n)) [
  | inl more ↦ let goes_on : receive ≡ stop = rw more at e in cc goes_on
  | inr over ↦ ground (arith, over)
]
