-- ===== src/Fifo.antt =====
-- What a single-producer single-consumer queue promises: a bounded first-in first-out list, oldest
-- first, and what a sequence of calls on it returns.
use market_data_pipeline.Base.{
  ℕ, Bool, true, false, Option, none, some, List, [], ◌∷◌, ◌++◌, ◌==◌, if◌then◌else◌, length,
}

pub data Call {ℓ} (T : Type ℓ) : Type ℓ where
  push : T → Call T
  pop : Call T

pub data Reply {ℓ} (T : Type ℓ) : Type ℓ where
  pushed : Bool → Reply T
  popped : Option T → Reply T

module _ {ℓ} {T : Type ℓ} where
  unfoldable pub offer : ℕ → List T → T → Bool × List T
  offer bound xs x = if length xs == bound then (false, xs) else (true, xs ++ x ∷ [])

  unfoldable pub take_one : List T → Option T × List T
  take_one [] = (none, [])
  take_one (x ∷ xs) = (some x, xs)

  unfoldable pub replies : ℕ → List T → List (Call T) → List (Reply T)
  unfolding offer take_one
  replies bound xs [] = []
  replies bound xs (Call.push x ∷ cs) =
      let (b, xs') = offer bound xs x in Reply.pushed b ∷ replies bound xs' cs
  replies bound xs (Call.pop ∷ cs) =
      let (o, xs') = take_one xs in Reply.popped o ∷ replies bound xs' cs
