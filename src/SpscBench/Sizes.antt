-- ===== src/SpscBench/Sizes.antt =====
-- `size_test` of bench/spsc_bench.cpp: pushes on a new queue until one is refused.
use market_data_pipeline.Base.{
  ℕ, zero, suc, ◌+◌, ◌≡◌, Bool, true, false, Option, none, some, List, [], ◌∷◌, ◌++◌, length,
  length-append, ◌==◌, arith, sym, ap, ◌∙◌, if◌then◌else◌,
}
use market_data_pipeline.Fifo.{offer}
use market_data_pipeline.Spsc.{SpscQueue, new_queue, try_push, size, empty}
use market_data_pipeline.Spsc.Capacity.{IsCapacity}
use market_data_pipeline.Spsc.Holds.{Holds, new_queue-Holds}
use market_data_pipeline.Spsc.Push.{try_push-offer}
use market_data_pipeline.Spsc.Refine.{size-length}
use market_data_pipeline.SpscBench.{to_int}

-- What is printed, and the result: `empty()` of the new queue, and `size()` when a push is refused, after
-- which the function returns true; it returns false when none is.
pub record SizeReport : Type 0 where
  pub was_empty : Bool
  pub refused_at : Option ℕ

-- The loop, with so many pushes left; `none` once a push left the array.
unfoldable pub push_loop : (capacity left idx : ℕ) → SpscQueue ℕ → Option (Option ℕ)
push_loop capacity zero idx q = some none
push_loop capacity (suc left) idx q = elim (try_push capacity q (to_int idx)) [
  | none ↦ none
  | some (res, q') ↦
      let rest = push_loop capacity left (idx + 1) q' in if res then rest else some (some (size q'))
]

abbrev pub reported : Bool → Option (Option ℕ) → Option SizeReport
reported was_empty none = none
reported was_empty (some at) = some (record { was_empty = was_empty; refused_at = at })

-- The source has a capacity of 16 and 17 pushes.
unfoldable pub size_test : List ℕ → Option SizeReport
size_test junk =
    reported (empty (new_queue junk)) (push_loop (length junk) (length junk + 1) 0 (new_queue junk))

-- From a queue with `left` free slots, one more push than that is refused, when the queue is full.
push_loop-full :
    {capacity : ℕ} (c : IsCapacity capacity) (left idx : ℕ) (q : SpscQueue ℕ) (xs : List ℕ)
    → Holds capacity q xs
    → length xs + left ≡ capacity
    → push_loop capacity (suc left) idx q ≡ some (some capacity)
unfolding push_loop offer
push_loop-full {capacity} c zero idx q xs h room =
    let full : (length xs == capacity) ≡ true = ground (arith, room) in
    let (q', done, h') = try_push-offer c (to_int idx) h in
    let stays = rw full at h' in
    rw (done, push_loop)
      (rw full (ap (λ n. some (some n)) ((size-length c stays).0 ∙ omega (arith, room))))
push_loop-full {capacity} c (suc left) idx q xs h room =
    let free : (length xs == capacity) ≡ false = ground (arith, room) in
    let (q', done, h') = try_push-offer c (to_int idx) h in
    let grown = rw free at h' in
    rw (done, push_loop)
      (rw free (
        push_loop-full c left (idx + 1) q' (xs ++ to_int idx ∷ []) grown
          (omega (arith, room, length-append xs (to_int idx ∷ [])))))

-- `size_test`, on a queue of any power-of-two capacity, whatever its array held before: it finds the new
-- queue empty, and the push after `capacity` of them refused, when `size` is the capacity; so it returns
-- true.
pub size_test_lem :
    (junk : List ℕ)
    → IsCapacity (length junk)
    → size_test junk ≡ some (record { was_empty = true; refused_at = some (length junk) })
unfolding size_test
size_test_lem junk c =
    let h = new_queue-Holds junk in
    let full = push_loop-full c (length junk) 0 (new_queue junk) [] h (omega arith) in
    let pushes : suc (length junk) ≡ length junk + 1 = omega arith in
    ap (reported (empty (new_queue junk)))
      (ap (λ k. push_loop (length junk) k 0 (new_queue junk)) (sym pushes) ∙ full)
    ∙ ap (λ b. some (record { was_empty = b; refused_at = some (length junk) })) (size-length c h).1
