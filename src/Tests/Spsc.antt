-- ===== src/Tests/Spsc.antt =====
-- Runs of a queue of spsc/SpscQueue.h of four slots, by one thread.
use market_data_pipeline.Base.{ℕ, ◌^◌, ◌≡◌, refl, ◌↔◌, ◌⊎◌, true, none, some, List, [], ◌∷◌, arith}
use market_data_pipeline.Fifo.{Call, Reply, replies}
use market_data_pipeline.Spsc.{
  SpscQueue, static_ok, new_queue, try_push, try_pop, write_slot, slot_index, read_slot,
}
use market_data_pipeline.Spsc.Capacity.{IsCapacity, static_ok_iff}
use market_data_pipeline.Spsc.Holds.{Holds}
use market_data_pipeline.Spsc.Refine.{run, run-replies}

abbrev junk : List ℕ
junk = 9 ∷ 9 ∷ 9 ∷ 9 ∷ []

pub four-IsCapacity : IsCapacity 4
four-IsCapacity = record { log = 2; small = omega arith; is_pow = refl }

pub one-IsCapacity : IsCapacity 1
one-IsCapacity = record { log = 0; small = omega arith; is_pow = refl }

abbrev one_item : SpscQueue ℕ
one_item = record { buf = 5 ∷ 9 ∷ 9 ∷ 9 ∷ []; head = 0; tail_cache = 0; tail = 1; head_cache = 0 }

abbrev held : List ℕ
held = 5 ∷ []

one_item-Holds : Holds 4 one_item held
one_item-Holds = record {
  first = 0;
  seen_head = 0;
  seen_tail = 0;
  head_is = refl;
  tail_is = refl;
  head_cache_is = refl;
  tail_cache_is = refl;
  head_lags = omega arith;
  tail_lags = (omega arith, omega arith);
  room = omega arith;
  slots = refl;
  items = λ i h. let first_one : i ≡ 0 = omega arith in rw first_one refl;
}

abbrev calls : List (Call ℕ)
calls = Call.push 1 ∷ Call.push 2 ∷ Call.pop ∷ Call.pop ∷ Call.pop ∷ []

calls-replies :
    run 4 (new_queue junk) calls
    ≡ some (
        Reply.pushed true
        ∷ Reply.pushed true
        ∷ Reply.popped (some 1)
        ∷ Reply.popped (some 2)
        ∷ Reply.popped none
        ∷ [])
unfolding run new_queue try_push try_pop write_slot slot_index read_slot
calls-replies = refl

run-replies_example : run 4 (new_queue junk) calls ≡ some (replies 4 [] calls)
run-replies_example = run-replies junk four-IsCapacity calls

abbrev six : ℕ
six = 6

static_ok_iff_example : (static_ok six ≡ true) ↔ ((six ≡ 0) ⊎ ((k : ℕ) × (six ≡ 2 ^ k)))
static_ok_iff_example = static_ok_iff six (omega arith)
