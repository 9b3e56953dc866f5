-- ===== src/Spsc/Holds.antt =====
-- When a queue of spsc/SpscQueue.h holds a list: the free-running counters behind its wrapped
-- indices, how far the two cached indices may lag, and the slots in use.
use market_data_pipeline.Base.{
  ℕ, suc, ◌+◌, ◌%◌, ◌≤◌, ◌<◌, ◌≡◌, ◌≢◌, refl, List, [], ◌∷◌, ◌++◌, arith, length, get_elem?, set,
  length-append, get_elem?-append_left, get_elem?-append_right, get_elem?-set_self,
  get_elem?-set_ne, dec_lt,
}
use market_data_pipeline.Base.Word.{word, mod-injective_near}
use market_data_pipeline.Spsc.{SpscQueue, new_queue}

-- `first` items were popped so far; `seen_head` and `seen_tail` are the counters in the caches.
pub record Holds {ℓ} {T : Type ℓ} (capacity : ℕ) (q : SpscQueue T) (xs : List T) : Type ℓ where
  pub first : ℕ
  pub seen_head : ℕ
  pub seen_tail : ℕ
  pub head_is : q.head ≡ word first
  pub tail_is : q.tail ≡ word (first + length xs)
  pub head_cache_is : q.head_cache ≡ word seen_head
  pub tail_cache_is : q.tail_cache ≡ word seen_tail
  pub head_lags : seen_head ≤ first
  pub tail_lags : (first ≤ seen_tail) × (seen_tail ≤ first + length xs)
  pub room : first + length xs ≤ seen_head + capacity
  pub slots : length q.buf ≡ capacity
  pub items : (i : ℕ) → i < length xs → get_elem? q.buf ((first + i) % capacity) ≡ get_elem? xs i

module _ {ℓ} {T : Type ℓ} where
  -- The bounds in the form that the capacity gives: no more than it holds.
  pub Holds-length :
      {capacity : ℕ} {q : SpscQueue T} {xs : List T} → Holds capacity q xs → length xs ≤ capacity
  Holds-length h = omega (arith, h.room, h.head_lags)

  pub new_queue-Holds : (junk : List T) → Holds (length junk) (new_queue junk) []
  unfolding new_queue
  new_queue-Holds junk = record {
    first = 0;
    seen_head = 0;
    seen_tail = 0;
    head_is = refl;
    tail_is = refl;
    head_cache_is = refl;
    tail_cache_is = refl;
    head_lags = omega arith;
    tail_lags = omega arith;
    room = omega arith;
    slots = refl;
    items = λ i h. absurd (omega arith);
  }

  -- Writing the slot after the last item leaves the items, and adds the new one.
  pub items-set :
      (buf : List T) (capacity first : ℕ) (xs : List T) (x : T)
      → length buf ≡ capacity
      → length xs < capacity
      → ((i : ℕ) → i < length xs → get_elem? buf ((first + i) % capacity) ≡ get_elem? xs i)
      → (i : ℕ) → i < length (xs ++ x ∷ [])
      → get_elem? (set buf ((first + length xs) % capacity) x) ((first + i) % capacity)
        ≡ get_elem? (xs ++ x ∷ []) i
  items-set buf capacity first xs x full fits old i h = elim (dec_lt i (length xs)) [
    | yes lt ↦
        let apart : (first + length xs) % capacity ≢ (first + i) % capacity =
          λ e. omega (arith, mod-injective_near capacity (first + i) (first + length xs)) in
        rw (get_elem?-append_left xs (x ∷ []) i lt) (
          rw
            (get_elem?-set_ne buf ((first + length xs) % capacity) ((first + i) % capacity) x apart)
            (old i lt))
    | no ge ↦
        let e : i ≡ length xs = omega (arith, length-append xs (x ∷ [])) in
        rw (e, get_elem?-append_right xs x []) (get_elem?-set_self buf _ x (omega arith))
  ]

  -- Without the oldest item the others move up.
  pub items-tail :
      (buf : List T) (capacity first : ℕ) (x : T) (xs : List T)
      → ((i : ℕ)
          → i < length (x ∷ xs)
          → get_elem? buf ((first + i) % capacity) ≡ get_elem? (x ∷ xs) i)
      → (i : ℕ) → i < length xs
      → get_elem? buf ((first + 1 + i) % capacity) ≡ get_elem? xs i
  items-tail buf capacity first x xs old i h =
      let e : first + 1 + i ≡ first + suc i = omega arith in rw e (old (suc i) (omega arith))
