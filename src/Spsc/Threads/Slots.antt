-- ===== src/Spsc/Threads/Slots.antt =====
-- How the accesses to the array change what is known of its slots.
use market_data_pipeline.Base.{
  ℕ, some, get_elem?, ◌+◌, ◌%◌, ◌≤◌, ◌<◌, ◌≡◌, ◌≢◌, List, [], ◌∷◌, ◌++◌, arith, length,
  get_elem?-append_left, get_elem?-append_right, dec_lt, ℕ_discrete, ◌∙◌,
}
use market_data_pipeline.Base.Word.{mod-injective_near, mod_turn}
use market_data_pipeline.Spsc.Threads.{Slot, PushAt, put_slot}
use market_data_pipeline.Spsc.Threads.Inv.{Items, Written}

module _ {ℓ} {T : Type ℓ} where
  pub put_slot_self : (slots : ℕ → Slot T) (i : ℕ) (c : Slot T) → put_slot slots i c i ≡ c
  put_slot_self slots i c = ground arith

  put_slot-ne : (slots : ℕ → Slot T) (i j : ℕ) (c : Slot T) → j ≢ i → put_slot slots i c j ≡ slots j
  put_slot-ne slots i j c h = ground arith

module _ {ℓ} {T : Type ℓ} {capacity : ℕ} {slots : ℕ → Slot T} {pops pushes reads : ℕ}
    {pushed : List T} (known : Items capacity slots pops pushes reads pushed) where
  -- A write to the slot of the next item leaves the items in the queue alone.
  pub Items-write :
      (i : ℕ) (item : T) (at : ℕ)
      → i ≡ pushes % capacity
      → pushes < pops + capacity
      → Items capacity
          (put_slot slots i (record { value = item; written_at = at; read_at = (slots i).read_at }))
          pops
          pushes
          reads
          pushed
  Items-write i item at e room = record {
    stored =
        λ k le lt. rw (put_slot-ne slots i (k % capacity) _ (apart k le lt)) (known.stored k le lt);
    written = λ k le lt.
        rw (put_slot-ne slots i (k % capacity) _ (apart k le lt)) (known.written k le lt);
    read_before = λ k le lt. elim (ℕ_discrete (k % capacity) i) [
      | yes same ↦ rw (same, put_slot_self slots i) (rw same at (known.read_before k le lt))
      | no differ ↦ rw (put_slot-ne slots i (k % capacity) _ differ) (known.read_before k le lt)
    ];
  }
    where
      apart : (k : ℕ) → pops ≤ k → k < pushes → k % capacity ≢ i
      apart k le lt same = omega (arith, mod-injective_near capacity k pushes)

  -- Publishing the next item, which is in its slot.
  pub Items-publish :
      (item : T)
      → length pushed ≡ pushes
      → (slots (pushes % capacity)).value ≡ item
      → (slots (pushes % capacity)).written_at ≤ pushes + 1
      → Items capacity slots pops (pushes + 1) reads (pushed ++ item ∷ [])
  Items-publish item count value at = record {
    stored = λ k le lt. elim (dec_lt k pushes) [
      | yes old ↦ get_elem?-append_left pushed (item ∷ []) k (omega arith) ∙ known.stored k le old
      | no new ↦
          let e : k ≡ length pushed = omega arith in
          rw (e, get_elem?-append_right pushed item [], count, value)
    ];
    written = λ k le lt. elim (dec_lt k pushes) [
      | yes old ↦ known.written k le old
      | no new ↦ let e : k ≡ pushes = omega arith in rw e at
    ];
    read_before = known.read_before;
  }

  -- Reading the slot of the oldest item.
  pub Items-read :
      (i : ℕ)
      → i ≡ reads % capacity
      → 0 < capacity
      → Items capacity
          (put_slot slots i (record {
            value = (slots i).value;
            written_at = (slots i).written_at;
            read_at = reads + 1;
          }))
          pops
          pushes
          (reads + 1)
          pushed
  Items-read i e pos = record {
    stored = λ k le lt. elim (ℕ_discrete (k % capacity) i) [
      | yes same ↦ rw (same, put_slot_self slots i) (rw same at (known.stored k le lt))
      | no differ ↦ rw (put_slot-ne slots i (k % capacity) _ differ) (known.stored k le lt)
    ];
    written = λ k le lt. elim (ℕ_discrete (k % capacity) i) [
      | yes same ↦ rw (same, put_slot_self slots i) (rw same at (known.written k le lt))
      | no differ ↦ rw (put_slot-ne slots i (k % capacity) _ differ) (known.written k le lt)
    ];
    read_before = λ k le lt. elim (ℕ_discrete (k % capacity) i) [
      | yes same ↦ rw (same, put_slot_self slots i) (omega (arith, again k le same))
      | no differ ↦
          rw (put_slot-ne slots i (k % capacity) _ differ)
            (known.read_before k (omega arith) (omega (arith, once k lt differ)))
    ];
  }
    where
      again : (k : ℕ) → reads + 1 ≤ k → k % capacity ≡ i → reads + capacity ≤ k
      again k le same = elim (dec_lt k (reads + capacity)) [
        | yes near ↦
            let met : reads ≡ k =
              mod-injective_near capacity reads k (omega arith) near (omega arith) in
            absurd (omega arith)
        | no far ↦ omega arith
      ]

      once : (k : ℕ) → k < reads + 1 + capacity → k % capacity ≢ i → k < reads + capacity
      once k lt differ = elim (dec_lt k (reads + capacity)) [
        | yes below ↦ below
        | no last ↦
            let last_is : k ≡ reads + capacity = omega arith in
            absurd (differ (rw (last_is, e) (mod_turn reads capacity)))
      ]

  pub Items-retire : Items capacity slots (pops + 1) pushes reads pushed
  Items-retire = record {
    stored = λ k le lt. known.stored k (omega arith) lt;
    written = λ k le lt. known.written k (omega arith) lt;
    read_before = known.read_before;
  }

module _ {ℓ} {T : Type ℓ} where
  -- Reading a slot leaves what the producer has written alone.
  pub Written-read :
      (slots : ℕ → Slot T) (capacity pushes i at : ℕ) (a : PushAt T)
      → Written slots capacity pushes a
      → Written
          (put_slot slots i
            (record { value = (slots i).value; written_at = (slots i).written_at; read_at = at }))
          capacity
          pushes
          a
  Written-read slots capacity pushes i at PushAt.outside w = tt
  Written-read slots capacity pushes i at (PushAt.reload_head _ _) w = tt
  Written-read slots capacity pushes i at (PushAt.write_slot _ _) w = tt
  Written-read slots capacity pushes i at (PushAt.store_tail item t) w =
      elim (ℕ_discrete (pushes % capacity) i) [
        | yes same ↦ rw (same, put_slot_self slots i) (rw same at w)
        | no differ ↦ rw (put_slot-ne slots i (pushes % capacity) _ differ) w
      ]

  -- The item at the place where the popped ones end is the first of the rest.
  pub next_of_rest :
      (popped rest : List T) (x : T)
      → get_elem? (popped ++ rest) (length popped) ≡ some x
      → (more : List T) × (rest ≡ x ∷ more)
  next_of_rest [] (y ∷ more) x h = (more, cc)
  next_of_rest [] [] x h = cc
  next_of_rest (y ∷ popped) rest x h = next_of_rest popped rest x h
