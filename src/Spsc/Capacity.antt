-- ===== src/Spsc/Capacity.antt =====
-- The capacities that the `static_assert` of spsc/SpscQueue.h accepts, and what the mask computes.
use native.Mathlib.Nat.{one-le-pow, pow-le-pow_right}
use market_data_pipeline.Base.{
  ℕ, zero, suc, ◌+◌, ◌-◌, ◌%◌, ◌^◌, ◌≤◌, ◌<◌, ◌≡◌, refl, ◌∙◌, ◌↔◌, ◌⊎◌, inl, inr, true, false,
  arith, ◌==◌, ==_iff,
}
use market_data_pipeline.Base.Bits.{bit_and-mask, bit_and-pred, bit_and-pred_pow, mod-mod_pow}
use market_data_pipeline.Base.Word.{word_mod, word, sub_size, sub_size-word, word-injective}
use market_data_pipeline.Spsc.{static_ok, slot_index}

sub_size-one : (c : ℕ) → 0 < c → c < word_mod → sub_size c 1 ≡ c - 1
sub_size-one c pos h = omega arith

static_ok_pow : (k : ℕ) → 2 ^ k < word_mod → static_ok (2 ^ k) ≡ true
unfolding static_ok
static_ok_pow k h =
    rw (sub_size-one (2 ^ k) (one-le-pow k 2 (omega arith)) h) ((==_iff _ _).1 (bit_and-pred_pow k))

-- `static_assert` accepts 0 and the powers of two, and no other `std::size_t`.
pub static_ok_iff :
    (capacity : ℕ)
    → capacity < word_mod
    → (static_ok capacity ≡ true) ↔ ((capacity ≡ 0) ⊎ ((k : ℕ) × (capacity ≡ 2 ^ k)))
unfolding static_ok
static_ok_iff zero h = (λ _. inl refl, λ _. refl)
static_ok_iff (suc c) h = (accepted, offered)
  where
    mask : sub_size (suc c) 1 ≡ c
    mask = omega arith

    accepted : static_ok (suc c) ≡ true → (suc c ≡ 0) ⊎ ((k : ℕ) × (suc c ≡ 2 ^ k))
    accepted e = inr (bit_and-pred c (rw mask at ((==_iff _ _).0 e)))

    offered : (suc c ≡ 0) ⊎ ((k : ℕ) × (suc c ≡ 2 ^ k)) → static_ok (suc c) ≡ true
    offered (inl e) = absurd (omega arith)
    offered (inr (k, e)) = rw e (static_ok_pow k (omega arith))

-- The capacities for which a queue holds anything: the powers of two of a `std::size_t`.
pub record IsCapacity (capacity : ℕ) : Type 0 where
  pub log : ℕ
  pub small : log < 64
  pub is_pow : capacity ≡ 2 ^ log

module _ {capacity : ℕ} (c : IsCapacity capacity) where
  pub capacity_pos : 0 < capacity
  capacity_pos = omega (arith, c.is_pow, one-le-pow c.log 2)

  pub capacity_le : capacity ≤ 2 ^ 63
  capacity_le = omega (
    arith,
    c.is_pow,
    c.small,
    pow-le-pow_right {n = 2} (omega arith) {i = c.log} {j = 63} (omega arith),
  )

  -- The slot of counter `t` is `t % Capacity`, wherever the counter has wrapped to.
  pub slot_index-word : (t : ℕ) → slot_index capacity (word t) ≡ t % capacity
  unfolding slot_index
  slot_index-word t =
      rw (sub_size-one capacity capacity_pos (omega (arith, capacity_le)), c.is_pow)
        (bit_and-mask c.log (word t) ∙ mod-mod_pow c.log t (omega (arith, c.small)))

  pub slot_index-lt : (t : ℕ) → slot_index capacity (word t) < capacity
  slot_index-lt t = omega (arith, slot_index-word t, capacity_pos)

  -- The tests of the code compare counters, although they read wrapped indices.
  pub full_test :
      (t h : ℕ)
      → h ≤ t
      → t ≤ h + capacity
      → (sub_size (word t) (word h) == capacity) ≡ (t - h == capacity)
  full_test t h le near = ground (arith, sub_size-word t h, capacity_le)

  pub empty_test : (h t : ℕ) → h ≤ t → t ≤ h + capacity → (word h == word t) ≡ (h == t)
  empty_test h t le near = ground (arith, word-injective t h, capacity_le)

  -- A test for a full queue that fails shows room behind the head that it was made with.
  pub room_of_full_test :
      (pushes seen : ℕ) {t h : ℕ}
      → t ≡ word pushes
      → h ≡ word seen
      → seen ≤ pushes
      → pushes ≤ seen + capacity
      → (sub_size t h == capacity) ≡ false
      → pushes < seen + capacity
  room_of_full_test pushes seen at ah le near failed =
      ground (arith, sub_size-word pushes seen, capacity_le)

  -- A test for an empty queue that fails shows an item before the tail that it was made with.
  pub item_of_empty_test :
      (pops seen : ℕ) {h t : ℕ}
      → h ≡ word pops
      → t ≡ word seen
      → pops ≤ seen
      → seen ≤ pops + capacity
      → (h == t) ≡ false
      → pops < seen
  item_of_empty_test pops seen ah at le near failed = ground (arith, capacity_le)
