-- ===== src/PingPong/Rounds.antt =====
-- The rounds of bench/pingpong_bench.cpp: how far the two threads may be apart, and how they end.
use market_data_pipeline.Base.{
  ℕ, ◌+◌, ◌≤◌, ◌<◌, ◌≡◌, ◌≢◌, inl, inr, refl, subst, Bool-cases, ltb, ◌==◌, arith,
}
use market_data_pipeline.PingPong.{
  SenderAt, ReceiverAt, State, sender_thread, receiver_thread, Reach, start, sends, receives,
}

-- Stores of 1 and of 0 made so far
abbrev pub raised : ℕ → SenderAt → ℕ
raised n (SenderAt.looping idx) = idx
raised n (SenderAt.raising idx) = idx
raised n (SenderAt.awaiting idx) = idx + 1
raised n SenderAt.finished = n

abbrev pub lowered : ℕ → ReceiverAt → ℕ
lowered n (ReceiverAt.looping idx) = idx
lowered n (ReceiverAt.awaiting idx) = idx
lowered n (ReceiverAt.reading idx) = idx
lowered n (ReceiverAt.lowering idx) = idx
lowered n ReceiverAt.finished = n

abbrev pub SenderKnows : ℕ → ℕ → ℕ → SenderAt → Type 0
SenderKnows n flag counter (SenderAt.looping idx) = (flag ≡ 0) × (counter ≡ idx) × (idx ≤ n)
SenderKnows n flag counter (SenderAt.raising idx) = (flag ≡ 0) × (counter ≡ idx + 1) × (idx < n)
SenderKnows n flag counter (SenderAt.awaiting idx) = (counter ≡ idx + 1) × (idx < n)
SenderKnows n flag counter SenderAt.finished = (flag ≡ 0) × (counter ≡ n)

abbrev pub ReceiverKnows : ℕ → ℕ → ReceiverAt → Type 0
ReceiverKnows n flag (ReceiverAt.looping idx) = idx ≤ n
ReceiverKnows n flag (ReceiverAt.awaiting idx) = idx < n
ReceiverKnows n flag (ReceiverAt.reading idx) = (flag ≡ 1) × (idx < n)
ReceiverKnows n flag (ReceiverAt.lowering idx) = (flag ≡ 1) × (idx < n)
ReceiverKnows n flag ReceiverAt.finished = Unit

pub record Inv (n : ℕ) (s : State) : Type 0 where
  pub balance : s.flag + lowered n s.receiver ≡ raised n s.sender
  pub small : s.flag ≤ 1
  pub sender_knows : SenderKnows n s.flag s.counter s.sender
  pub receiver_knows : ReceiverKnows n s.flag s.receiver

-- What a thread knows outlives a store of the other.
SenderKnows-lowered :
    (n flag counter : ℕ) (p : SenderAt) → SenderKnows n flag counter p → SenderKnows n 0 counter p
SenderKnows-lowered n flag counter (SenderAt.looping idx) k = (refl, k.1, k.2)
SenderKnows-lowered n flag counter (SenderAt.raising idx) k = (refl, k.1, k.2)
SenderKnows-lowered n flag counter (SenderAt.awaiting idx) k = k
SenderKnows-lowered n flag counter SenderAt.finished k = (refl, k.1)

ReceiverKnows-raised : (n flag : ℕ) (p : ReceiverAt) → ReceiverKnows n flag p → ReceiverKnows n 1 p
ReceiverKnows-raised n flag (ReceiverAt.looping idx) k = k
ReceiverKnows-raised n flag (ReceiverAt.awaiting idx) k = k
ReceiverKnows-raised n flag (ReceiverAt.reading idx) k = (refl, k.1)
ReceiverKnows-raised n flag (ReceiverAt.lowering idx) k = (refl, k.1)
ReceiverKnows-raised n flag ReceiverAt.finished k = tt

-- The same, of a state given by its parts.
abbrev Agree : ℕ → ℕ → ℕ → SenderAt → ReceiverAt → Type 0
Agree n flag counter p q =
    Inv n (record { flag = flag; counter = counter; sender = p; receiver = q })

sends-Inv :
    (n flag counter : ℕ) (p : SenderAt) (q : ReceiverAt)
    → Agree n flag counter p q
    → Inv n
        (sender_thread n p (record { flag = flag; counter = counter; sender = p; receiver = q }))
unfolding sender_thread
sends-Inv n flag counter (SenderAt.looping idx) q inv = elim (Bool-cases (ltb idx n)) [
  | inl below ↦ rw below (record {
    balance = inv.balance;
    small = inv.small;
    sender_knows = (inv.sender_knows.0, omega (arith, inv.sender_knows), ground (arith, below));
    receiver_knows = inv.receiver_knows;
  })
  | inr ended ↦ rw ended (record {
    balance = ground (arith, inv.balance, inv.sender_knows, ended);
    small = inv.small;
    sender_knows = (inv.sender_knows.0, ground (arith, inv.sender_knows, ended));
    receiver_knows = inv.receiver_knows;
  })
]
sends-Inv n flag counter (SenderAt.raising idx) q inv = record {
  balance = omega (arith, inv.balance, inv.sender_knows);
  small = omega arith;
  sender_knows = (inv.sender_knows.1, inv.sender_knows.2);
  receiver_knows = ReceiverKnows-raised n flag q inv.receiver_knows;
}
sends-Inv n flag counter (SenderAt.awaiting idx) q inv = elim (Bool-cases (flag == 0)) [
  | inl clear ↦ rw clear (record {
    balance = inv.balance;
    small = inv.small;
    sender_knows = (ground (arith, clear), inv.sender_knows.0, omega (arith, inv.sender_knows));
    receiver_knows = inv.receiver_knows;
  })
  | inr set ↦ rw set inv
]
sends-Inv n flag counter SenderAt.finished q inv = inv

receives-Inv :
    (n flag counter : ℕ) (p : SenderAt) (q : ReceiverAt)
    → Agree n flag counter p q
    → Inv n
        (receiver_thread n q (record { flag = flag; counter = counter; sender = p; receiver = q }))
unfolding receiver_thread
receives-Inv n flag counter p (ReceiverAt.looping idx) inv = elim (Bool-cases (ltb idx n)) [
  | inl below ↦ rw below (record {
    balance = inv.balance;
    small = inv.small;
    sender_knows = inv.sender_knows;
    receiver_knows = ground (arith, below);
  })
  | inr ended ↦ rw ended (record {
    balance = ground (arith, inv.balance, inv.receiver_knows, ended);
    small = inv.small;
    sender_knows = inv.sender_knows;
    receiver_knows = tt;
  })
]
receives-Inv n flag counter p (ReceiverAt.awaiting idx) inv = elim (Bool-cases (flag == 1)) [
  | inl set ↦ rw set (record {
    balance = inv.balance;
    small = inv.small;
    sender_knows = inv.sender_knows;
    receiver_knows = (ground (arith, set), inv.receiver_knows);
  })
  | inr clear ↦ rw clear inv
]
receives-Inv n flag counter p (ReceiverAt.reading idx) inv = record {
  balance = inv.balance;
  small = inv.small;
  sender_knows = inv.sender_knows;
  receiver_knows = inv.receiver_knows;
}
receives-Inv n flag counter p (ReceiverAt.lowering idx) inv = record {
  balance = omega (arith, inv.balance, inv.receiver_knows);
  small = omega arith;
  sender_knows = SenderKnows-lowered n flag counter p inv.sender_knows;
  receiver_knows = omega (arith, inv.receiver_knows);
}
receives-Inv n flag counter p ReceiverAt.finished inv = inv

pub Reach-Inv : (n : ℕ) {s : State} → Reach n s → Inv n s
Reach-Inv n start = record {
  balance = omega arith;
  small = omega arith;
  sender_knows = (refl, refl, omega arith);
  receiver_knows = omega arith;
}
Reach-Inv n (sends {s} r) = sends-Inv n s.flag s.counter s.sender s.receiver (Reach-Inv n r)
Reach-Inv n (receives {s} r) = receives-Inv n s.flag s.counter s.sender s.receiver (Reach-Inv n r)

read_in_round :
    (n flag counter idx : ℕ) (p : SenderAt)
    → Agree n flag counter p (ReceiverAt.reading idx)
    → (p ≡ SenderAt.awaiting idx) × (counter ≡ idx + 1)
read_in_round n flag counter idx (SenderAt.looping k) inv =
    absurd (omega (arith, inv.sender_knows, inv.receiver_knows))
read_in_round n flag counter idx (SenderAt.raising k) inv =
    absurd (omega (arith, inv.sender_knows, inv.receiver_knows))
read_in_round n flag counter idx (SenderAt.awaiting k) inv =
    let same : k ≡ idx = omega (arith, inv.balance, inv.receiver_knows) in
    (rw same refl, omega (arith, inv.sender_knows, same))
read_in_round n flag counter idx SenderAt.finished inv =
    absurd (omega (arith, inv.sender_knows, inv.receiver_knows))

-- In every state that the threads reach, when the receiver uses the counter in round `idx`, the
-- sender spins in the same round, so it does not write the counter, and the counter is `idx + 1`.
pub reading-awaiting :
    (n idx : ℕ) {s : State}
    → Reach n s
    → s.receiver ≡ ReceiverAt.reading idx
    → (s.sender ≡ SenderAt.awaiting idx) × (s.counter ≡ idx + 1)
reading-awaiting n idx {s} r at =
    read_in_round n s.flag s.counter idx s.sender
      (subst (Agree n s.flag s.counter s.sender) at (Reach-Inv n r))

-- No thread is left spinning for one that has ended: while the sender awaits the clearing of a set flag the
-- receiver has not finished, and while the receiver awaits the setting of a clear flag the sender
-- has not. When both have finished, the counter is `n` and the flag is clear.
pub threads_end :
    (n : ℕ) {s : State}
    → Reach n s
    → ((idx : ℕ) → s.sender ≡ SenderAt.awaiting idx → s.flag ≢ 0 → s.receiver ≢ ReceiverAt.finished)
      × ((idx : ℕ)
          → s.receiver ≡ ReceiverAt.awaiting idx
          → s.flag ≢ 1
          → s.sender ≢ SenderAt.finished)
      × (s.sender ≡ SenderAt.finished
          → s.receiver ≡ ReceiverAt.finished
          → (s.counter ≡ n) × (s.flag ≡ 0))
threads_end n {s} r =
    let inv = Reach-Inv n r in
    (
      λ idx at set over.
          let here : Agree n s.flag s.counter (SenderAt.awaiting idx) ReceiverAt.finished =
            subst (λ q. Agree n s.flag s.counter (SenderAt.awaiting idx) q) over
              (subst (λ p. Agree n s.flag s.counter p s.receiver) at inv) in
          omega (arith, here.balance, here.sender_knows, set),
      λ idx at clear over.
          let here : Agree n s.flag s.counter SenderAt.finished (ReceiverAt.awaiting idx) =
            subst (λ q. Agree n s.flag s.counter SenderAt.finished q) at
              (subst (λ p. Agree n s.flag s.counter p s.receiver) over inv) in
          omega (arith, here.balance, here.sender_knows, here.receiver_knows),
      λ over_s over_r.
          let here : Agree n s.flag s.counter SenderAt.finished s.receiver =
            subst (λ p. Agree n s.flag s.counter p s.receiver) over_s inv in
          (here.sender_knows.1, here.sender_knows.0),
    )
