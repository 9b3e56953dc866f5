-- ===== src/PingPong/Ends.antt =====
-- How the two threads of bench/pingpong_bench.cpp return: which of them takes the next step, and what is left
-- to do.
use market_data_pipeline.Base.{
  Onward, ended, onward, descends, ℕ, ◌+◌, ◌-◌, ◌*◌, ◌<◌, ◌≡◌, ◌≢◌, inl, inr, refl, Bool-cases, ltb,
  ◌==◌, arith,
}
use market_data_pipeline.PingPong.{
  SenderAt, ReceiverAt, State, sender_thread, receiver_thread, Reach, sends, receives,
}
use market_data_pipeline.PingPong.Rounds.{SenderKnows, ReceiverKnows, Reach-Inv, threads_end}

-- Several steps of the two threads.
pub data Run (n : ℕ) : State → State → Type 0 where
  here : {s : State} → Run n s s
  sent : {s s' : State} → Run n (sender_thread n s.sender s) s' → Run n s s'
  received : {s s' : State} → Run n (receiver_thread n s.receiver s) s' → Run n s s'

-- The steps that are left to a thread.
sender_left : ℕ → SenderAt → ℕ
sender_left n (SenderAt.looping idx) = 3 * (n - idx) + 1
sender_left n (SenderAt.raising idx) = 3 * (n - idx)
sender_left n (SenderAt.awaiting idx) = 3 * (n - idx) - 1
sender_left n SenderAt.finished = 0

receiver_left : ℕ → ReceiverAt → ℕ
receiver_left n (ReceiverAt.looping idx) = 4 * (n - idx) + 1
receiver_left n (ReceiverAt.awaiting idx) = 4 * (n - idx)
receiver_left n (ReceiverAt.reading idx) = 4 * (n - idx) - 1
receiver_left n (ReceiverAt.lowering idx) = 4 * (n - idx) - 2
receiver_left n ReceiverAt.finished = 0

module _ (n : ℕ) where
  left : State → ℕ
  left s = sender_left n s.sender + receiver_left n s.receiver

  -- A step of the sender, unless it has finished or awaits the clearing of the flag.
  sender_works :
      (p : SenderAt) (s : State)
      → SenderKnows n s.flag s.counter p
      → p ≢ SenderAt.finished
      → ((idx : ℕ) → p ≡ SenderAt.awaiting idx → s.flag ≡ 0)
      → left (sender_thread n p s) < sender_left n p + receiver_left n s.receiver
  unfolding left sender_left sender_thread
  sender_works (SenderAt.looping idx) s k at_work free = elim (Bool-cases (ltb idx n)) [
    | inl more ↦ rw more (ground (arith, more))
    | inr over ↦ rw over (ground (arith, over))
  ]
  sender_works (SenderAt.raising idx) s k at_work free = omega (arith, k.2)
  sender_works (SenderAt.awaiting idx) s k at_work free =
      let clear : s.flag ≡ 0 = free idx refl in rw clear (omega (arith, k.1))
  sender_works SenderAt.finished s k at_work free = absurd (at_work refl)

  -- A step of the receiver, unless it has finished or awaits the setting of the flag.
  receiver_works :
      (q : ReceiverAt) (s : State)
      → ReceiverKnows n s.flag q
      → q ≢ ReceiverAt.finished
      → ((idx : ℕ) → q ≡ ReceiverAt.awaiting idx → s.flag ≡ 1)
      → left (receiver_thread n q s) < sender_left n s.sender + receiver_left n q
  unfolding left receiver_left receiver_thread
  receiver_works (ReceiverAt.looping idx) s k at_work free = elim (Bool-cases (ltb idx n)) [
    | inl more ↦ rw more (ground (arith, more))
    | inr over ↦ rw over (ground (arith, over))
  ]
  receiver_works (ReceiverAt.awaiting idx) s k at_work free =
      let set : s.flag ≡ 1 = free idx refl in rw set (omega (arith, k))
  receiver_works (ReceiverAt.reading idx) s k at_work free = omega (arith, k.1)
  receiver_works (ReceiverAt.lowering idx) s k at_work free = omega (arith, k.1)
  receiver_works ReceiverAt.finished s k at_work free = absurd (at_work refl)

  -- What either thread can do next.
  data Next (s : State) : Type 0 where
    done : s.sender ≡ SenderAt.finished → s.receiver ≡ ReceiverAt.finished → Next s
    sender_next : left (sender_thread n s.sender s) < left s → Next s
    receiver_next : left (receiver_thread n s.receiver s) < left s → Next s

  sender_goes :
      {s : State}
      → Reach n s
      → s.sender ≢ SenderAt.finished
      → ((idx : ℕ) → s.sender ≡ SenderAt.awaiting idx → s.flag ≡ 0)
      → Next s
  unfolding left
  sender_goes {s} r at_work free =
      sender_next (sender_works s.sender s (Reach-Inv n r).sender_knows at_work free)

  receiver_goes :
      {s : State}
      → Reach n s
      → s.receiver ≢ ReceiverAt.finished
      → ((idx : ℕ) → s.receiver ≡ ReceiverAt.awaiting idx → s.flag ≡ 1)
      → Next s
  unfolding left
  receiver_goes {s} r at_work free =
      receiver_next (receiver_works s.receiver s (Reach-Inv n r).receiver_knows at_work free)

  -- The receiver, once the sender has finished.
  receiver_last :
      (q : ReceiverAt) {s : State}
      → Reach n s
      → s.sender ≡ SenderAt.finished
      → s.receiver ≡ q
      → Next s
  receiver_last (ReceiverAt.looping idx) r over at =
      receiver_goes r (λ e. cc (at, e)) (λ i e. cc (at, e))
  receiver_last (ReceiverAt.awaiting idx) {s} r over at = elim (Bool-cases (s.flag == 1)) [
    | inl set ↦ receiver_goes r (λ e. cc (at, e)) (λ i e. ground (arith, set))
    | inr clear ↦ absurd ((threads_end n r).1 idx at (λ e. ground (arith, clear, e)) over)
  ]
  receiver_last (ReceiverAt.reading idx) r over at =
      receiver_goes r (λ e. cc (at, e)) (λ i e. cc (at, e))
  receiver_last (ReceiverAt.lowering idx) r over at =
      receiver_goes r (λ e. cc (at, e)) (λ i e. cc (at, e))
  receiver_last ReceiverAt.finished r over at = done over at

  goes_on : (p : SenderAt) {s : State} → Reach n s → s.sender ≡ p → Next s
  goes_on (SenderAt.looping idx) r at = sender_goes r (λ e. cc (at, e)) (λ i e. cc (at, e))
  goes_on (SenderAt.raising idx) r at = sender_goes r (λ e. cc (at, e)) (λ i e. cc (at, e))
  goes_on (SenderAt.awaiting idx) {s} r at = elim (Bool-cases (s.flag == 0)) [
    | inl clear ↦ sender_goes r (λ e. cc (at, e)) (λ i e. ground (arith, clear))
    | inr set ↦
        receiver_goes r ((threads_end n r).0 idx at (λ e. ground (arith, set, e)))
          (λ i e. ground (arith, set, (Reach-Inv n r).small))
  ]
  goes_on SenderAt.finished {s} r at = receiver_last s.receiver r at refl

  abbrev BothFinished : State → Type 0
  BothFinished s = (s.sender ≡ SenderAt.finished) × (s.receiver ≡ ReceiverAt.finished)

  next : (s : State) → Reach n s → Onward (Run n) (Reach n) BothFinished left s
  next s r = elim (goes_on s.sender r refl) [
    | done over_s over_r ↦ ended (over_s, over_r)
    | sender_next less ↦ onward (sender_thread n s.sender s) (sends r) less (λ v run. sent run)
    | receiver_next less ↦
        onward (receiver_thread n s.receiver s) (receives r) less (λ v run. received run)
  ]

-- The sender and the receiver can always finish: from every state that they reach some further steps lead
-- to one in which both have returned, the counter is `n` and the flag is clear.
pub both_finish :
    (n : ℕ) {s : State}
    → Reach n s
    → (s' : State) × Run n s s'
      × (s'.sender ≡ SenderAt.finished)
      × (s'.receiver ≡ ReceiverAt.finished)
      × (s'.counter ≡ n)
      × (s'.flag ≡ 0)
both_finish n {s} r =
    let (s', run, r', (over_s, over_r)) =
      descends (Run n) (Reach n) (BothFinished n) (left n) (λ u. here) (next n) s r in
    let (counted, clear) = (threads_end n r').2 over_s over_r in
    (s', run, over_s, over_r, counted, clear)
