-- ===== src/PingPong.antt =====
-- bench/pingpong_bench.cpp: a sender that increments a counter and sets a flag, and a receiver that clears
-- the flag, `n` times each. A state holds the flag, the counter and where each thread stands with its loop
-- variable `idx`; a step runs one thread up to its next access. The accesses are taken in one order, as
-- the acquire and release orders of the flag give for the counter; the times are left out.
pub mod Rounds
pub mod Ends
pub mod Main
use market_data_pipeline.Base.{ℕ, ◌+◌, ◌≡◌, Bool, ltb, ◌==◌, if◌then◌else◌}

-- `sender_thread`: before the test of the loop, before the store of the flag, in the spin, and at its end.
pub data SenderAt : Type 0 where
  looping : ℕ → SenderAt
  raising : ℕ → SenderAt
  awaiting : ℕ → SenderAt
  finished : SenderAt

-- `receiver_thread`: before the test of the loop, in the spin, at the use of the counter, before the store
-- of the flag, and at its end.
pub data ReceiverAt : Type 0 where
  looping : ℕ → ReceiverAt
  awaiting : ℕ → ReceiverAt
  reading : ℕ → ReceiverAt
  lowering : ℕ → ReceiverAt
  finished : ReceiverAt

-- `Packed` and `Padded` differ in their layout only.
pub record State : Type 0 where
  pub flag : ℕ
  pub counter : ℕ
  pub sender : SenderAt
  pub receiver : ReceiverAt

abbrev pub initial : State
initial = record {
  flag = 0;
  counter = 0;
  sender = SenderAt.looping 0;
  receiver = ReceiverAt.looping 0;
}

unfoldable pub sender_thread : ℕ → SenderAt → State → State
sender_thread n (SenderAt.looping idx) s =
    if ltb idx n
    then record s { counter = s.counter + 1; sender = SenderAt.raising idx }
    else record s { sender = SenderAt.finished }
sender_thread n (SenderAt.raising idx) s = record s { flag = 1; sender = SenderAt.awaiting idx }
sender_thread n (SenderAt.awaiting idx) s =
    if s.flag == 0 then record s { sender = SenderAt.looping (idx + 1) } else s
sender_thread n SenderAt.finished s = s

unfoldable pub receiver_thread : ℕ → ReceiverAt → State → State
receiver_thread n (ReceiverAt.looping idx) s = record s {
  receiver = if ltb idx n then ReceiverAt.awaiting idx else ReceiverAt.finished;
}
receiver_thread n (ReceiverAt.awaiting idx) s =
    if s.flag == 1 then record s { receiver = ReceiverAt.reading idx } else s
receiver_thread n (ReceiverAt.reading idx) s = record s { receiver = ReceiverAt.lowering idx }
receiver_thread n (ReceiverAt.lowering idx) s = record s {
  flag = 0;
  receiver = ReceiverAt.looping (idx + 1);
}
receiver_thread n ReceiverAt.finished s = s

-- The states that the two threads reach.
pub data Reach (n : ℕ) : State → Type 0 where
  start : Reach n initial
  sends : {s : State} → Reach n s → Reach n (sender_thread n s.sender s)
  receives : {s : State} → Reach n s → Reach n (receiver_thread n s.receiver s)
