-- ===== src/HeadToHead.antt =====
-- bench/spsc_head_to_head.cpp: the worker functions of its three test cases. A worker calls `try_push` on
-- one queue and `try_pop` on the other (or makes one kind of call only); between its calls it is a
-- function of its local variables, given here by the next call and what each return does to them.
pub mod System
pub mod Contract
pub mod Advance
pub mod Finish
pub mod Loops
pub mod Stream
pub mod Echo
pub mod Bursts
pub mod Endings
pub mod Wrappers
pub mod Main
use market_data_pipeline.Base.{
  ℕ, suc, ◌+◌, ◌%◌, ◌≡◌, Bool, true, false, Option, none, some, List, [], ◌∷◌, ◌++◌, ◌==◌, ltb,
  ◌||◌, not, if◌then◌else◌,
}
use market_data_pipeline.SpscBench.{to_int}

-- The next call of a worker; `stop` when its function has returned.
pub data Action : Type 0 where
  send : ℕ → Action
  receive : Action
  stop : Action

-- `sent` is given what `try_push` returned, `received` the item that `try_pop` returned, or `none`.
pub record Worker : Type 1 where
  pub Local : Type 0
  pub begin : Local
  pub action : Local → Action
  pub sent : Bool → Local → Local
  pub received : Option ℕ → Local → Local

abbrev pub batch_size : ℕ
batch_size = 64

abbrev pub num_batches : ℕ
num_batches = 100000

-- `producer_thread(n, q)`; a call that fails is made again after a pause.
abbrev pub producer_thread : ℕ → Worker
producer_thread n = record {
  Local = ℕ;
  begin = 0;
  action = λ expected. if ltb expected n then send (to_int expected) else stop;
  sent = λ pushed expected. if pushed then expected + 1 else expected;
  received = λ _ expected. expected;
}

-- The locals of `consumer_thread`, and whether its `assert` has failed.
pub record Checked : Type 0 where
  pub expected : ℕ
  pub failed : Bool

abbrev pub check_out : Option ℕ → Checked → Checked
check_out none l = l
check_out (some out) l = record {
  expected = l.expected + 1;
  failed = l.failed || not (out == to_int l.expected);
}

-- `consumer_thread(n, q)`
abbrev pub consumer_thread : ℕ → Worker
consumer_thread n = record {
  Local = Checked;
  begin = record { expected = 0; failed = false };
  action = λ l. if ltb l.expected n then receive else stop;
  sent = λ _ l. l;
  received = check_out;
}

-- The round `i` of `producer_req`: before its push, or waiting for the echo.
pub data Requester : Type 0 where
  pushing : ℕ → Requester
  popping : ℕ → Requester

abbrev pub request : ℕ → Requester → Action
request n (pushing i) = if ltb i n then send (to_int i) else stop
request n (popping i) = receive

abbrev pub requested : Bool → Requester → Requester
requested true (pushing i) = popping i
requested _ l = l

abbrev pub echoed : Option ℕ → Requester → Requester
echoed (some echo) (popping i) = pushing (i + 1)
echoed _ l = l

-- `producer_req(n, q0, q1)`
abbrev pub producer_req : ℕ → Worker
producer_req n = record {
  Local = Requester;
  begin = pushing 0;
  action = request n;
  sent = requested;
  received = echoed;
}

-- The round `i` of `consumer_resp`: before its pop, or sending `val` back.
pub data Responder : Type 0 where
  awaiting : ℕ → Responder
  answering : ℕ → ℕ → Responder

abbrev pub respond : ℕ → Responder → Action
respond n (awaiting i) = if ltb i n then receive else stop
respond n (answering i val) = send val

abbrev pub answered : Bool → Responder → Responder
answered true (answering i val) = awaiting (i + 1)
answered _ l = l

abbrev pub taken : Option ℕ → Responder → Responder
taken (some val) (awaiting i) = answering i val
taken _ l = l

-- `consumer_resp(n, q0, q1)`
abbrev pub consumer_resp : ℕ → Worker
consumer_resp n = record {
  Local = Responder;
  begin = awaiting 0;
  action = respond n;
  sent = answered;
  received = taken;
}

-- The loop variables of the burst functions.
pub record Burst : Type 0 where
  pub b : ℕ
  pub i : ℕ

-- `i++`, and at the end of the inner loop `b++`.
abbrev pub next_item : ℕ → Burst → Burst
next_item size l =
    if l.i + 1 == size then record { b = l.b + 1; i = 0 } else record { b = l.b; i = l.i + 1 }

-- `producer_burst(q)`
abbrev pub producer_burst : (batches size : ℕ) → Worker
producer_burst batches size = record {
  Local = Burst;
  begin = record { b = 0; i = 0 };
  action = λ l. if ltb l.b batches then send l.i else stop;
  sent = λ pushed l. if pushed then next_item size l else l;
  received = λ _ l. l;
}

-- The loop variables of `consumer_burst`, and `times`, with the newest first.
pub record Timed : Type 0 where
  pub at : Burst
  pub times : List ℕ

-- At the end of a batch, `times.push_back(t1 - t0)`.
abbrev pub count_out : ℕ → (ℕ → ℕ) → Option ℕ → Timed → Timed
count_out size elapsed none l = l
count_out size elapsed (some val) l = record {
  at = next_item size l.at;
  times = if l.at.i + 1 == size then elapsed l.at.b ∷ l.times else l.times;
}

-- `consumer_burst(times, q)`; `elapsed k` is `t1 - t0` of batch `k`.
abbrev pub consumer_burst : (batches size : ℕ) → (ℕ → ℕ) → Worker
consumer_burst batches size elapsed = record {
  Local = Timed;
  begin = record { at = record { b = 0; i = 0 }; times = [] };
  action = λ l. if ltb l.at.b batches then receive else stop;
  sent = λ _ l. l;
  received = count_out size elapsed;
}
