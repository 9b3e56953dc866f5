-- ===== src/HeadToHead/Advance.antt =====
-- One queue between two workers of bench/spsc_head_to_head.cpp, when its calls can end: the push or the pop
-- that a worker is at succeeds once there is room or an item, after the steps given here.
use mathlib.Core.Path.{subst}
use market_data_pipeline.Base.{
  ℕ, ◌<◌, ◌≡◌, true, false, Option, none, some, List, ◌∷◌, length, inl, inr, Bool-cases, refl,
}
use market_data_pipeline.Spsc.Threads.{Event, push_refused, pop_called, pop_done, pop_refused}
use market_data_pipeline.Channel.{Channel, Quiet, stays, more, LiveQueue, after_event}
use market_data_pipeline.HeadToHead.{send, receive, Worker}
use market_data_pipeline.HeadToHead.System.{
  Permits, sender_after, receiver_after, InCalls, System, SystemStep, SystemReach, next,
}

-- Several steps of the two workers.
pub data SystemRun {bound : ℕ} (L : LiveQueue ℕ bound) (P C : Worker) (s : System L.queue.State P C)
    : System L.queue.State P C → Type 0 where
  here : SystemRun L P C s s
  after :
      {u v : System L.queue.State P C}
      → SystemRun L P C s u
      → SystemStep L.queue P C u v
      → SystemRun L P C s v

pub SystemRun-SystemReach :
    {bound : ℕ} {L : LiveQueue ℕ bound} {P C : Worker} {s s' : System L.queue.State P C}
    → SystemRun L P C s s'
    → SystemReach L.queue P C s
    → SystemReach L.queue P C s'
SystemRun-SystemReach here r = r
SystemRun-SystemReach (after run st) r = next (SystemRun-SystemReach run r) st

-- What a worker does between its calls, as far as it is alike for all of them.
pub record Patient (W : Worker) : Type 0 where
  pub when_refused : (l : W.Local) → W.sent false l ≡ l
  pub when_missed : (l : W.Local) → W.received none l ≡ l

-- One queue of the two, from `S` to `R`, in the system with the rest as it is.
pub record OneQueue {bound : ℕ} (L : LiveQueue ℕ bound) (P C S R : Worker) : Type 0 where
  pub put : L.queue.State → S.Local → R.Local → System L.queue.State P C
  pub step :
      {q q' : L.queue.State} {e : Event ℕ} {s : S.Local} {r : R.Local}
      → L.queue.Step q e q'
      → Permits S R s r e
      → SystemStep L.queue P C (put q s r) (put q' (sender_after S R e s) (receiver_after S R e r))

module _ {bound : ℕ} (L : LiveQueue ℕ bound) {P C S R : Worker} (one : OneQueue L P C S R) where
  Quiet-run :
      {z : System L.queue.State P C} {q q' : L.queue.State} {s : S.Local} {r : R.Local}
      → SystemRun L P C z (one.put q s r)
      → Quiet L.queue q q'
      → SystemRun L P C z (one.put q' s r)
  Quiet-run run stays = run
  Quiet-run run (more quiet st) = after (Quiet-run run quiet) (one.step st tt)

  Quiet-Shows :
      {q q' : L.queue.State} (d : Channel ℕ)
      → L.queue.Shows q d
      → Quiet L.queue q q'
      → L.queue.Shows q' d
  Quiet-Shows d shown stays = shown
  Quiet-Shows d shown (more {u} {v} quiet st) =
      (L.queue.refines u v _ d st (Quiet-Shows d shown quiet)).1

  -- A new call of `try_push` with room in the queue.
  fresh_push :
      {z : System L.queue.State P C} {q : L.queue.State} {s : S.Local} {r : R.Local} (x : ℕ)
      (d : Channel ℕ)
      → SystemRun L P C z (one.put q s r)
      → L.queue.Shows q d
      → d.sending ≡ none
      → S.action s ≡ send x
      → length d.items < bound
      → (q' : L.queue.State) × SystemRun L P C z (one.put q' (S.sent true s) r)
  fresh_push {q} x d run shown idle act room =
      let (u, called, (v, w, quiet, done)) = L.push_completes q d x shown idle room in
      (w, after (Quiet-run (after run (one.step called act)) quiet) (one.step done tt))

  -- A `try_push` that is in progress, or else a new one: if it returns false, it is called again.
  pub push_sent :
      {z : System L.queue.State P C} {q : L.queue.State} {s : S.Local} {r : R.Local} (x : ℕ)
      (d : Channel ℕ) (sending : Option ℕ)
      → SystemRun L P C z (one.put q s r)
      → L.queue.Shows q d
      → InCalls S R d s r
      → Patient S
      → d.sending ≡ sending
      → S.action s ≡ send x
      → length d.items < bound
      → (q' : L.queue.State) × SystemRun L P C z (one.put q' (S.sent true s) r)
  push_sent x d none run shown calls waits is act room = fresh_push x d run shown is act room
  push_sent {z} {q} {s} {r} x d (some y) run shown calls waits is act room =
      elim (L.push_returns q d y shown is) [
        | inl (u, v, quiet, done) ↦ (v, after (Quiet-run run quiet) (one.step done tt))
        | inr (u, v, quiet, refused) ↦
            let still =
              subst (λ l. SystemRun L P C z (one.put v l r)) (waits.when_refused s)
                (after (Quiet-run run quiet) (one.step refused tt)) in
            fresh_push x (after_event d push_refused) still
              (L.queue.refines u v push_refused d refused (Quiet-Shows d shown quiet)).1 refl act
              room
      ]

  -- What a `try_pop` that returns true has popped is the first item of the queue.
  popped_first :
      {u v : L.queue.State} (x y : ℕ) (rest : List ℕ) (d : Channel ℕ)
      → L.queue.Shows u d
      → d.items ≡ x ∷ rest
      → L.queue.Step u (pop_done y) v
      → y ≡ x
  popped_first {u} {v} x y rest d shown items done =
      let ((receiving, (rest', is)), after_it) = L.queue.refines u v (pop_done y) d done shown in
      cc (items, is)

  fresh_pop :
      {z : System L.queue.State P C} {q : L.queue.State} {s : S.Local} {r : R.Local} (x : ℕ)
      (rest : List ℕ) (d : Channel ℕ)
      → SystemRun L P C z (one.put q s r)
      → L.queue.Shows q d
      → d.receiving ≡ false
      → R.action r ≡ receive
      → d.items ≡ x ∷ rest
      → (q' : L.queue.State) × SystemRun L P C z (one.put q' s (R.received (some x) r))
  fresh_pop {z} {q} {s} {r} x rest d run shown idle act items =
      let (u, called, (y, (v, w, quiet, done))) = L.pop_completes q d x rest shown idle items in
      let called_shown = (L.queue.refines q u pop_called d called shown).1 in
      let same : y ≡ x =
        popped_first x y rest (after_event d pop_called)
          (Quiet-Shows (after_event d pop_called) called_shown quiet) items done in
      (
        w,
        subst (λ i. SystemRun L P C z (one.put w s (R.received (some i) r))) same
            (after (Quiet-run (after run (one.step called act)) quiet) (one.step done tt)),
      )

  pub pop_received :
      {z : System L.queue.State P C} {q : L.queue.State} {s : S.Local} {r : R.Local} (x : ℕ)
      (rest : List ℕ) (d : Channel ℕ)
      → SystemRun L P C z (one.put q s r)
      → L.queue.Shows q d
      → Patient R
      → R.action r ≡ receive
      → d.items ≡ x ∷ rest
      → (q' : L.queue.State) × SystemRun L P C z (one.put q' s (R.received (some x) r))
  pop_received {z} {q} {s} {r} x rest d run shown waits act items = elim (Bool-cases d.receiving) [
    | inr idle ↦ fresh_pop x rest d run shown idle act items
    | inl inside ↦ elim (L.pop_returns q d shown inside) [
      | inl (y, (u, v, quiet, done)) ↦ (
        v,
        subst (λ i. SystemRun L P C z (one.put v s (R.received (some i) r)))
            (popped_first x y rest d (Quiet-Shows d shown quiet) items done)
            (after (Quiet-run run quiet) (one.step done tt)),
      )
      | inr (u, v, quiet, missed) ↦
          let still =
            subst (λ l. SystemRun L P C z (one.put v s l)) (waits.when_missed r)
              (after (Quiet-run run quiet) (one.step missed tt)) in
          fresh_pop x rest (after_event d pop_refused) still
            (L.queue.refines u v pop_refused d missed (Quiet-Shows d shown quiet)).1 refl act items
    ]
  ]
