-- ===== src/LockFreeStack/Threads.antt =====
-- experiments/broken_aba.cpp: `push`, `pop_normal` and `pop_vulnerable` called by any number of threads,
-- one access to shared memory at a time, in any order. A load of the head, and an attempt to exchange it
-- that fails, may read any value that the head has had, and only an attempt that succeeds needs the newest;
-- `ready` tells whether an attempt goes on to compare with that one. A node's members are not atomic: `known`
-- tells of which nodes a thread knows the writes, because it pushed the node itself or has read its address
-- from the head with `memory_order_acquire` (each store to the head is an exchange, so that it carries on what
-- the `memory_order_release` of an earlier `push` published). A read of `old->next` of any other node, which a
-- reload with `memory_order_relaxed` can lead to, counts as a data race: `undefined` is set and the read
-- gives anything. This counts every race, and some reads, too, of nodes pushed before one that is known.
pub mod Inv
pub mod Steps
pub mod Order
pub mod Races
use market_data_pipeline.Base.{
  ℕ, ◌≡◌, ◌≢◌, Bool, true, false, Option, none, some, List, [], ◌∷◌, ◌==◌, ◌&&◌, if◌then◌else◌,
}
use market_data_pipeline.Memory.{Ptr, null, update}
use market_data_pipeline.LockFreeStack.{Stack}

-- Where a thread stands: between two calls; in `push`, before an attempt; in `pop_normal`, having loaded
-- `old`, and before an attempt that has read `old->next`; the same two places in `pop_vulnerable`,
-- the second of which is its sleep; and after a null pointer was dereferenced.
pub data Place : Type 0 where
  idle : Place
  pushing : Ptr → Place
  popping : Ptr → Place
  swapping : Ptr → Ptr → Place
  peeking : Ptr → Place
  sleeping : Ptr → Ptr → Place
  faulted : Place

-- The stack, the places of the threads, the values that the head has had, the nodes that each thread
-- knows, and whether a read was a data race.
pub record Threads : Type 0 where
  pub stack : Stack
  pub place : ℕ → Place
  pub past : Ptr → Bool
  pub known : ℕ → Ptr → Bool
  pub undefined : Bool

-- What a step tells: a `push` began, or took effect; a pop took a node, or found the stack empty; a failed
-- attempt of `pop_normal` read a node to try again with.
pub data Event : Type 0 where
  silent : Event
  push_called : Ptr → Event
  pushed : Ptr → Event
  popped : Ptr → Event
  found_empty : Event
  reloaded : Event

-- The thread `t` knows the writes to `node` from now on.
unfoldable pub learn : ℕ → Ptr → (ℕ → Ptr → Bool) → ℕ → Ptr → Bool
learn t node known = update known t (update (known t) node true)

-- `node->value = value; node->next = head.load(std::memory_order_relaxed)`, which reads `p`.
unfoldable pub begin_push : ℕ → Ptr → ℕ → Ptr → Threads → Threads
begin_push t node v p s = record s {
  stack = record {
    head = s.stack.head;
    value = update s.stack.value node v;
    next = update s.stack.next node p;
  };
  place = update s.place t (pushing node);
  known = learn t node s.known;
}

-- An attempt succeeds when it goes on to compare and finds what it expects.
abbrev pub succeeds : Bool → Ptr → Ptr → Bool
succeeds ready head expected = ready && head == expected

-- `head.compare_exchange_weak(node->next, node, ...)`; a failure stores the `p` that it reads in `node->next`.
unfoldable pub link : ℕ → Bool → Ptr → Ptr → Threads → Threads
link t ready p node s =
    if succeeds ready s.stack.head (s.stack.next node)
    then record s {
      stack = record s.stack { head = node };
      place = update s.place t idle;
      past = update s.past node true;
    }
    else record s { stack = record s.stack { next = update s.stack.next node p } }

abbrev pub link_event : Bool → Ptr → Stack → Event
link_event ready node s = if succeeds ready s.head (s.next node) then pushed node else silent

-- `while (old != nullptr)`, once `old` has been loaded.
abbrev pub test_old : Ptr → Place
test_old old = if old == null then idle else popping old

abbrev pub load_event : Ptr → Event
load_event old = if old == null then found_empty else silent

abbrev pub reload_event : Ptr → Event
reload_event old = if old == null then found_empty else reloaded

-- `Node* old = head.load(std::memory_order_acquire)`, which reads `p`.
unfoldable pub begin_pop : ℕ → Ptr → Threads → Threads
begin_pop t p s = record s { place = update s.place t (test_old p); known = learn t p s.known }

-- What a read of `old->next` gives, `junk` if it is a data race.
abbrev pub next_of : ℕ → Ptr → Ptr → Threads → Ptr
next_of t old junk s = if s.known t old then s.stack.next old else junk

abbrev pub races : ℕ → Ptr → Threads → Bool
races t old s = if s.known t old then s.undefined else true

-- `old->next`, before an attempt.
unfoldable pub read_next : ℕ → Ptr → Ptr → Threads → Threads
read_next t old junk s = record s {
  place = update s.place t (swapping old (next_of t old junk s));
  undefined = races t old s;
}

-- `head.compare_exchange_weak(old, old->next, std::memory_order_acquire, std::memory_order_relaxed)`; a
-- failure stores the `p` that it reads in `old`, with no acquire.
unfoldable pub swap : ℕ → Bool → Ptr → Ptr → Ptr → Threads → Threads
swap t ready p old next s =
    if succeeds ready s.stack.head old
    then record s {
      stack = record s.stack { head = next };
      place = update s.place t idle;
      past = update s.past next true;
      known = learn t old s.known;
    }
    else record s { place = update s.place t (test_old p) }

abbrev pub swap_event : Bool → Ptr → Ptr → Stack → Event
swap_event ready p old s = if succeeds ready s.head old then popped old else reload_event p

-- `Node* old = head.load(std::memory_order_acquire)` of `pop_vulnerable`
unfoldable pub begin_peek : ℕ → Ptr → Threads → Threads
begin_peek t p s = record s { place = update s.place t (peeking p); known = learn t p s.known }

-- `Node* stale_next = old->next`
unfoldable pub read_stale : ℕ → Ptr → Ptr → Threads → Threads
read_stale t old junk s = record s {
  place = update s.place t (if old == null then faulted else sleeping old (next_of t old junk s));
  undefined = races t old s;
}

-- `head.compare_exchange_strong(old, stale_next, ...)`; it fails, too, if it reads an older value.
unfoldable pub exchange : ℕ → Bool → Ptr → Ptr → Threads → Threads
exchange t ready old stale_next s =
    if succeeds ready s.stack.head old
    then record s {
      stack = record s.stack { head = stale_next };
      place = update s.place t idle;
      past = update s.past stale_next true;
    }
    else record s { place = update s.place t idle }

abbrev pub exchange_event : Bool → Ptr → Stack → Event
exchange_event ready old s = if succeeds ready s.head old then popped old else silent

-- `p` is what a load or a failed attempt reads, and `junk` what a data race gives.
pub data Step (s : Threads) : Event → Threads → Type 0 where
  push_begins :
      (t : ℕ) (node : Ptr) (v : ℕ) (p : Ptr)
      → s.place t ≡ idle
      → node ≢ null
      → s.past p ≡ true
      → Step s (push_called node) (begin_push t node v p s)
  push_tries :
      {node : Ptr} (t : ℕ) (ready : Bool) (p : Ptr)
      → s.place t ≡ pushing node
      → s.past p ≡ true
      → Step s (link_event ready node s.stack) (link t ready p node s)
  pop_begins :
      (t : ℕ) (p : Ptr)
      → s.place t ≡ idle
      → s.past p ≡ true
      → Step s (load_event p) (begin_pop t p s)
  pop_reads :
      {old : Ptr} (t : ℕ) (junk : Ptr)
      → s.place t ≡ popping old
      → Step s silent (read_next t old junk s)
  pop_tries :
      {old next : Ptr} (t : ℕ) (ready : Bool) (p : Ptr)
      → s.place t ≡ swapping old next
      → s.past p ≡ true
      → Step s (swap_event ready p old s.stack) (swap t ready p old next s)
  peek_begins :
      (t : ℕ) (p : Ptr) → s.place t ≡ idle → s.past p ≡ true → Step s silent (begin_peek t p s)
  peek_reads :
      {old : Ptr} (t : ℕ) (junk : Ptr)
      → s.place t ≡ peeking old
      → Step s silent (read_stale t old junk s)
  peek_tries :
      {old next : Ptr} (t : ℕ) (ready : Bool)
      → s.place t ≡ sleeping old next
      → Step s (exchange_event ready old s.stack) (exchange t ready old next s)

abbrev pub initial : Threads
initial = record {
  stack = record { head = null; value = λ _. 0; next = λ _. null };
  place = λ _. idle;
  past = λ p. p == null;
  known = λ _ _. false;
  undefined = false;
}

-- No `push` of the node has begun in a history, which has the newest event first.
abbrev pub NeverPushed : Ptr → List Event → Type 0
NeverPushed node [] = Unit
NeverPushed node (push_called other ∷ h) = (node ≢ other) × NeverPushed node h
NeverPushed node (_ ∷ h) = NeverPushed node h

-- A `push` may only begin with a node that was never pushed before.
abbrev pub IsFresh : List Event → Event → Type 0
IsFresh h (push_called node) = NeverPushed node h
IsFresh h _ = Unit

-- The states that threads reach which push no node twice, and what happened, the newest event first.
pub data Reach : Threads → List Event → Type 0 where
  start : Reach initial []
  later :
      {s s' : Threads} {h : List Event} {e : Event}
      → Reach s h
      → Step s e s'
      → IsFresh h e
      → Reach s' (e ∷ h)

-- What an event does to the list of the nodes, the newest first; `none` if it cannot happen there. A pop may
-- find nothing at any time, by a load of an old head.
unfoldable pub effect : Event → List Ptr → Option (List Ptr)
effect silent xs = some xs
effect (push_called node) xs = some xs
effect (pushed node) xs = some (node ∷ xs)
effect (popped node) [] = none
effect (popped node) (x ∷ xs) = if x == node then some xs else none
effect found_empty xs = some xs
effect reloaded xs = some xs

-- The stack that a history leaves, if one node after another is pushed and popped.
unfoldable pub replay : List Event → Option (List Ptr)
replay [] = some []
replay (e ∷ h) = elim (replay h) [ none ↦ none | some xs ↦ effect e xs ]
