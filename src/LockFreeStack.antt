-- ===== src/LockFreeStack.antt =====
-- experiments/broken_aba.cpp: the stack of nodes linked through `next`, whose head is swapped by
-- compare-and-exchange. A node is an address, 0 is `nullptr`, and a node is never deallocated.
-- `compare_exchange_weak` may fail without a reason, so a loop takes the list of its attempts, `false`
-- for one that fails so; when the list ends before the loop does, the result is `none`.
pub mod Chain
pub mod Aba
pub mod Threads
pub mod Main
use market_data_pipeline.Base.{
  ℕ, Bool, true, false, Option, none, some, List, [], ◌∷◌, ◌==◌, ◌&&◌, if◌then◌else◌,
}
use market_data_pipeline.Memory.{Ptr, null, update}

pub record Stack : Type 0 where
  pub head : Ptr
  pub value : Ptr → ℕ
  pub next : Ptr → Ptr

-- `while (!head.compare_exchange_weak(node->next, node, ...))`
unfoldable pub push_loop : List Bool → Ptr → Stack → Option Stack
push_loop [] node s = none
push_loop (ready ∷ more) node s =
    let again = push_loop more node (record s { next = update s.next node s.head }) in
    if ready && s.head == s.next node then some (record s { head = node }) else again

unfoldable pub push : List Bool → Ptr → ℕ → Stack → Option Stack
push attempts node v s =
    push_loop attempts node
      (record s { value = update s.value node v; next = update s.next node s.head })

-- `while (old != nullptr) { if (head.compare_exchange_weak(old, old->next, ...)) return old; }`
unfoldable pub pop_loop : List Bool → Ptr → Stack → Option (Ptr × Stack)
pop_loop [] old s = if old == null then some (null, s) else none
pop_loop (ready ∷ more) old s =
    let again = pop_loop more s.head s in
    if old == null
    then some (null, s)
    else if ready && s.head == old
    then some (old, record s { head = s.next old })
    else again

unfoldable pub pop_normal : List Bool → Stack → Option (Ptr × Stack)
pop_normal attempts s = pop_loop attempts s.head s

-- `pop_vulnerable` up to its sleep: the head and the successor that it read; a null head is
-- dereferenced (`none`).
unfoldable pub pop_vulnerable_begin : Stack → Option (Ptr × Ptr)
pop_vulnerable_begin s = if s.head == null then none else some (s.head, s.next s.head)

-- `pop_vulnerable` from its sleep on: one `compare_exchange_strong`.
unfoldable pub pop_vulnerable_end : Ptr → Ptr → Stack → Ptr × Stack
pop_vulnerable_end old stale_next s =
    if s.head == old then (old, record s { head = stale_next }) else (null, s)
