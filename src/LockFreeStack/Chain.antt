-- ===== src/LockFreeStack/Chain.antt =====
-- The nodes that a stack holds, and what `push` and `pop_normal` do to them when no other thread runs.
use market_data_pipeline.Base.{
  ℕ, ◌≡◌, ◌∙◌, ◌≢◌, refl, sym, ap, Bool, true, false, some, List, [], ◌∷◌, arith,
}
use mathlib.Core.Path.{fun_ext}
use market_data_pipeline.Memory.{Ptr, null, update}
use market_data_pipeline.LockFreeStack.{Stack, push_loop, push, pop_loop, pop_normal}

-- From `p` the `next` pointers lead through `xs` to null.
abbrev pub Chain : (Ptr → Ptr) → Ptr → List Ptr → Type 0
Chain next p [] = p ≡ null
Chain next p (x ∷ xs) = (p ≡ x) × (x ≢ null) × Chain next (next x) xs

abbrev pub NotIn : Ptr → List Ptr → Type 0
NotIn p [] = Unit
NotIn p (x ∷ xs) = (p ≢ x) × NotIn p xs

-- Some attempt does not fail without a reason.
abbrev pub Succeeds : List Bool → Type 0
Succeeds [] = ⊥
Succeeds (true ∷ more) = Unit
Succeeds (false ∷ more) = Succeeds more

-- A chain is as it was when only the pointer of a node outside it changes.
pub Chain-others :
    (next next' : Ptr → Ptr) (node p : Ptr) (xs : List Ptr)
    → ((q : Ptr) → q ≢ node → next' q ≡ next q)
    → NotIn node xs
    → Chain next p xs
    → Chain next' p xs
Chain-others next next' node p [] same out chain = chain
Chain-others next next' node p (x ∷ xs) same (ne, out) (at, live, chain) = (
  at,
  live,
  rw (same x (λ e. ne (sym e))) (Chain-others next next' node (next x) xs same out chain),
)

push_loop-head :
    (attempts : List Bool) (node : Ptr) (s : Stack)
    → Succeeds attempts
    → s.next node ≡ s.head
    → (s' : Stack) × (push_loop attempts node s ≡ some s')
      × (s'.head ≡ node)
      × (s'.next ≡ s.next)
      × (s'.value ≡ s.value)
unfolding push_loop
push_loop-head [] node s ok linked = absurd ok
push_loop-head (true ∷ more) node s ok linked =
    (record s { head = node }, ground (arith, linked), refl, refl, refl)
push_loop-head (false ∷ more) node s ok linked =
    let s1 : Stack = record s { next = update s.next node s.head } in
    let (s', done, at, same, values) = push_loop-head more node s1 ok (ground arith) in
    (s', done, at, same ∙ fun_ext (λ p. ground (arith, linked)), values)

-- What `push` leaves: the node before the nodes there were, with its value, and the other nodes alone.
abbrev pub Pushed : Ptr → ℕ → List Ptr → Stack → Stack → Type 0
Pushed node v xs s s' =
    Chain s'.next s'.head (node ∷ xs)
    × (s'.value node ≡ v)
    × ((p : Ptr) → p ≢ node → (s'.next p ≡ s.next p) × (s'.value p ≡ s.value p))

linked-Pushed :
    (node : Ptr) (v : ℕ) (xs : List Ptr) (s s' : Stack)
    → node ≢ null
    → NotIn node xs
    → Chain s.next s.head xs
    → s'.head ≡ node
    → s'.next ≡ update s.next node s.head
    → s'.value ≡ update s.value node v
    → Pushed node v xs s s'
linked-Pushed node v xs s s' live out chain at nexts values =
    let link : s'.next node ≡ s.head = ap (λ f. f node) nexts ∙ ground arith in
    let same : (p : Ptr) → p ≢ node → s'.next p ≡ s.next p =
      λ p ne. ap (λ f. f p) nexts ∙ ground (arith, ne) in
    (
      (at, live, rw link (Chain-others s.next s'.next node s.head xs same out chain)),
      ap (λ f. f node) values ∙ ground arith,
      λ p ne. (same p ne, ap (λ f. f p) values ∙ ground (arith, ne)),
    )

-- When no other thread runs and some attempt does not fail without a reason, `push` of a node
-- that is not null and not in the stack puts it before the nodes of the stack, with its value,
-- and changes no other node.
pub push-Chain :
    (attempts : List Bool) (node : Ptr) (v : ℕ) (s : Stack) (xs : List Ptr)
    → Succeeds attempts
    → node ≢ null
    → NotIn node xs
    → Chain s.next s.head xs
    → (s' : Stack) × (push attempts node v s ≡ some s') × Pushed node v xs s s'
unfolding push
push-Chain attempts node v s xs ok live out chain =
    let s1 : Stack = record s { value = update s.value node v; next = update s.next node s.head } in
    let (s', done, at, nexts, values) = push_loop-head attempts node s1 ok (ground arith) in
    (s', done, linked-Pushed node v xs s s' live out chain at nexts values)

pop_loop-head :
    (attempts : List Bool) (s : Stack)
    → Succeeds attempts
    → s.head ≢ null
    → pop_loop attempts s.head s ≡ some (s.head, record s { head = s.next s.head })
unfolding pop_loop
pop_loop-head [] s ok live = absurd ok
pop_loop-head (true ∷ more) s ok live = ground arith
pop_loop-head (false ∷ more) s ok live = ground (arith, pop_loop-head more s ok live)

-- When no other thread runs and some attempt does not fail without a reason, `pop_normal` returns
-- the first node of a stack that has one, leaves the stack of the others, and changes no node.
pub pop_normal-Chain :
    (attempts : List Bool) (s : Stack) (x : Ptr) (xs : List Ptr)
    → Succeeds attempts
    → Chain s.next s.head (x ∷ xs)
    → (s' : Stack) × (pop_normal attempts s ≡ some (x, s'))
      × Chain s'.next s'.head xs
      × (s'.next ≡ s.next)
      × (s'.value ≡ s.value)
unfolding pop_normal
pop_normal-Chain attempts s x xs ok (at, live, chain) = (
  record s { head = s.next s.head },
  pop_loop-head attempts s ok (λ e. live (sym at ∙ e))
      ∙ ap (λ p. some (p, record s { head = s.next s.head })) at,
  rw at chain,
  refl,
  refl,
)

-- `pop_normal` returns null from an empty stack, at once, and changes nothing.
pub pop_normal-empty :
    (attempts : List Bool) (s : Stack) → s.head ≡ null → pop_normal attempts s ≡ some (null, s)
unfolding pop_normal pop_loop
pop_normal-empty [] s e = ground (arith, e)
pop_normal-empty (ready ∷ more) s e = ground (arith, e)
