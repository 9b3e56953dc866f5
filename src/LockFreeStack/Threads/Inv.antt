-- ===== src/LockFreeStack/Threads/Inv.antt =====
-- The invariant of the threads of experiments/broken_aba.cpp that push no node twice: what each node has been
-- through, and what each thread knows of the nodes that it has read.
use market_data_pipeline.Base.{
  ℕ, ◌≡◌, ◌≢◌, inl, inr, refl, sym, ◌∙◌, ap, subst, Bool, true, false, some, List, [], ◌∷◌, ◌==◌,
  ==_iff, Bool-cases, ℕ_discrete, arith,
}
use market_data_pipeline.Memory.{Ptr, null, update}
use market_data_pipeline.LockFreeStack.Chain.{Chain, NotIn}
use market_data_pipeline.LockFreeStack.Threads.{
  Place, idle, pushing, popping, swapping, peeking, sleeping, faulted, Threads, Event, silent,
  push_called, pushed, popped, found_empty, reloaded, test_old, load_event, reload_event,
  NeverPushed, effect, replay, succeeds,
}

-- Who may write to a node: nobody yet, the thread that pushes it, or nobody any more.
pub data Status : Type 0 where
  unused : Status
  held : ℕ → Status
  published : Status

pub held-injective : (t u : ℕ) → held t ≡ held u → t ≡ u
held-injective t u e = cc e

abbrev pub AllPublished : (Ptr → Status) → List Ptr → Type 0
AllPublished status [] = Unit
AllPublished status (x ∷ xs) = (status x ≡ published) × AllPublished status xs

abbrev pub IsNode : (Ptr → Status) → Ptr → Type 0
IsNode status p = (p ≢ null) × (status p ≡ published)

-- What a thread at a place knows.
abbrev pub Knows : (Ptr → Ptr) → (Ptr → Status) → ℕ → Place → Type 0
Knows next status t idle = Unit
Knows next status t (pushing node) = (node ≢ null) × (status node ≡ held t)
Knows next status t (popping old) = IsNode status old
Knows next status t (swapping old n) = (n ≡ next old) × IsNode status old
Knows next status t (peeking old) = old ≢ null → status old ≡ published
Knows next status t (sleeping old n) = (n ≡ next old) × IsNode status old
Knows next status t faulted = Unit

pub record Inv (s : Threads) (h : List Event) : Type 0 where
  pub items : List Ptr
  pub status : Ptr → Status
  pub chain : Chain s.stack.next s.stack.head items
  pub replayed : replay h ≡ some items
  pub in_stack : AllPublished status items
  pub past_published : (p : Ptr) → s.past p ≡ true → p ≢ null → status p ≡ published
  pub never_pushed : (p : Ptr) → NeverPushed p h → status p ≡ unused
  pub knows : (t : ℕ) → Knows s.stack.next status t (s.place t)

-- A node that is not published is not in the stack.
pub NotIn-AllPublished :
    (status : Ptr → Status) (p : Ptr) (xs : List Ptr)
    → status p ≢ published
    → AllPublished status xs
    → NotIn p xs
NotIn-AllPublished status p [] other all = tt
NotIn-AllPublished status p (x ∷ xs) other (first, rest) =
    ((λ e. other (ap status e ∙ first)), NotIn-AllPublished status p xs other rest)

-- The head of the stack is null or a node of it.
pub Chain-head :
    (next : Ptr → Ptr) (status : Ptr → Status) (p : Ptr) (xs : List Ptr)
    → Chain next p xs
    → AllPublished status xs
    → p ≢ null
    → status p ≡ published
Chain-head next status p [] chain all live = absurd (live chain)
Chain-head next status p (x ∷ xs) (is, some_node, rest) (first, all) live = ap status is ∙ first

-- What a thread knows stays true when published nodes stay so with their successors, and its own node stays.
pub Knows-kept :
    (next next' : Ptr → Ptr) (status status' : Ptr → Status) (t : ℕ) (a : Place)
    → ((p : Ptr) → status p ≡ published → (status' p ≡ published) × (next' p ≡ next p))
    → ((p : Ptr) → status p ≡ held t → status' p ≡ held t)
    → Knows next status t a
    → Knows next' status' t a
Knows-kept next next' status status' t idle keeps own k = tt
Knows-kept next next' status status' t (pushing node) keeps own (live, mine) = (live, own node mine)
Knows-kept next next' status status' t (popping old) keeps own (live, is) = (live, (keeps old is).0)
Knows-kept next next' status status' t (swapping old n) keeps own (same, (live, is)) =
    (same ∙ sym (keeps old is).1, (live, (keeps old is).0))
Knows-kept next next' status status' t (peeking old) keeps own k = λ live. (keeps old (k live)).0
Knows-kept next next' status status' t (sleeping old n) keeps own (same, (live, is)) =
    (same ∙ sym (keeps old is).1, (live, (keeps old is).0))
Knows-kept next next' status status' t faulted keeps own k = tt

pub update-Knows :
    (next : Ptr → Ptr) (status : Ptr → Status) (place : ℕ → Place) (t : ℕ) (a : Place)
    → Knows next status t a
    → ((u : ℕ) → u ≢ t → Knows next status u (place u))
    → (u : ℕ) → Knows next status u (update place t a u)
update-Knows next status place t a mine others u = elim (Bool-cases (u == t)) [
  | inl is ↦
      let same : u ≡ t = (==_iff u t).0 is in
      rw is (subst (λ k. Knows next status k a) (sym same) mine)
  | inr other ↦ rw other (others u (λ e. ground (arith, e, other)))
]

pub update_self : {A : Type 0} (f : ℕ → A) (i : ℕ) (a : A) → update f i a i ≡ a
update_self f i a = rw ((==_iff i i).1 refl) refl

pub update_ne : {A : Type 0} (f : ℕ → A) (i : ℕ) (a : A) (j : ℕ) → j ≢ i → update f i a j ≡ f j
update_ne f i a j other = elim (Bool-cases (j == i)) [
  | inl is ↦ absurd (other ((==_iff j i).0 is))
  | inr off ↦ rw off refl
]

pub succeeds-eq : (ready : Bool) (a b : Ptr) → succeeds ready a b ≡ true → a ≡ b
succeeds-eq true a b e = (==_iff a b).0 e
succeeds-eq false a b e = cc e

pub AllPublished-kept :
    (status status' : Ptr → Status) (xs : List Ptr)
    → ((p : Ptr) → status p ≡ published → status' p ≡ published)
    → AllPublished status xs
    → AllPublished status' xs
AllPublished-kept status status' [] keeps all = tt
AllPublished-kept status status' (x ∷ xs) keeps (first, rest) =
    (keeps x first, AllPublished-kept status status' xs keeps rest)

pub NeverPushed-earlier :
    (p : Ptr) (e : Event) (h : List Event) → NeverPushed p (e ∷ h) → NeverPushed p h
NeverPushed-earlier p silent h new = new
NeverPushed-earlier p (push_called node) h (other, new) = new
NeverPushed-earlier p (pushed node) h new = new
NeverPushed-earlier p (popped node) h new = new
NeverPushed-earlier p found_empty h new = new
NeverPushed-earlier p reloaded h new = new

pub replay-effect :
    (e : Event) (h : List Event) (xs ys : List Ptr)
    → replay h ≡ some xs
    → effect e xs ≡ some ys
    → replay (e ∷ h) ≡ some ys
unfolding replay
replay-effect e h xs ys before after = rw before after

-- What a load of the head tells.
pub effect-load : (p : Ptr) (xs : List Ptr) → effect (load_event p) xs ≡ some xs
unfolding effect
effect-load p xs = elim (Bool-cases (p == null)) [
  | inl none_left ↦ rw none_left refl
  | inr some_node ↦ rw some_node refl
]

pub effect-reload : (p : Ptr) (xs : List Ptr) → effect (reload_event p) xs ≡ some xs
unfolding effect
effect-reload p xs = elim (Bool-cases (p == null)) [
  | inl none_left ↦ rw none_left refl
  | inr some_node ↦ rw some_node refl
]

-- What holds of the earlier values of the head and of a new one holds of all.
pub update-past :
    (status status' : Ptr → Status) (past : Ptr → Bool) (n : Ptr)
    → ((p : Ptr) → status p ≡ published → status' p ≡ published)
    → (n ≢ null → status' n ≡ published)
    → ((p : Ptr) → past p ≡ true → p ≢ null → status p ≡ published)
    → (p : Ptr) → update past n true p ≡ true
    → p ≢ null
    → status' p ≡ published
update-past status status' past n keeps newest before p is live = elim (ℕ_discrete p n) [
  | yes e ↦ subst (λ q. status' q ≡ published) (sym e) (newest (λ z. live (e ∙ z)))
  | no other ↦ keeps p (before p (sym (update_ne past n true p other) ∙ is) live)
]

pub Knows-test_old :
    (next : Ptr → Ptr) (status : Ptr → Status) (t : ℕ) (p : Ptr)
    → (p ≢ null → status p ≡ published)
    → Knows next status t (test_old p)
Knows-test_old next status t p is = elim (Bool-cases (p == null)) [
  | inl none_left ↦ rw none_left tt
  | inr some_node ↦
      let live : p ≢ null = λ e. ground (arith, e, some_node) in rw some_node (live, is live)
]

-- What taking the first node leaves.
pub effect-popped :
    (next : Ptr → Ptr) (status : Ptr → Status) (p : Ptr) (xs : List Ptr)
    → Chain next p xs
    → AllPublished status xs
    → p ≢ null
    → (rest : List Ptr) × (effect (popped p) xs ≡ some rest)
      × Chain next (next p) rest
      × AllPublished status rest
unfolding effect
effect-popped next status p [] is all live = absurd (live is)
effect-popped next status p (x ∷ xs) (is, some_node, chain) (first, all) live =
    (xs, ground (arith, is), rw is chain, all)
