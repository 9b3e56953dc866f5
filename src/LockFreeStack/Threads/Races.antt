-- ===== src/LockFreeStack/Threads/Races.antt =====
-- Data races of the threads of experiments/broken_aba.cpp: reads of `old->next` of a node whose writes a
-- thread does not know.
use market_data_pipeline.Base.{
  ℕ, ◌≡◌, inl, inr, refl, sym, ◌∙◌, subst, Bool, true, false, List, [], ◌∷◌, ◌==◌, ==_iff,
  Bool-cases, if◌then◌else◌,
}
use market_data_pipeline.Memory.{Ptr, null, update}
use market_data_pipeline.LockFreeStack.Threads.{
  Place, idle, pushing, popping, swapping, peeking, sleeping, faulted, Threads, Event, silent,
  push_called, pushed, popped, found_empty, reloaded, learn, begin_push, link, test_old,
  reload_event, begin_pop, next_of, races, read_next, swap, swap_event, begin_peek, read_stale,
  exchange, succeeds, Step, push_begins, push_tries, pop_begins, pop_reads, pop_tries, peek_begins,
  peek_reads, peek_tries, Reach, start, later,
}

stays_defined :
    (known undefined : Bool) → (if known then undefined else true) ≡ false → undefined ≡ false
stays_defined true undefined e = e
stays_defined false undefined e = cc e

link-undefined :
    (t : ℕ) (ready : Bool) (p node : Ptr) (s : Threads)
    → (link t ready p node s).undefined ≡ s.undefined
unfolding link
link-undefined t ready p node s =
    elim (Bool-cases (succeeds ready s.stack.head (s.stack.next node))) [
      | inl done ↦ rw done refl
      | inr failed ↦ rw failed refl
    ]

swap-undefined :
    (t : ℕ) (ready : Bool) (p old n : Ptr) (s : Threads)
    → (swap t ready p old n s).undefined ≡ s.undefined
unfolding swap
swap-undefined t ready p old n s = elim (Bool-cases (succeeds ready s.stack.head old)) [
  | inl done ↦ rw done refl
  | inr failed ↦ rw failed refl
]

exchange-undefined :
    (t : ℕ) (ready : Bool) (old n : Ptr) (s : Threads)
    → (exchange t ready old n s).undefined ≡ s.undefined
unfolding exchange
exchange-undefined t ready old n s = elim (Bool-cases (succeeds ready s.stack.head old)) [
  | inl done ↦ rw done refl
  | inr failed ↦ rw failed refl
]

-- No step takes back that a read was a data race.
pub Step-undefined :
    {s s' : Threads} {e : Event} → Step s e s' → s'.undefined ≡ false → s.undefined ≡ false
unfolding begin_push begin_pop read_next begin_peek read_stale
Step-undefined (push_begins t node v p at live was) defined = defined
Step-undefined {s} (push_tries {node} t ready p at was) defined =
    sym (link-undefined t ready p node s) ∙ defined
Step-undefined (pop_begins t p at was) defined = defined
Step-undefined {s} (pop_reads {old} t junk at) defined =
    stays_defined (s.known t old) s.undefined defined
Step-undefined {s} (pop_tries {old} {next} t ready p at was) defined =
    sym (swap-undefined t ready p old next s) ∙ defined
Step-undefined (peek_begins t p at was) defined = defined
Step-undefined {s} (peek_reads {old} t junk at) defined =
    stays_defined (s.known t old) s.undefined defined
Step-undefined {s} (peek_tries {old} {next} t ready at) defined =
    sym (exchange-undefined t ready old next s) ∙ defined

-- No failed attempt of `pop_normal` read a node in a history.
abbrev pub NoReload : List Event → Type 0
NoReload [] = Unit
NoReload (reloaded ∷ h) = ⊥
NoReload (_ ∷ h) = NoReload h

-- A thread that is about to read the successor of a node knows the node.
abbrev pub Met : (ℕ → Ptr → Bool) → ℕ → Place → Type 0
Met known t idle = Unit
Met known t (pushing node) = Unit
Met known t (popping old) = known t old ≡ true
Met known t (swapping old n) = Unit
Met known t (peeking old) = known t old ≡ true
Met known t (sleeping old n) = Unit
Met known t faulted = Unit

abbrev pub AllMet : (ℕ → Ptr → Bool) → (ℕ → Place) → Type 0
AllMet known place = (t : ℕ) → Met known t (place t)

learn_self : (t : ℕ) (p : Ptr) (known : ℕ → Ptr → Bool) → learn t p known t p ≡ true
unfolding learn
learn_self t p known = rw ((==_iff t t).1 refl, (==_iff p p).1 refl) refl

learn_keeps :
    (u : ℕ) (q : Ptr) (known : ℕ → Ptr → Bool) (t : ℕ) (p : Ptr)
    → known t p ≡ true
    → learn u q known t p ≡ true
unfolding learn
learn_keeps u q known t p is = elim (Bool-cases (t == u)) [
  | inl same ↦ rw same (elim (Bool-cases (p == q)) [
    | inl newest ↦ rw newest refl
    | inr other ↦ rw other (subst (λ v. known v p ≡ true) ((==_iff t u).0 same) is)
  ])
  | inr off ↦ rw off is
]

Met-learn :
    (u : ℕ) (q : Ptr) (known : ℕ → Ptr → Bool) (t : ℕ) (a : Place)
    → Met known t a
    → Met (learn u q known) t a
Met-learn u q known t idle m = tt
Met-learn u q known t (pushing node) m = tt
Met-learn u q known t (popping old) m = learn_keeps u q known t old m
Met-learn u q known t (swapping old n) m = tt
Met-learn u q known t (peeking old) m = learn_keeps u q known t old m
Met-learn u q known t (sleeping old n) m = tt
Met-learn u q known t faulted m = tt

update-AllMet :
    (known : ℕ → Ptr → Bool) (place : ℕ → Place) (t : ℕ) (a : Place)
    → Met known t a
    → AllMet known place
    → AllMet known (update place t a)
update-AllMet known place t a mine all u = elim (Bool-cases (u == t)) [
  | inl is ↦ rw is (subst (λ k. Met known k a) (sym ((==_iff u t).0 is)) mine)
  | inr other ↦ rw other (all u)
]

learn-AllMet :
    (known : ℕ → Ptr → Bool) (place : ℕ → Place) (t : ℕ) (p : Ptr) (a : Place)
    → Met (learn t p known) t a
    → AllMet known place
    → AllMet (learn t p known) (update place t a)
learn-AllMet known place t p a mine all =
    update-AllMet (learn t p known) place t a mine (λ u. Met-learn t p known u (place u) (all u))

Met-test_old :
    (known : ℕ → Ptr → Bool) (t : ℕ) (p : Ptr) → known t p ≡ true → Met known t (test_old p)
Met-test_old known t p is = elim (Bool-cases (p == null)) [
  | inl none_left ↦ rw none_left tt
  | inr some_node ↦ rw some_node is
]

Met-reloaded :
    (known : ℕ → Ptr → Bool) (t : ℕ) (p : Ptr) (h : List Event)
    → NoReload (reload_event p ∷ h)
    → Met known t (test_old p)
Met-reloaded known t p h no_reload = elim (Bool-cases (p == null)) [
  | inl none_left ↦ rw none_left tt
  | inr some_node ↦
      absurd (subst (λ b. NoReload ((if b then found_empty else reloaded) ∷ h)) some_node no_reload)
]

NoReload-earlier : (e : Event) (h : List Event) → NoReload (e ∷ h) → NoReload h
NoReload-earlier silent h n = n
NoReload-earlier (push_called node) h n = n
NoReload-earlier (pushed node) h n = n
NoReload-earlier (popped node) h n = n
NoReload-earlier found_empty h n = n
NoReload-earlier reloaded h n = absurd n

known-races :
    (s : Threads) (t : ℕ) (old : Ptr)
    → s.known t old ≡ true
    → s.undefined ≡ false
    → races t old s ≡ false
known-races s t old is defined = rw is defined

link-AllMet :
    (t : ℕ) (ready : Bool) (p node : Ptr) (s : Threads)
    → AllMet s.known s.place
    → AllMet (link t ready p node s).known (link t ready p node s).place
unfolding link
link-AllMet t ready p node s all =
    elim (Bool-cases (succeeds ready s.stack.head (s.stack.next node))) [
      | inl done ↦ rw done (update-AllMet s.known s.place t idle tt all)
      | inr failed ↦ rw failed all
    ]

swap-AllMet :
    (t : ℕ) (ready : Bool) (p old n : Ptr) (s : Threads) (h : List Event)
    → NoReload (swap_event ready p old s.stack ∷ h)
    → AllMet s.known s.place
    → AllMet (swap t ready p old n s).known (swap t ready p old n s).place
unfolding swap
swap-AllMet t ready p old n s h no_reload all =
    elim (Bool-cases (succeeds ready s.stack.head old)) [
      | inl done ↦ rw done (learn-AllMet s.known s.place t old idle tt all)
      | inr failed ↦ rw failed (
          update-AllMet s.known s.place t (test_old p)
            (Met-reloaded s.known t p h (
              subst (λ b. NoReload ((if b then popped old else reload_event p) ∷ h)) failed
                no_reload))
            all)
    ]

exchange-AllMet :
    (t : ℕ) (ready : Bool) (old n : Ptr) (s : Threads)
    → AllMet s.known s.place
    → AllMet (exchange t ready old n s).known (exchange t ready old n s).place
unfolding exchange
exchange-AllMet t ready old n s all = elim (Bool-cases (succeeds ready s.stack.head old)) [
  | inl done ↦ rw done (update-AllMet s.known s.place t idle tt all)
  | inr failed ↦ rw failed (update-AllMet s.known s.place t idle tt all)
]

Step-AllMet :
    {s s' : Threads} {e : Event} (h : List Event)
    → Step s e s'
    → NoReload (e ∷ h)
    → (s.undefined ≡ false) × AllMet s.known s.place
    → (s'.undefined ≡ false) × AllMet s'.known s'.place
unfolding begin_push begin_pop read_next begin_peek read_stale
Step-AllMet {s} h (push_begins t node v p at live was) quiet (defined, all) =
    (defined, learn-AllMet s.known s.place t node (pushing node) tt all)
Step-AllMet {s} h (push_tries {node} t ready p at was) quiet (defined, all) =
    (link-undefined t ready p node s ∙ defined, link-AllMet t ready p node s all)
Step-AllMet {s} h (pop_begins t p at was) quiet (defined, all) = (
  defined,
  learn-AllMet s.known s.place t p (test_old p)
      (Met-test_old (learn t p s.known) t p (learn_self t p s.known)) all,
)
Step-AllMet {s} h (pop_reads {old} t junk at) quiet (defined, all) = (
  known-races s t old (subst (Met s.known t) at (all t)) defined,
  update-AllMet s.known s.place t (swapping old (next_of t old junk s)) tt all,
)
Step-AllMet {s} h (pop_tries {old} {next} t ready p at was) quiet (defined, all) =
    (swap-undefined t ready p old next s ∙ defined, swap-AllMet t ready p old next s h quiet all)
Step-AllMet {s} h (peek_begins t p at was) quiet (defined, all) =
    (defined, learn-AllMet s.known s.place t p (peeking p) (learn_self t p s.known) all)
Step-AllMet {s} h (peek_reads {old} t junk at) quiet (defined, all) = (
  known-races s t old (subst (Met s.known t) at (all t)) defined,
  update-AllMet s.known s.place t
      (if old == null then faulted else sleeping old (next_of t old junk s))
      (elim (Bool-cases (old == null)) [ inl is ↦ rw is tt | inr off ↦ rw off tt ]) all,
)
Step-AllMet {s} h (peek_tries {old} {next} t ready at) quiet (defined, all) =
    (exchange-undefined t ready old next s ∙ defined, exchange-AllMet t ready old next s all)

-- Threads of which no failed attempt of `pop_normal` reads a node make no data race.
pub NoReload-AllMet :
    {s : Threads} {h : List Event}
    → Reach s h
    → NoReload h
    → (s.undefined ≡ false) × AllMet s.known s.place
NoReload-AllMet start quiet = (refl, λ t. tt)
NoReload-AllMet (later {h} {e} r st new) quiet =
    Step-AllMet h st quiet (NoReload-AllMet r (NoReload-earlier e h quiet))
