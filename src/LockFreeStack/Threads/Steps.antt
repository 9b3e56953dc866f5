-- ===== src/LockFreeStack/Threads/Steps.antt =====
-- The steps of the threads of experiments/broken_aba.cpp, and their invariant.
use market_data_pipeline.Base.{
  ℕ, ◌≡◌, ◌≢◌, inl, inr, refl, sym, ◌∙◌, ap, subst, Bool, true, false, some, List, ◌∷◌, ◌==◌,
  Bool-cases, if◌then◌else◌, arith,
}
use market_data_pipeline.Memory.{Ptr, null, update}
use market_data_pipeline.LockFreeStack.Chain.{Chain, NotIn, Chain-others}
use market_data_pipeline.LockFreeStack.Threads.{
  Place, idle, pushing, popping, swapping, peeking, sleeping, faulted, Threads, Event, silent,
  push_called, pushed, popped, begin_push, link, link_event, test_old, load_event, reload_event,
  begin_pop, read_next, swap, swap_event, begin_peek, read_stale, exchange, exchange_event, Step,
  push_begins, push_tries, pop_begins, pop_reads, pop_tries, peek_begins, peek_reads, peek_tries,
  NeverPushed, IsFresh, effect, succeeds, learn, next_of, races,
}
use market_data_pipeline.LockFreeStack.Threads.Inv.{
  Status, held, published, held-injective, IsNode, Knows, Inv, NotIn-AllPublished, Chain-head,
  Knows-kept, update-Knows, update_self, update_ne, succeeds-eq, AllPublished-kept,
  NeverPushed-earlier, replay-effect, effect-load, effect-reload, update-past, Knows-test_old,
  effect-popped,
}

-- A read of a node that the thread does not know is a data race.
known_only : (b u : Bool) → b ≡ false → (if b then u else true) ≡ false → ⊥
known_only true u off defined = cc off
known_only false u off defined = cc defined

module _ {s : Threads} {h : List Event} (inv : Inv s h) where
  -- A step that leaves the stack alone and moves one thread.
  move-Inv :
      (t : ℕ) (a : Place) (known' : ℕ → Ptr → Bool) (undefined' : Bool) (e : Event)
      → effect e inv.items ≡ some inv.items
      → Knows s.stack.next inv.status t a
      → Inv
          (record s { place = update s.place t a; known = known'; undefined = undefined' })
          (e ∷ h)
  move-Inv t a known' undefined' e same mine = record {
    items = inv.items;
    status = inv.status;
    chain = inv.chain;
    replayed = replay-effect e h inv.items inv.items inv.replayed same;
    in_stack = inv.in_stack;
    past_published = inv.past_published;
    never_pushed = λ p new. inv.never_pushed p (NeverPushed-earlier p e h new);
    knows = update-Knows s.stack.next inv.status s.place t a mine (λ u other. inv.knows u);
  }

  -- A thread that has loaded `p` for `pop_normal`.
  test_old-Inv :
      (t : ℕ) (p : Ptr) (known' : ℕ → Ptr → Bool) (e : Event)
      → effect e inv.items ≡ some inv.items
      → s.past p ≡ true
      → Inv (record s { place = update s.place t (test_old p); known = known' }) (e ∷ h)
  test_old-Inv t p known' e same was =
      move-Inv t (test_old p) known' s.undefined e same
        (Knows-test_old s.stack.next inv.status t p (inv.past_published p was))

  begin_pop-Inv : (t : ℕ) (p : Ptr) → s.past p ≡ true → Inv (begin_pop t p s) (load_event p ∷ h)
  unfolding begin_pop
  begin_pop-Inv t p was =
      test_old-Inv t p (learn t p s.known) (load_event p) (effect-load p inv.items) was

  next_of-next :
      (t : ℕ) (old junk : Ptr) → races t old s ≡ false → next_of t old junk s ≡ s.stack.next old
  next_of-next t old junk defined = elim (Bool-cases (s.known t old)) [
    | inl is ↦ rw is refl
    | inr off ↦ absurd (known_only (s.known t old) s.undefined off defined)
  ]

  read_next-Inv :
      (t : ℕ) (old junk : Ptr)
      → s.place t ≡ popping old
      → (read_next t old junk s).undefined ≡ false
      → Inv (read_next t old junk s) (silent ∷ h)
  unfolding read_next effect
  read_next-Inv t old junk at defined =
      move-Inv t (swapping old (next_of t old junk s)) s.known (races t old s) silent refl
        (next_of-next t old junk defined, subst (Knows s.stack.next inv.status t) at (inv.knows t))

  begin_peek-Inv : (t : ℕ) (p : Ptr) → s.past p ≡ true → Inv (begin_peek t p s) (silent ∷ h)
  unfolding begin_peek effect
  begin_peek-Inv t p was =
      move-Inv t (peeking p) (learn t p s.known) s.undefined silent refl (inv.past_published p was)

  read_stale-Inv :
      (t : ℕ) (old junk : Ptr)
      → s.place t ≡ peeking old
      → (read_stale t old junk s).undefined ≡ false
      → Inv (read_stale t old junk s) (silent ∷ h)
  unfolding read_stale effect
  read_stale-Inv t old junk at defined =
      let known = subst (Knows s.stack.next inv.status t) at (inv.knows t) in
      let same = next_of-next t old junk defined in
      move-Inv t (if old == null then faulted else sleeping old (next_of t old junk s)) s.known
        (races t old s) silent refl
        (elim (Bool-cases (old == null)) [
          | inl none_left ↦ rw none_left tt
          | inr some_node ↦
              let live : old ≢ null = λ e. ground (arith, e, some_node) in
              rw some_node (same, (live, known live))
        ])

  -- A thread that has read the successor of the head takes the head.
  take-Inv :
      (t : ℕ) (old n : Ptr) (known' : ℕ → Ptr → Bool)
      → (n ≡ s.stack.next old) × IsNode inv.status old
      → s.stack.head ≡ old
      → Inv
          (record s {
            stack = record s.stack { head = n };
            place = update s.place t idle;
            past = update s.past n true;
            known = known';
          })
          (popped old ∷ h)
  take-Inv t old n known' (same, (live, is)) at =
      let (rest, taken, chain, all) =
        effect-popped s.stack.next inv.status old inv.items
          (subst (λ p. Chain s.stack.next p inv.items) at inv.chain) inv.in_stack live in
      let chain' : Chain s.stack.next n rest =
        subst (λ p. Chain s.stack.next p rest) (sym same) chain in
      record {
        items = rest;
        status = inv.status;
        chain = chain';
        replayed = replay-effect (popped old) h inv.items rest inv.replayed taken;
        in_stack = all;
        past_published =
            update-past inv.status inv.status s.past n (λ p e. e)
              (Chain-head s.stack.next inv.status n rest chain' all) inv.past_published;
        never_pushed = inv.never_pushed;
        knows = update-Knows s.stack.next inv.status s.place t idle tt (λ u other. inv.knows u);
      }

  swap-Inv :
      (t : ℕ) (ready : Bool) (p old n : Ptr)
      → s.place t ≡ swapping old n
      → s.past p ≡ true
      → Inv (swap t ready p old n s) (swap_event ready p old s.stack ∷ h)
  unfolding swap
  swap-Inv t ready p old n at was =
      let mine = subst (Knows s.stack.next inv.status t) at (inv.knows t) in
      elim (Bool-cases (succeeds ready s.stack.head old)) [
        | inl done ↦
            rw done (
              take-Inv t old n (learn t old s.known) mine (succeeds-eq ready s.stack.head old done))
        | inr failed ↦
            rw failed (test_old-Inv t p s.known (reload_event p) (effect-reload p inv.items) was)
      ]

  exchange-Inv :
      (t : ℕ) (ready : Bool) (old n : Ptr)
      → s.place t ≡ sleeping old n
      → Inv (exchange t ready old n s) (exchange_event ready old s.stack ∷ h)
  unfolding exchange effect
  exchange-Inv t ready old n at =
      let mine = subst (Knows s.stack.next inv.status t) at (inv.knows t) in
      elim (Bool-cases (succeeds ready s.stack.head old)) [
        | inl done ↦
            rw done (take-Inv t old n s.known mine (succeeds-eq ready s.stack.head old done))
        | inr failed ↦ rw failed (move-Inv t idle s.known s.undefined silent refl tt)
      ]

  -- A node that is not published, which a push may write to, and a new status of it.
  module _ (node : Ptr) (given : Status) (other : inv.status node ≢ published) where
    abbrev given_status : Ptr → Status
    given_status = update inv.status node given

    off_node : (p : Ptr) → inv.status p ≡ published → p ≢ node
    off_node p is e = other (ap inv.status (sym e) ∙ is)

    stays_published : (p : Ptr) → inv.status p ≡ published → given_status p ≡ published
    stays_published p is = update_ne inv.status node given p (off_node p is) ∙ is

    node-NotIn : NotIn node inv.items
    node-NotIn = NotIn-AllPublished inv.status node inv.items other inv.in_stack

    Chain-written : (n : Ptr) → Chain (update s.stack.next node n) s.stack.head inv.items
    Chain-written n =
        Chain-others s.stack.next (update s.stack.next node n) node s.stack.head inv.items
          (λ q off. update_ne s.stack.next node n q off) node-NotIn inv.chain

  begin_push-Inv :
      (t : ℕ) (node : Ptr) (v : ℕ) (q : Ptr)
      → node ≢ null
      → NeverPushed node h
      → Inv (begin_push t node v q s) (push_called node ∷ h)
  unfolding begin_push effect
  begin_push-Inv t node v q live new =
      let unused_yet = inv.never_pushed node new in
      let other : inv.status node ≢ published = λ e. cc (e, unused_yet) in
      let next' : Ptr → Ptr = update s.stack.next node q in
      record {
        items = inv.items;
        status = given_status node (held t) other;
        chain = Chain-written node (held t) other q;
        replayed = replay-effect (push_called node) h inv.items inv.items inv.replayed refl;
        in_stack =
            AllPublished-kept inv.status (given_status node (held t) other) inv.items
              (stays_published node (held t) other) inv.in_stack;
        past_published =
            λ p was up. stays_published node (held t) other p (inv.past_published p was up);
        never_pushed =
            λ p (off, before). update_ne inv.status node (held t) p off ∙ inv.never_pushed p before;
        knows =
            update-Knows next' (given_status node (held t) other) s.place t (pushing node)
              (live, update_self inv.status node (held t))
              (λ u off.
                Knows-kept s.stack.next next' inv.status (given_status node (held t) other) u
                  (s.place u)
                  (λ p is. (
                    stays_published node (held t) other p is,
                    update_ne s.stack.next node q p (off_node node (held t) other p is),
                  ))
                  (λ p mine.
                    update_ne inv.status node (held t) p
                      (λ e. cc (ap inv.status e, mine, unused_yet))
                    ∙ mine)
                  (inv.knows u));
      }

  link-Inv :
      (t : ℕ) (ready : Bool) (q node : Ptr)
      → s.place t ≡ pushing node
      → Inv (link t ready q node s) (link_event ready node s.stack ∷ h)
  unfolding link effect
  link-Inv t ready q node at =
      let (live, mine) = subst (Knows s.stack.next inv.status t) at (inv.knows t) in
      let other : inv.status node ≢ published = λ e. cc (e, mine) in
      elim (Bool-cases (succeeds ready s.stack.head (s.stack.next node))) [
        | inl done ↦
            let is_head = succeeds-eq ready s.stack.head (s.stack.next node) done in
            rw done (record {
              items = node ∷ inv.items;
              status = given_status node published other;
              chain = (refl, live, subst (λ p. Chain s.stack.next p inv.items) is_head inv.chain);
              replayed =
                  replay-effect (pushed node) h inv.items (node ∷ inv.items) inv.replayed refl;
              in_stack = (
                update_self inv.status node published,
                AllPublished-kept inv.status (given_status node published other) inv.items
                    (stays_published node published other) inv.in_stack,
              );
              past_published =
                  update-past inv.status (given_status node published other) s.past node
                    (stays_published node published other)
                    (λ up. update_self inv.status node published) inv.past_published;
              never_pushed = λ p new.
                  let unused_yet = inv.never_pushed p new in
                  update_ne inv.status node published p
                    (λ e. cc (ap inv.status e, mine, unused_yet))
                  ∙ unused_yet;
              knows =
                  update-Knows s.stack.next (given_status node published other) s.place t idle tt
                    (λ u off.
                      Knows-kept s.stack.next s.stack.next inv.status
                        (given_status node published other) u (s.place u)
                        (λ p is. (stays_published node published other p is, refl))
                        (λ p hers.
                          update_ne inv.status node published p
                            (λ e. off (held-injective u t (sym hers ∙ ap inv.status e ∙ mine)))
                          ∙ hers)
                        (inv.knows u));
            })
        | inr failed ↦
            let next' : Ptr → Ptr = update s.stack.next node q in
            rw failed (record {
              items = inv.items;
              status = inv.status;
              chain = Chain-written node published other q;
              replayed = replay-effect silent h inv.items inv.items inv.replayed refl;
              in_stack = inv.in_stack;
              past_published = inv.past_published;
              never_pushed = inv.never_pushed;
              knows = λ u.
                  Knows-kept s.stack.next next' inv.status inv.status u (s.place u)
                    (λ p is.
                      (is, update_ne s.stack.next node q p (off_node node published other p is)))
                    (λ p hers. hers) (inv.knows u);
            })
      ]

pub Step-Inv :
    {s s' : Threads} {h : List Event} {e : Event}
    → Step s e s'
    → IsFresh h e
    → s'.undefined ≡ false
    → Inv s h
    → Inv s' (e ∷ h)
Step-Inv (push_begins t node v p at live was) new defined inv =
    begin_push-Inv inv t node v p live new
Step-Inv (push_tries {node} t ready p at was) new defined inv = link-Inv inv t ready p node at
Step-Inv (pop_begins t p at was) new defined inv = begin_pop-Inv inv t p was
Step-Inv (pop_reads {old} t junk at) new defined inv = read_next-Inv inv t old junk at defined
Step-Inv (pop_tries {old} {next} t ready p at was) new defined inv =
    swap-Inv inv t ready p old next at was
Step-Inv (peek_begins t p at was) new defined inv = begin_peek-Inv inv t p was
Step-Inv (peek_reads {old} t junk at) new defined inv = read_stale-Inv inv t old junk at defined
Step-Inv (peek_tries {old} {next} t ready at) new defined inv = exchange-Inv inv t ready old next at
