-- ===== src/LockFreeStack/Aba.antt =====
-- The interleaving that experiments/broken_aba.cpp provokes, for every stack of two nodes or more.
use market_data_pipeline.Base.{
  ℕ, ◌≡◌, ◌≢◌, ◌∙◌, refl, sym, ap, Bool, Option, some, none, List, ◌∷◌, arith,
}
use market_data_pipeline.Memory.{Ptr}
use market_data_pipeline.LockFreeStack.{
  Stack, push, pop_normal, pop_vulnerable_begin, pop_vulnerable_end,
}
use market_data_pipeline.LockFreeStack.Chain.{
  Chain, NotIn, Succeeds, Chain-others, push-Chain, pop_normal-Chain,
}

-- The second thread: two pops, and a push of the first node again. The attempts of each call, in order.
abbrev pub second_thread : List Bool → List Bool → List Bool → Ptr → ℕ → Stack → Option Stack
second_thread one two three a v s = elim (pop_normal one s) [
  | none ↦ none
  | some (_, s1) ↦ elim (pop_normal two s1) [ none ↦ none | some (_, s2) ↦ push three a v s2 ]
]

pub second_thread_lem :
    (one two three : List Bool) (a v x y : ℕ) (s s1 s2 s3 : Stack)
    → pop_normal one s ≡ some (x, s1)
    → pop_normal two s1 ≡ some (y, s2)
    → push three a v s2 ≡ some s3
    → second_thread one two three a v s ≡ some s3
second_thread_lem one two three a v x y s s1 s2 s3 pop1 pop2 pushed =
    rw (pop1, pop2, second_thread) pushed

stale_Chain :
    (a b : Ptr) (rest : List Ptr) (s s3 : Stack)
    → Chain s.next s.head (a ∷ b ∷ rest)
    → a ≢ b
    → NotIn a rest
    → ((p : Ptr) → p ≢ a → s3.next p ≡ s.next p)
    → Chain s3.next b (b ∷ rest)
stale_Chain a b rest s s3 chain ne out same =
    let ne' : b ≢ a = λ e. ne (sym e) in
    (
      refl,
      chain.2.1,
      rw (same b ne') (Chain-others s.next s3.next a (s.next b) rest same out chain.2.2),
    )

-- If the first thread reads a stack of `a`, `b` and `rest`, two nodes that differ and are not in
-- `rest`, and the second thread then pops both and pushes `a` again, so that the stack is `a` and
-- `rest`, the exchange of the first thread succeeds all the same, and leaves the stack `b` and
-- `rest`: the node `b`, which the second thread has popped, is back. Some attempt of each call of
-- the second thread does not fail without a reason.
pub aba :
    (one two three : List Bool) (a b v : Ptr) (rest : List Ptr) (s : Stack)
    → Succeeds one
    → Succeeds two
    → Succeeds three
    → Chain s.next s.head (a ∷ b ∷ rest)
    → a ≢ b
    → NotIn a rest
    → NotIn b rest
    → (s3 s4 : Stack) × (pop_vulnerable_begin s ≡ some (a, b))
      × (second_thread one two three a v s ≡ some s3)
      × Chain s3.next s3.head (a ∷ rest)
      × (pop_vulnerable_end a b s3 ≡ (a, s4))
      × Chain s4.next s4.head (b ∷ rest)
unfolding pop_vulnerable_begin pop_vulnerable_end
aba one two three a b v rest s ok1 ok2 ok3 chain ne out_a out_b =
    let (s1, pop1, chain1, next1, _) = pop_normal-Chain one s a (b ∷ rest) ok1 chain in
    let (s2, pop2, chain2, next2, _) = pop_normal-Chain two s1 b rest ok2 chain1 in
    let (s3, pushed, effect) = push-Chain three a v s2 rest ok3 chain.1 out_a chain2 in
    let same : (p : Ptr) → p ≢ a → s3.next p ≡ s.next p =
      λ p off. (effect.2 p off).0 ∙ ap (λ f. f p) (next2 ∙ next1) in
    (
      s3,
      record s3 { head = b },
      ground (arith, chain.0, chain.1, chain.2.0),
      second_thread_lem one two three a v a b s s1 s2 s3 pop1 pop2 pushed,
      effect.0,
      ground (arith, effect.0.0),
      stale_Chain a b rest s s3 chain ne out_a same,
    )
