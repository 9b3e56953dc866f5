-- ===== src/Buffer/Copies.antt =====
-- The destructor and the copies of `Buffer` in a program that owns its arrays: no fault, no
-- array shared, and the contents that a copy leaves.
use market_data_pipeline.Base.{
  inr, replicate, length-replicate, ℕ, ◌≡◌, ◌≢◌, refl, sym, ◌∙◌, Bool, true, false, none, some,
  ◌==◌, arith, ℕ_discrete,
}
use market_data_pipeline.Memory.{allocate, Ptr, null, Memory, ◌>>=◌, update}
use market_data_pipeline.Memory.Laws.{
  allocate-IsTidy, IsTidy, IsFreeable, Freed, free-Freed, Freed-IsTidy,
}
use market_data_pipeline.Buffer.{
  construct, Var, Array, Program, hold, destroy, copy_construct, copy_assign,
}
use market_data_pipeline.Buffer.Owns.{
  Contents, IsOwned, Contents-IsFreeable, Contents-same, copy_array-Copied,
}

-- The contents of a variable.
abbrev pub HasContents : Program → Var → Array → Type 0
HasContents s v a = Contents s.memory (s.data_of v) (s.size_of v) a

-- Every variable but `v` keeps its contents.
abbrev pub KeptBut : Var → Program → Program → Type 0
KeptBut v s s' =
    (w : Var) → w ≢ v → s.alive w ≡ true → (a : Array) → HasContents s w a → HasContents s' w a

module _ {s : Program} (o : IsOwned s) where
  -- When `v` comes to hold contents that no other variable holds, and the arrays of the others
  -- live on, the arrays are owned and the others keep theirs.
  pub hold-IsOwned :
      (v : Var) (p : Ptr) (n : ℕ) (a : Array) (m : Memory Array) (alive : Var → Bool)
      → IsTidy m
      → Contents m p n a
      → ((w : Var) → w ≢ v → alive w ≡ true → s.alive w ≡ true)
      → ((w : Var)
          → w ≢ v
          → s.alive w ≡ true
          → s.data_of w ≢ null
          → (m.object (s.data_of w) ≡ s.memory.object (s.data_of w)) × (s.data_of w ≢ p))
      → IsOwned (hold v p n m (record s { alive = alive }))
        × KeptBut v s (hold v p n m (record s { alive = alive }))
        × HasContents (hold v p n m (record s { alive = alive })) v a
  unfolding hold
  hold-IsOwned v p n a m alive tidy held old live = (
    record {
      tidy = tidy;
      owns = λ w h. elim (ℕ_discrete w v) [
        | yes e ↦ (a, rw (at w e, sized w e) held)
        | no ne ↦ let (b, theirs) = o.owns w (old w ne h) in (b, kept w ne (old w ne h) b theirs)
      ];
      alone = λ w x hw hx e ne. ground (arith, live w, live x, old w, old x, o.alone w x);
    },
    kept,
    rw (at v refl, sized v refl) held,
  )
    where
      at : (w : Var) → w ≡ v → update s.data_of v p w ≡ p
      at w e = ground (arith, e)

      sized : (w : Var) → w ≡ v → update s.size_of v n w ≡ n
      sized w e = ground (arith, e)

      kept :
          (w : Var)
          → w ≢ v
          → s.alive w ≡ true
          → (b : Array) → HasContents s w b
          → Contents m (update s.data_of v p w) (update s.size_of v n w) b
      kept w ne h b theirs =
          let same_at : update s.data_of v p w ≡ s.data_of w = ground (arith, ne) in
          let same_size : update s.size_of v n w ≡ s.size_of w = ground (arith, ne) in
          rw (same_at, same_size)
            (Contents-same s.memory m (s.data_of w) (s.size_of w) b
              (λ not_null. (live w ne h not_null).0) theirs)

  pub own_IsFreeable : (v : Var) → s.alive v ≡ true → IsFreeable s.memory (s.data_of v)
  own_IsFreeable v h =
      let (a, held) = o.owns v h in Contents-IsFreeable s.memory (s.data_of v) (s.size_of v) a held

  -- Nothing is held at an address not yet handed out.
  not_next : (w : Var) → s.alive w ≡ true → s.data_of w ≢ s.memory.next
  not_next w h e = elim (ℕ_discrete (s.data_of w) null) [
    | yes is_null ↦ omega (arith, o.tidy.started)
    | no ne ↦
        let (b, live) = own_IsFreeable w h ne in
        cc (live, o.tidy.unused (s.data_of w) (omega arith))
  ]

  -- What the other variables hold outlives the array of `v`.
  pub outlives :
      (v : Var) (m : Memory Array)
      → s.alive v ≡ true
      → Freed s.memory (s.data_of v) m
      → (w : Var) → w ≢ v
      → s.alive w ≡ true
      → s.data_of w ≢ null
      → m.object (s.data_of w) ≡ s.memory.object (s.data_of w)
  outlives v m alive freed w ne h not_null =
      freed.others (s.data_of w) (λ e. ne (o.alone w v h alive e not_null))

  -- In a program whose live variables each hold an array of their size that no other holds, the
  -- destructor of a live variable does not fault, deletes its array, and leaves the other
  -- variables theirs. The ownership is kept.
  pub destroy-IsOwned :
      (v : Var)
      → s.alive v ≡ true
      → (s' : Program) × (destroy v s ≡ some s')
        × IsOwned s'
        × KeptBut v s s'
        × Freed s.memory (s.data_of v) s'.memory
  unfolding destroy
  destroy-IsOwned v alive =
      let (m, done, freed) = free-Freed s.memory (s.data_of v) o.tidy (own_IsFreeable v alive) in
      let kept : (w : Var)
          → w ≢ v
          → s.alive w ≡ true
          → (a : Array) → HasContents s w a
          → Contents m (s.data_of w) (update s.size_of v 0 w) a =
        λ w ne h a theirs.
          let same_size : update s.size_of v 0 w ≡ s.size_of w = ground (arith, ne) in
          rw same_size (
            Contents-same s.memory m (s.data_of w) (s.size_of w) a (outlives v m alive freed w ne h)
              theirs) in
      (
        record s { size_of = update s.size_of v 0; alive = update s.alive v false; memory = m },
        rw (done, ◌>>=◌),
        record {
          tidy = Freed-IsTidy o.tidy freed;
          owns = λ w h.
              let ne : w ≢ v = λ e. ground (arith, e) in
              let was : s.alive w ≡ true = ground (arith, ne) in
              let (a, theirs) = o.owns w was in (a, kept w ne was a theirs);
          alone = λ w x hw hx. o.alone w x (ground arith) (ground arith);
        },
        kept,
        freed,
      )

  -- In a program whose live variables each hold an array of their size that no other holds, the
  -- constructor gives a new variable an array of `n` ints without a value, and leaves the other
  -- variables theirs. The ownership is kept.
  pub construct-IsOwned :
      (v : Var) (n : ℕ)
      → s.alive v ≡ false
      → IsOwned (construct v n s)
        × KeptBut v s (construct v n s)
        × HasContents (construct v n s) v (replicate n none)
  unfolding construct allocate hold
  construct-IsOwned v n new =
      let made = allocate {A = Array} (replicate n none) s.memory in
      unfold hold in
      hold-IsOwned v made.0 n (replicate n none) made.1 (update s.alive v true)
        (unfold allocate in allocate-IsTidy (replicate n none) o.tidy)
        (length-replicate n none, inr ((λ e. omega (arith, o.tidy.started)), ground arith))
        (λ w ne h. ground (arith, ne))
        (λ w ne h not_null. (ground (arith, not_next w h), not_next w h))

  -- In a program whose live variables each hold an array of their size that no other holds, copy
  -- construction from a live variable does not fault, gives a new variable an array of its own
  -- with the contents of the source, and leaves the other variables, the source among them,
  -- theirs. The ownership is kept.
  pub copy_construct_lem :
      (v other : Var) (a : Array)
      → s.alive v ≡ false
      → s.alive other ≡ true
      → HasContents s other a
      → (s' : Program) × (copy_construct v other s ≡ some s')
        × IsOwned s'
        × KeptBut v s s'
        × HasContents s' v a
        × (s'.data_of v ≢ s.data_of other)
  unfolding copy_construct hold
  copy_construct_lem v other a new alive_o held =
      let (made, done, copied) =
        copy_array-Copied s.memory (s.data_of other) (s.size_of other) a o.tidy held in
      let apart : (w : Var) → s.alive w ≡ true → s.data_of w ≢ made.0 =
        λ w h e. not_next w h (e ∙ copied.fresh) in
      let (owned, kept, has) =
        hold-IsOwned v made.0 (s.size_of other) a made.1 (update s.alive v true) copied.tidy
          copied.same (λ w ne h. ground (arith, ne))
          (λ w ne h not_null. (copied.others (s.data_of w) (apart w h), apart w h)) in
      (
        hold v made.0 (s.size_of other) made.1 (record s { alive = update s.alive v true }),
        rw (done, ◌>>=◌),
        owned,
        kept,
        has,
        λ e. apart other alive_o (sym e ∙ ground arith),
      )

  -- In a program whose live variables each hold an array of their size that no other holds, copy
  -- assignment between two live variables does not fault: it deletes the array of the target,
  -- gives it one of its own with the contents of the source, and leaves the other variables, the
  -- source among them, theirs; from a variable to itself it changes nothing. The ownership is
  -- kept.
  pub copy_assign_lem :
      (v other : Var) (a : Array)
      → s.alive v ≡ true
      → s.alive other ≡ true
      → HasContents s other a
      → (s' : Program) × (copy_assign v other s ≡ some s')
        × IsOwned s'
        × KeptBut v s s'
        × HasContents s' v a
        × (v ≢ other → (s'.data_of v ≢ s.data_of other) × (s'.memory.object (s.data_of v) ≡ none))
        × (v ≡ other → s' ≡ s)
  unfolding copy_assign hold
  copy_assign_lem v other a alive alive_o held = elim (ℕ_discrete v other) [
    | yes e ↦ (
      s,
      ground (arith, e),
      o,
      λ w ne h b theirs. theirs,
      rw e held,
      λ ne. absurd (ne e),
      λ _. refl,
    )
    | no ne ↦
        let (m, done, freed) = free-Freed s.memory (s.data_of v) o.tidy (own_IsFreeable v alive) in
        let there =
          Contents-same s.memory m (s.data_of other) (s.size_of other) a
            (outlives v m alive freed other (λ e. ne (sym e)) alive_o) held in
        let (made, made_it, copied) =
          copy_array-Copied m (s.data_of other) (s.size_of other) a (Freed-IsTidy o.tidy freed)
            there in
        let apart : (w : Var) → s.alive w ≡ true → s.data_of w ≢ made.0 =
          λ w h e. not_next w h (e ∙ copied.fresh ∙ freed.next_same) in
        let (owned, kept, has) =
          hold-IsOwned v made.0 (s.size_of other) a made.1 s.alive copied.tidy copied.same
            (λ w _ h. h)
            (λ w other_w h not_null. (
              copied.others (s.data_of w) (apart w h)
                  ∙ outlives v m alive freed w other_w h not_null,
              apart w h,
            )) in
        let different : (v == other) ≡ false = ground (arith, ne) in
        (
          hold v made.0 (s.size_of other) made.1 s,
          rw (different, done, ◌>>=◌, made_it),
          owned,
          kept,
          has,
          λ _. (
            λ e. apart other alive_o (sym e ∙ ground arith),
            copied.others (s.data_of v) (apart v alive) ∙ freed.gone,
          ),
          λ e. absurd (ne e),
        )
  ]
