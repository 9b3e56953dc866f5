-- ===== src/UniquePtr/Calls.antt =====
-- Every call of `UniquePtr` in a program that owns its objects uniquely: no fault, no leak, and the
-- ownership kept.
use market_data_pipeline.Base.{
  ◌≡◌, ◌≢◌, ◌∙◌, refl, sym, Bool, true, false, some, arith, ◌==◌, ℕ_discrete,
}
use market_data_pipeline.Memory.{Ptr, null, Memory, ◌>>=◌, update, allocate, load}
use market_data_pipeline.Memory.Laws.{
  IsTidy, IsFreeable, Freed, free-Freed, Freed-IsTidy, allocate-IsTidy,
}
use market_data_pipeline.UniquePtr.{
  Var, Program, construct, destroy, move_construct, move_assign, release, reset, dereference,
  make_unique,
}
use market_data_pipeline.UniquePtr.Owns.{IsUnique}

module _ {ℓ} {T : Type ℓ} {s : Program T} (u : IsUnique s) where
  -- After the object of `v` is deleted, what the other variables own still lives.
  others_live :
      (v : Var) {m : Memory T}
      → s.alive v ≡ true
      → Freed s.memory (s.ptr v) m
      → (w : Var) → w ≢ v
      → s.alive w ≡ true
      → IsFreeable m (s.ptr w)
  others_live v f_v freed w ne f_w not_null =
      let (a, held) = u.owns w f_w not_null in
      (a, freed.others (s.ptr w) (λ e. ne (u.alone w v f_w f_v e not_null)) ∙ held)

  -- In a program whose live variables own their objects uniquely, the destructor of a live
  -- variable does not fault, and deletes the object that the variable owns and no other. Unique
  -- ownership is kept.
  pub destroy_lem :
      (v : Var)
      → s.alive v ≡ true
      → (s' : Program T) × (destroy v s ≡ some s')
        × IsUnique s'
        × Freed s.memory (s.ptr v) s'.memory
        × (s'.alive v ≡ false)
  unfolding destroy
  destroy_lem v alive =
      let (m, done, freed) = free-Freed s.memory (s.ptr v) u.tidy (u.owns v alive) in
      (
        record s { alive = update s.alive v false; memory = m },
        rw (done, ◌>>=◌),
        record {
          tidy = Freed-IsTidy u.tidy freed;
          owns = λ w h. others_live v alive freed w (λ e. ground (arith, e)) (ground arith);
          alone = λ w x hw hx. u.alone w x (ground arith) (ground arith);
        },
        freed,
        ground arith,
      )

  -- In a program whose live variables own their objects uniquely, `reset(p)` of a live variable
  -- does not fault: it deletes the object that the variable owned and makes it own `p`, if `p` is
  -- null or a live object that no variable owns. Unique ownership is kept.
  pub reset_lem :
      (v : Var) (p : Ptr)
      → s.alive v ≡ true
      → IsFreeable s.memory p
      → ((w : Var) → s.alive w ≡ true → p ≢ null → s.ptr w ≢ p)
      → (s' : Program T) × (reset v p s ≡ some s')
        × IsUnique s'
        × Freed s.memory (s.ptr v) s'.memory
        × (s'.ptr v ≡ p)
  unfolding reset
  reset_lem v p alive live unowned =
      let (m, done, freed) = free-Freed s.memory (s.ptr v) u.tidy (u.owns v alive) in
      (
        record s { ptr = update s.ptr v p; memory = m },
        rw (done, ◌>>=◌),
        record {
          tidy = Freed-IsTidy u.tidy freed;
          owns = λ w h. elim (ℕ_discrete w v) [
            | yes e ↦
                let at : update s.ptr v p w ≡ p = ground (arith, e) in
                rw at (λ ne.
                  let (a, held) = live ne in
                  (a, freed.others p (λ q. unowned v alive ne (sym q)) ∙ held))
            | no ne ↦
                let at : update s.ptr v p w ≡ s.ptr w = ground (arith, ne) in
                rw at (others_live v alive freed w ne h)
          ];
          alone = λ w x hw hx e ne. ground (arith, unowned w hw, unowned x hx, u.alone w x hw hx);
        },
        freed,
        ground arith,
      )

  -- The pointer of `other` goes to `v`: what `other` owned lives, and `v` owned nothing that does.
  moved-IsUnique :
      (v other : Var) (m : Memory T) (alive : Var → Bool)
      → v ≢ other
      → s.alive other ≡ true
      → IsTidy m
      → ((w : Var) → w ≢ v → alive w ≡ true → s.alive w ≡ true)
      → ((w : Var) → w ≢ v → s.alive w ≡ true → IsFreeable m (s.ptr w))
      → IsUnique (record {
        ptr = update (update s.ptr v (s.ptr other)) other null;
        alive = alive;
        memory = m;
      })
  moved-IsUnique v other m alive ne alive_o tidy old live = record {
    tidy = tidy;
    owns = λ w h. elim (ℕ_discrete w other) [
      | yes e ↦ λ not_null. absurd (not_null (ground (arith, e)))
      | no ne_o ↦ elim (ℕ_discrete w v) [
        | yes e ↦
            let at : update (update s.ptr v (s.ptr other)) other null w ≡ s.ptr other =
              ground (arith, e, ne_o) in
            rw at (live other (λ q. ne (sym q)) alive_o)
        | no ne_v ↦
            let at : update (update s.ptr v (s.ptr other)) other null w ≡ s.ptr w =
              ground (arith, ne_v, ne_o) in
            rw at (live w ne_v (old w ne_v h))
      ]
    ];
    alone = λ w x hw hx e not_null.
        ground (arith, old w, old x, u.alone w x, u.alone other x alive_o, u.alone w other);
  }

  -- In a program whose live variables own their objects uniquely, move assignment between two
  -- live variables does not fault: it deletes what the target owned, moves the pointer and leaves
  -- the source null; from a variable to itself it changes nothing. Unique ownership is kept.
  pub move_assign_lem :
      (v other : Var)
      → s.alive v ≡ true
      → s.alive other ≡ true
      → (s' : Program T) × (move_assign v other s ≡ some s')
        × IsUnique s'
        × (v ≢ other
            → Freed s.memory (s.ptr v) s'.memory × (s'.ptr v ≡ s.ptr other) × (s'.ptr other ≡ null))
        × (v ≡ other → s' ≡ s)
  unfolding move_assign
  move_assign_lem v other alive_v alive_o = elim (ℕ_discrete v other) [
    | yes e ↦ (s, ground (arith, e), u, λ ne. absurd (ne e), λ _. refl)
    | no ne ↦
        let (m, done, freed) = free-Freed s.memory (s.ptr v) u.tidy (u.owns v alive_v) in
        let different : (v == other) ≡ false = ground (arith, ne) in
        (
          record s { ptr = update (update s.ptr v (s.ptr other)) other null; memory = m },
          rw (different, done, ◌>>=◌),
          moved-IsUnique v other m s.alive ne alive_o (Freed-IsTidy u.tidy freed) (λ w _ h. h)
              (others_live v alive_v freed),
          λ _. (freed, ground (arith, ne), ground arith),
          λ e. absurd (ne e),
        )
  ]

  -- In a program whose live variables own their objects uniquely, the move constructor makes a
  -- new variable the owner of what a live one owned, and leaves that one null; nothing is
  -- allocated or deleted. Unique ownership is kept.
  pub move_construct_lem :
      (v other : Var)
      → s.alive v ≡ false
      → s.alive other ≡ true
      → IsUnique (move_construct v other s)
        × ((move_construct v other s).ptr v ≡ s.ptr other)
        × ((move_construct v other s).ptr other ≡ null)
        × ((move_construct v other s).memory ≡ s.memory)
  unfolding move_construct
  move_construct_lem v other new alive_o = (
    moved-IsUnique v other s.memory (update s.alive v true) differ alive_o u.tidy
        (λ w ne h. ground (arith, ne)) (λ w _ h. u.owns w h),
    ground (arith, differ),
    ground arith,
    refl,
  )
    where
      differ : v ≢ other
      differ e = ground (arith, e)

  -- In a program whose live variables own their objects uniquely, `release` of a live variable
  -- returns its pointer and leaves it null; the memory is unchanged, and no live variable holds
  -- the pointer any more unless it is null. Unique ownership is kept.
  pub release_lem :
      (v : Var)
      → s.alive v ≡ true
      → IsUnique (release v s).1
        × ((release v s).0 ≡ s.ptr v)
        × ((release v s).1.ptr v ≡ null)
        × ((release v s).1.memory ≡ s.memory)
        × ((w : Var) → s.alive w ≡ true → s.ptr v ≢ null → (release v s).1.ptr w ≢ s.ptr v)
  unfolding release
  release_lem v alive = (
    record {
      tidy = u.tidy;
      owns = λ w h. elim (ℕ_discrete w v) [
        | yes e ↦ λ not_null. absurd (not_null (ground (arith, e)))
        | no ne ↦
            let at : update s.ptr v null w ≡ s.ptr w = ground (arith, ne) in rw at (u.owns w h)
      ];
      alone = λ w x hw hx e ne. ground (arith, u.alone w x hw hx);
    },
    refl,
    ground arith,
    refl,
    λ w h ne e. ground (arith, u.alone w v h alive),
  )

  -- No variable points to where the next object will be.
  not_next : (w : Var) → s.alive w ≡ true → s.ptr w ≢ s.memory.next
  not_next w h e = elim (ℕ_discrete (s.ptr w) null) [
    | yes is_null ↦ omega (arith, u.tidy.started)
    | no ne ↦ let (a, held) = u.owns w h ne in cc (held, u.tidy.unused (s.ptr w) (omega arith))
  ]

  -- In a program whose live variables own their objects uniquely, `make_unique` into a new
  -- variable makes it the owner of a new object that holds `x`. Unique ownership is kept.
  pub make_unique_lem :
      (v : Var) (x : T)
      → s.alive v ≡ false
      → IsUnique (make_unique v x s) × (dereference v (make_unique v x s) ≡ some x)
  unfolding make_unique construct dereference allocate load
  make_unique_lem v x new = (
    record {
      tidy = unfold allocate in allocate-IsTidy x u.tidy;
      owns = λ w h. elim (ℕ_discrete w v) [
        | yes e ↦ λ ne. (x, ground (arith, e))
        | no ne_v ↦ λ ne.
            let (a, held) = u.owns w (ground (arith, ne_v)) (ground (arith, ne_v)) in
            (a, ground (arith, ne_v, held, not_next w (ground (arith, ne_v))))
      ];
      alone = λ w y hw hy e ne. ground (arith, not_next w, not_next y, u.alone w y);
    },
    ground (arith, u.tidy.started),
  )
