-- ===== src/Buffer/Moves.antt =====
-- The moves of `Buffer` in a program that owns its arrays: the contents go from one variable to the other.
use mathlib.Core.Path.{fun_ext}
use market_data_pipeline.Base.{
  ℕ, ◌≡◌, ◌≢◌, refl, sym, ◌∙◌, ap, Bool, true, false, some, [], ◌==◌, arith, ℕ_discrete, subst, inl,
}
use market_data_pipeline.Memory.{Ptr, null, Memory, ◌>>=◌, update}
use market_data_pipeline.Memory.Laws.{Freed, free-Freed, Freed-IsTidy}
use market_data_pipeline.Buffer.{Var, Array, Program, hold, move_construct, move_assign}
use market_data_pipeline.Buffer.Owns.{IsOwned}
use market_data_pipeline.Buffer.Copies.{
  HasContents, KeptBut, hold-IsOwned, own_IsFreeable, outlives,
}

-- Every variable but `v` and `other` keeps its contents, `v` has `a`, and `other` is null and empty.
pub record Moved (v other : Var) (a : Array) (s s' : Program) : Type 0 where
  pub owned : IsOwned s'
  pub kept :
      (w : Var)
      → w ≢ v
      → w ≢ other
      → s.alive w ≡ true
      → (b : Array) → HasContents s w b
      → HasContents s' w b
  pub has : HasContents s' v a
  pub emptied : (s'.data_of other ≡ null) × (s'.size_of other ≡ 0)
  pub pointer : s'.data_of v ≡ s.data_of other

update_swap {ℓ} :
    {A : Type ℓ} (f : ℕ → A) (i j : ℕ) (x y : A)
    → i ≢ j
    → update (update f j y) i x ≡ update (update f i x) j y
update_swap f i j x y ne = fun_ext (λ k. ground (arith, ne))

-- The two `hold`s of a move, in either order.
hold_swap :
    (v other : Var) (p : Ptr) (n : ℕ) (m : Memory Array) (s : Program)
    → v ≢ other
    → hold v p n m (hold other null 0 m s) ≡ hold other null 0 m (hold v p n m s)
unfolding hold
hold_swap v other p n m s ne =
    ap (λ d. record s { data_of = d; size_of = update (update s.size_of other 0) v n; memory = m })
      (update_swap s.data_of v other p null ne)
    ∙ ap
        (λ z. record s {
          data_of = update (update s.data_of v p) other null;
          size_of = z;
          memory = m;
        })
        (update_swap s.size_of v other n 0 ne)

-- The array that `v` held before is overwritten.
hold_twice :
    (v : Var) (p q : Ptr) (n k : ℕ) (m : Memory Array) (s : Program)
    → hold v p n m (hold v q k m s) ≡ hold v p n m s
unfolding hold
hold_twice v p q n k m s =
    let twice : (f : ℕ → ℕ) (x y : ℕ) → update (update f v y) v x ≡ update f v x =
      λ f x y. fun_ext (λ i. ground arith) in
    ap (λ d. record s { data_of = d; size_of = update (update s.size_of v k) v n; memory = m })
      (twice s.data_of p q)
    ∙ ap (λ z. record s { data_of = update s.data_of v p; size_of = z; memory = m })
        (twice s.size_of n k)

-- A move after a step that only empties `v`.
emptied-Moved :
    (v other : Var) (a : Array) (s s1 s2 : Program)
    → KeptBut v s s1
    → ((w : Var) → s.alive w ≡ true → s1.alive w ≡ true)
    → s1.data_of other ≡ s.data_of other
    → Moved v other a s1 s2
    → Moved v other a s s2
emptied-Moved v other a s s1 s2 kept same at moved = record {
  owned = moved.owned;
  kept = λ w ne_v ne_o h b theirs. moved.kept w ne_v ne_o (same w h) b (kept w ne_v h b theirs);
  has = moved.has;
  emptied = moved.emptied;
  pointer = moved.pointer ∙ at;
}

module _ {s : Program} (o : IsOwned s) where
  -- A variable takes over the array of another.
  take_over-Moved :
      (v other : Var) (a : Array) (alive : Var → Bool)
      → v ≢ other
      → s.alive other ≡ true
      → alive other ≡ true
      → ((w : Var) → w ≢ v → alive w ≡ true → s.alive w ≡ true)
      → ((w : Var) → w ≢ v → s.alive w ≡ true → alive w ≡ true)
      → HasContents s other a
      → Moved v other a s (
          hold other null 0 s.memory
            (hold v (s.data_of other) (s.size_of other) s.memory (record s { alive = alive })))
  unfolding hold
  take_over-Moved v other a alive ne alive_o stays old new held =
      let s1 : Program = hold other null 0 s.memory s in
      let (owned1, kept1, _) =
        hold-IsOwned o other null 0 [] s.memory s.alive o.tidy (refl, inl (refl, refl)) (λ w _ h. h)
          (λ w _ h not_null. (refl, not_null)) in
      let (owned2, kept2, has) =
        hold-IsOwned {s = s1} owned1 v (s.data_of other) (s.size_of other) a s.memory alive o.tidy
          held old (λ w _ h not_null. (refl, λ e. unshared other w alive_o h not_null e)) in
      subst (Moved v other a s)
        (hold_swap v other (s.data_of other) (s.size_of other) s.memory (record s { alive = alive })
          ne)
        (record {
          owned = owned2;
          kept = λ w ne_v ne_o h b theirs. kept2 w ne_v h b (kept1 w ne_o h b theirs);
          has = has;
          emptied = (ground (arith, ne), ground (arith, ne));
          pointer = ground arith;
        })
    where
      unshared :
          (other w : Var)
          → s.alive other ≡ true
          → s.alive w ≡ true
          → update s.data_of other null w ≢ null
          → update s.data_of other null w ≢ s.data_of other
      unshared other w h_o h not_null e = ground (arith, o.alone w other h h_o)

  -- In a program whose live variables each hold an array of their size that no other holds, move
  -- construction makes a new variable hold the array of a live one, leaves that one null and
  -- empty and the others theirs; nothing is allocated or deleted. The ownership is kept.
  pub move_construct-Moved :
      (v other : Var) (a : Array)
      → s.alive v ≡ false
      → s.alive other ≡ true
      → HasContents s other a
      → Moved v other a s (move_construct v other s)
        × ((move_construct v other s).memory ≡ s.memory)
  unfolding move_construct hold
  move_construct-Moved v other a new alive_o held =
      let differ : v ≢ other = λ e. ground (arith, e) in
      (
        unfold hold in
            take_over-Moved v other a (update s.alive v true) differ alive_o
              (ground (arith, alive_o)) (λ w ne h. ground (arith, ne))
              (λ w ne h. ground (arith, ne)) held,
        refl,
      )

module _ {s : Program} (o : IsOwned s) where
  -- Once the array of `v` is deleted, `v` takes over the array of `other`.
  deleted-Moved :
      (v other : Var) (a : Array) (m : Memory Array)
      → v ≢ other
      → s.alive v ≡ true
      → s.alive other ≡ true
      → HasContents s other a
      → Freed s.memory (s.data_of v) m
      → Moved v other a s (hold other null 0 m (hold v (s.data_of other) (s.size_of other) m s))
  unfolding hold
  deleted-Moved v other a m ne alive alive_o held freed =
      let s1 : Program = hold v null 0 m s in
      let (owned1, kept1, _) =
        hold-IsOwned o v null 0 [] m s.alive (Freed-IsTidy o.tidy freed) (refl, inl (refl, refl))
          (λ w _ h. h)
          (λ w other_w h not_null. (outlives o v m alive freed w other_w h not_null, not_null)) in
      let at : s1.data_of other ≡ s.data_of other = ground (arith, ne) in
      let sized : s1.size_of other ≡ s.size_of other = ground (arith, ne) in
      let moved =
        take_over-Moved {s = s1} owned1 v other a s.alive ne alive_o alive_o (λ w _ h. h)
          (λ w _ h. h) (kept1 other (λ e. ne (sym e)) alive_o a held) in
      emptied-Moved v other a s s1
        (hold other null 0 m (hold v (s.data_of other) (s.size_of other) m s)) kept1 (λ w h. h) at
        (subst (Moved v other a s1)
          (ap (λ p. hold other null 0 m (hold v p (s1.size_of other) m s1)) at
            ∙ ap (λ n. hold other null 0 m (hold v (s.data_of other) n m s1)) sized
            ∙ ap (λ t. hold other null 0 m t)
                (hold_twice v (s.data_of other) null (s.size_of other) 0 m s))
          moved)

  -- In a program whose live variables each hold an array of their size that no other holds, move
  -- assignment between two live variables does not fault: it deletes the array of the target,
  -- makes it hold the array of the source, leaves the source null and empty and the others
  -- theirs, and keeps the ownership; from a variable to itself it changes nothing.
  pub move_assign-Moved :
      (v other : Var) (a : Array)
      → s.alive v ≡ true
      → s.alive other ≡ true
      → HasContents s other a
      → (s' : Program) × (move_assign v other s ≡ some s')
        × (v ≢ other → Moved v other a s s' × Freed s.memory (s.data_of v) s'.memory)
        × (v ≡ other → s' ≡ s)
  unfolding move_assign hold
  move_assign-Moved v other a alive alive_o held = elim (ℕ_discrete v other) [
    | yes e ↦ (s, ground (arith, e), λ ne. absurd (ne e), λ _. refl)
    | no ne ↦
        let (m, done, freed) =
          free-Freed s.memory (s.data_of v) o.tidy (own_IsFreeable o v alive) in
        let different : (v == other) ≡ false = ground (arith, ne) in
        (
          hold other null 0 m (hold v (s.data_of other) (s.size_of other) m s),
          rw (different, done, ◌>>=◌),
          λ _. (unfold hold in deleted-Moved v other a m ne alive alive_o held freed, freed),
          λ e. absurd (ne e),
        )
  ]
