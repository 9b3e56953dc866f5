-- ===== src/Buffer/Owns.antt =====
-- Ownership: which array each variable of class `Buffer` holds, and what a deep copy makes.
use market_data_pipeline.Base.{
  ℕ, zero, suc, ◌+◌, ◌≡◌, ◌≢◌, ◌⊎◌, inl, inr, refl, sym, ◌∙◌, ap, subst, true, none, some, [], ◌∷◌,
  arith, length, replicate, length-replicate,
}
use market_data_pipeline.Memory.{Ptr, null, Memory, update, allocate, load, assign}
use market_data_pipeline.Memory.Laws.{IsTidy, IsFreeable, allocate-IsTidy}
use market_data_pipeline.Buffer.{Var, Array, Program, copy_ints, copy_array}

-- At `p` lives the array `a` of size `n`; a null pointer stands for the empty one.
abbrev pub Contents : Memory Array → Ptr → ℕ → Array → Type 0
Contents m p n a = (length a ≡ n) × (((p ≡ null) × (a ≡ [])) ⊎ ((p ≢ null) × (m.object p ≡ some a)))

-- Each variable holds an array of its size, and no two of them the same one.
pub record IsOwned (s : Program) : Type 0 where
  pub tidy : IsTidy s.memory
  pub owns :
      (v : Var) → s.alive v ≡ true → (a : Array) × Contents s.memory (s.data_of v) (s.size_of v) a
  pub alone :
      (v w : Var)
      → s.alive v ≡ true
      → s.alive w ≡ true
      → s.data_of v ≡ s.data_of w
      → s.data_of v ≢ null
      → v ≡ w

pub Contents-IsFreeable :
    (m : Memory Array) (p : Ptr) (n : ℕ) (a : Array) → Contents m p n a → IsFreeable m p
Contents-IsFreeable m p n a (_, inl (e, _)) = λ ne. absurd (ne e)
Contents-IsFreeable m p n a (_, inr (ne, live)) = λ _. (a, live)

-- Contents stay where the memory does.
pub Contents-same :
    (m m' : Memory Array) (p : Ptr) (n : ℕ) (a : Array)
    → (p ≢ null → m'.object p ≡ m.object p)
    → Contents m p n a
    → Contents m' p n a
Contents-same m m' p n a same (size, inl e) = (size, inl e)
Contents-same m m' p n a same (size, inr (ne, live)) = (size, inr (ne, same ne ∙ live))

copy_ints-whole :
    (from to : Array) → length from ≡ length to → copy_ints (length from) from to ≡ some from
unfolding copy_ints
copy_ints-whole [] [] e = refl
copy_ints-whole [] (y ∷ to) e = absurd (omega arith)
copy_ints-whole (x ∷ from) [] e = absurd (omega arith)
copy_ints-whole (x ∷ from) (y ∷ to) e =
    let rest = copy_ints-whole from to (omega arith) in rw rest refl

-- What a deep copy of the contents `a` makes: a new array with the same contents, at a new address.
pub record Copied (m : Memory Array) (a : Array) (n : ℕ) (made : Ptr × Memory Array) : Type 0 where
  pub fresh : made.0 ≡ m.next
  pub tidy : IsTidy made.1
  pub same : Contents made.1 made.0 n a
  pub others : (q : Ptr) → q ≢ made.0 → made.1.object q ≡ m.object q

filled_blank :
    (n : ℕ) (a : Array) → length a ≡ suc n → copy_ints (suc n) a (replicate (suc n) none) ≡ some a
filled_blank n a size =
    let blank : Array = replicate (suc n) none in
    subst (λ k. copy_ints k a blank ≡ some a) size
      (copy_ints-whole a blank (size ∙ sym (length-replicate (suc n) none)))

Copied-empty : (m : Memory Array) → IsTidy m → Copied m [] 0 (allocate [] m)
unfolding allocate
Copied-empty m tidy = record {
  fresh = refl;
  tidy = unfold allocate in allocate-IsTidy [] tidy;
  same = (refl, inr ((λ e. omega (arith, tidy.started)), ground arith));
  others = λ q ne. ground (arith, ne);
}

-- A deep copy never faults, and makes what it should.
pub copy_array-Copied :
    (m : Memory Array) (p : Ptr) (n : ℕ) (a : Array)
    → IsTidy m
    → Contents m p n a
    → (made : Ptr × Memory Array) × (copy_array n p m ≡ some made) × Copied m a n made
unfolding copy_array allocate load assign
copy_array-Copied m p zero [] tidy held = (allocate [] m, refl, Copied-empty m tidy)
copy_array-Copied m p zero (x ∷ a) tidy held = absurd (omega (arith, held.0))
copy_array-Copied m p (suc n) a tidy (size, inl (_, empty)) =
    absurd (omega (arith, size, ap length empty))
copy_array-Copied m p (suc n) a tidy (size, inr (ne, live)) =
    let old : p ≢ m.next = λ e. cc (live, tidy.unused p (omega arith)) in
    let filled = filled_blank n a size in
    (
      (
        m.next,
        record {
          object = update (update m.object m.next (some (replicate (suc n) none))) m.next (some a);
          next = m.next + 1;
        },
      ),
      ground (arith, live, old, ne, filled, tidy.started),
      record {
        fresh = refl;
        tidy = record {
          null_free = ground (arith, tidy.null_free, tidy.started);
          unused = λ q h. ground (arith, tidy.unused q);
          started = omega arith;
        };
        same = (size, inr ((λ e. omega (arith, tidy.started)), ground arith));
        others = λ q ne. ground (arith, ne);
      },
    )
