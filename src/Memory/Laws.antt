-- ===== src/Memory/Laws.antt =====
-- When allocation, deletion and access do not fault, and what they leave.
use market_data_pipeline.Base.{ℕ_discrete, refl, ◌≤◌, ◌<◌, ◌≡◌, ◌∙◌, ◌≢◌, none, some, arith}
use market_data_pipeline.Memory.{Ptr, null, Memory, update, allocate, free}

module _ {ℓ} {A : Type ℓ} where
  -- Nothing lives at the null pointer or at an address not yet handed out.
  pub record IsTidy (m : Memory A) : Type ℓ where
    pub null_free : m.object null ≡ none
    pub unused : (p : Ptr) → m.next ≤ p → m.object p ≡ none
    pub started : 0 < m.next

  -- `p` is null or points to a live object.
  abbrev pub IsFreeable : Memory A → Ptr → Type ℓ
  IsFreeable m p = (p ≢ null) → (a : A) × (m.object p ≡ some a)

  -- After `delete p` everything else lives as before, and nothing lives at `p`.
  pub record Freed (m : Memory A) (p : Ptr) (m' : Memory A) : Type ℓ where
    pub gone : m'.object p ≡ none
    pub others : (q : Ptr) → q ≢ p → m'.object q ≡ m.object q
    pub next_same : m'.next ≡ m.next

  pub free-Freed :
      (m : Memory A) (p : Ptr)
      → IsTidy m
      → IsFreeable m p
      → (m' : Memory A) × (free p m ≡ some m') × Freed m p m'
  unfolding free
  free-Freed m p tidy live = elim (ℕ_discrete p null) [
    | yes e ↦ (
      m,
      ground arith,
      record { gone = rw e tidy.null_free; others = λ q ne. refl; next_same = refl },
    )
    | no ne ↦
        let (a, held) = live ne in
        (
          record m { object = update m.object p none },
          ground (arith, held),
          record { gone = ground arith; others = λ q other. ground arith; next_same = refl },
        )
  ]

  -- A second `delete` of an address that is not null faults.
  pub free-free : (m m' : Memory A) (p : Ptr) → p ≢ null → free p m ≡ some m' → free p m' ≡ none
  unfolding free
  free-free m m' p ne h = ground arith

  pub Freed-IsTidy : {m m' : Memory A} {p : Ptr} → IsTidy m → Freed m p m' → IsTidy m'
  Freed-IsTidy {m} {m'} {p} tidy f = record {
    null_free = still null tidy.null_free;
    unused = λ q h. still q (tidy.unused q (omega (arith, f.next_same)));
    started = omega (arith, f.next_same, tidy.started);
  }
    where
      still : (q : Ptr) → m.object q ≡ none → m'.object q ≡ none
      still q h = elim (ℕ_discrete q p) [ yes e ↦ rw e f.gone | no ne ↦ f.others q ne ∙ h ]

  pub allocate-IsTidy : (a : A) {m : Memory A} → IsTidy m → IsTidy (allocate a m).1
  unfolding allocate
  allocate-IsTidy a {m} tidy = record {
    null_free = ground (arith, tidy.null_free, tidy.started);
    unused = λ q h. ground (arith, tidy.unused q);
    started = omega arith;
  }
