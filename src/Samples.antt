-- ===== src/Samples.antt =====
-- What the benchmarks do with the times that they measure: `std::sort`, and the sample at a place of the
-- sorted array (bench/spsc_head_to_head.cpp, `run`; bench/spsc_bench.cpp, `percentile`).
use market_data_pipeline.Base.{
  ℕ, zero, suc, ◌+◌, ◌<◌, ◌≤◌, ◌≡◌, refl, none, ◌∙◌, Bool, Option, some, List, [], ◌∷◌, length,
  get_elem?, if◌then◌else◌, leb, ltb, Bool-cases, arith, inl, inr, subst,
}

unfoldable pub insert : ℕ → List ℕ → List ℕ
insert x [] = x ∷ []
insert x (y ∷ ys) = let rest = insert x ys in if leb x y then x ∷ y ∷ ys else y ∷ rest

unfoldable pub sort : List ℕ → List ℕ
sort [] = []
sort (x ∷ xs) = insert x (sort xs)

-- `samples[index]` of the sorted array; `none` past its end.
unfoldable pub sample_at : List ℕ → ℕ → Option ℕ
sample_at samples index = get_elem? (sort samples) index

-- How many samples pass a test.
unfoldable pub count : (ℕ → Bool) → List ℕ → ℕ
count test [] = 0
count test (x ∷ xs) = if test x then count test xs + 1 else count test xs

insert-length : (x : ℕ) (ys : List ℕ) → length (insert x ys) ≡ length ys + 1
unfolding insert
insert-length x [] = refl
insert-length x (y ∷ ys) = elim (Bool-cases (leb x y)) [
  | inl small ↦ rw small (omega arith)
  | inr large ↦ rw large (omega (arith, insert-length x ys))
]

pub sort-length : (xs : List ℕ) → length (sort xs) ≡ length xs
unfolding sort
sort-length [] = refl
sort-length (x ∷ xs) = omega (arith, insert-length x (sort xs), sort-length xs)

insert-count :
    (test : ℕ → Bool) (x : ℕ) (ys : List ℕ) → count test (insert x ys) ≡ count test (x ∷ ys)
unfolding insert count
insert-count test x [] = refl
insert-count test x (y ∷ ys) = elim (Bool-cases (leb x y)) [
  | inl small ↦ rw small refl
  | inr large ↦ rw (large, insert-count test x ys) (ground arith)
]

sort-count : (test : ℕ → Bool) (xs : List ℕ) → count test (sort xs) ≡ count test xs
unfolding sort count
sort-count test [] = refl
sort-count test (x ∷ xs) = insert-count test x (sort xs) ∙ rw (sort-count test xs) refl

abbrev AllFrom : ℕ → List ℕ → Type 0
AllFrom bound [] = Unit
AllFrom bound (x ∷ xs) = (bound ≤ x) × AllFrom bound xs

abbrev IsSorted : List ℕ → Type 0
IsSorted [] = Unit
IsSorted (x ∷ xs) = AllFrom x xs × IsSorted xs

AllFrom-weaken : (a b : ℕ) (xs : List ℕ) → a ≤ b → AllFrom b xs → AllFrom a xs
AllFrom-weaken a b [] le all = tt
AllFrom-weaken a b (x ∷ xs) le (first, rest) = (omega arith, AllFrom-weaken a b xs le rest)

insert-AllFrom :
    (bound x : ℕ) (ys : List ℕ) → bound ≤ x → AllFrom bound ys → AllFrom bound (insert x ys)
unfolding insert
insert-AllFrom bound x [] le all = (le, tt)
insert-AllFrom bound x (y ∷ ys) le (first, rest) = elim (Bool-cases (leb x y)) [
  | inl small ↦ rw small (le, (first, rest))
  | inr large ↦ rw large (first, insert-AllFrom bound x ys le rest)
]

insert-IsSorted : (x : ℕ) (ys : List ℕ) → IsSorted ys → IsSorted (insert x ys)
unfolding insert
insert-IsSorted x [] sorted = (tt, tt)
insert-IsSorted x (y ∷ ys) (first, rest) = elim (Bool-cases (leb x y)) [
  | inl small ↦
      let le : x ≤ y = ground (arith, small) in
      rw small ((le, AllFrom-weaken x y ys le first), (first, rest))
  | inr large ↦
      let le : y ≤ x = ground (arith, large) in
      rw large (insert-AllFrom y x ys le first, insert-IsSorted x ys rest)
]

sort-IsSorted : (xs : List ℕ) → IsSorted (sort xs)
unfolding sort
sort-IsSorted [] = tt
sort-IsSorted (x ∷ xs) = insert-IsSorted x (sort xs) (sort-IsSorted xs)

AllFrom-get_elem? :
    (bound : ℕ) (xs : List ℕ) (i v : ℕ) → AllFrom bound xs → get_elem? xs i ≡ some v → bound ≤ v
AllFrom-get_elem? bound [] i v all is = cc is
AllFrom-get_elem? bound (x ∷ xs) zero v (first, rest) is = let same : x ≡ v = cc is in omega arith
AllFrom-get_elem? bound (x ∷ xs) (suc i) v (first, rest) is = AllFrom-get_elem? bound xs i v rest is

none_below : (v : ℕ) (xs : List ℕ) → AllFrom v xs → count (λ x. ltb x v) xs ≡ 0
unfolding count
none_below v [] all = refl
none_below v (x ∷ xs) (first, rest) = ground (arith, none_below v xs rest)

-- The rank of an item of a sorted list.
IsSorted-rank :
    (xs : List ℕ) (i v : ℕ)
    → IsSorted xs
    → get_elem? xs i ≡ some v
    → (count (λ x. ltb x v) xs ≤ i) × (i < count (λ x. leb x v) xs)
unfolding count
IsSorted-rank [] i v sorted is = cc is
IsSorted-rank (x ∷ xs) zero v (first, rest) is =
    let same : x ≡ v = cc is in
    let none_less = none_below v xs (subst (λ b. AllFrom b xs) same first) in
    (ground (arith, none_less), ground (arith, same))
IsSorted-rank (x ∷ xs) (suc i) v (first, rest) is =
    let le = AllFrom-get_elem? x xs i v first is in
    let (below, upto) = IsSorted-rank xs i v rest is in
    (ground (arith, below), ground (arith, upto, le))

get_elem?-inside : (xs : List ℕ) (i : ℕ) → i < length xs → (v : ℕ) × (get_elem? xs i ≡ some v)
get_elem?-inside [] i inside = absurd (omega (arith, inside))
get_elem?-inside (x ∷ xs) zero inside = (x, refl)
get_elem?-inside (x ∷ xs) (suc i) inside = get_elem?-inside xs i (omega (arith, inside))

-- The sample at an index of the sorted array, which is there for each index below the number of samples:
-- so many samples are less than it, or fewer, and more are at most it.
pub sample_at-rank :
    (samples : List ℕ) (index : ℕ)
    → index < length samples
    → (v : ℕ) × (sample_at samples index ≡ some v)
      × (count (λ x. ltb x v) samples ≤ index)
      × (index < count (λ x. leb x v) samples)
unfolding sample_at
sample_at-rank samples index inside =
    let (v, is) = get_elem?-inside (sort samples) index (omega (arith, sort-length samples)) in
    let (below, upto) = IsSorted-rank (sort samples) index v (sort-IsSorted samples) is in
    (
      v,
      is,
      omega (arith, below, sort-count (λ x. ltb x v) samples),
      omega (arith, upto, sort-count (λ x. leb x v) samples),
    )

-- Each product of a percentage and the number of samples is below this number.
abbrev pub AllBelow : List (ℕ → ℕ) → ℕ → Type 0
AllBelow [] size = Unit
AllBelow (part ∷ parts) size = (part size < size) × AllBelow parts size

-- What is printed for an index is a sample: at most so many samples are less than it, and more are no
-- greater.
abbrev pub IsRanked : List ℕ → ℕ → Option ℕ → Type 0
IsRanked samples index none = ⊥
IsRanked samples index (some v) =
    (count (λ x. ltb x v) samples ≤ index) × (index < count (λ x. leb x v) samples)

abbrev pub AllRanked : List ℕ → List (ℕ → ℕ) → List (Option ℕ) → Type 0
AllRanked samples [] outs = outs ≡ []
AllRanked samples (part ∷ parts) [] = ⊥
AllRanked samples (part ∷ parts) (out ∷ outs) =
    IsRanked samples (part (length samples)) out × AllRanked samples parts outs
