-- ===== src/CounterBench/Report.antt =====
-- The times that `run_and_report` of bench/counter_bench.cpp keeps and prints, and what `main` prints. The
-- type `double`, its arithmetic and the clock are parameters.
pub mod Best
use market_data_pipeline.Base.{
  ℕ, ◌≡◌, ◌⊎◌, inl, inr, refl, sym, ◌∙◌, length, arith, ap, Bool, true, false, Option, none, some,
  List, [], ◌∷◌, ◌++◌, ◌||◌, if◌then◌else◌, Bool-cases, subst,
}
use market_data_pipeline.BenchArgs.{BenchArgs, ℤ}
use market_data_pipeline.CounterBench.{
  Variant, mutex, atomic, sharded_unpadded, sharded_padded, is_mode, num_runs,
}

-- `numeric_limits<double>::max()`, `0`, the quotient of an elapsed time by the number of increments, `+`, `<`
-- and the quotient of a sum by the number of runs.
pub record Double : Type 1 where
  pub Carrier : Type 0
  pub max : Carrier
  pub zero : Carrier
  pub per_op : ℕ → Carrier
  pub plus : Carrier → Carrier → Carrier
  pub less : Carrier → Carrier → Bool
  pub average : Carrier → Carrier

-- The order of `double` on the times: it is transitive, no time is less than itself, and all are less
-- than the greatest number.
pub record DoubleLaws (D : Double) : Type 0 where
  pub transitive : (x y z : D.Carrier) → D.less x y ≡ true → D.less y z ≡ true → D.less x z ≡ true
  pub irreflexive : (elapsed_ns : ℕ) → D.less (D.per_op elapsed_ns) (D.per_op elapsed_ns) ≡ false
  pub below_max : (elapsed_ns : ℕ) → D.less (D.per_op elapsed_ns) D.max ≡ true

abbrev pub number_of : Variant → ℕ
number_of mutex = 1
number_of atomic = 2
number_of sharded_unpadded = 3
number_of sharded_padded = 4

-- The variants that a mode asks for.
abbrev pub selects : ℤ → Variant → Bool
selects mode v = is_mode 0 mode || is_mode (number_of v) mode

-- One of the runs took this time.
abbrev pub OneOf : ℕ → List ℕ → Type 0
OneOf e [] = ⊥
OneOf e (f ∷ fs) = (e ≡ f) ⊎ OneOf e fs

abbrev pub report_if : {A : Type 0} → Bool → List A → List A
report_if b report = if b then report else []

module _ (D : Double) where
  -- The locals of `run_and_report`.
  pub record Times : Type 0 where
    pub ns_per_op_min : D.Carrier
    pub ns_per_op_sum : D.Carrier
    pub elapsed_ns_min : ℕ

  -- What is printed for a variant: its total time and time per operation in the best run, and the average.
  pub record Printed : Type 0 where
    pub variant : Variant
    pub total_time : ℕ
    pub best : D.Carrier
    pub average : D.Carrier

  abbrev pub no_times : Times
  no_times = record { ns_per_op_min = D.max; ns_per_op_sum = D.zero; elapsed_ns_min = 0 }

  -- No run took less per operation than this.
  abbrev pub NoneLess : D.Carrier → List ℕ → Type 0
  NoneLess least [] = Unit
  NoneLess least (e ∷ es) = (D.less (D.per_op e) least ≡ false) × NoneLess least es

module _ {D : Double} where
  -- The end of the loop's body.
  unfoldable pub add_run : Times D → ℕ → Times D
  add_run times elapsed_ns =
      let sum : D.Carrier = D.plus times.ns_per_op_sum (D.per_op elapsed_ns) in
      if D.less (D.per_op elapsed_ns) times.ns_per_op_min
      then record {
        ns_per_op_min = D.per_op elapsed_ns;
        ns_per_op_sum = sum;
        elapsed_ns_min = elapsed_ns;
      }
      else record times { ns_per_op_sum = sum }

  unfoldable pub add_runs : Times D → List ℕ → Times D
  add_runs times [] = times
  add_runs times (elapsed_ns ∷ more) = add_runs (add_run times elapsed_ns) more

  abbrev pub printed_of : Variant → Times D → Printed D
  printed_of variant times = record {
    variant = variant;
    total_time = times.elapsed_ns_min;
    best = times.ns_per_op_min;
    average = D.average times.ns_per_op_sum;
  }

  -- One of the reports is of the variant.
  abbrev pub Reported : Variant → List (Printed D) → Type 0
  Reported v [] = ⊥
  Reported v (p ∷ ps) = (p.variant ≡ v) ⊎ Reported v ps

module _ (D : Double) where
  -- `run_and_report(name, variant_fn, printed)`, whose runs take the times given.
  unfoldable pub report_times : Bool → Variant → List ℕ → List (Printed D)
  report_times printed variant elapsed =
      if printed then printed_of variant (add_runs (no_times D) elapsed) ∷ [] else []

  -- What `main` prints, with the arguments that it has read.
  unfoldable pub main_reports : BenchArgs → (Variant → List ℕ) → List (Printed D)
  main_reports args elapsed =
      let run : Variant → List (Printed D) = λ v. report_times args.printed v (elapsed v) in
      report_if (is_mode 0 args.mode || is_mode 1 args.mode) (run mutex)
      ++ report_if (is_mode 0 args.mode || is_mode 2 args.mode) (run atomic)
      ++ report_if (is_mode 0 args.mode || is_mode 3 args.mode) (run sharded_unpadded)
      ++ report_if (is_mode 0 args.mode || is_mode 4 args.mode) (run sharded_padded)

  -- Each report is printed as asked for, and is of the best run of its variant.
  abbrev pub OfBest : BenchArgs → (Variant → List ℕ) → List (Printed D) → Type 0
  OfBest args elapsed [] = Unit
  OfBest args elapsed (p ∷ ps) =
      (args.printed ≡ true)
      × (selects args.mode p.variant ≡ true)
      × OneOf p.total_time (elapsed p.variant)
      × (p.best ≡ D.per_op p.total_time)
      × NoneLess D p.best (elapsed p.variant)
      × OfBest args elapsed ps
