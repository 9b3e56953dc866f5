-- ===== src/CounterBench/Report/Best.antt =====
-- The reports of bench/counter_bench.cpp and the best run of each variant.
use market_data_pipeline.Base.{
  ℕ, ◌≡◌, ◌⊎◌, inl, inr, refl, sym, ◌∙◌, length, arith, ap, true, false, List, [], ◌∷◌, ◌++◌,
  Bool-cases, subst,
}
use market_data_pipeline.BenchArgs.{BenchArgs}
use market_data_pipeline.CounterBench.{
  Variant, mutex, atomic, sharded_unpadded, sharded_padded, num_runs,
}
use market_data_pipeline.CounterBench.Report.{
  Double, DoubleLaws, Times, no_times, add_run, add_runs, Printed, report_times, report_if,
  main_reports, selects, OneOf, NoneLess, Reported, OfBest,
}

module _ (D : Double) (laws : DoubleLaws D) where
  -- A minimum that goes down keeps what was not less than it.
  add_run-keeps :
      (times : Times D) (e x : ℕ)
      → D.less (D.per_op x) times.ns_per_op_min ≡ false
      → D.less (D.per_op x) (add_run times e).ns_per_op_min ≡ false
  unfolding add_run
  add_run-keeps times e x not_less = elim (Bool-cases (D.less (D.per_op e) times.ns_per_op_min)) [
    | inr kept ↦ rw kept not_less
    | inl better ↦ rw better (elim (Bool-cases (D.less (D.per_op x) (D.per_op e))) [
      | inr fine ↦ fine
      | inl less_still ↦ cc (
        not_less,
        laws.transitive (D.per_op x) (D.per_op e) times.ns_per_op_min less_still better,
      )
    ])
  ]

  add_run-counts :
      (times : Times D) (e : ℕ) → D.less (D.per_op e) (add_run times e).ns_per_op_min ≡ false
  unfolding add_run
  add_run-counts times e = elim (Bool-cases (D.less (D.per_op e) times.ns_per_op_min)) [
    | inr kept ↦ rw kept kept
    | inl better ↦ rw better (laws.irreflexive e)
  ]

  -- The minimum is that of the time kept, which is the last one or the one kept before.
  add_run-kept :
      (times : Times D) (e : ℕ)
      → times.ns_per_op_min ≡ D.per_op times.elapsed_ns_min
      → ((add_run times e).ns_per_op_min ≡ D.per_op (add_run times e).elapsed_ns_min)
        × (((add_run times e).elapsed_ns_min ≡ times.elapsed_ns_min)
            ⊎ ((add_run times e).elapsed_ns_min ≡ e))
  unfolding add_run
  add_run-kept times e is = elim (Bool-cases (D.less (D.per_op e) times.ns_per_op_min)) [
    | inr kept ↦ rw kept (is, inl refl)
    | inl better ↦ rw better (refl, inr refl)
  ]

  -- The same of several runs.
  add_runs-keeps :
      (times : Times D) (es : List ℕ) (x : ℕ)
      → D.less (D.per_op x) times.ns_per_op_min ≡ false
      → D.less (D.per_op x) (add_runs times es).ns_per_op_min ≡ false
  unfolding add_runs
  add_runs-keeps times [] x not_less = not_less
  add_runs-keeps times (e ∷ es) x not_less =
      add_runs-keeps (add_run times e) es x (add_run-keeps times e x not_less)

  add_runs-NoneLess :
      (times : Times D) (es : List ℕ) → NoneLess D (add_runs times es).ns_per_op_min es
  unfolding add_runs
  add_runs-NoneLess times [] = tt
  add_runs-NoneLess times (e ∷ es) = (
    add_runs-keeps (add_run times e) es e (add_run-counts times e),
    add_runs-NoneLess (add_run times e) es,
  )

  add_runs-kept :
      (times : Times D) (es : List ℕ)
      → times.ns_per_op_min ≡ D.per_op times.elapsed_ns_min
      → ((add_runs times es).ns_per_op_min ≡ D.per_op (add_runs times es).elapsed_ns_min)
        × OneOf (add_runs times es).elapsed_ns_min (times.elapsed_ns_min ∷ es)
  unfolding add_runs
  add_runs-kept times [] is = (is, inl refl)
  add_runs-kept times (e ∷ es) is =
      let (now, which) = add_run-kept times e is in
      let (after, one) = add_runs-kept (add_run times e) es now in
      (
        after,
        elim one [
          | inr later ↦ inr (inr later)
          | inl same ↦ elim which [
            | inl before ↦ inl (same ∙ before)
            | inr last ↦ inr (inl (same ∙ last))
          ]
        ],
      )

  -- What one variant prints is of its best run: the total time is that of one of its runs, the best time
  -- per operation is that of this run, and no run has a lesser one.
  pub best_run :
      (first : ℕ) (more : List ℕ)
      → ((add_runs (no_times D) (first ∷ more)).ns_per_op_min
          ≡ D.per_op (add_runs (no_times D) (first ∷ more)).elapsed_ns_min)
        × OneOf (add_runs (no_times D) (first ∷ more)).elapsed_ns_min (first ∷ more)
        × NoneLess D (add_runs (no_times D) (first ∷ more)).ns_per_op_min (first ∷ more)
  unfolding add_runs add_run
  best_run first more =
      let begins : (add_run (no_times D) first).ns_per_op_min ≡ D.per_op first =
        rw (laws.below_max first) refl in
      let same : (add_run (no_times D) first).elapsed_ns_min ≡ first =
        rw (laws.below_max first) refl in
      let (is, one) =
        add_runs-kept (add_run (no_times D) first) more (begins ∙ ap D.per_op (sym same)) in
      (
        is,
        subst (λ e. OneOf (add_runs (add_run (no_times D) first) more).elapsed_ns_min (e ∷ more))
            same one,
        add_runs-NoneLess (no_times D) (first ∷ more),
      )

  -- A list of `num_runs` times has a first one.
  best_of_runs :
      (es : List ℕ)
      → length es ≡ num_runs
      → OneOf (add_runs (no_times D) es).elapsed_ns_min es
        × ((add_runs (no_times D) es).ns_per_op_min
            ≡ D.per_op (add_runs (no_times D) es).elapsed_ns_min)
        × NoneLess D (add_runs (no_times D) es).ns_per_op_min es
  best_of_runs [] count = absurd (omega (arith, count))
  best_of_runs (first ∷ more) count =
      let (is, one, none_less) = best_run first more in (one, is, none_less)

  OfBest-append :
      (args : BenchArgs) (elapsed : Variant → List ℕ) (ps qs : List (Printed D))
      → OfBest D args elapsed ps
      → OfBest D args elapsed qs
      → OfBest D args elapsed (ps ++ qs)
  OfBest-append args elapsed [] qs h k = k
  OfBest-append args elapsed (p ∷ ps) qs (wanted, selected, one, is, none_less, rest) k =
      (wanted, selected, one, is, none_less, OfBest-append args elapsed ps qs rest k)

  report-OfBest :
      (args : BenchArgs) (elapsed : Variant → List ℕ) (v : Variant)
      → length (elapsed v) ≡ num_runs
      → OfBest D args elapsed
          (report_if (selects args.mode v) (report_times D args.printed v (elapsed v)))
  unfolding report_times
  report-OfBest args elapsed v count = elim (Bool-cases (selects args.mode v)) [
    | inr not_selected ↦ rw not_selected tt
    | inl selected ↦ rw selected (elim (Bool-cases args.printed) [
      | inr silent ↦ rw silent tt
      | inl wanted ↦
          let (one, is, none_less) = best_of_runs (elapsed v) count in
          rw wanted (refl, selected, one, is, none_less, tt)
    ])
  ]

  -- There is a report of the variant.
  Reported-append :
      (v : Variant) (ps qs : List (Printed D))
      → Reported v ps ⊎ Reported v qs
      → Reported v (ps ++ qs)
  Reported-append v [] qs (inl h) = absurd h
  Reported-append v [] qs (inr h) = h
  Reported-append v (p ∷ ps) qs (inl (inl e)) = inl e
  Reported-append v (p ∷ ps) qs (inl (inr h)) = inr (Reported-append v ps qs (inl h))
  Reported-append v (p ∷ ps) qs (inr h) = inr (Reported-append v ps qs (inr h))

  report-Reported :
      (args : BenchArgs) (elapsed : Variant → List ℕ) (v : Variant)
      → args.printed ≡ true
      → selects args.mode v ≡ true
      → Reported v (report_if (selects args.mode v) (report_times D args.printed v (elapsed v)))
  unfolding report_times
  report-Reported args elapsed v wanted selected = rw (wanted, selected) (inl refl)

  Reported-in_four :
      (v : Variant) (ws xs ys zs : List (Printed D))
      → Reported v ws ⊎ (Reported v xs ⊎ (Reported v ys ⊎ Reported v zs))
      → Reported v (ws ++ xs ++ ys ++ zs)
  Reported-in_four v ws xs ys zs (inl h) =
      let in_two = Reported-append v ws xs (inl h) in
      Reported-append v (ws ++ xs ++ ys) zs (inl (Reported-append v (ws ++ xs) ys (inl in_two)))
  Reported-in_four v ws xs ys zs (inr (inl h)) =
      let in_two = Reported-append v ws xs (inr h) in
      Reported-append v (ws ++ xs ++ ys) zs (inl (Reported-append v (ws ++ xs) ys (inl in_two)))
  Reported-in_four v ws xs ys zs (inr (inr (inl h))) =
      Reported-append v (ws ++ xs ++ ys) zs (inl (Reported-append v (ws ++ xs) ys (inr h)))
  Reported-in_four v ws xs ys zs (inr (inr (inr h))) = Reported-append v (ws ++ xs ++ ys) zs (inr h)

  main_reports-Reported :
      (args : BenchArgs) (elapsed : Variant → List ℕ) (v : Variant)
      → args.printed ≡ true
      → selects args.mode v ≡ true
      → Reported v (main_reports D args elapsed)
  unfolding main_reports
  main_reports-Reported args elapsed v wanted selected =
      let run : Variant → List (Printed D) =
        λ u. report_if (selects args.mode u) (report_times D args.printed u (elapsed u)) in
      Reported-in_four v (run mutex) (run atomic) (run sharded_unpadded) (run sharded_padded)
        (which v (report-Reported args elapsed v wanted selected))
    where
      which :
          (u : Variant)
          → Reported u (report_if (selects args.mode u) (report_times D args.printed u (elapsed u)))
          → Reported u (
              report_if
                (selects args.mode mutex)
                (report_times D args.printed mutex (elapsed mutex)))
            ⊎ (Reported u (
                  report_if
                    (selects args.mode atomic)
                    (report_times D args.printed atomic (elapsed atomic)))
                ⊎ (Reported u (
                      report_if
                        (selects args.mode sharded_unpadded)
                        (report_times D args.printed sharded_unpadded (elapsed sharded_unpadded)))
                    ⊎ Reported u (
                        report_if
                          (selects args.mode sharded_padded)
                          (report_times D args.printed sharded_padded (elapsed sharded_padded)))))
      which mutex h = inl h
      which atomic h = inr (inl h)
      which sharded_unpadded h = inr (inr (inl h))
      which sharded_padded h = inr (inr (inr h))

  main_reports-OfBest :
      (args : BenchArgs) (elapsed : Variant → List ℕ)
      → ((v : Variant) → length (elapsed v) ≡ num_runs)
      → OfBest D args elapsed (main_reports D args elapsed)
  unfolding main_reports
  main_reports-OfBest args elapsed counts =
      OfBest-append args elapsed _ _
        (OfBest-append args elapsed _ _
          (OfBest-append args elapsed _ _ (report-OfBest args elapsed mutex (counts mutex))
            (report-OfBest args elapsed atomic (counts atomic)))
          (report-OfBest args elapsed sharded_unpadded (counts sharded_unpadded)))
        (report-OfBest args elapsed sharded_padded (counts sharded_padded))

  -- What `main` prints, for `num_runs` runs of each variant: only reports of a variant that the mode
  -- asks for, and only if it is to print, each with the time of one of its runs and the time per
  -- operation of this run, and no run has a lesser one; and if it is to print, there is a report of each variant that
  -- the mode asks for.
  pub main_reports_lem :
      (args : BenchArgs) (elapsed : Variant → List ℕ)
      → ((v : Variant) → length (elapsed v) ≡ num_runs)
      → OfBest D args elapsed (main_reports D args elapsed)
        × ((v : Variant)
            → args.printed ≡ true
            → selects args.mode v ≡ true
            → Reported v (main_reports D args elapsed))
  main_reports_lem args elapsed counts =
      (main_reports-OfBest args elapsed counts, main_reports-Reported args elapsed)
