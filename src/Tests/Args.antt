-- ===== src/Tests/Args.antt =====
-- Command lines "12" and "12_printed".
use market_data_pipeline.Base.{◌≡◌, refl, true, false, [], ◌∷◌, ◌++◌, arith}
use market_data_pipeline.BenchArgs.{pos, Text, value, suffix, stoi, parse_bench_args}
use market_data_pipeline.BenchArgs.Parse.{decimal, stoi-decimal, parse_bench_args-decimal}

abbrev program : Text
program = b'b' ∷ []

stoi-decimal_example : stoi (b'1' ∷ b'2' ∷ b' ' ∷ []) ≡ value (pos 12)
unfolding decimal
stoi-decimal_example =
    stoi-decimal b'1' (b'2' ∷ []) (b' ' ∷ []) (refl, (refl, tt)) refl (omega arith)

parse_bench_args-decimal_example :
    (parse_bench_args (program ∷ (b'1' ∷ b'2' ∷ []) ∷ [])
      ≡ value (record { mode = pos 12; printed = false }))
    × (parse_bench_args (program ∷ (b'1' ∷ b'2' ∷ [] ++ suffix) ∷ [])
        ≡ value (record { mode = pos 12; printed = true }))
unfolding decimal
parse_bench_args-decimal_example =
    parse_bench_args-decimal program b'1' (b'2' ∷ []) [] (refl, (refl, tt)) (omega arith)
