-- ===== src/Tests/Rounds.antt =====
-- One round of bench/pingpong_bench.cpp.
use market_data_pipeline.Base.{ℕ, ◌+◌, ◌/◌, ◌≡◌, refl, List, [], ◌∷◌, true, arith}
use market_data_pipeline.PingPong.{
  SenderAt, ReceiverAt, State, initial, sender_thread, receiver_thread, Reach, start, sends,
  receives,
}
use market_data_pipeline.BenchArgs.{Text, BenchArgs, pos, value, parse_pingpong_args}
use market_data_pipeline.PingPong.Main.{Result, main, UsedIn, IsPrinted, main_returns}
use market_data_pipeline.PingPong.Rounds.{reading-awaiting}
use market_data_pipeline.PingPong.Ends.{Run, both_finish}

abbrev sent : State → State
sent s = sender_thread 1 s.sender s

abbrev received : State → State
received s = receiver_thread 1 s.receiver s

abbrev reading_state : State
reading_state = received (received (sent (sent initial)))

reading-Reach : Reach 1 reading_state
reading-Reach = receives (receives (sends (sends start)))

reading-awaiting_example :
    (reading_state.sender ≡ SenderAt.awaiting 0) × (reading_state.counter ≡ 0 + 1)
unfolding sender_thread receiver_thread
reading-awaiting_example = reading-awaiting 1 0 reading-Reach refl

abbrev end_state : State
end_state = sent (sent (received (received (received reading_state))))

end-Reach : Reach 1 end_state
end-Reach = sends (sends (receives (receives (receives reading-Reach))))

end-finished : (end_state.sender ≡ SenderAt.finished) × (end_state.receiver ≡ ReceiverAt.finished)
unfolding sender_thread receiver_thread
end-finished = (refl, refl)

both_finish_example :
    (s' : State) × Run 1 reading_state s'
    × (s'.sender ≡ SenderAt.finished)
    × (s'.receiver ≡ ReceiverAt.finished)
    × (s'.counter ≡ 1)
    × (s'.flag ≡ 0)
both_finish_example = both_finish 1 reading-Reach

abbrev halves : List (ℕ → ℕ)
halves = (λ k. k / 2) ∷ []

abbrev one_sample : List ℕ
one_sample = 80 ∷ []

abbrev default_args : BenchArgs
default_args = record { mode = pos 1; printed = true }

abbrev program_name : Text
program_name = b'p' ∷ []

main_returns_example :
    (result : Result) × (main 1 halves (program_name ∷ []) one_sample end_state.counter
      ≡ value result)
    × (result.exit_code ≡ 0)
    × UsedIn default_args.mode result.layout
    × IsPrinted halves one_sample default_args result.printed
unfolding parse_pingpong_args
main_returns_example =
    main_returns 1 halves (program_name ∷ []) one_sample default_args end-Reach end-finished.0
      end-finished.1 refl (omega arith, tt)
