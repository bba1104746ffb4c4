-- ===== src/Countdown/Tests.antt =====
-- The theorem on counters at concrete rounds.
use reconverse.Prelude.{[], ◌∷◌, arith}
use reconverse.Countdown.Rounds.{Counts, run-Counts}

run-Counts_example : Counts 8 3 (omega arith) 9 (0 ∷ 4 ∷ [])
run-Counts_example = run-Counts 8 3 (omega arith) 9 (0 ∷ 4 ∷ [])
