-- ===== src/Barrier/Tests.antt =====
-- Two threads at the barrier: thread 0 has come and spins, thread 1 comes and ends the round, and
-- thread 0 leaves.
use reconverse.Prelude.{ℕ, ◌<◌, ◌≤◌, ◌≡◌, refl, arith}
use reconverse.Barrier.{State, outside, access, fresh, Reach, starts, moves}
use reconverse.Barrier.Rounds.{come, left_le_come}
use reconverse.Barrier.Progress.{Moves, some_Moves}

abbrev one : ℕ → State → State
one t s = access 2 t (s.phase t) s

abbrev after_four : State
after_four = one 1 (one 1 (one 0 (one 0 fresh)))

abbrev after_seven : State
after_seven = one 0 (one 1 (one 1 after_four))

reach_four : Reach 2 after_four
reach_four =
    moves (one 1 (one 0 (one 0 fresh))) 1
      (moves (one 0 (one 0 fresh)) 1
        (moves (one 0 fresh) 0 (moves fresh 0 starts (omega arith)) (omega arith)) (omega arith))
      (omega arith)

reach_seven : Reach 2 after_seven
reach_seven =
    moves (one 1 (one 1 after_four)) 0
      (moves (one 1 after_four) 1 (moves after_four 1 reach_four (omega arith)) (omega arith))
      (omega arith)

-- Thread 0 has left one barrier.
left_one : (after_seven.left 0 ≡ 1) × (after_seven.phase 0 ≡ outside)
unfolding access fresh
left_one = (refl, refl)

left_le_come_example : after_seven.left 0 ≤ come (after_seven.phase 1) (after_seven.left 1)
left_le_come_example = left_le_come 2 after_seven 0 1 reach_seven (omega arith) (omega arith)

some_Moves_example : (u : ℕ) × (u < 2) × Moves 2 after_four u
some_Moves_example = some_Moves 2 after_four (omega arith) reach_four
