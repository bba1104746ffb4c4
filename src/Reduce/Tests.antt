-- ===== src/Reduce/Tests.antt =====
-- The theorems on reductions at concrete ids and rounds.
use reconverse.Prelude.{ℕ, ◌+◌, ◌≢◌, refl, some, List, [], ◌∷◌, arith}
use reconverse.Reduce.{Message, Shape, reduction_index, empty_table, overrun}
use reconverse.Reduce.Ids.{nth_id, ids_disjoint}
use reconverse.Reduce.Nodes.{own, arrival, run_calls, run_calls_within}
use reconverse.Reduce.Rounds.{Event, contributes, receives, Completes, run-Completes}

ids_disjoint_example : reduction_index (nth_id 0 3) ≢ reduction_index (nth_id 1 19)
ids_disjoint_example = ids_disjoint 3 19

abbrev two_children : Shape
two_children = record { children = 2; up = some 0; room = 4 }

abbrev message : ℕ → Message ℕ
message n = record { handler = 9; payload = n }

abbrev add_all : ℕ → List ℕ → ℕ
add_all a [] = a
add_all a (b ∷ bs) = b + add_all a bs

-- A child's message comes before the PE's own contribution.
abbrev round : List (Event ℕ)
round = receives (message 5) ∷ contributes (message 1) ∷ receives (message 7) ∷ []

run-Completes_example :
    Completes add_all two_children 34 empty_table round (message 1) (message 5 ∷ message 7 ∷ [])
unfolding empty_table
run-Completes_example =
    run-Completes add_all two_children 34 empty_table round (message 1) (omega arith) refl refl refl

run_calls_within_example :
    run_calls add_all
      (record { nodes = 3; node_size = 2 })
      0
      (arrival 0 (message 5) ∷ own (message 1) ∷ arrival 0 (message 7) ∷ arrival 0 (message 8) ∷ [])
      0
      empty_table
    ≢ overrun
run_calls_within_example =
    run_calls_within add_all (record { nodes = 3; node_size = 2 }) 0
      (arrival 0 (message 5) ∷ own (message 1) ∷ arrival 0 (message 7) ∷ arrival 0 (message 8) ∷ [])
      0
