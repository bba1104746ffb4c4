-- ===== src/Registry/Tests.antt =====
-- The weights that the registered scheduler uses, and a handler of period 3.
use reconverse.Prelude.{ℕ, ◌≡◌, some, List, [], ◌∷◌, length, arith}
use reconverse.Registry.{Table, sched_table_size, add_list_of_handlers}
use reconverse.Registry.Fill.{AllHeld, add_list_of_handlers-AllHeld}

-- Five handlers, of weights 16, 1, 16, 40 and 1.
abbrev weights : List (ℕ × ℕ)
weights = (0, 16) ∷ (1, 1) ∷ (2, 16) ∷ (3, 40) ∷ (4, 1) ∷ []

add_list_of_handlers-AllHeld_example :
    (t : Table ℕ) × (add_list_of_handlers weights ≡ some t)
    × (length t ≡ sched_table_size)
    × AllHeld t weights
unfolding reconverse.Registry.normalize
add_list_of_handlers-AllHeld_example =
    add_list_of_handlers-AllHeld weights (omega arith) (omega arith) (omega arith)
