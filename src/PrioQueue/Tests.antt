-- ===== src/PrioQueue/Tests.antt =====
-- The theorems on the priority queue at concrete queues, and runs of it.
use reconverse.Prelude.{◌≡◌, refl, true, false, none, some, List, [], ◌∷◌, arith}
use reconverse.Prelude.Int.{pos, negsuc}
use reconverse.PrioQueue.{Queue, destroyed, live, init, llong_max}
use reconverse.PrioQueue.Counts.{IsValid}
use reconverse.PrioQueue.Drain.{Drains, dequeue-Drains}
use reconverse.PrioQueue.History.{
  Call, pushes, pushes_front, pops, history, history_list, history_refines, init-history,
}
use reconverse.PrioQueue.Refine.{contents}
use reconverse.PrioQueue.Spec.{insert_back, insert_front}
use reconverse.PrioQueue.Strategy.{
  Has, cqs_ilifo, insert_by, enqueue_general, enqueue_general_refines,
}

-- Priorities -2 (two messages), -1 (a kept empty level), 0 and 5.
abbrev mixed : Queue
mixed = record {
  levels = (negsuc 1, 10 ∷ 11 ∷ []) ∷ (negsuc 0, []) ∷ (pos 5, 30 ∷ []) ∷ [];
  zero_level = 20 ∷ [];
  empty_levels = 1;
  size = 4;
}

mixed-IsValid : IsValid mixed
mixed-IsValid = record {
  sorted = omega arith;
  non_zero = (refl, (refl, (refl, tt)));
  counted = refl;
  kept = omega arith;
  sized = refl;
}

dequeue-Drains_example : Drains mixed
dequeue-Drains_example = dequeue-Drains mixed mixed-IsValid

abbrev script : List Call
script = pushes 40 (negsuc 0) ∷ pops ∷ pushes_front 41 (pos 0) ∷ pops ∷ pops ∷ []

history_refines_example : history (live mixed) script ≡ history_list (contents mixed) script
history_refines_example = history_refines mixed script mixed-IsValid

init-history_example : history (init destroyed) script ≡ history_list [] script
init-history_example = init-history destroyed script (λ e. cc)

history_runs :
    history_list [] script
    ≡ (some 40, negsuc 0, 1, false)
      ∷ (none, llong_max, 0, true)
      ∷ (some 41, pos 0, 1, false)
      ∷ (none, llong_max, 0, true)
      ∷ (none, llong_max, 0, true)
      ∷ []
unfolding history_list insert_back insert_front
history_runs = refl

-- 4294967295 is the priority -1.
enqueue_general_refines_example :
    Has
      (insert_by cqs_ilifo (4294967295 ∷ []) 12 (contents mixed))
      (enqueue_general (live mixed) 12 cqs_ilifo (4294967295 ∷ []))
enqueue_general_refines_example =
    enqueue_general_refines mixed 12 cqs_ilifo (4294967295 ∷ []) mixed-IsValid
