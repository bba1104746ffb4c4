-- ===== src/TaskQueue/Tests.antt =====
-- A run of the queue of include/taskqueue.h: two pushes, a steal that overlaps a pop of the last
-- task, and the theorems at it.
use reconverse.Prelude.{ℕ, refl, [], ◌∷◌, arith}
use reconverse.TaskQueue.{
  State, create, begin_push, begin_pop, owner_step, thief_tail, thief_swap, thief_read, push_begins,
  pop_begins, owner_moves, thief_comes, thief_compares, thief_swaps, thief_reads, Reach, here, next,
  AllRoom,
}
use reconverse.TaskQueue.Accounts.{Balance}
use reconverse.TaskQueue.Conserve.{Reach-Balance}

abbrev no_cells : ℕ → ℕ
no_cells i = 0

abbrev start : State
start = create no_cells

abbrev one_pushing : State
one_pushing = begin_push start 0 7

abbrev one_pushed : State
one_pushed = owner_step one_pushing.owner one_pushing

abbrev thief_in : State
thief_in = record one_pushed { saw_head = one_pushed.head ∷ one_pushed.saw_head }

abbrev thief_ready : State
thief_ready = thief_tail thief_in 0 []

abbrev popping : State
popping = begin_pop thief_ready

abbrev stolen : State
stolen = thief_swap popping 0 []

abbrev looked : State
looked = owner_step stolen.owner stolen

abbrev rested : State
rested = owner_step looked.owner looked

abbrev finished : State
finished = thief_read rested 0 []

steps : Reach start finished
unfolding create owner_step thief_tail thief_swap thief_read
steps =
    next
      (next
        (next
          (next
            (next
              (next
                (next (next (next here (push_begins start 0 7 refl refl)) (owner_moves one_pushing))
                  (thief_comes one_pushed))
                (thief_compares thief_in 0 [] [] refl))
              (pop_begins thief_ready refl))
            (thief_swaps popping 0 [] [] refl))
          (owner_moves stolen))
        (owner_moves looked))
      (thief_reads rested 0 [] [] refl)

steps-AllRoom : AllRoom steps
unfolding steps create
steps-AllRoom = (((((((((tt, (omega arith, tt)), tt), tt), tt), tt), tt), tt), tt), tt)

Reach-Balance_example : Balance 7 finished
Reach-Balance_example = Reach-Balance 7 no_cells finished steps steps-AllRoom
