-- ===== src/Scheduler/Tests.antt =====
-- Iterations of the registered scheduler, with the slot table of the default frequencies.
use reconverse.Prelude.{◌≡◌, ◌≤◌, refl, true, false, Option, none, some, [], ◌∷◌, arith}
use reconverse.Prelude.Int.{pos}
use reconverse.PrioQueue.{Queue, is_queue_empty}
use reconverse.PrioQueue.Counts.{IsValid}
use reconverse.Registry.{Table, add_list_of_handlers}
use reconverse.Scheduler.{
  Env, Queues, Sched, Poll, to_thread, to_node, poll_node_queues_first, find_work, schedule_poll,
}
use reconverse.Scheduler.Idle.{registered_handlers, Drained, find_work_lem}
use reconverse.PrioQueue.Merge.{merged}
use reconverse.Scheduler.Backlog.{SendsNothing}
use reconverse.Scheduler.Ends.{schedule_poll-ends}
use reconverse.Scheduler.Order.{find_work-Runs}
use reconverse.Scheduler.Fair.{Ran, find_work-Ran, begin, again, NodeRuns-bounded}

-- Handlers and conditions that send nothing, a free lock, +node_queue_max 2.
abbrev env : Env
env = record {
  handle = λ m q. q;
  raise = λ c q. q;
  try_lock = λ q. true;
  node_queue_max = 2;
  polls_progress = true;
}

abbrev no_messages : Queue
no_messages = record { levels = []; zero_level = []; empty_levels = 0; size = 0 }

abbrev one_message : Queue
one_message = record { levels = (pos 5, 30 ∷ []) ∷ []; zero_level = []; empty_levels = 0; size = 1 }

no_messages-IsValid : IsValid no_messages
no_messages-IsValid = record {
  sorted = tt;
  non_zero = tt;
  counted = refl;
  kept = omega arith;
  sized = refl;
}

abbrev waiting : Queues
waiting = record {
  thread_queue = [];
  node_queue = [];
  node_prio = no_messages;
  node_len = 0;
  sched = no_messages;
  tasks = [];
  inbox = [];
  network = [] ∷ (to_thread 7 ∷ []) ∷ [];
}

abbrev pe : Queues → Sched
pe q = record { queues = q; node_streak = 0; found_nothing = false; idle = false; ran = [] }

abbrev table_of : Option (Table Poll) → Table Poll
table_of none = []
table_of (some t) = t

abbrev table : Table Poll
unfolding add_list_of_handlers
table = table_of (add_list_of_handlers (registered_handlers 64))

built : add_list_of_handlers (registered_handlers 64) ≡ some table
unfolding add_list_of_handlers
built = refl

-- The poll of the network at slot 3 finds nothing, and none of the later ones is made.
find_work_lem_example :
    Drained (find_work env table 3 (pe waiting)).0.queues
    × ((find_work env table 3 (pe waiting)).0.ran ≡ [])
unfolding find_work add_list_of_handlers is_queue_empty
find_work_lem_example =
    find_work_lem env (λ q. refl) table 64 3 (pe waiting) (omega arith) (omega arith) built
      (no_messages-IsValid, no_messages-IsValid, λ e. absurd (cc)) refl

find_work-Ran_example :
    Ran
      (pe (record waiting { tasks = 4 ∷ [] }))
      (find_work env table 0 (pe (record waiting { tasks = 4 ∷ [] })))
find_work-Ran_example = find_work-Ran env table 0 (pe (record waiting { tasks = 4 ∷ [] }))

-- Three node messages and a local one.
abbrev busy : Sched
busy = pe (record waiting { node_queue = 1 ∷ 2 ∷ 3 ∷ []; sched = one_message })

NodeRuns-bounded_example : 2 ≤ 2
unfolding poll_node_queues_first is_queue_empty
NodeRuns-bounded_example =
    NodeRuns-bounded env 2 (poll_node_queues_first env (poll_node_queues_first env busy).0).0 (
      again 1 (poll_node_queues_first env busy).0 (poll_node_queues_first env busy).0
        (again 0 busy busy (begin busy) refl refl refl) refl refl refl)

-- Two node messages have been run in a row and it is the turn of the local message; the sweep polls
-- the network first, which brings a node message, and the oldest node message is run all the same.
turn_passed :
    (find_work env table 3 (record busy {
      node_streak = 2;
      queues = record busy.queues { network = (to_node 9 ∷ []) ∷ [] };
    })).0.ran
    ≡ 1 ∷ []
unfolding find_work add_list_of_handlers is_queue_empty
turn_passed = refl

-- A message of the thread queue runs before the PE's own message of priority 5.
find_work-Runs_example :
    ((find_work env table 3 (pe (record waiting { thread_queue = 6 ∷ []; sched = one_message }))).1
      ≡ true)
    × ((find_work env table 3
          (pe (record waiting { thread_queue = 6 ∷ []; sched = one_message }))).0.ran
        ≡ 6 ∷ [])
find_work-Runs_example =
    find_work-Runs env table 3 (pe (record waiting { thread_queue = 6 ∷ []; sched = one_message }))
      6 refl

quiet : SendsNothing env
quiet = (λ m q v. (omega arith, v), λ c q v. (omega arith, v))

schedule_poll-ends_example :
    (r : Sched) × (schedule_poll env (λ i. false) table 20 0 (pe waiting) ≡ some r)
    × (r.idle ≡ true)
unfolding merged
schedule_poll-ends_example =
    schedule_poll-ends env quiet (λ i. false) table 20 0 (pe waiting)
      (no_messages-IsValid, no_messages-IsValid) (omega arith)
