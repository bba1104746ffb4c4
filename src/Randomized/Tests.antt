-- ===== src/Randomized/Tests.antt =====
-- A pool that is filled and drawn from.
use reconverse.Prelude.{ℕ, ◌==◌, if◌then◌else◌, ◌+◌, ◌≡◌, refl, true, [], ◌∷◌, arith}
use reconverse.PrioQueue.{Queue}
use reconverse.PrioQueue.Counts.{IsValid}
use reconverse.Scheduler.{
  Env, Queues, to_thread, to_node, elsewhere, take_node_list, take_thread_list, take_task_list,
  take_thread_prio, take_node_prio, poll_ipc,
}
use reconverse.Randomized.{fill_pool}
use reconverse.Scheduler.Takes.{weigh, held_in}
use reconverse.Randomized.Fills.{Conserves, fill_pool-Conserves}

-- Handlers and conditions that send nothing, a free lock.
abbrev env : Env
env = record {
  handle = λ m q. q;
  raise = λ c q. q;
  try_lock = λ q. true;
  node_queue_max = 16;
  polls_progress = true;
}

abbrev own : Queue
own = record { levels = []; zero_level = 8 ∷ 9 ∷ []; empty_levels = 0; size = 2 }

abbrev none_own : Queue
none_own = record { levels = []; zero_level = []; empty_levels = 0; size = 0 }

own-IsValid : IsValid own
own-IsValid = record {
  sorted = tt;
  non_zero = tt;
  counted = refl;
  kept = omega arith;
  sized = refl;
}

none_own-IsValid : IsValid none_own
none_own-IsValid = record {
  sorted = tt;
  non_zero = tt;
  counted = refl;
  kept = omega arith;
  sized = refl;
}

-- Messages in every source but the priority queue of the process.
abbrev sources : Queues
sources = record {
  thread_queue = 1 ∷ 2 ∷ [];
  node_queue = 3 ∷ 4 ∷ [];
  node_prio = none_own;
  node_len = 0;
  sched = own;
  tasks = 5 ∷ [];
  inbox = to_thread 6 ∷ elsewhere ∷ [];
  network = (to_node 7 ∷ []) ∷ [];
}

abbrev sevens : ℕ → ℕ
sevens m = if m == 7 then 1 else 0

fill_pool-Conserves_example :
    Conserves sevens
      (weigh sevens (0 ∷ []) + held_in sevens sources)
      (fill_pool env (0 ∷ []) sources)
fill_pool-Conserves_example =
    fill_pool-Conserves env sevens (0 ∷ []) sources (none_own-IsValid, own-IsValid)

-- One node message stays for the other PEs.
filled_pool : (fill_pool env (0 ∷ []) sources).0 ≡ 0 ∷ 3 ∷ 5 ∷ 1 ∷ 2 ∷ 6 ∷ 8 ∷ 9 ∷ []
unfolding fill_pool take_node_list take_thread_list take_task_list take_thread_prio take_node_prio
    poll_ipc reconverse.PrioQueue.is_queue_empty reconverse.PrioQueue.top
    reconverse.PrioQueue.dequeue reconverse.PrioQueue.size_of
filled_pool = refl
