-- ===== src/OldScheduler/Tests.antt =====
-- Iterations of the original scheduler.
use reconverse.Prelude.{
  ℕ, ◌+◌, ◌≡◌, refl, ◌++◌, ◌==◌, if◌then◌else◌, true, false, List, [], ◌∷◌, arith,
}
use reconverse.Prelude.Int.{pos}
use reconverse.PrioQueue.{Queue, is_queue_empty, top, enqueue, dequeue}
use reconverse.PrioQueue.Counts.{IsValid}
use reconverse.Scheduler.{Env, Queues, take_thread_list, take_task_list}
use reconverse.Scheduler.Idle.{Drained}
use reconverse.OldScheduler.{Old, chain, begin_old, iteration_poll_old}
use reconverse.OldScheduler.Empty.{iteration_poll_old-Drained}

-- Handlers and conditions that send nothing, a free lock, +node_queue_max 1.
abbrev env : Env
env = record {
  handle = λ m q. q;
  raise = λ c q. q;
  try_lock = λ q. true;
  node_queue_max = 1;
  polls_progress = true;
}

abbrev no_messages : Queue
no_messages = record { levels = []; zero_level = []; empty_levels = 0; size = 0 }

no_messages-IsValid : IsValid no_messages
no_messages-IsValid = record {
  sorted = tt;
  non_zero = tt;
  counted = refl;
  kept = omega arith;
  sized = refl;
}

abbrev one_message : Queue
one_message = record { levels = (pos 5, 30 ∷ []) ∷ []; zero_level = []; empty_levels = 0; size = 1 }

abbrev loop : List ℕ → List ℕ → Queue → Old
loop thread node own = record {
  pe = record {
    queues = record {
      thread_queue = thread;
      node_queue = node;
      node_prio = no_messages;
      node_len = 0;
      sched = own;
      tasks = [];
      inbox = [];
      network = [];
    };
    node_streak = 0;
    found_nothing = false;
    idle = false;
    ran = [];
  };
  tq_streak = 0;
}

-- A node message, a message of the thread queue, and then the PE's own message is run.
abbrev busy : Old
busy = loop (1 ∷ 2 ∷ []) (3 ∷ []) one_message

first : List ℕ → ℕ
first [] = 0
first (m ∷ ms) = m

iteration_poll_old-Drained_example :
    Drained (begin_old env 1 (loop [] [] no_messages)).pe.queues
    × ((iteration_poll_old env 1 (loop [] [] no_messages)).0.pe.ran ≡ [])
unfolding begin_old iteration_poll_old is_queue_empty take_task_list
iteration_poll_old-Drained_example =
    iteration_poll_old-Drained env 1 (loop [] [] no_messages) (λ q. refl)
      (no_messages-IsValid, no_messages-IsValid, λ e. absurd (cc)) refl

-- Handlers that answer each other: message 1, of the thread queue, sends 2 to the priority queue of
-- the process, and 2 sends 1.
answer : ℕ → Queues → Queues
unfolding enqueue
answer m q =
    if m == 1
    then record q { node_prio = enqueue q.node_prio 2 (pos 0); node_len = q.node_len + 1 }
    else record q { thread_queue = q.thread_queue ++ 1 ∷ [] }

abbrev answering : Env
answering = record env { handle = answer }

abbrev starved : List ℕ → Old
starved ms =
    let o = loop (1 ∷ []) [] one_message in
    record o { pe = record o.pe { node_streak = 1; ran = ms } }

-- Two iterations lead back to the same state: each message resets the other's streak, and the PE's
-- own message, 30, is never run.
starved_again :
    (ms : List ℕ) → (chain answering 1 (chain answering 1 (starved ms)).0).0 ≡ starved (2 ∷ 1 ∷ ms)
unfolding chain answer is_queue_empty top take_thread_list enqueue dequeue
starved_again ms = refl
