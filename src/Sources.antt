-- ===== src/Sources.antt =====
-- The sources of messages of a PE and what takes from them, src/scheduler_take.h; what the network
-- and shared memory deliver, src/scheduler.cpp and src/cmishmem.cpp.
use reconverse.Prelude.{
  ℕ, ◌-◌, Bool, true, false, Option, none, some, List, [], ◌∷◌, ◌++◌, if◌then◌else◌,
}
use reconverse.PrioQueue.{Queue, live, is_queue_empty, top, dequeue}

-- What one network poll delivers to this process.
pub data Arrival : Type 0 where
  to_thread : ℕ → Arrival
  to_node : ℕ → Arrival
  elsewhere : Arrival

-- The message sources of a PE: its converse queue, the converse queue of the process, the priority
-- queue of the process with its length counter, the PE's own priority queue, its task queue, the
-- messages in shared memory, and what the coming network polls find. The two converse queues hold
-- the messages that a pop would find: one of another thread whose enqueue is not visible yet, though
-- the count of the queue is ahead of it, comes into the list when it is.
pub record Queues : Type 0 where
  pub thread_queue : List ℕ
  pub node_queue : List ℕ
  pub node_prio : Queue
  pub node_len : ℕ
  pub sched : Queue
  pub tasks : List ℕ
  pub inbox : List Arrival
  pub network : List (List Arrival)

-- A message taken, if any, and the sources without it.
abbrev pub Taken : Type 0
Taken = Option ℕ × Queues

-- CmiTakeNodeQueue
unfoldable pub take_node_list : List ℕ → Queues → Taken
take_node_list [] q = (none, q)
take_node_list (m ∷ ms) q = (some m, record q { node_queue = ms })

-- CmiTakeThreadQueue
unfoldable pub take_thread_list : List ℕ → Queues → Taken
take_thread_list [] q = (none, q)
take_thread_list (m ∷ ms) q = (some m, record q { thread_queue = ms })

-- CmiTakeThreadPrioQueue
unfoldable pub take_thread_prio : Queues → Taken
take_thread_prio q =
    if is_queue_empty (live q.sched)
    then (none, q)
    else (top (live q.sched), record q { sched = dequeue q.sched })

-- CmiTakeTaskQueue: the owner's end of the queue
unfoldable pub take_task_list : List ℕ → Queues → Taken
take_task_list [] q = (none, q)
take_task_list (m ∷ ms) q = (some m, record q { tasks = ms })

-- The removal that both takes of the node priority queue make
abbrev pub remove_node_prio : Queues → Taken
remove_node_prio q = (
  top (live q.node_prio),
  record q { node_prio = dequeue q.node_prio; node_len = q.node_len - 1 },
)

abbrev pub deliver : List Arrival → Queues → Queues
deliver [] q = q
deliver (to_thread m ∷ more) q = deliver more (record q { thread_queue = q.thread_queue ++ m ∷ [] })
deliver (to_node m ∷ more) q = deliver more (record q { node_queue = q.node_queue ++ m ∷ [] })
deliver (elsewhere ∷ more) q = deliver more q

abbrev pub backwards : List Arrival → List Arrival
backwards [] = []
backwards (a ∷ more) = backwards more ++ a ∷ []

-- comm_backend::progress
abbrev pub progress : List (List Arrival) → Queues → Bool × Queues
progress [] q = (false, q)
progress ([] ∷ later) q = (false, record q { network = later })
progress ((a ∷ more) ∷ later) q = (true, deliver (a ∷ more) (record q { network = later }))
