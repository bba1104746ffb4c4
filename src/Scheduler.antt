-- ===== src/Scheduler.antt =====
-- The scheduler loops, src/scheduler_registered.cpp with src/scheduler_take.h and src/scheduler.cpp:
-- where a PE takes its next message from.
pub mod Quiet
pub mod Vain
pub mod Polls
mod Sweep
pub mod Idle
pub mod Takes
mod Traverse
mod Backlog
mod Ends
pub mod Fair
mod Order
mod Tests
use reconverse.Prelude.{
  ℕ, zero, suc, ◌+◌, ◌-◌, ◌%◌, Bool, true, false, not, ◌&&◌, ◌||◌, Option, none, some, List, [],
  ◌∷◌, ◌++◌, ltb, leb, ◌==◌, if◌then◌else◌, get_or,
}
use reconverse.Prelude.Int.{ltb_ℤ}
use reconverse.PrioQueue.{Queue, live, is_queue_empty, top, top_priority, dequeue}
use reconverse.Registry.{Table, sched_table_size}
pub use reconverse.Sources.{Arrival, to_thread, to_node, elsewhere, Queues}
unfoldable pub use reconverse.Sources.{
  Taken, take_node_list, take_thread_list, take_thread_prio, take_task_list, remove_node_prio,
  deliver, backwards, progress,
}

-- A PE in its loop: `ran` are the messages that it has run, the latest first.
pub record Sched : Type 0 where
  pub queues : Queues
  pub node_streak : ℕ
  pub found_nothing : Bool
  pub idle : Bool
  pub ran : List ℕ

-- What a poll leaves, and whether it ran a message.
abbrev pub Polled : Type 0
Polled = Sched × Bool

-- The entries of the slot table.
pub data Poll : Type 0 where
  poll_converse_thread_queue : Poll
  poll_node_prio_queue : Poll
  poll_thread_prio_queue : Poll
  poll_progress : Poll
  poll_task_queue : Poll

-- The conditions that the loop raises, by their numbers in include/converse.h
abbrev pub processor_begin_idle : ℕ
processor_begin_idle = 2

abbrev pub processor_end_idle : ℕ
processor_end_idle = 1

abbrev pub processor_still_idle : ℕ
processor_still_idle = 3

abbrev pub processor_long_idle : ℕ
processor_long_idle = 4

abbrev pub sched_loop : ℕ
sched_loop = 0

-- What the loop does not decide: what running a message does to the sources, what raising a condition
-- does, whether the lock of the node priority queue is to be had, +node_queue_max, and whether this
-- PE polls the network.
pub record Env : Type 0 where
  pub handle : ℕ → Queues → Queues
  pub raise : ℕ → Queues → Queues
  pub try_lock : Queues → Bool
  pub node_queue_max : ℕ
  pub polls_progress : Bool

module _ (env : Env) where
  -- CmiTakeNodePrioQueue
  unfoldable pub take_node_prio : Queues → Taken
  take_node_prio q =
      if ltb 0 q.node_len && env.try_lock q
      then (if is_queue_empty (live q.node_prio) then (none, q) else remove_node_prio q)
      else (none, q)

  -- CmiTakeNodePrioQueueIfAhead
  pub take_node_prio_if_ahead : Queues → Taken
  take_node_prio_if_ahead q =
      if ltb 0 q.node_len && env.try_lock q
      then (if not (is_queue_empty (live q.node_prio))
            && not (ltb_ℤ (top_priority (live q.sched)) (top_priority (live q.node_prio)))
          then remove_node_prio q
          else (none, q))
      else (none, q)

  -- CmiSchedulerReleaseIdle
  unfoldable pub release_idle : Sched → Sched
  release_idle s =
      if s.idle
      then record s { idle = false; queues = env.raise processor_end_idle s.queues }
      else s

  -- runTaken
  unfoldable pub run_taken : Taken → Sched → Polled
  unfolding release_idle
  run_taken (none, q) s = (record s { queues = q }, false)
  run_taken (some m, q) s =
      let r = release_idle (record s { queues = q }) in
      (record r { queues = env.handle m r.queues; ran = m ∷ r.ran }, true)

  -- pollConverseThreadQueue
  pub run_thread : Sched → Polled
  unfolding run_taken take_thread_list
  run_thread s = run_taken (take_thread_list s.queues.thread_queue s.queues) s

  -- The streak of pollNodeQueuesFirst after its takes
  pub count_streak : Polled → Polled
  count_streak (s, true) = (record s { node_streak = s.node_streak + 1 }, true)
  count_streak (s, false) = (record s { node_streak = 0 }, false)

  -- `runTaken(CmiTakeNodeQueue()) || runTaken(CmiTakeNodePrioQueueIfAhead())`, past the first take
  pub or_ahead : Polled → Polled
  unfolding run_taken take_node_prio_if_ahead
  or_ahead (s, true) = (s, true)
  or_ahead (s, false) = run_taken (take_node_prio_if_ahead s.queues) s

  -- pollNodeQueuesFirst
  pub poll_node_queues_first : Sched → Polled
  unfolding run_taken take_node_list or_ahead count_streak
  poll_node_queues_first s =
      if leb env.node_queue_max s.node_streak && not (is_queue_empty (live s.queues.sched))
      then (record s { node_streak = 0 }, false)
      else count_streak (or_ahead (run_taken (take_node_list s.queues.node_queue s.queues) s))

  -- `pollConverseThreadQueue() || pollNodeQueuesFirst()`, past the first poll
  pub or_node : Polled → Polled
  unfolding poll_node_queues_first
  or_node (s, true) = (s, true)
  or_node (s, false) = poll_node_queues_first s

  -- The poll of the network
  pub after_progress : Bool × Queues → Sched → Polled
  unfolding run_thread or_node
  after_progress (true, q) s = or_node (run_thread (record s { queues = q }))
  after_progress (false, q) s = (record s { queues = q; found_nothing = true }, false)

  -- pollProgress
  pub run_progress : Sched → Polled
  unfolding after_progress
  run_progress s =
      if s.found_nothing
      then (s, false)
      else (if env.polls_progress
          then after_progress (progress s.queues.network s.queues) s
          else (s, false))

  pub run_poll : Poll → Sched → Polled
  unfolding run_thread run_progress run_taken take_node_prio take_thread_prio take_task_list
  run_poll poll_converse_thread_queue s = run_thread s
  run_poll poll_node_prio_queue s = run_taken (take_node_prio s.queues) s
  run_poll poll_thread_prio_queue s = run_taken (take_thread_prio s.queues) s
  run_poll poll_progress s = run_progress s
  run_poll poll_task_queue s = run_taken (take_task_list s.queues.tasks s.queues) s

  -- `poll_handlers[idx]()`, with pollNoWork in an empty slot
  pub run_slot : Option Poll → Sched → Polled
  unfolding run_poll
  run_slot none s = (s, false)
  run_slot (some p) s = run_poll p s

  -- The sweep over the table, from a slot on
  pub sweep : Table Poll → ℕ → ℕ → Sched → Polled
  unfolding run_slot
  sweep table zero idx s = (s, false)
  sweep table (suc t) idx s =
      let r = run_slot (get_or table (idx % sched_table_size) none) s in
      let further = sweep table t (idx + 1) r.0 in if r.1 then r else further

  -- CmiSchedulerPollIpc: the blocks go to a local queue, the last of the inbox first.
  unfoldable pub poll_ipc : Queues → Bool × Queues
  poll_ipc q = (
    (elim q.inbox [ [] ↦ false | b ∷ bs ↦ true ]),
    deliver (backwards q.inbox) (record q { inbox = [] }),
  )

  -- `if (!workDone)` the sweep, from the slot of this iteration on
  pub or_sweep : Table Poll → ℕ → Polled → Polled
  unfolding sweep
  or_sweep table loop_counter (s, true) = (s, true)
  or_sweep table loop_counter (s, false) = sweep table sched_table_size loop_counter s

  -- The search for work in one iteration of CsdSchedulerRegistered and CsdSchedulePollRegistered,
  -- once shared memory has been polled
  pub find_work : Table Poll → ℕ → Sched → Polled
  unfolding run_thread or_node or_sweep
  find_work table loop_counter s = or_sweep table loop_counter (or_node (run_thread s))

  -- What comes before it
  pub begin_iteration : Sched → Sched × Bool
  unfolding poll_ipc
  begin_iteration s =
      let (ipc_done, q) = poll_ipc (env.raise sched_loop s.queues) in
      (record s { queues = q; found_nothing = false }, ipc_done)

  -- CmiSchedulerSetIdle; `long` is whether the PE has been idle for more than ten seconds.
  unfoldable pub set_idle : Bool → Sched → Sched
  set_idle long s =
      if s.idle
      then (let still = env.raise processor_still_idle s.queues in
          record s { queues = if long then env.raise processor_long_idle still else still })
      else record s { idle = true; queues = env.raise processor_begin_idle s.queues }

  -- One iteration of CsdSchedulePollRegistered, and whether the loop goes on. CsdSchedulerRegistered
  -- makes the same iteration, and goes on until it is stopped. CsdPeriodic is part of `raise`.
  pub iteration : Bool → Table Poll → ℕ → Sched → Polled
  unfolding begin_iteration find_work set_idle
  iteration long table loop_counter s =
      let (b, ipc_done) = begin_iteration s in
      let r = find_work table loop_counter b in
      if not r.1 && not ipc_done then (set_idle long r.0, false) else (r.0, true)

  -- CsdSchedulePollRegistered, with fuel for its iterations: `none` where it runs out.
  pub schedule_poll : (ℕ → Bool) → Table Poll → ℕ → ℕ → Sched → Option Sched
  unfolding iteration
  schedule_poll long table zero loop_counter s = none
  schedule_poll long table (suc fuel) loop_counter s =
      let r = iteration (long loop_counter) table loop_counter s in
      let further = schedule_poll long table fuel (loop_counter + 1) r.0 in
      if r.1 then further else some r.0
