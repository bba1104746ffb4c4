-- ===== src/Scheduler/Traverse.antt =====
-- One iteration of src/scheduler_registered.cpp, followed through its polls: what each take does, and
-- what polls that find nothing leave, carries over to the whole search for work.
use reconverse.Prelude.{
  ℕ, zero, suc, ◌+◌, ◌%◌, Bool, true, false, not, ◌&&◌, Option, none, some, leb, if◌then◌else◌,
  if_cases, get_or,
}
use reconverse.PrioQueue.{live, is_queue_empty}
use reconverse.Registry.{Table, sched_table_size}
use reconverse.Scheduler.{
  Env, Queues, Sched, Taken, Polled, take_node_list, take_thread_list, take_thread_prio,
  take_task_list, take_node_prio, take_node_prio_if_ahead, progress, Poll,
  poll_converse_thread_queue, poll_node_prio_queue, poll_thread_prio_queue, poll_progress,
  poll_task_queue, run_taken, run_thread, count_streak, or_ahead, poll_node_queues_first, or_node,
  after_progress, run_progress, run_poll, run_slot, sweep, or_sweep, find_work,
}

-- A take of the loop, by the source that it reads.
pub data IsTake (env : Env) (q : Queues) : Taken → Type 0 where
  of_thread : IsTake env q (take_thread_list q.thread_queue q)
  of_node : IsTake env q (take_node_list q.node_queue q)
  of_ahead : IsTake env q (take_node_prio_if_ahead env q)
  of_node_prio : IsTake env q (take_node_prio env q)
  of_thread_prio : IsTake env q (take_thread_prio q)
  of_tasks : IsTake env q (take_task_list q.tasks q)

-- A relation between a PE and what a poll makes of it that holds of each step, and carries over
-- from a poll that finds nothing to the one after it.
pub record Closed (env : Env) (P : Sched → Polled → Type 0) : Type 0 where
  pub after : (s s1 : Sched) (p : Polled) → P s (s1, false) → P s1 p → P s p
  pub stays : (s : Sched) → P s (s, false)
  pub resets : (s : Sched) → P s (record s { node_streak = 0 }, false)
  pub counts : (s : Sched) (p : Polled) → P s p → P s (count_streak env p)
  pub polls :
      (s : Sched) (found_nothing : Bool)
      → P s (
        record s { queues = (progress s.queues.network s.queues).1; found_nothing = found_nothing },
        false,
      )
  pub takes : (s : Sched) (t : Taken) → IsTake env s.queues t → P s (run_taken env t s)

module _ (env : Env) (P : Sched → Polled → Type 0) (closed : Closed env P) where
  or_ahead-closed : (s : Sched) (p : Polled) → P s p → P s (or_ahead env p)
  unfolding or_ahead
  or_ahead-closed s (s1, true) a = a
  or_ahead-closed s (s1, false) a =
      closed.after s s1 (run_taken env (take_node_prio_if_ahead env s1.queues) s1) a
        (closed.takes s1 (take_node_prio_if_ahead env s1.queues) of_ahead)

  poll_node_queues_first-closed : (s : Sched) → P s (poll_node_queues_first env s)
  unfolding poll_node_queues_first
  poll_node_queues_first-closed s =
      let takes = run_taken env (take_node_list s.queues.node_queue s.queues) s in
      if_cases (P s)
        (leb env.node_queue_max s.node_streak && not (is_queue_empty (live s.queues.sched)))
        (record s { node_streak = 0 }, false) (count_streak env (or_ahead env takes))
        (λ p. closed.resets s)
        (λ p. closed.counts s (or_ahead env takes) (
          or_ahead-closed s takes
            (closed.takes s (take_node_list s.queues.node_queue s.queues) of_node)))

  run_thread-closed : (s : Sched) → P s (run_thread env s)
  unfolding run_thread
  run_thread-closed s = closed.takes s (take_thread_list s.queues.thread_queue s.queues) of_thread

  or_node-closed : (s : Sched) (p : Polled) → P s p → P s (or_node env p)
  unfolding or_node
  or_node-closed s (s1, true) a = a
  or_node-closed s (s1, false) a =
      closed.after s s1 (poll_node_queues_first env s1) a (poll_node_queues_first-closed s1)

  after_progress-closed :
      (x : Bool × Queues) (s : Sched)
      → ((found_nothing : Bool)
          → P s (record s { queues = x.1; found_nothing = found_nothing }, false))
      → P s (after_progress env x s)
  unfolding after_progress
  after_progress-closed (true, q) s h =
      let s1 : Sched = record s { queues = q } in
      closed.after s s1 (or_node env (run_thread env s1)) (h s.found_nothing)
        (or_node-closed s1 (run_thread env s1) (run_thread-closed s1))
  after_progress-closed (false, q) s h = h true

  run_progress-closed : (s : Sched) → P s (run_progress env s)
  unfolding run_progress
  run_progress-closed s =
      let polled = progress s.queues.network s.queues in
      if_cases (P s) s.found_nothing (s, false)
        (if env.polls_progress then after_progress env polled s else (s, false))
        (λ p. closed.stays s)
        (λ p.
          if_cases (P s) env.polls_progress (after_progress env polled s) (s, false)
            (λ q. after_progress-closed polled s (closed.polls s)) (λ q. closed.stays s))

  run_slot-closed : (o : Option Poll) (s : Sched) → P s (run_slot env o s)
  unfolding run_slot run_poll
  run_slot-closed none s = closed.stays s
  run_slot-closed (some poll_converse_thread_queue) s = run_thread-closed s
  run_slot-closed (some poll_node_prio_queue) s =
      closed.takes s (take_node_prio env s.queues) of_node_prio
  run_slot-closed (some poll_thread_prio_queue) s =
      closed.takes s (take_thread_prio s.queues) of_thread_prio
  run_slot-closed (some poll_progress) s = run_progress-closed s
  run_slot-closed (some poll_task_queue) s =
      closed.takes s (take_task_list s.queues.tasks s.queues) of_tasks

  further-closed :
      (s : Sched) (r further : Polled) → P s r → P r.0 further → P s (if r.1 then r else further)
  further-closed s (s1, true) further a b = a
  further-closed s (s1, false) further a b = closed.after s s1 further a b

  sweep-closed : (table : Table Poll) (t idx : ℕ) (s : Sched) → P s (sweep env table t idx s)
  unfolding sweep
  sweep-closed table zero idx s = closed.stays s
  sweep-closed table (suc t) idx s =
      let slot = run_slot env (get_or table (idx % sched_table_size) none) s in
      further-closed s slot (sweep env table t (idx + 1) slot.0)
        (run_slot-closed (get_or table (idx % sched_table_size) none) s)
        (sweep-closed table t (idx + 1) slot.0)

  or_sweep-closed :
      (table : Table Poll) (counter : ℕ) (s : Sched) (r : Polled)
      → P s r
      → P s (or_sweep env table counter r)
  unfolding or_sweep
  or_sweep-closed table counter s (s1, true) a = a
  or_sweep-closed table counter s (s1, false) a =
      closed.after s s1 (sweep env table sched_table_size counter s1) a
        (sweep-closed table sched_table_size counter s1)

  pub find_work-closed :
      (table : Table Poll) (counter : ℕ) (s : Sched) → P s (find_work env table counter s)
  unfolding find_work
  find_work-closed table counter s =
      or_sweep-closed table counter s (or_node env (run_thread env s))
        (or_node-closed s (run_thread env s) (run_thread-closed s))
