-- ===== src/OldScheduler.antt =====
-- The loops of the original scheduler, src/scheduler_old.cpp. A PE's state and the sources of its
-- messages are those of the registered scheduler; the field `node_streak` is the loop's
-- `nq_streak`, and the mark of a fruitless network poll is not used.
mod Turns
mod Waits
mod Empty
mod Tests
use reconverse.Prelude.{
  ℕ, zero, suc, ◌+◌, ◌-◌, ◌/◌, Bool, true, false, not, ◌&&◌, ◌||◌, Option, none, some, List, [],
  ◌∷◌, ltb, ◌==◌, if◌then◌else◌,
}
use reconverse.PrioQueue.{live, is_queue_empty, top, dequeue}
use reconverse.Scheduler.{
  Queues, Sched, Taken, Polled, Env, take_node_list, take_thread_list, take_task_list,
  remove_node_prio, progress, run_taken, poll_ipc, set_idle, sched_loop,
}

-- What a loop keeps between its iterations; `nq_streak` is in the PE's state.
pub record Old : Type 0 where
  pub pe : Sched
  pub tq_streak : ℕ

abbrev pub no_message : List ℕ → Bool
no_message [] = true
no_message (m ∷ ms) = false

-- BACKEND_POLL_FREQ_DEFAULT
abbrev pub backend_poll_freq_default : ℕ
backend_poll_freq_default = 64

-- The iterations from one poll of the network to the next; `none` is a division by zero.
pub poll_period : ℕ → Option ℕ
poll_period zero = none
poll_period (suc f) = let p = backend_poll_freq_default / suc f in some (if ltb p 1 then 1 else p)

-- `QueueTop(q); QueuePop(q)` on CsdSchedQueue
abbrev pub remove_sched : Queues → Taken
remove_sched q = (top (live q.sched), record q { sched = dequeue q.sched })

module _ (env : Env) (thread_queue_max : ℕ) where
  -- A message of the process is run and counted.
  pub run_counted : Taken → Sched → Polled
  unfolding run_taken
  run_counted (none, q) s = (record s { queues = q }, true)
  run_counted (some m, q) s =
      run_taken env (some m, q) (record s { node_streak = s.node_streak + 1 })

  -- The condition of the first branch
  pub node_turn : Sched → Bool
  node_turn s =
      not (no_message s.queues.node_queue)
      && (ltb s.node_streak env.node_queue_max
          || (no_message s.queues.thread_queue && is_queue_empty (live s.queues.sched)))

  -- The thread queue's branch, at its pop
  pub run_thread_counted : Taken → Old → Old
  unfolding run_taken
  run_thread_counted (none, q) o = record o { pe = record o.pe { queues = q } }
  run_thread_counted (some m, q) o = record {
    pe = (run_taken env (some m, q) o.pe).0;
    tq_streak = o.tq_streak + 1;
  }

  -- The thread queue's branch: one message of the PE's own queue after +thread_queue_max of them
  pub thread_branch : Old → Old
  unfolding run_thread_counted run_taken
  thread_branch o =
      let s = record o.pe { node_streak = 0 } in
      if ltb o.tq_streak thread_queue_max || is_queue_empty (live s.queues.sched)
      then run_thread_counted (take_thread_list s.queues.thread_queue s.queues)
          (record o { pe = s })
      else record { pe = (run_taken env (remove_sched s.queues) s).0; tq_streak = 0 }

  -- The PE's own queue, or else its tasks: whether a message was there
  pub own_branch : Sched → Polled
  unfolding run_taken
  own_branch s =
      if is_queue_empty (live s.queues.sched)
      then run_taken env (take_task_list s.queues.tasks s.queues) s
      else ((run_taken env (remove_sched s.queues) s).0, true)

  -- The last branch: the priority queue of the process, if it is this one's turn, and what comes
  -- after it
  pub prio_branch : Sched → Polled
  unfolding run_counted own_branch
  prio_branch s =
      if (ltb s.node_streak env.node_queue_max || is_queue_empty (live s.queues.sched))
        && ltb 0 s.queues.node_len
        && env.try_lock s.queues
      then (if not (is_queue_empty (live s.queues.node_prio))
          then run_counted (remove_node_prio s.queues) s
          else own_branch (record s { node_streak = 0 }))
      else own_branch (record s { node_streak = 0 })

  -- The chain of branches in both loops; `false` is where a loop turns idle, or ends.
  pub chain : Old → Old × Bool
  unfolding node_turn run_counted thread_branch prio_branch
  chain o =
      let last = prio_branch o.pe in
      if node_turn o.pe
      then (
        record o { pe = (run_counted (take_node_list o.pe.queues.node_queue o.pe.queues) o.pe).0 },
        true,
      )
      else (if not (no_message o.pe.queues.thread_queue)
          then (thread_branch o, true)
          else (record { pe = last.0; tq_streak = 0 }, last.1))

  -- The start of an iteration
  pub begin_old : Old → Old
  unfolding poll_ipc
  begin_old o = record o {
    pe = record o.pe { queues = (poll_ipc env (env.raise sched_loop o.pe.queues)).1 };
  }

  -- The end of an iteration of CsdSchedulerOld, with loop_counter
  pub end_old : ℕ → Old × ℕ → Old × ℕ
  end_old period (o, loop_counter) =
      if env.polls_progress
      then (if loop_counter == (period - 1)
          then (
            record o { pe = record o.pe { queues = (progress o.pe.queues.network o.pe.queues).1 } },
            0,
          )
          else (o, loop_counter + 1))
      else (o, loop_counter)

  -- What CsdSchedulerOld does once its chain is through
  pub idle_old : Bool → Old × Bool → Old
  unfolding set_idle
  idle_old long (o, true) = o
  idle_old long (o, false) = record o { pe = set_idle env long o.pe }

  -- One iteration of CsdSchedulerOld; CsdPeriodic is part of `raise`.
  pub iteration_old : Bool → ℕ → Old × ℕ → Old × ℕ
  unfolding begin_old chain idle_old end_old
  iteration_old long period (o, loop_counter) =
      end_old period (idle_old long (chain (begin_old o)), loop_counter)

  -- What CsdSchedulePollOld does once its chain is through, and whether it goes on
  pub break_old : Old × Bool → Old × Bool
  break_old (o, true) = (o, true)
  break_old (o, false) = (
    record o { pe = record o.pe { queues = (progress o.pe.queues.network o.pe.queues).1 } },
    false,
  )

  -- One iteration of CsdSchedulePollOld
  pub iteration_poll_old : Old → Old × Bool
  unfolding begin_old chain break_old
  iteration_poll_old o = break_old (chain (begin_old o))
