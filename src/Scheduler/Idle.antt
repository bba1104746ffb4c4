-- ===== src/Scheduler/Idle.antt =====
-- When the loops of src/scheduler_registered.cpp find no work: the queues of the PE then, with the
-- slot table that CmiQueueRegisterInitThread builds.
use reconverse.Prelude.{
  ℕ, ◌+◌, ◌-◌, ◌%◌, ◌^◌, ◌<◌, ◌≡◌, ◌≢◌, refl, sym, ap, subst, ◌∙◌, true, false, none, some, List,
  [], ◌∷◌, get_or, arith,
}
use reconverse.PrioQueue.{live, is_queue_empty}
use reconverse.Registry.{Table, sched_table_size, total_of, normalize, sum, add_list_of_handlers}
use reconverse.Registry.Place.{Holds}
use reconverse.Registry.Fill.{AllHeld, add_list_of_handlers-AllHeld}
use reconverse.Scheduler.{
  Env, Queues, Sched, Polled, Poll, poll_converse_thread_queue, poll_node_prio_queue,
  poll_thread_prio_queue, poll_progress, poll_task_queue, run_thread, or_node, sweep, or_sweep,
  find_work,
}
use reconverse.Scheduler.Quiet.{Ready, Quiet, Nothing}
use reconverse.Scheduler.Vain.{or_node-false}
use reconverse.Scheduler.Sweep.{sweep-Swept}

-- CmiQueueRegisterInitThread, with CMK_TASKQUEUE; `freq` is backend_poll_freq.
abbrev pub registered_handlers : ℕ → List (Poll × ℕ)
registered_handlers freq =
    (poll_converse_thread_queue, 16)
    ∷ (poll_node_prio_queue, 1)
    ∷ (poll_thread_prio_queue, 16)
    ∷ (poll_progress, freq)
    ∷ (poll_task_queue, 1)
    ∷ []

-- No converse queue has a message that a pop would find, and the priority queues and the task queue
-- are empty.
abbrev pub Drained : Queues → Type 0
Drained q =
    (q.thread_queue ≡ [])
    × (q.node_queue ≡ [])
    × (is_queue_empty (live q.node_prio) ≡ true)
    × (is_queue_empty (live q.sched) ≡ true)
    × (q.tasks ≡ [])

module _ (env : Env) (lock : (q : Queues) → env.try_lock q ≡ true) (table : Table Poll) where
  -- Each slot is reached from wherever the sweep begins.
  all_tried :
      (counter : ℕ) (s : Sched) (p : Poll)
      → ((i : ℕ) × (i < sched_table_size) × Holds table i p)
      → Ready s.queues
      → (sweep env table sched_table_size counter s).1 ≡ false
      → Nothing p (sweep env table sched_table_size counter s).0.queues
  all_tried counter s p at v e =
      (sweep-Swept env lock table sched_table_size counter s v e).1
        ((at.0 + sched_table_size - counter % sched_table_size) % sched_table_size) (omega arith) p
        (subst (λ i. get_or table i none ≡ some p) (sym (lands at.0 at.1)) at.2)
    where
      lands :
          (i : ℕ)
          → i < sched_table_size
          → (counter + (i + sched_table_size - counter % sched_table_size) % sched_table_size)
              % sched_table_size
            ≡ i
      lands i h = omega arith

  swept-Drained :
      (freq counter : ℕ) (s : Sched)
      → AllHeld table (registered_handlers freq)
      → Ready s.queues
      → Quiet s.queues
      → (sweep env table sched_table_size counter s).1 ≡ false
      → Drained (sweep env table sched_table_size counter s).0.queues
        × ((sweep env table sched_table_size counter s).0.ran ≡ s.ran)
  swept-Drained freq counter s held v quiet e =
      let f = (sweep-Swept env lock table sched_table_size counter s v e).0 in
      let q = f.2 quiet in
      let local = all_tried counter s poll_thread_prio_queue held.1.1.0 v e in
      (
        (
          q.0,
          q.1 local,
          all_tried counter s poll_node_prio_queue held.1.0 v e,
          local,
          all_tried counter s poll_task_queue held.1.1.1.1.0 v e,
        ),
        f.1,
      )

  -- What comes before the sweep leaves nothing behind either.
  or_sweep-Drained :
      (freq counter : ℕ) (s : Sched) (r : Polled)
      → r ≡ or_node env (run_thread env s)
      → AllHeld table (registered_handlers freq)
      → Ready s.queues
      → (or_sweep env table counter r).1 ≡ false
      → Drained (or_sweep env table counter r).0.queues
        × ((or_sweep env table counter r).0.ran ≡ s.ran)
  unfolding or_sweep
  or_sweep-Drained freq counter s (s1, true) i held v e = absurd (cc)
  or_sweep-Drained freq counter s (s1, false) i held v e =
      let o = or_node-false env s v (sym (ap (λ (p : Polled). p.1) i)) in
      let same : s1 ≡ record s { node_streak = 0 } = ap (λ (p : Polled). p.0) i ∙ o.0 in
      subst
        (λ (z : Sched).
          (sweep env table sched_table_size counter z).1 ≡ false
          → Drained (sweep env table sched_table_size counter z).0.queues
            × ((sweep env table sched_table_size counter z).0.ran ≡ s.ran))
        (sym same) (swept-Drained freq counter (record s { node_streak = 0 }) held v o.1) e

  find_work-Drained :
      (freq counter : ℕ) (s : Sched)
      → AllHeld table (registered_handlers freq)
      → Ready s.queues
      → (find_work env table counter s).1 ≡ false
      → Drained (find_work env table counter s).0.queues
        × ((find_work env table counter s).0.ran ≡ s.ran)
  unfolding find_work
  find_work-Drained freq counter s held v e =
      or_sweep-Drained freq counter s (or_node env (run_thread env s)) refl held v e

  -- With the table that CmiQueueRegisterInitThread builds, and the lock of the node priority queue to
  -- be had: if an iteration finds no work then it has run no message, and leaves the priority queues
  -- and the task queue of this PE empty and no message in the converse queues that a pop would find,
  -- from whichever slot the sweep began. Of shared memory and the network it says nothing. The total
  -- frequency is not 0, and the number of slots before the trimming does not wrap.
  pub find_work_lem :
      (freq counter : ℕ) (s : Sched)
      → total_of (registered_handlers freq) ≢ 0
      → sum (normalize (total_of (registered_handlers freq)) (registered_handlers freq)) < 2 ^ 32
      → add_list_of_handlers (registered_handlers freq) ≡ some table
      → Ready s.queues
      → (find_work env table counter s).1 ≡ false
      → Drained (find_work env table counter s).0.queues
        × ((find_work env table counter s).0.ran ≡ s.ran)
  find_work_lem freq counter s some_work small built v e =
      let a =
        add_list_of_handlers-AllHeld (registered_handlers freq) some_work (omega arith) small in
      find_work-Drained freq counter s
        (subst (λ t. AllHeld t (registered_handlers freq)) (same a.0 a.1) a.3) v e
    where
      same : (t : Table Poll) → add_list_of_handlers (registered_handlers freq) ≡ some t → t ≡ table
      same t p = cc
