-- ===== src/OldScheduler/Empty.antt =====
-- When CsdSchedulePollOld of src/scheduler_old.cpp returns.
use reconverse.Prelude.{
  ℕ, ◌<◌, ◌≡◌, refl, ap, ◌∙◌, Bool, true, false, not, ◌&&◌, ◌||◌, none, some, List, [], ◌∷◌, ltb,
  if◌then◌else◌, if_cases, Bool-cases, inl, inr, arith,
}
use reconverse.PrioQueue.{live, is_queue_empty}
use reconverse.Scheduler.{
  Queues, Sched, Taken, Polled, Env, take_node_list, take_task_list, remove_node_prio, run_taken,
}
use reconverse.Scheduler.Quiet.{Ready, take_task_list-none}
use reconverse.Scheduler.Vain.{run_taken-false}
use reconverse.Scheduler.Idle.{Drained}
use reconverse.OldScheduler.{
  Old, no_message, remove_sched, run_counted, node_turn, thread_branch, own_branch, prio_branch,
  chain, begin_old, break_old, iteration_poll_old,
}

none-left : (ms : List ℕ) → no_message ms ≡ true → ms ≡ []
none-left [] e = refl
none-left (m ∷ ms) e = absurd (cc)

module _ (env : Env) (thread_queue_max : ℕ) where
  run_counted-true : (t : Taken) (s : Sched) → (run_counted env thread_queue_max t s).1 ≡ true
  unfolding run_counted run_taken
  run_counted-true (none, q) s = refl
  run_counted-true (some m, q) s = refl

  own_branch-false :
      (s : Sched)
      → (own_branch env thread_queue_max s).1 ≡ false
      → (is_queue_empty (live s.queues.sched) ≡ true)
        × (s.queues.tasks ≡ [])
        × ((own_branch env thread_queue_max s).0.ran ≡ s.ran)
  unfolding own_branch
  own_branch-false s =
      if_cases
        (λ (r : Polled).
          r.1 ≡ false
          → (is_queue_empty (live s.queues.sched) ≡ true)
            × (s.queues.tasks ≡ [])
            × (r.0.ran ≡ s.ran))
        (is_queue_empty (live s.queues.sched))
        (run_taken env (take_task_list s.queues.tasks s.queues) s)
        ((run_taken env (remove_sched s.queues) s).0, true)
        (λ p e.
          let r = run_taken-false env (take_task_list s.queues.tasks s.queues) s e in
          let n = take_task_list-none s.queues.tasks s.queues r.0 in
          (p, n.1, ap (λ (z : Sched). z.ran) r.1))
        (λ p e. absurd (cc))

  prio_branch-false :
      (s : Sched)
      → ((q : Queues) → env.try_lock q ≡ true)
      → Ready s.queues
      → (prio_branch env thread_queue_max s).1 ≡ false
      → (is_queue_empty (live s.queues.node_prio) ≡ true)
        × (is_queue_empty (live s.queues.sched) ≡ true)
        × (s.queues.tasks ≡ [])
        × ((prio_branch env thread_queue_max s).0.ran ≡ s.ran)
  unfolding prio_branch
  prio_branch-false s lock v =
      if_cases Result
        ((ltb s.node_streak env.node_queue_max || is_queue_empty (live s.queues.sched))
          && ltb 0 s.queues.node_len
          && env.try_lock s.queues)
        (if not (is_queue_empty (live s.queues.node_prio))
          then run_counted env thread_queue_max (remove_node_prio s.queues) s
          else own)
        own
        (λ p.
          if_cases Result (not (is_queue_empty (live s.queues.node_prio)))
            (run_counted env thread_queue_max (remove_node_prio s.queues) s) own
            (λ q e. absurd (clash (run_counted-true (remove_node_prio s.queues) s) e))
            (λ q e.
              let o = own_branch-false (record s { node_streak = 0 }) e in
              (ground (arith, q), o.0, o.1, o.2)))
        (λ p e.
          let o = own_branch-false (record s { node_streak = 0 }) e in
          (not_behind p o.0, o.0, o.1, o.2))
    where
      own : Polled
      own = own_branch env thread_queue_max (record s { node_streak = 0 })

      Result : Polled → Type 0
      Result r =
          r.1 ≡ false
          → (is_queue_empty (live s.queues.node_prio) ≡ true)
            × (is_queue_empty (live s.queues.sched) ≡ true)
            × (s.queues.tasks ≡ [])
            × (r.0.ran ≡ s.ran)

      clash : {b : Bool} → b ≡ true → b ≡ false → ⊥
      clash p q = cc

      not_behind :
          ((ltb s.node_streak env.node_queue_max || is_queue_empty (live s.queues.sched))
              && ltb 0 s.queues.node_len
              && env.try_lock s.queues
            ≡ false)
          → is_queue_empty (live s.queues.sched) ≡ true
          → is_queue_empty (live s.queues.node_prio) ≡ true
      not_behind p e = elim (Bool-cases (is_queue_empty (live s.queues.node_prio))) [
        | inl q ↦ q
        | inr q ↦ absurd (late p e (v.2 q) (lock s.queues))
      ]
        where
          late :
              ((ltb s.node_streak env.node_queue_max || is_queue_empty (live s.queues.sched))
                  && ltb 0 s.queues.node_len
                  && env.try_lock s.queues
                ≡ false)
              → is_queue_empty (live s.queues.sched) ≡ true
              → 0 < s.queues.node_len
              → env.try_lock s.queues ≡ true
              → ⊥
          late p e n l = ground (arith)

  chain-Drained :
      (o : Old)
      → ((q : Queues) → env.try_lock q ≡ true)
      → Ready o.pe.queues
      → (chain env thread_queue_max o).1 ≡ false
      → Drained o.pe.queues × ((chain env thread_queue_max o).0.pe.ran ≡ o.pe.ran)
  unfolding chain node_turn
  chain-Drained o lock v =
      if_cases Result (node_turn env thread_queue_max o.pe)
        (
          record o {
            pe =
                (run_counted env thread_queue_max
                  (take_node_list o.pe.queues.node_queue o.pe.queues) o.pe).0;
          },
          true,
        )
        (if not (no_message o.pe.queues.thread_queue)
          then (thread_branch env thread_queue_max o, true)
          else last)
        (λ p e. absurd (cc))
        (λ p.
          if_cases Result (not (no_message o.pe.queues.thread_queue))
            (thread_branch env thread_queue_max o, true) last (λ q e. absurd (cc))
            (λ q e.
              let b = prio_branch-false o.pe lock v e in
              (
                (
                  none-left o.pe.queues.thread_queue (ground (arith, q)),
                  none-left o.pe.queues.node_queue (ground (arith, p, q, b.1)),
                  b.0,
                  b.1,
                  b.2,
                ),
                b.3,
              )))
    where
      last : Old × Bool
      last = (
        record { pe = (prio_branch env thread_queue_max o.pe).0; tq_streak = 0 },
        (prio_branch env thread_queue_max o.pe).1,
      )

      Result : Old × Bool → Type 0
      Result r = r.1 ≡ false → Drained o.pe.queues × (r.0.pe.ran ≡ o.pe.ran)

  break_old-false :
      (r : Old × Bool)
      → (break_old env thread_queue_max r).1 ≡ false
      → (r.1 ≡ false) × ((break_old env thread_queue_max r).0.pe.ran ≡ r.0.pe.ran)
  unfolding break_old
  break_old-false (o, true) e = absurd (cc)
  break_old-false (o, false) e = (refl, refl)

  -- With the lock of the node priority queue to be had: if an iteration of CsdSchedulePollOld ends
  -- the loop then it has run no message, and the priority queues and the task queue were empty when
  -- it looked, and the converse queues without a message that a pop would find, after shared memory
  -- had been polled; what the network brings in the last poll stays for the next
  -- call.
  pub iteration_poll_old-Drained :
      (o : Old)
      → ((q : Queues) → env.try_lock q ≡ true)
      → Ready (begin_old env thread_queue_max o).pe.queues
      → (iteration_poll_old env thread_queue_max o).1 ≡ false
      → Drained (begin_old env thread_queue_max o).pe.queues
        × ((iteration_poll_old env thread_queue_max o).0.pe.ran ≡ o.pe.ran)
  unfolding iteration_poll_old begin_old
  iteration_poll_old-Drained o lock v e =
      let b = begin_old env thread_queue_max o in
      let r = break_old-false (chain env thread_queue_max b) e in
      let d = chain-Drained b lock v r.0 in (d.0, r.1 ∙ d.1)
