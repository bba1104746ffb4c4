-- ===== src/OldScheduler/Turns.antt =====
-- Which branch of the chain in src/scheduler_old.cpp an iteration takes, and what it does to the
-- streaks.
use reconverse.Prelude.{
  ℕ, ◌+◌, ◌<◌, ◌≡◌, refl, Bool, true, false, not, ◌||◌, some, List, [], ◌∷◌, ltb, if◌then◌else◌,
  if_cases, arith, ◌⊎◌, inl, inr,
}
use reconverse.PrioQueue.{live, is_queue_empty, top}
use reconverse.Scheduler.{
  Queues, Sched, Env, take_node_list, take_thread_list, run_taken, release_idle,
}
use reconverse.OldScheduler.{
  Old, no_message, remove_sched, run_counted, node_turn, run_thread_counted, thread_branch,
  prio_branch, chain,
}

-- Where the PE's own priority queue has the message `m` at its front: the chain has run it, or it has
-- run a message of the process, or one of the thread queue, and has counted that within the bound.
abbrev pub Turn : Env → ℕ → ℕ → Old → Old → Type 0
Turn env thread_queue_max m o r =
    (r.pe.ran ≡ m ∷ o.pe.ran)
    ⊎ ((r.pe.node_streak ≡ o.pe.node_streak + 1)
        × (o.pe.node_streak < env.node_queue_max)
        × (r.tq_streak ≡ o.tq_streak))
    ⊎ ((r.pe.node_streak ≡ 0) × (r.tq_streak ≡ o.tq_streak + 1) × (o.tq_streak < thread_queue_max))

module _ (env : Env) (thread_queue_max : ℕ) where
  ran-some :
      (s : Sched) (q : Queues) (m : ℕ)
      → ((run_taken env (some m, q) s).0.ran ≡ m ∷ s.ran)
        × ((run_taken env (some m, q) s).0.node_streak ≡ s.node_streak)
  unfolding run_taken release_idle
  ran-some s q m =
      if_cases (λ (r : Sched). (m ∷ r.ran ≡ m ∷ s.ran) × (r.node_streak ≡ s.node_streak)) s.idle
        (record s { idle = false; queues = env.raise 1 q }) (record s { queues = q })
        (λ p. (refl, refl)) (λ p. (refl, refl))

  counted-streak :
      (ms : List ℕ) (s : Sched)
      → no_message ms ≡ false
      → (run_counted env thread_queue_max (take_node_list ms s.queues) s).0.node_streak
        ≡ s.node_streak + 1
  unfolding run_counted take_node_list
  counted-streak [] s e = absurd (cc)
  counted-streak (m ∷ ms) s e =
      (ran-some (record s { node_streak = s.node_streak + 1 }) (record s.queues { node_queue = ms })
        m).1

  thread-streak :
      (ms : List ℕ) (o : Old)
      → no_message ms ≡ false
      → ((run_thread_counted env thread_queue_max (take_thread_list ms o.pe.queues) o).tq_streak
          ≡ o.tq_streak + 1)
        × ((run_thread_counted env thread_queue_max
              (take_thread_list ms o.pe.queues)
              o).pe.node_streak
            ≡ o.pe.node_streak)
  unfolding run_thread_counted take_thread_list
  thread-streak [] o e = absurd (cc)
  thread-streak (m ∷ ms) o e =
      (refl, (ran-some o.pe (record o.pe.queues { thread_queue = ms }) m).1)

  own-ran :
      (s : Sched) (m : ℕ)
      → top (live s.queues.sched) ≡ some m
      → (run_taken env (remove_sched s.queues) s).0.ran ≡ m ∷ s.ran
  own-ran s m t = rw t ((ran-some s (remove_sched s.queues).1 m).0)

  thread_branch-Turn :
      (o : Old) (m : ℕ)
      → no_message o.pe.queues.thread_queue ≡ false
      → is_queue_empty (live o.pe.queues.sched) ≡ false
      → top (live o.pe.queues.sched) ≡ some m
      → Turn env thread_queue_max m o (thread_branch env thread_queue_max o)
  unfolding thread_branch
  thread_branch-Turn o m e b t =
      if_cases (Turn env thread_queue_max m o)
        (ltb o.tq_streak thread_queue_max || is_queue_empty (live o.pe.queues.sched))
        (run_thread_counted env thread_queue_max
          (take_thread_list o.pe.queues.thread_queue o.pe.queues)
          (record o { pe = record o.pe { node_streak = 0 } }))
        (record {
          pe = (run_taken env (remove_sched o.pe.queues) (record o.pe { node_streak = 0 })).0;
          tq_streak = 0;
        })
        (λ p.
          let k =
            thread-streak o.pe.queues.thread_queue
              (record o { pe = record o.pe { node_streak = 0 } }) e in
          inr (inr (k.1, k.0, ground (arith, p, b))))
        (λ p. inl (own-ran (record o.pe { node_streak = 0 }) m t))

  -- The chain where both the thread queue and the PE's own priority queue have a message.
  pub chain-Turn :
      (o : Old) (m : ℕ)
      → no_message o.pe.queues.thread_queue ≡ false
      → is_queue_empty (live o.pe.queues.sched) ≡ false
      → top (live o.pe.queues.sched) ≡ some m
      → Turn env thread_queue_max m o (chain env thread_queue_max o).0
  unfolding chain node_turn
  chain-Turn o m e b t =
      if_cases (λ (r : Old × Bool). Turn env thread_queue_max m o r.0)
        (node_turn env thread_queue_max o.pe)
        (
          record o {
            pe =
                (run_counted env thread_queue_max
                  (take_node_list o.pe.queues.node_queue o.pe.queues) o.pe).0;
          },
          true,
        )
        (if not (no_message o.pe.queues.thread_queue)
          then (thread_branch env thread_queue_max o, true)
          else (
            record { pe = (prio_branch env thread_queue_max o.pe).0; tq_streak = 0 },
            (prio_branch env thread_queue_max o.pe).1,
          ))
        (λ p. inr (
          inl (
            counted-streak o.pe.queues.node_queue o.pe (ground (arith, p)),
            ground (arith, p, b),
            refl,
          )))
        (λ p. rw e (thread_branch-Turn o m e b t))
