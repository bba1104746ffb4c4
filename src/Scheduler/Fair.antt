-- ===== src/Scheduler/Fair.antt =====
-- What an iteration of src/scheduler_registered.cpp runs, and for how long pollNodeQueuesFirst may go
-- ahead of the PE's own priority queue.
use reconverse.Prelude.{
  ℕ, zero, suc, ◌+◌, ◌<◌, ◌≤◌, ◌≡◌, refl, ap, ◌∙◌, true, false, not, ◌&&◌, none, some, ◌∷◌, leb,
  if_cases, arith,
}
use reconverse.PrioQueue.{live, is_queue_empty}
use reconverse.Scheduler.Traverse.{Closed, find_work-closed}
use reconverse.Registry.{Table}
use reconverse.Scheduler.{
  Env, Sched, Taken, Polled, take_node_list, take_node_prio_if_ahead, Poll, release_idle, run_taken,
  count_streak, or_ahead, poll_node_queues_first, find_work,
}

-- A poll that reports work has run one message and left the PE busy; one that reports none has run
-- nothing.
abbrev pub Ran : Sched → Polled → Type 0
Ran s (r, true) = (m : ℕ) × (r.ran ≡ m ∷ s.ran) × (r.idle ≡ false)
Ran s (r, false) = (r.ran ≡ s.ran) × (r.idle ≡ s.idle)

module _ (env : Env) where
  release_idle-idle : (s : Sched) → (release_idle env s).idle ≡ false
  unfolding release_idle
  release_idle-idle s =
      if_cases (λ (r : Sched). r.idle ≡ false) s.idle
        (record s { idle = false; queues = env.raise 1 s.queues }) s (λ p. refl) (λ p. p)

  pub release_idle-same :
      (s : Sched)
      → ((release_idle env s).ran ≡ s.ran) × ((release_idle env s).node_streak ≡ s.node_streak)
  unfolding release_idle
  release_idle-same s =
      if_cases (λ (r : Sched). (r.ran ≡ s.ran) × (r.node_streak ≡ s.node_streak)) s.idle
        (record s { idle = false; queues = env.raise 1 s.queues }) s (λ p. (refl, refl))
        (λ p. (refl, refl))

  run_taken-Ran : (t : Taken) (s : Sched) → Ran s (run_taken env t s)
  unfolding run_taken
  run_taken-Ran (none, q) s = (refl, refl)
  run_taken-Ran (some m, q) s =
      let r = release_idle-same (record s { queues = q }) in
      (m, ap (λ ms. m ∷ ms) r.0, release_idle-idle (record s { queues = q }))

  Ran-after : (s s1 : Sched) (p : Polled) → Ran s (s1, false) → Ran s1 p → Ran s p
  Ran-after s s1 (r, true) a b = (b.0, b.1 ∙ ap (λ ms. b.0 ∷ ms) a.0, b.2)
  Ran-after s s1 (r, false) a b = (b.0 ∙ a.0, b.1 ∙ a.1)

  count_streak-Ran : (s : Sched) (p : Polled) → Ran s p → Ran s (count_streak env p)
  unfolding count_streak
  count_streak-Ran s (s1, true) a = a
  count_streak-Ran s (s1, false) a = a

  Ran-closed : Closed env Ran
  Ran-closed = record {
    after = Ran-after;
    stays = λ s. (refl, refl);
    resets = λ s. (refl, refl);
    counts = count_streak-Ran;
    polls = λ s f. (refl, refl);
    takes = λ s t h. run_taken-Ran t s;
  }

  -- Each iteration that finds work runs exactly one message and leaves the PE marked as busy,
  -- whichever source the message comes from; each that finds none runs no message and does not
  -- change the mark.
  pub find_work-Ran :
      (table : Table Poll) (counter : ℕ) (s : Sched) → Ran s (find_work env table counter s)
  find_work-Ran = find_work-closed env Ran Ran-closed

  run_taken-streak : (t : Taken) (s : Sched) → (run_taken env t s).0.node_streak ≡ s.node_streak
  unfolding run_taken
  run_taken-streak (none, q) s = refl
  run_taken-streak (some m, q) s = (release_idle-same (record s { queues = q })).1

  or_ahead-streak : (p : Polled) → (or_ahead env p).0.node_streak ≡ p.0.node_streak
  unfolding or_ahead
  or_ahead-streak (s, true) = refl
  or_ahead-streak (s, false) = run_taken-streak (take_node_prio_if_ahead env s.queues) s

  count_streak-streak :
      (p : Polled)
      → (count_streak env p).1 ≡ true
      → (count_streak env p).0.node_streak ≡ p.0.node_streak + 1
  unfolding count_streak
  count_streak-streak (s, true) e = refl
  count_streak-streak (s, false) e = absurd (cc)

  poll_node_queues_first-streak :
      (s : Sched)
      → (poll_node_queues_first env s).1 ≡ true
      → is_queue_empty (live s.queues.sched) ≡ false
      → ((poll_node_queues_first env s).0.node_streak ≡ s.node_streak + 1)
        × (s.node_streak < env.node_queue_max)
  unfolding poll_node_queues_first
  poll_node_queues_first-streak s =
      if_cases
        (λ (r : Polled).
          r.1 ≡ true
          → is_queue_empty (live s.queues.sched) ≡ false
          → (r.0.node_streak ≡ s.node_streak + 1) × (s.node_streak < env.node_queue_max))
        (leb env.node_queue_max s.node_streak && not (is_queue_empty (live s.queues.sched)))
        (record s { node_streak = 0 }, false) (count_streak env (or_ahead env taken))
        (λ p e. absurd (cc))
        (λ p e b. (
          count_streak-streak (or_ahead env taken) e
              ∙ ap (λ n. n + 1)
                  (or_ahead-streak taken
                    ∙ run_taken-streak (take_node_list s.queues.node_queue s.queues) s),
          ground (arith, p, b),
        ))
    where
      taken : Polled
      taken = run_taken env (take_node_list s.queues.node_queue s.queues) s

  -- Calls of pollNodeQueuesFirst that each ran a node-level message while the PE's own priority
  -- queue had work. Between two calls all else of the PE's state may change.
  pub data NodeRuns : ℕ → Sched → Type 0 where
    begin : (s : Sched) → NodeRuns 0 s
    again :
        (n : ℕ) (s r : Sched)
        → NodeRuns n s
        → r.node_streak ≡ s.node_streak
        → is_queue_empty (live r.queues.sched) ≡ false
        → (poll_node_queues_first env r).1 ≡ true
        → NodeRuns (suc n) (poll_node_queues_first env r).0

  streak_counts :
      {n : ℕ} {s : Sched}
      → NodeRuns n s
      → (n ≤ s.node_streak) × (1 ≤ n → s.node_streak ≤ env.node_queue_max)
  streak_counts (begin s) = (omega arith, λ h. elim h [ ])
  streak_counts (again n s r before same busy took) =
      let i = streak_counts before in
      let p = poll_node_queues_first-streak r took busy in
      (omega (arith, i.0, p.0, same), λ h. omega (arith, p.0, p.1))

  -- At most +node_queue_max calls of pollNodeQueuesFirst in a row each run a node-level message while
  -- the PE's own priority queue has work. Node messages that are run after a call that left the turn
  -- to local work, in the same iteration too, and those that the sweep takes from the node priority
  -- queue, do not belong to the row.
  pub NodeRuns-bounded : (n : ℕ) (s : Sched) → NodeRuns n s → n ≤ env.node_queue_max
  NodeRuns-bounded zero s runs = omega arith
  NodeRuns-bounded (suc n) s runs =
      let c = streak_counts runs in let top = c.1 (omega arith) in omega (arith, c.0, top)
