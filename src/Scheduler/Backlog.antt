-- ===== src/Scheduler/Backlog.antt =====
-- The backlog of a PE in the loops of src/scheduler_registered.cpp, where running a message and
-- raising a condition send no messages: each message that is run makes it smaller.
use reconverse.Prelude.{
  ℕ, ◌+◌, ◌*◌, ◌≤◌, ◌≡◌, refl, ap, Bool, true, false, none, some, List, [], ◌∷◌, length,
  if◌then◌else◌, if_cases, arith,
}
use reconverse.Registry.{Table}
use reconverse.Scheduler.{
  Env, Queues, Sched, Taken, Polled, progress, deliver, Arrival, to_thread, to_node, elsewhere,
  Poll, run_taken, release_idle, count_streak, find_work,
}
use reconverse.Scheduler.Takes.{
  held_in, AreValid, Keeps, take_thread_list-Keeps, take_node_list-Keeps, take_task_list-Keeps,
  take_thread_prio-Keeps, take_node_prio-Keeps, take_node_prio_if_ahead-Keeps, progress-weight,
}
use reconverse.Scheduler.Traverse.{
  IsTake, of_thread, of_node, of_ahead, of_node_prio, of_thread_prio, of_tasks, find_work-closed,
}

abbrev pub each : ℕ → ℕ
each m = 1

-- Twice the messages that there are in all, and once more those in shared memory.
abbrev pub backlog : Queues → ℕ
backlog q = 2 * held_in each q + length q.inbox

-- Running a message, or raising a condition, makes the backlog no larger.
abbrev pub SendsNothing : Env → Type 0
SendsNothing env =
    ((m : ℕ) (q : Queues)
      → AreValid q
      → (backlog (env.handle m q) ≤ backlog q) × AreValid (env.handle m q))
    × ((c : ℕ) (q : Queues)
        → AreValid q
        → (backlog (env.raise c q) ≤ backlog q) × AreValid (env.raise c q))

-- The PE is left with a smaller backlog, by at least one if the poll has found work.
abbrev pub Smaller : Sched → Polled → Type 0
Smaller s p =
    AreValid s.queues
    → ((if p.1 then 1 else 0) + backlog p.0.queues ≤ backlog s.queues) × AreValid p.0.queues

module _ (env : Env) (quiet : SendsNothing env) where
  IsTake-Keeps : (q : Queues) {t : Taken} → IsTake env q t → AreValid q → Keeps each q t
  IsTake-Keeps q of_thread = take_thread_list-Keeps each q.thread_queue q refl
  IsTake-Keeps q of_node = take_node_list-Keeps each q.node_queue q refl
  IsTake-Keeps q of_ahead = take_node_prio_if_ahead-Keeps env each q
  IsTake-Keeps q of_node_prio = take_node_prio-Keeps env each q
  IsTake-Keeps q of_thread_prio = take_thread_prio-Keeps each q
  IsTake-Keeps q of_tasks = take_task_list-Keeps each q.tasks q refl

  release_idle-Smaller :
      (s : Sched)
      → AreValid s.queues
      → (backlog (release_idle env s).queues ≤ backlog s.queues)
        × AreValid (release_idle env s).queues
  unfolding release_idle
  release_idle-Smaller s v =
      if_cases (λ (r : Sched). (backlog r.queues ≤ backlog s.queues) × AreValid r.queues) s.idle
        (record s { idle = false; queues = env.raise 1 s.queues }) s (λ p. quiet.1 1 s.queues v)
        (λ p. (omega arith, v))

  run_taken-Smaller :
      (s : Sched) (t : Taken)
      → (AreValid s.queues → Keeps each s.queues t)
      → Smaller s (run_taken env t s)
  unfolding run_taken
  run_taken-Smaller s (none, q) k v =
      let kept = k v in (omega (arith, kept.0, ap (length {A = Arrival}) kept.2), kept.1)
  run_taken-Smaller s (some m, q) k v =
      let kept = k v in
      let r = release_idle-Smaller (record s { queues = q }) kept.1 in
      let h = quiet.0 m (release_idle env (record s { queues = q })).queues r.1 in
      (omega (arith, kept.0, ap (length {A = Arrival}) kept.2, r.0, h.0), h.1)

  Smaller-after : (s s1 : Sched) (p : Polled) → Smaller s (s1, false) → Smaller s1 p → Smaller s p
  Smaller-after s s1 p a b v = let l = a v in let r = b l.1 in (omega (arith, l.0, r.0), r.1)

  count_streak-Smaller : (s : Sched) (p : Polled) → Smaller s p → Smaller s (count_streak env p)
  unfolding count_streak
  count_streak-Smaller s (s1, true) a = a
  count_streak-Smaller s (s1, false) a = a

  pub deliver-inbox : (batch : List Arrival) (q : Queues) → (deliver batch q).inbox ≡ q.inbox
  deliver-inbox [] q = refl
  deliver-inbox (to_thread m ∷ more) q = deliver-inbox more (record q { thread_queue = _ })
  deliver-inbox (to_node m ∷ more) q = deliver-inbox more (record q { node_queue = _ })
  deliver-inbox (elsewhere ∷ more) q = deliver-inbox more q

  progress-inbox : (net : List (List Arrival)) (q : Queues) → (progress net q).1.inbox ≡ q.inbox
  progress-inbox [] q = refl
  progress-inbox ([] ∷ later) q = refl
  progress-inbox ((a ∷ more) ∷ later) q = deliver-inbox (a ∷ more) (record q { network = later })

  progress-Smaller :
      (s : Sched) (f : Bool)
      → Smaller s
          (record s { queues = (progress s.queues.network s.queues).1; found_nothing = f }, false)
  progress-Smaller s f v =
      let p = progress-weight each s.queues.network s.queues refl v in
      (
        omega (arith, p.0, ap (length {A = Arrival}) (progress-inbox s.queues.network s.queues)),
        p.1,
      )

  -- An iteration that finds work makes the backlog smaller, and one that finds none does not make
  -- it larger.
  pub find_work-Smaller :
      (table : Table Poll) (counter : ℕ) (s : Sched) → Smaller s (find_work env table counter s)
  find_work-Smaller = find_work-closed env Smaller (record {
    after = Smaller-after;
    stays = λ s v. (omega arith, v);
    resets = λ s v. (omega arith, v);
    counts = count_streak-Smaller;
    polls = progress-Smaller;
    takes = λ s t h. run_taken-Smaller s t (IsTake-Keeps s.queues h);
  })
