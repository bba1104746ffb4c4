-- ===== src/Scheduler/Polls.antt =====
-- Each poll of src/scheduler_registered.cpp, where it finds nothing and the lock of the node priority
-- queue is to be had.
use reconverse.Prelude.{
  ◌≡◌, refl, sym, ap, subst, ◌∙◌, Bool, true, false, [], if◌then◌else◌, if_cases,
}
use reconverse.PrioQueue.{live, is_queue_empty}
use reconverse.Scheduler.{
  Env, Queues, Sched, Polled, take_thread_prio, take_task_list, progress, Poll,
  poll_converse_thread_queue, poll_node_prio_queue, poll_thread_prio_queue, poll_progress,
  poll_task_queue, take_node_prio, after_progress, run_thread, run_progress, run_poll,
}
use reconverse.Scheduler.Quiet.{
  Ready, Same, Quiet, Nothing, Same-refl, Same-trans, Ready-Same, progress-Same, progress-quiet,
  take_task_list-none, take_thread_prio-none,
}
use reconverse.Scheduler.Vain.{
  run_taken-false, take_node_prio-none, run_thread-false, or_node-false,
}

-- What a poll that found nothing leaves.
abbrev pub Failed : Sched → Sched → Type 0
Failed s r = Same s.queues r.queues × (r.ran ≡ s.ran) × (Quiet s.queues → Quiet r.queues)

pub Failed-refl : (s : Sched) → Failed s s
Failed-refl s = (Same-refl s.queues, refl, λ q. q)

pub Failed-trans : (r s t : Sched) → Failed r s → Failed s t → Failed r t
Failed-trans r s t a b =
    (Same-trans r.queues s.queues t.queues a.0 b.0, b.1 ∙ a.1, λ q. b.2 (a.2 q))

unchanged :
    (p : Poll) (s : Sched) {r : Sched}
    → r ≡ s
    → Nothing p s.queues
    → Failed s r × Nothing p r.queues
unchanged p s e n =
    subst (λ (z : Sched). Failed s z × Nothing p z.queues) (sym e) (Failed-refl s, n)

module _ (env : Env) where
  run_thread-Failed :
      (s : Sched)
      → (run_thread env s).1 ≡ false
      → Failed s (run_thread env s).0 × ((run_thread env s).0.queues.thread_queue ≡ [])
  run_thread-Failed s e =
      let r = run_thread-false env s e in
      subst (λ (z : Sched). Failed s z × (z.queues.thread_queue ≡ [])) (sym r.0)
        (Failed-refl s, r.1)

  after_progress-Failed :
      (s : Sched) (x : Bool × Queues)
      → x ≡ progress s.queues.network s.queues
      → Ready s.queues
      → (after_progress env x s).1 ≡ false
      → Failed s (after_progress env x s).0
  unfolding after_progress
  after_progress-Failed s (true, q) i v e =
      let same : Same s.queues q =
        subst (λ (x : Bool × Queues). Same s.queues x.1) (sym i)
          (progress-Same s.queues.network s.queues) in
      let r = or_node-false env (record s { queues = q }) (Ready-Same s.queues q same v) e in
      subst (Failed s) (sym r.0) (same, refl, λ h. r.1)
  after_progress-Failed s (false, q) i v e =
      subst (λ (x : Bool × Queues). Failed s (record s { queues = x.1; found_nothing = true }))
        (sym i)
        (
          progress-Same s.queues.network s.queues,
          refl,
          λ h.
              let u =
                progress-quiet s.queues.network s.queues
                  (sym (ap (λ (x : Bool × Queues). x.0) i)) in
              (
                u.0 ∙ h.0,
                λ z.
                    u.1
                    ∙ h.1 (
                        subst (λ w. is_queue_empty (live w) ≡ true)
                          (progress-Same s.queues.network s.queues).0 z),
              ),
        )

  run_progress-Failed :
      (s : Sched)
      → Ready s.queues
      → (run_progress env s).1 ≡ false
      → Failed s (run_progress env s).0
  unfolding run_progress
  run_progress-Failed s v =
      if_cases (λ (r : Polled). r.1 ≡ false → Failed s r.0) s.found_nothing (s, false)
        (if env.polls_progress
          then after_progress env (progress s.queues.network s.queues) s
          else (s, false))
        (λ p e. Failed-refl s)
        (λ p.
          if_cases (λ (r : Polled). r.1 ≡ false → Failed s r.0) env.polls_progress
            (after_progress env (progress s.queues.network s.queues) s) (s, false)
            (λ q e. after_progress-Failed s (progress s.queues.network s.queues) refl v e)
            (λ q e. Failed-refl s))

  pub poll-Failed :
      (p : Poll) (s : Sched)
      → ((q : Queues) → env.try_lock q ≡ true)
      → Ready s.queues
      → (run_poll env p s).1 ≡ false
      → Failed s (run_poll env p s).0 × Nothing p (run_poll env p s).0.queues
  unfolding run_poll
  poll-Failed poll_converse_thread_queue s lock v e = ((run_thread-Failed s e).0, tt)
  poll-Failed poll_node_prio_queue s lock v e =
      let r = run_taken-false env (take_node_prio env s.queues) s e in
      let n = take_node_prio-none env s.queues (lock s.queues) v r.0 in
      unchanged poll_node_prio_queue s (r.1 ∙ ap (λ q. record s { queues = q }) n.0) n.1
  poll-Failed poll_thread_prio_queue s lock v e =
      let r = run_taken-false env (take_thread_prio s.queues) s e in
      let n = take_thread_prio-none s.queues v.1 r.0 in
      unchanged poll_thread_prio_queue s (r.1 ∙ ap (λ q. record s { queues = q }) n.0) n.1
  poll-Failed poll_progress s lock v e = (run_progress-Failed s v e, tt)
  poll-Failed poll_task_queue s lock v e =
      let r = run_taken-false env (take_task_list s.queues.tasks s.queues) s e in
      let n = take_task_list-none s.queues.tasks s.queues r.0 in
      unchanged poll_task_queue s (r.1 ∙ ap (λ q. record s { queues = q }) n.0) n.1
