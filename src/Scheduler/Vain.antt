-- ===== src/Scheduler/Vain.antt =====
-- The takes and the first two polls of src/scheduler_registered.cpp, where they find nothing.
use reconverse.Prelude.{
  ℕ, ◌<◌, ◌≡◌, refl, sym, ap, subst, ◌∙◌, true, false, not, ◌&&◌, none, some, [], leb, if_cases,
  Bool-cases, inl, inr, arith,
}
use reconverse.PrioQueue.{live, is_queue_empty, top}
use reconverse.PrioQueue.Client.{top-live_some}
use reconverse.Scheduler.{
  Env, Queues, Sched, Taken, Polled, take_node_list, take_thread_list, take_node_prio,
  take_node_prio_if_ahead, run_taken, or_ahead, count_streak, or_node, run_thread,
  poll_node_queues_first,
}
use reconverse.Scheduler.Quiet.{Ready, Quiet, take_thread_list-none, take_node_list-none}

module _ (env : Env) where
  pub run_taken-false :
      (t : Taken) (s : Sched)
      → (run_taken env t s).1 ≡ false
      → (t.0 ≡ none) × ((run_taken env t s).0 ≡ record s { queues = t.1 })
  unfolding run_taken
  run_taken-false (none, q) s e = (refl, refl)
  run_taken-false (some m, q) s e = absurd (cc)

  pub take_node_prio-none :
      (q : Queues)
      → env.try_lock q ≡ true
      → Ready q
      → (take_node_prio env q).0 ≡ none
      → ((take_node_prio env q).1 ≡ q) × (is_queue_empty (live q.node_prio) ≡ true)
  unfolding take_node_prio
  take_node_prio-none q lock v e = elim (Bool-cases (is_queue_empty (live q.node_prio))) [
    | inl p ↦ (ground (arith, p), p)
    | inr p ↦ let m = top-live_some q.node_prio v.0 p in absurd (clash m.0 m.1 p (v.2 p))
  ]
    where
      clash :
          (m : ℕ)
          → top (live q.node_prio) ≡ some m
          → is_queue_empty (live q.node_prio) ≡ false
          → 0 < q.node_len
          → ⊥
      clash m t p n = ground (arith, e, t, p, lock, n)

  pub take_node_prio_if_ahead-none :
      (q : Queues)
      → Ready q
      → (take_node_prio_if_ahead env q).0 ≡ none
      → (take_node_prio_if_ahead env q).1 ≡ q
  unfolding take_node_prio_if_ahead
  take_node_prio_if_ahead-none q v e = elim (Bool-cases (is_queue_empty (live q.node_prio))) [
    | inl p ↦ ground (arith, p)
    | inr p ↦ let m = top-live_some q.node_prio v.0 p in left m.0 m.1
  ]
    where
      left : (m : ℕ) → top (live q.node_prio) ≡ some m → (take_node_prio_if_ahead env q).1 ≡ q
      left m t = ground (arith, e, t)

  pub run_thread-false :
      (s : Sched)
      → (run_thread env s).1 ≡ false
      → ((run_thread env s).0 ≡ s) × (s.queues.thread_queue ≡ [])
  unfolding run_thread
  run_thread-false s e =
      let r = run_taken-false (take_thread_list s.queues.thread_queue s.queues) s e in
      let l = take_thread_list-none s.queues.thread_queue s.queues r.0 in
      (r.1 ∙ ap (λ q. record s { queues = q }) l.0, l.1)

  pub or_ahead-false :
      (p : Polled)
      → Ready p.0.queues
      → (or_ahead env p).1 ≡ false
      → ((or_ahead env p).0 ≡ p.0) × (p.1 ≡ false)
  unfolding or_ahead
  or_ahead-false (s, true) v e = absurd (cc)
  or_ahead-false (s, false) v e =
      let r = run_taken-false (take_node_prio_if_ahead env s.queues) s e in
      (r.1 ∙ ap (λ q. record s { queues = q }) (take_node_prio_if_ahead-none s.queues v r.0), refl)

  pub count_streak-false :
      (p : Polled)
      → (count_streak env p).1 ≡ false
      → ((count_streak env p).0 ≡ record p.0 { node_streak = 0 }) × (p.1 ≡ false)
  unfolding count_streak
  count_streak-false (s, true) e = absurd (cc)
  count_streak-false (s, false) e = (refl, refl)

  node_takes-false :
      (s : Sched) (p : Polled)
      → p ≡ run_taken env (take_node_list s.queues.node_queue s.queues) s
      → Ready s.queues
      → (count_streak env (or_ahead env p)).1 ≡ false
      → ((count_streak env (or_ahead env p)).0 ≡ record s { node_streak = 0 })
        × (s.queues.node_queue ≡ [])
  unfolding or_ahead count_streak
  node_takes-false s (s1, true) i v e = absurd (cc)
  node_takes-false s (s1, false) i v e =
      let t =
        run_taken-false (take_node_list s.queues.node_queue s.queues) s
          (sym (ap (λ (p : Polled). p.1) i)) in
      let l = take_node_list-none s.queues.node_queue s.queues t.0 in
      let same : s1 ≡ s =
        ap (λ (p : Polled). p.0) i ∙ t.1 ∙ ap (λ q. record s { queues = q }) l.0 in
      let c = count_streak-false (or_ahead env (s1, false)) e in
      let o = or_ahead-false (s1, false) (subst (λ (z : Sched). Ready z.queues) (sym same) v) c.1 in
      (c.0 ∙ ap (λ (z : Sched). record z { node_streak = 0 }) (o.0 ∙ same), l.1)

  -- Node-level work is looked for first: where none is found, the process's converse queue is empty,
  -- or the PE's own queue is not and its turn has come.
  pub poll_node_queues_first-false :
      (s : Sched)
      → Ready s.queues
      → (poll_node_queues_first env s).1 ≡ false
      → ((poll_node_queues_first env s).0 ≡ record s { node_streak = 0 })
        × (is_queue_empty (live s.queues.sched) ≡ true → s.queues.node_queue ≡ [])
  unfolding poll_node_queues_first
  poll_node_queues_first-false s v =
      if_cases
        (λ (r : Polled).
          r.1 ≡ false
          → (r.0 ≡ record s { node_streak = 0 })
            × (is_queue_empty (live s.queues.sched) ≡ true → s.queues.node_queue ≡ []))
        (leb env.node_queue_max s.node_streak && not (is_queue_empty (live s.queues.sched)))
        (record s { node_streak = 0 }, false)
        (count_streak env
          (or_ahead env (run_taken env (take_node_list s.queues.node_queue s.queues) s)))
        (λ p e. (refl, λ q. absurd (ground (arith, p, q))))
        (λ p e.
          let r =
            node_takes-false s (run_taken env (take_node_list s.queues.node_queue s.queues) s) refl
              v e in
          (r.0, λ q. r.1))

  -- The thread queue and then the node-level sources, both in vain.
  pub or_node-false :
      (s : Sched)
      → Ready s.queues
      → (or_node env (run_thread env s)).1 ≡ false
      → ((or_node env (run_thread env s)).0 ≡ record s { node_streak = 0 }) × Quiet s.queues
  unfolding or_node
  or_node-false s v = go (run_thread env s) refl
    where
      go :
          (p : Polled)
          → p ≡ run_thread env s
          → (or_node env p).1 ≡ false
          → ((or_node env p).0 ≡ record s { node_streak = 0 }) × Quiet s.queues
      go (s1, true) i e = absurd (cc)
      go (s1, false) i e =
          let t = run_thread-false s (sym (ap (λ (p : Polled). p.1) i)) in
          subst
            (λ (z : Sched).
              (poll_node_queues_first env z).1 ≡ false
              → ((poll_node_queues_first env z).0 ≡ record s { node_streak = 0 }) × Quiet s.queues)
            (sym (ap (λ (p : Polled). p.0) i ∙ t.0))
            (λ e'. let n = poll_node_queues_first-false s v e' in (n.0, (t.1, n.1))) e
