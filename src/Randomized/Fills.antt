-- ===== src/Randomized/Fills.antt =====
-- fillPool of src/scheduler_randomized.cpp: every message is in the pool or in its source afterwards.
use reconverse.Prelude.{
  ℕ, zero, suc, ◌+◌, ◌≡◌, refl, ap, ◌∙◌, true, false, Option, none, some, List, [], ◌∷◌, ◌++◌,
  length, if_cases, arith,
}
use reconverse.PrioQueue.{live, size_of}
use reconverse.Scheduler.{
  Env, Queues, Taken, take_node_list, take_thread_list, take_thread_prio, take_task_list,
  take_node_prio, progress, poll_ipc,
}
use reconverse.Randomized.{Filled, drain_into, drain_more, one, fill_arrivals, fill_pool}
use reconverse.Scheduler.Takes.{
  weigh, weigh-append, held_in, AreValid, Keeps, taken_weight, take_thread_list-Keeps,
  take_node_list-Keeps, take_task_list-Keeps, take_thread_prio-Keeps, take_node_prio-Keeps,
  progress-weight, poll_ipc-weight,
}

-- The messages of the pool and the sources have a given weight.
abbrev pub Conserves : (ℕ → ℕ) → ℕ → Filled → Type 0
Conserves w n f = (weigh w f.0 + held_in w f.1 ≡ n) × AreValid f.1

module _ (w : ℕ → ℕ) (take : Queues → Taken)
    (keeps : (q : Queues) → AreValid q → Keeps w q (take q)) where
  drain_into-Conserves :
      (bound : ℕ) (pool : List ℕ) (q : Queues)
      → AreValid q
      → Conserves w (weigh w pool + held_in w q) (drain_into take bound pool q)
  unfolding drain_into
  drain_into-Conserves zero pool q v = (refl, v)
  drain_into-Conserves (suc bound) pool q v =
      drained (take q).0 refl (λ m w. drain_into-Conserves bound (pool ++ m ∷ []) (take q).1 w)
    where
      drained :
          (o : Option ℕ)
          → (take q).0 ≡ o
          → ((m : ℕ)
              → AreValid (take q).1
              → Conserves w
                  (weigh w (pool ++ m ∷ []) + held_in w (take q).1)
                  (drain_into take bound (pool ++ m ∷ []) (take q).1))
          → Conserves w (weigh w pool + held_in w q) (elim o [
            | none ↦ (pool, (take q).1, false)
            | some m ↦ let r = drain_into take bound (pool ++ m ∷ []) (take q).1 in (r.0, r.1, true)
          ])
      drained none e further = (omega (arith, (keeps q v).0, ap (taken_weight w) e), (keeps q v).1)
      drained (some m) e further =
          let f = further m (keeps q v).1 in
          (
            omega (arith, f.0, (keeps q v).0, ap (taken_weight w) e, weigh-append w pool (m ∷ [])),
            f.1,
          )

  drain_more-Conserves :
      (bound : Queues → ℕ) (n : ℕ) (f : Filled)
      → Conserves w n f
      → Conserves w n (drain_more take bound f)
  unfolding drain_more
  drain_more-Conserves bound n (pool, q, took) c =
      let d = drain_into-Conserves (bound q) pool q c.1 in (d.0 ∙ c.0, d.1)

module _ (env : Env) where
  fill_arrivals-weight :
      (w : ℕ → ℕ) (q : Queues)
      → AreValid q
      → (held_in w (fill_arrivals env q).0 ≡ held_in w q) × AreValid (fill_arrivals env q).0
  unfolding fill_arrivals
  fill_arrivals-weight w q v =
      let p = poll_ipc-weight env w q v in
      if_cases (λ (r : Queues). (held_in w r ≡ held_in w q) × AreValid r) env.polls_progress
        (progress (poll_ipc env q).1.network (poll_ipc env q).1).1 (poll_ipc env q).1
        (λ t.
          let n = progress-weight w (poll_ipc env q).1.network (poll_ipc env q).1 refl p.1 in
          (n.0 ∙ p.0, n.1))
        (λ t. p)

  -- fillPool loses no message and doubles none, from whichever sources it takes them: however the
  -- messages are weighed, by how often one of them occurs for instance, the pool and the sources,
  -- the network and shared memory included, have the same weight afterwards as before. The two
  -- priority queues are valid, and stay so.
  pub fill_pool-Conserves :
      (w : ℕ → ℕ) (pool : List ℕ) (q : Queues)
      → AreValid q
      → Conserves w (weigh w pool + held_in w q) (fill_pool env pool q)
  unfolding fill_pool
  fill_pool-Conserves w pool q v =
      let a = fill_arrivals-weight w q v in
      drain_more-Conserves w take_thread_prio (take_thread_prio-Keeps w)
        (λ s. size_of (live s.sched)) all thread
        (drain_more-Conserves w (λ s. take_thread_list s.thread_queue s)
          (λ s. take_thread_list-Keeps w s.thread_queue s refl) (λ s. length s.thread_queue) all
          task
          (drain_more-Conserves w (λ s. take_task_list s.tasks s)
            (λ s. take_task_list-Keeps w s.tasks s refl) one all prio
            (drain_more-Conserves w (take_node_prio env) (take_node_prio-Keeps env w) one all node (
              drain_more-Conserves w (λ s. take_node_list s.node_queue s)
                (λ s. take_node_list-Keeps w s.node_queue s refl) one all arrived
                (ap (λ n. weigh w pool + n) a.0, a.1)))))
    where
      all : ℕ
      all = weigh w pool + held_in w q

      arrived : Filled
      arrived = (pool, (fill_arrivals env q).0, (fill_arrivals env q).1)

      node : Filled
      node = drain_more (λ s. take_node_list s.node_queue s) one arrived

      prio : Filled
      prio = drain_more (take_node_prio env) one node

      task : Filled
      task = drain_more (λ s. take_task_list s.tasks s) one prio

      thread : Filled
      thread = drain_more (λ s. take_thread_list s.thread_queue s) (λ s. length s.thread_queue) task
