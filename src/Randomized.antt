-- ===== src/Randomized.antt =====
-- The loops of src/scheduler_randomized.cpp: each iteration gathers messages in a pool, and runs
-- one of them that is drawn at random. What std::mt19937_64 returns is an argument.
mod Draw
mod Fills
mod Tests
use reconverse.Prelude.{
  ℕ, zero, suc, ◌+◌, ◌*◌, ◌/◌, ◌%◌, ◌^◌, Bool, true, false, not, ◌||◌, Option, none, some, List, [],
  ◌∷◌, ◌++◌, length, get_or, set, if◌then◌else◌,
}
use reconverse.PrioQueue.{live, size_of}
use reconverse.Scheduler.{
  Queues, Sched, Taken, Polled, Env, take_node_list, take_thread_list, take_thread_prio,
  take_task_list, take_node_prio, progress, release_idle, poll_ipc, set_idle, sched_loop,
}

-- A pool, the sources, and whether a message has moved.
abbrev pub Filled : Type 0
Filled = List ℕ × Queues × Bool

-- drainInto
unfoldable pub drain_into : (Queues → Taken) → ℕ → List ℕ → Queues → Filled
drain_into take zero pool q = (pool, q, false)
drain_into take (suc bound) pool q =
    let t = take q in
    elim t.0 [
      | none ↦ (pool, t.1, false)
      | some m ↦ let r = drain_into take bound (pool ++ m ∷ []) t.1 in (r.0, r.1, true)
    ]

-- `took |= drainInto(pool, bound, take)`
pub drain_more : (Queues → Taken) → (Queues → ℕ) → Filled → Filled
unfolding drain_into
drain_more take bound f = let r = drain_into take (bound f.1) f.0 f.1 in (r.0, r.1, f.2 || r.2)

abbrev pub one : Queues → ℕ
one q = 1

-- `pool.back()`
abbrev pub back : List ℕ → ℕ
back [] = 0
back (m ∷ []) = m
back (m ∷ n ∷ ms) = back (n ∷ ms)

abbrev pub pop_back : List ℕ → List ℕ
pop_back [] = []
pop_back (m ∷ []) = []
pop_back (m ∷ n ∷ ms) = m ∷ pop_back (n ∷ ms)

-- The index that drawFromPool makes of a random number of 64 bits
abbrev pub draw_index : ℕ → List ℕ → ℕ
draw_index random pool = random * length pool / 2 ^ 64

-- drawFromPool, on a pool that is not empty
pub draw_from_pool : ℕ → List ℕ → ℕ × List ℕ
draw_from_pool random pool =
    let i = draw_index random pool in (get_or pool i 0, pop_back (set pool i (back pool)))

module _ (env : Env) where
  -- The start of fillPool: shared memory, and the network if this PE polls it
  pub fill_arrivals : Queues → Queues × Bool
  unfolding poll_ipc
  fill_arrivals q =
      let p = poll_ipc env q in
      (if env.polls_progress then (progress p.1.network p.1).1 else p.1, p.0)

  -- fillPool
  pub fill_pool : List ℕ → Queues → Filled
  unfolding fill_arrivals drain_more
  fill_pool pool q =
      let a = fill_arrivals q in
      let node = drain_more (λ s. take_node_list s.node_queue s) one (pool, a.0, a.1) in
      let prio = drain_more (take_node_prio env) one node in
      let task = drain_more (λ s. take_task_list s.tasks s) one prio in
      let thread =
        drain_more (λ s. take_thread_list s.thread_queue s) (λ s. length s.thread_queue) task in
      drain_more take_thread_prio (λ s. size_of (live s.sched)) thread

  -- What an iteration does with a filled pool: the pool, the PE, and whether
  -- CsdSchedulePollRandomized goes on. CsdSchedulerRandomized makes the same iteration, and goes on
  -- until it is stopped. CsdPeriodic is part of `raise`.
  pub run_drawn : Bool → ℕ → Filled → Sched → List ℕ × Sched × Bool
  unfolding draw_from_pool release_idle set_idle
  run_drawn long random ([], q, took) s =
      if took
      then ([], record s { queues = q }, true)
      else ([], set_idle env long (record s { queues = q }), false)
  run_drawn long random (m ∷ ms, q, took) s =
      let d = draw_from_pool random (m ∷ ms) in
      let r = release_idle env (record s { queues = q }) in
      (d.1, record r { queues = env.handle d.0 r.queues; ran = d.0 ∷ r.ran }, true)

  pub iteration_randomized : Bool → ℕ → List ℕ → Sched → List ℕ × Sched × Bool
  unfolding fill_pool run_drawn
  iteration_randomized long random pool s =
      run_drawn long random (fill_pool pool (env.raise sched_loop s.queues)) s
