-- ===== src/Scheduler/Order.antt =====
-- The two ordering rules at the head of src/scheduler_registered.cpp.
use reconverse.Prelude.{
  ℕ, ◌≡◌, refl, ap, subst, Bool, true, false, not, ◌&&◌, Option, none, some, List, [], ◌∷◌, leb,
  if◌then◌else◌,
}
use reconverse.PrioQueue.{live, is_queue_empty}
use reconverse.Registry.{Table}
use reconverse.Scheduler.{
  Env, Poll, Queues, Sched, Polled, take_node_list, take_thread_list, run_taken, release_idle,
  count_streak, or_ahead, poll_node_queues_first, or_node, run_thread, or_sweep, find_work,
}
use reconverse.Scheduler.Fair.{release_idle-same}

-- The first message of a queue
abbrev front_of : List ℕ → Option ℕ
front_of [] = none
front_of (m ∷ ms) = some m

abbrev or_else : List ℕ → Option ℕ → Option ℕ
or_else [] o = o
or_else (m ∷ ms) o = some m

-- What the rules have an iteration run: the front of the thread queue, or else that of the node
-- queue, unless local work has its turn. `none` where they leave the choice to the priorities or
-- the table.
abbrev pub next_by_rules : ℕ → Sched → Option ℕ
next_by_rules node_queue_max s = or_else s.queues.thread_queue (
    if leb node_queue_max s.node_streak && not (is_queue_empty (live s.queues.sched))
    then none
    else front_of s.queues.node_queue)

module _ (env : Env) where
  -- The message is run, and is the last that is.
  abbrev Runs : Sched → Option ℕ → Polled → Type 0
  Runs s o r = (m : ℕ) → o ≡ some m → (r.1 ≡ true) × (r.0.ran ≡ m ∷ s.ran)

  taken-Runs : (s : Sched) (m : ℕ) (q : Queues) → Runs s (some m) (run_taken env (some m, q) s)
  unfolding run_taken
  taken-Runs s m q n e = (
    refl,
    subst (λ k. m ∷ (release_idle env (record s { queues = q })).ran ≡ k ∷ s.ran) (same n e)
        (ap (λ ms. m ∷ ms) (release_idle-same env (record s { queues = q })).0),
  )
    where
      same : (n : ℕ) → some m ≡ some n → m ≡ n
      same n e = cc

  count_streak-Runs :
      (s : Sched) (o : Option ℕ) (r : Polled)
      → Runs s o r
      → Runs s o (count_streak env (or_ahead env r))
  unfolding count_streak or_ahead
  count_streak-Runs s o (s1, true) h m e = (refl, (h m e).1)
  count_streak-Runs s o (s1, false) h m e = absurd (clash (h m e).0)
    where
      clash : false ≡ true → ⊥
      clash p = cc

  node-Runs :
      (ns : List ℕ) (s : Sched)
      → Runs s (front_of ns) (run_taken env (take_node_list ns s.queues) s)
  unfolding take_node_list
  node-Runs [] s m e = absurd (cc)
  node-Runs (n ∷ ns) s m e = taken-Runs s n (record s.queues { node_queue = ns }) m e

  choice-Runs :
      (b : Bool) (s : Sched) (o : Option ℕ) (r : Polled)
      → Runs s o r
      → Runs s (if b then none else o) (if b then (record s { node_streak = 0 }, false) else r)
  choice-Runs true s o r h m e = absurd (cc)
  choice-Runs false s o r h m e = h m e

  poll_node_queues_first-Runs :
      (s : Sched)
      → Runs s
          (if leb env.node_queue_max s.node_streak && not (is_queue_empty (live s.queues.sched))
            then none
            else front_of s.queues.node_queue)
          (poll_node_queues_first env s)
  unfolding poll_node_queues_first
  poll_node_queues_first-Runs s =
      let takes = run_taken env (take_node_list s.queues.node_queue s.queues) s in
      choice-Runs
        (leb env.node_queue_max s.node_streak && not (is_queue_empty (live s.queues.sched))) s
        (front_of s.queues.node_queue) (count_streak env (or_ahead env takes))
        (count_streak-Runs s (front_of s.queues.node_queue) takes (node-Runs s.queues.node_queue s))

  or_sweep-Runs :
      (table : Table Poll) (counter : ℕ) (s : Sched) (o : Option ℕ) (r : Polled)
      → Runs s o r
      → Runs s o (or_sweep env table counter r)
  unfolding or_sweep
  or_sweep-Runs table counter s o (s1, true) h m e = h m e
  or_sweep-Runs table counter s o (s1, false) h m e = absurd (clash (h m e).0)
    where
      clash : false ≡ true → ⊥
      clash p = cc

  or_node-Runs :
      (s : Sched) (ms : List ℕ)
      → Runs s
          (or_else ms (
            if leb env.node_queue_max s.node_streak && not (is_queue_empty (live s.queues.sched))
            then none
            else front_of s.queues.node_queue))
          (or_node env (run_taken env (take_thread_list ms s.queues) s))
  unfolding or_node take_thread_list run_taken
  or_node-Runs s [] m e = poll_node_queues_first-Runs s m e
  or_node-Runs s (n ∷ ms) m e = taken-Runs s n (record s.queues { thread_queue = ms }) m e

  -- Each iteration runs the message that the rules name, if they name one: the front of the thread
  -- queue if there is one, whatever else is waiting and however many came from there before, and
  -- else the front of the node queue, but for the iterations in which local work has its turn.
  pub find_work-Runs :
      (table : Table Poll) (counter : ℕ) (s : Sched) (m : ℕ)
      → next_by_rules env.node_queue_max s ≡ some m
      → ((find_work env table counter s).1 ≡ true)
        × ((find_work env table counter s).0.ran ≡ m ∷ s.ran)
  unfolding find_work run_thread
  find_work-Runs table counter s m e =
      or_sweep-Runs table counter s (next_by_rules env.node_queue_max s)
        (or_node env (run_thread env s)) (or_node-Runs s s.queues.thread_queue) m e
