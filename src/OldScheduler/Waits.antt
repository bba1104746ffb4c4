-- ===== src/OldScheduler/Waits.antt =====
-- How long a PE's own priority queue waits in the loops of src/scheduler_old.cpp.
use reconverse.Prelude.{ℕ, suc, ◌+◌, ◌-◌, ◌*◌, ◌≡◌, false, some, ◌∷◌}
use reconverse.PrioQueue.{live, is_queue_empty, top}
use reconverse.Scheduler.{Env}
use reconverse.OldScheduler.{Old, no_message, chain}

-- What is left of a bound `t` on the one streak and `n` on the other.
abbrev left : ℕ → ℕ → ℕ → ℕ → ℕ
left t n tq nq = (t - tq) * suc n + (n - nq)

module _ (env : Env) (thread_queue_max : ℕ) where
  -- Runs of the chain, none of which took the front message of the PE's own priority queue, though
  -- one was there, and a message in the thread queue. Between two runs all else of the state may
  -- change.
  pub data Waits : ℕ → Old → Type 0 where
    begin : (o : Old) → Waits 0 o
    again :
        (n m : ℕ) (o r : Old)
        → Waits n o
        → r.pe.node_streak ≡ o.pe.node_streak
        → r.tq_streak ≡ o.tq_streak
        → no_message r.pe.queues.thread_queue ≡ false
        → is_queue_empty (live r.pe.queues.sched) ≡ false
        → top (live r.pe.queues.sched) ≡ some m
        → ¬ ((chain env thread_queue_max r).0.pe.ran ≡ m ∷ r.pe.ran)
        → Waits (suc n) (chain env thread_queue_max r).0

  left_of : Old → ℕ
  left_of o = left thread_queue_max env.node_queue_max o.tq_streak o.pe.node_streak
