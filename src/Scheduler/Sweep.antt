-- ===== src/Scheduler/Sweep.antt =====
-- The sweep over the slot table in src/scheduler_registered.cpp: a sweep that runs nothing has tried
-- every slot.
use reconverse.Prelude.{
  ℕ, zero, suc, ◌+◌, ◌%◌, ◌<◌, ◌≡◌, subst, true, false, Option, none, some, if_cases, get_or, arith,
}
use reconverse.Registry.{Table, sched_table_size}
use reconverse.Scheduler.{Env, Queues, Sched, Polled, Poll, run_poll, run_slot, sweep}
use reconverse.Scheduler.Quiet.{Ready, Ready-Same, Nothing, Nothing-Same}
use reconverse.Scheduler.Polls.{Failed, Failed-refl, Failed-trans, poll-Failed}

here : (n : ℕ) → n + 0 ≡ n
here n = omega arith

next : (n k : ℕ) → n + suc k ≡ n + 1 + k
next n k = omega arith

module _ (env : Env) (lock : (q : Queues) → env.try_lock q ≡ true) where
  run_slot-Failed :
      (o : Option Poll) (s : Sched)
      → Ready s.queues
      → (run_slot env o s).1 ≡ false
      → Failed s (run_slot env o s).0
        × ((p : Poll) → o ≡ some p → Nothing p (run_slot env o s).0.queues)
  unfolding run_slot
  run_slot-Failed none s v e = (Failed-refl s, λ p q. absurd (cc))
  run_slot-Failed (some o) s v e =
      let r = poll-Failed env o s lock v e in
      (r.0, λ p q. subst (λ z. Nothing z (run_poll env o s).0.queues) (same p q) r.1)
    where
      same : (p : Poll) → some o ≡ some p → o ≡ p
      same p q = cc

  -- Where the sweep found nothing, so did each slot that it went over.
  abbrev Swept : Table Poll → ℕ → ℕ → Sched → Sched → Type 0
  Swept table t idx s r =
      Failed s r
      × ((k : ℕ)
          → k < t
          → (p : Poll) → get_or table ((idx + k) % sched_table_size) none ≡ some p
          → Nothing p r.queues)

  pub sweep-Swept :
      (table : Table Poll) (t idx : ℕ) (s : Sched)
      → Ready s.queues
      → (sweep env table t idx s).1 ≡ false
      → Swept table t idx s (sweep env table t idx s).0
  unfolding sweep
  sweep-Swept table zero idx s v e = (Failed-refl s, λ k h. elim h [ ])
  sweep-Swept table (suc t) idx s v e =
      if_cases (λ (r : Polled). r.1 ≡ false → Swept table (suc t) idx s r.0) slot.1 slot
        (sweep env table t (idx + 1) slot.0) (λ p e'. absurd (cc))
        (λ p e'.
          let f = run_slot-Failed (get_or table (idx % sched_table_size) none) s v p in
          further (f.0, f.1)
            (sweep-Swept table t (idx + 1) slot.0 (Ready-Same s.queues slot.0.queues f.0.0 v) e'))
        e
    where
      slot : Polled
      slot = run_slot env (get_or table (idx % sched_table_size) none) s

      further :
          Failed s slot.0
            × ((p : Poll)
                → get_or table (idx % sched_table_size) none ≡ some p
                → Nothing p slot.0.queues)
          → Swept table t (idx + 1) slot.0 (sweep env table t (idx + 1) slot.0).0
          → Swept table (suc t) idx s (sweep env table t (idx + 1) slot.0).0
      further f g = (Failed-trans s slot.0 (sweep env table t (idx + 1) slot.0).0 f.0 g.0, at)
        where
          at :
              (k : ℕ)
              → k < suc t
              → (p : Poll) → get_or table ((idx + k) % sched_table_size) none ≡ some p
              → Nothing p (sweep env table t (idx + 1) slot.0).0.queues
          at zero h p q =
              Nothing-Same p slot.0.queues (sweep env table t (idx + 1) slot.0).0.queues g.0.0 (
                f.1 p (subst (λ n. get_or table (n % sched_table_size) none ≡ some p) (here idx) q))
          at (suc k) h p q =
              g.1 k (omega arith) p
                (subst (λ n. get_or table (n % sched_table_size) none ≡ some p) (next idx k) q)
