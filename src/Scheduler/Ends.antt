-- ===== src/Scheduler/Ends.antt =====
-- CsdSchedulePollRegistered of src/scheduler_registered.cpp returns.
use reconverse.Prelude.{
  ℕ, zero, suc, ◌+◌, ◌<◌, ◌≤◌, ◌≡◌, refl, ap, Bool, true, false, not, ◌&&◌, some, List, [], ◌∷◌,
  length, if◌then◌else◌, if_cases, arith,
}
use reconverse.Registry.{Table}
use reconverse.Scheduler.{
  Env, Arrival, Queues, Sched, Polled, Poll, sched_loop, backwards, poll_ipc, begin_iteration,
  find_work, set_idle, iteration, schedule_poll,
}
use reconverse.Scheduler.Takes.{AreValid, poll_ipc-weight}
use reconverse.Scheduler.Backlog.{each, backlog, SendsNothing, deliver-inbox, find_work-Smaller}

less :
    (x y : Bool) {a b c : ℕ}
    → not x && not y ≡ false
    → (if x then 1 else 0) + c ≤ b
    → (if y then 1 else 0) + b ≤ a
    → c < a
less true y p h k = omega arith
less false true p h k = omega arith
less false false p h k = absurd (cc)

module _ (env : Env) (quiet : SendsNothing env) where
  poll_ipc-inbox : (q : Queues) → (poll_ipc env q).1.inbox ≡ []
  unfolding poll_ipc
  poll_ipc-inbox q = deliver-inbox env quiet (backwards q.inbox) (record q { inbox = [] })

  poll_ipc-found : (q : Queues) → (if (poll_ipc env q).0 then 1 else 0) ≤ length q.inbox
  unfolding poll_ipc
  poll_ipc-found q = found q.inbox
    where
      found :
          (inbox : List Arrival)
          → (if elim inbox [ [] ↦ false | b ∷ bs ↦ true ] then 1 else 0) ≤ length inbox
      found [] = omega arith
      found (b ∷ bs) = omega arith

  begin_iteration-backlog :
      (s : Sched)
      → AreValid s.queues
      → ((if (begin_iteration env s).1 then 1 else 0) + backlog (begin_iteration env s).0.queues
          ≤ backlog s.queues)
        × AreValid (begin_iteration env s).0.queues
  unfolding begin_iteration
  begin_iteration-backlog s v =
      let q : Queues = env.raise sched_loop s.queues in
      let r = quiet.1 sched_loop s.queues v in
      let p = poll_ipc-weight env each q r.1 in
      (omega (arith, r.0, p.0, ap (length {A = Arrival}) (poll_ipc-inbox q), poll_ipc-found q), p.1)

  set_idle-idle : (long : Bool) (s : Sched) → (set_idle env long s).idle ≡ true
  unfolding set_idle
  set_idle-idle long s =
      if_cases (λ (r : Sched). r.idle ≡ true) s.idle
        (record s {
          queues = if long then env.raise 4 (env.raise 3 s.queues) else env.raise 3 s.queues;
        })
        (record s { idle = true; queues = env.raise 2 s.queues }) (λ p. p) (λ p. refl)

  -- Where an iteration goes on, the backlog is smaller.
  iteration-backlog :
      (long : Bool) (table : Table Poll) (counter : ℕ) (s : Sched)
      → AreValid s.queues
      → ((iteration env long table counter s).1 ≡ true
          → (backlog (iteration env long table counter s).0.queues < backlog s.queues)
            × AreValid (iteration env long table counter s).0.queues)
        × ((iteration env long table counter s).1 ≡ false
            → (iteration env long table counter s).0.idle ≡ true)
  unfolding iteration
  iteration-backlog long table counter s v =
      if_cases Result (not found.1 && not begun.1) (set_idle env long found.0, false)
        (found.0, true) (λ p. (λ e. absurd (cc), λ e. set_idle-idle long found.0))
        (λ p. (λ e. (less found.1 begun.1 p f.0 b.0, f.1), λ e. absurd (cc)))
    where
      begun : Sched × Bool
      begun = begin_iteration env s

      found : Polled
      found = find_work env table counter begun.0

      b :
          ((if begun.1 then 1 else 0) + backlog begun.0.queues ≤ backlog s.queues)
          × AreValid begun.0.queues
      b = begin_iteration-backlog s v

      f :
          ((if found.1 then 1 else 0) + backlog found.0.queues ≤ backlog begun.0.queues)
          × AreValid found.0.queues
      f = find_work-Smaller env quiet table counter begun.0 b.1

      Result : Polled → Type 0
      Result r =
          (r.1 ≡ true → (backlog r.0.queues < backlog s.queues) × AreValid r.0.queues)
          × (r.1 ≡ false → r.0.idle ≡ true)

  -- If running a message and raising a condition send no messages, CsdSchedulePollRegistered
  -- returns, with the PE marked as idle, whatever the table of slots and wherever the messages are:
  -- within as many iterations as the backlog allows. Both priority queues are valid.
  pub schedule_poll-ends :
      (long : ℕ → Bool) (table : Table Poll) (fuel counter : ℕ) (s : Sched)
      → AreValid s.queues
      → backlog s.queues < fuel
      → (r : Sched) × (schedule_poll env long table fuel counter s ≡ some r) × (r.idle ≡ true)
  unfolding schedule_poll
  schedule_poll-ends long table zero counter s v h = elim h [ ]
  schedule_poll-ends long table (suc fuel) counter s v h =
      if_cases (λ o. (r : Sched) × (o ≡ some r) × (r.idle ≡ true)) it.1
        (schedule_poll env long table fuel (counter + 1) it.0) (some it.0)
        (λ p.
          let d = b.0 p in
          schedule_poll-ends long table fuel (counter + 1) it.0 d.1 (omega (arith, d.0, h)))
        (λ p. (it.0, refl, b.1 p))
    where
      it : Polled
      it = iteration env (long counter) table counter s

      b :
          (it.1 ≡ true → (backlog it.0.queues < backlog s.queues) × AreValid it.0.queues)
          × (it.1 ≡ false → it.0.idle ≡ true)
      b = iteration-backlog (long counter) table counter s v
