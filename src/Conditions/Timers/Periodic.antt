-- ===== src/Conditions/Timers/Periodic.antt =====
-- The periodic conditions of CcdCallBacks, src/conv-conds.cpp: which are raised, and when the next
-- ones are.
use reconverse.Prelude.{
  ℕ, zero, suc, ◌+◌, ◌-◌, ◌≤◌, ◌<◌, ◌≡◌, refl, sym, ap, subst, List, [], ◌∷◌, ◌++◌, length, take,
  drop, map, leb, if_cases, arith, leb→le,
}
use reconverse.Conditions.{Callback, Conds, Request, raise_condition}
use reconverse.Conditions.Timers.{
  Timer, Pcb, Ccd, PriorityQueue, Effect, scaled_skip, clamped_skip, call_backs, serve_timers,
  periodic_loop, periodic_call_interval,
}
use reconverse.Conditions.Timers.Polls.{heap_update-keeps}

-- Each time is at most an interval after `now`.
abbrev pub Within : ℕ → List ℕ → List ℕ → Type 0
Within now [] [] = Unit {0}
Within now [] (c ∷ cs) = ⊥
Within now (iv ∷ ivs) [] = ⊥
Within now (iv ∷ ivs) (c ∷ cs) = (c ≤ now + iv) × Within now ivs cs

abbrev pub AllDue : ℕ → List ℕ → Type 0
AllDue now [] = Unit {0}
AllDue now (c ∷ cs) = (c ≤ now) × AllDue now cs

-- The first of the times, where there is one, is still to come.
abbrev pub Ahead : ℕ → List ℕ → Type 0
Ahead now [] = Unit {0}
Ahead now (c ∷ cs) = now < c

Within-later :
    (last now : ℕ) (ivs cs : List ℕ) → last ≤ now → Within last ivs cs → Within now ivs cs
Within-later last now [] [] h w = tt
Within-later last now [] (c ∷ cs) h w = w
Within-later last now (iv ∷ ivs) [] h w = w
Within-later last now (iv ∷ ivs) (c ∷ cs) h w = (omega arith, Within-later last now ivs cs h w.1)

module _ (requests : Callback → List Request) where
  -- The raises of k periodic conditions from position i on.
  abbrev pub raise_each : ℕ → ℕ → Conds → Conds
  raise_each i zero s = s
  raise_each i (suc k) s = raise_each (suc i) k (raise_condition requests s (5 + i))

  -- The first k conditions were due and have been raised, the one after them is not due.
  abbrev pub Raised : ℕ → ℕ → List ℕ → List ℕ → Conds → List ℕ × Conds → Type 0
  Raised now i ivs cs s r =
      (k : ℕ) × AllDue now (take k cs)
      × Ahead now (drop k cs)
      × (r.0 ≡ map (λ iv. now + iv) (take k ivs) ++ drop k cs)
      × (r.1 ≡ raise_each i k s)

  periodic_loop_lem :
      (now last i : ℕ) (ivs cs : List ℕ) (s : Conds)
      → Within last ivs cs
      → last ≤ now
      → let r = periodic_loop requests now i ivs cs s in
        Within now ivs r.0 × Raised now i ivs cs s r
  unfolding periodic_loop
  periodic_loop_lem now last i [] [] s w h = (tt, (0, tt, tt, refl, refl))
  periodic_loop_lem now last i [] (c ∷ cs) s w h = elim w [ ]
  periodic_loop_lem now last i (iv ∷ ivs) [] s w h = elim w [ ]
  periodic_loop_lem now last i (iv ∷ ivs) (c ∷ cs) s w h =
      let raised = raise_condition requests s (5 + i) in
      let r = periodic_loop requests now (suc i) ivs cs raised in
      let (ahead, (k, due, stop, next, conds)) =
        periodic_loop_lem now last (suc i) ivs cs raised w.1 h in
      if_cases (λ t. Within now (iv ∷ ivs) t.0 × Raised now i (iv ∷ ivs) (c ∷ cs) s t) (leb c now)
        ((now + iv) ∷ r.0, r.1) (c ∷ cs, s)
        (λ d. (
          (omega arith, ahead),
          (suc k, (leb→le c now d, due), stop, ap (λ l. (now + iv) ∷ l) next, conds),
        ))
        (λ d. (Within-later last now (iv ∷ ivs) (c ∷ cs) h w, (zero, tt, ground arith, refl, refl)))

module _ (q : PriorityQueue) (effect : Timer → Effect) (requests : Callback → List Request) where
  serve_timers-pcb :
      (now : ℕ) (s : Ccd)
      → (serve_timers q effect now s).pcb ≡ record s.pcb {
        n_skip = clamped_skip (scaled_skip s.pcb.n_skip (now - s.pcb.last_check));
        last_check = now;
      }
  unfolding serve_timers
  serve_timers-pcb now s =
      let n_skip = clamped_skip (scaled_skip s.pcb.n_skip (now - s.pcb.last_check)) in
      ap (λ (m, p). p)
        (heap_update-keeps q effect (length s.heap) now (record s {
          numchecks = n_skip;
          pcb = record s.pcb { n_skip = n_skip; last_check = now };
        }))

  -- Let every next call of a periodic condition be at most its interval after the last read of the
  -- clock, and let the clock not run back. CcdCallBacks keeps this. Once the timers are served, it
  -- raises the periodic conditions that are due, in the order of their intervals, up to the first
  -- one that is not due; it sets the next call of each of these to its interval from now, and
  -- leaves the other times as they are.
  pub call_backs-Within :
      (now : ℕ) (s : Ccd)
      → Within s.pcb.last_check periodic_call_interval s.pcb.next_call
      → s.pcb.last_check ≤ now
      → let u = call_backs q effect requests now s in
        (u.pcb.last_check ≡ now)
        × Within now periodic_call_interval u.pcb.next_call
        × Raised requests now 0 periodic_call_interval s.pcb.next_call
            (serve_timers q effect now s).conds
            (u.pcb.next_call, u.conds)
  unfolding call_backs
  call_backs-Within now s w h =
      let t = serve_timers q effect now s in
      let kept = serve_timers-pcb now s in
      let r = periodic_loop requests now 0 periodic_call_interval in
      let g =
        periodic_loop_lem requests now s.pcb.last_check 0 periodic_call_interval s.pcb.next_call
          t.conds w h in
      (
        ap (λ (p : Pcb). p.last_check) kept,
        subst (λ (p : Pcb). Within now periodic_call_interval (r p.next_call t.conds).0) (sym kept)
            g.0,
        subst
            (λ (p : Pcb).
              Raised requests now 0 periodic_call_interval s.pcb.next_call t.conds
                (r p.next_call t.conds))
            (sym kept) g.1,
      )
