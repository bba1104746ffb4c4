-- ===== src/Conditions/Timers/Polls.antt =====
-- The polls of the clock, CsdPeriodic of include/converse.h and CcdCallBacks of src/conv-conds.cpp:
-- how many polls pass until the callbacks of the due timers are called.
use reconverse.Prelude.{
  ℕ, zero, suc, ◌-◌, ◌≤◌, ◌<◌, ◌≡◌, refl, sym, ap, ◌∙◌, subst, Bool, List, [], ◌∷◌, ◌++◌, length,
  leb, lt→ltb, if_cases, Option-cases, inl, inr, arith,
}
use reconverse.Conditions.{Callback, Request, register}
use reconverse.Conditions.Timers.{
  Timer, Pcb, Ccd, Delayed, call_all_after, call_fn_after_on_pe, count_if, earlier, PriorityQueue,
  Effect, fire, heap_update, num_timer_cbs, scaled_skip, clamped_skip, serve_timers, call_backs,
  csd_periodic, polls,
}
use reconverse.Conditions.Timers.Due.{ReadFrom, Fired, heap_update_lem}

clamped_skip-bounds : (n : ℕ) → (1 ≤ clamped_skip n) × (clamped_skip n ≤ 20)
unfolding clamped_skip
clamped_skip-bounds n = ground arith

count_if_le_length : (p : Timer → Bool) (es : List Timer) → count_if p es ≤ length es
count_if_le_length p [] = omega arith
count_if_le_length p (e ∷ es) = ground (arith, count_if_le_length p es)

-- What the calls from the heap leave alone.
abbrev pub polling : Ccd → ℕ × Pcb
polling s = (s.numchecks, s.pcb)

call_all_after-keeps : (ds : List Delayed) (s : Ccd) → polling (call_all_after ds s) ≡ polling s
unfolding call_all_after call_fn_after_on_pe
call_all_after-keeps [] s = refl
call_all_after-keeps (d ∷ ds) s = call_all_after-keeps ds (call_fn_after_on_pe d s)

fire-keeps : (a : Effect) (e : Timer) (s : Ccd) → polling (fire a e s) ≡ polling s
unfolding fire
fire-keeps a e s =
    call_all_after-keeps a.delayed
      (record s { conds = register a.requests s.conds; fired = s.fired ++ e ∷ [] })

module _ (q : PriorityQueue) (effect : Timer → Effect) where
  pub heap_update-keeps : (n now : ℕ) (s : Ccd) → polling (heap_update q effect n now s) ≡ polling s
  unfolding heap_update
  heap_update-keeps zero now s = refl
  heap_update-keeps (suc n) now s = elim (Option-cases (q.extract s.heap)) [
    | inl z ↦ rw (heap_update, z) refl
    | inr ((e, rest), z) ↦
        rw (heap_update, z)
          (let t = fire (effect e) e (record s { heap = rest }) in
            if_cases (λ (u : Ccd). polling u ≡ polling s) (leb now e.time) s
              (heap_update q effect n now t) (λ late. refl)
              (λ early.
                heap_update-keeps n now t ∙ fire-keeps (effect e) e (record s { heap = rest })))
  ]

module _ (q : PriorityQueue) (effect : Timer → Effect) (requests : Callback → List Request) where
  csd_periodic-due :
      (now : ℕ) (s : Ccd)
      → s.numchecks ≡ 0
      → 0 < num_timer_cbs s
      → csd_periodic q effect requests now s ≡ call_backs q effect requests now s
  unfolding csd_periodic
  csd_periodic-due now s z h = rw (lt→ltb 0 (num_timer_cbs s) h, z) refl

  csd_periodic-count :
      (now : ℕ) (s : Ccd) (n : ℕ)
      → s.numchecks ≡ suc n
      → 0 < num_timer_cbs s
      → csd_periodic q effect requests now s ≡ record s { numchecks = n }
  unfolding csd_periodic
  csd_periodic-count now s n z h = rw (lt→ltb 0 (num_timer_cbs s) h, z) (ground arith)

  -- The polls at ts only count down.
  polls_count :
      (ts : List ℕ) (now : ℕ) (s : Ccd)
      → length ts ≡ s.numchecks
      → 0 < num_timer_cbs s
      → polls q effect requests (ts ++ now ∷ []) s
        ≡ call_backs q effect requests now (record s { numchecks = 0 })
  unfolding polls num_timer_cbs
  polls_count [] now s z h =
      csd_periodic-due now s (sym z) h
      ∙ ap (λ n. call_backs q effect requests now (record s { numchecks = n })) (sym z)
  polls_count (t ∷ ts) now s z h =
      ap (polls q effect requests (ts ++ now ∷ [])) (csd_periodic-count t s (length ts) (sym z) h)
      ∙ polls_count ts now (record s { numchecks = length ts }) refl h

  call_backs-Fired :
      (now : ℕ) (s : Ccd)
      → ((e : Timer) → ReadFrom now (effect e).delayed)
      → let u = call_backs q effect requests now s in
        ((f : List Timer) × Fired q effect now s f u) × (1 ≤ u.numchecks) × (u.numchecks ≤ 20)
  unfolding call_backs serve_timers
  call_backs-Fired now s reads =
      let n_skip = clamped_skip (scaled_skip s.pcb.n_skip (now - s.pcb.last_check)) in
      let checked = record s {
        numchecks = n_skip;
        pcb = record s.pcb { n_skip = n_skip; last_check = now };
      } in
      let kept = ap (λ (m, p). m) (heap_update-keeps q effect (length s.heap) now checked) in
      let b = clamped_skip-bounds (scaled_skip s.pcb.n_skip (now - s.pcb.last_check)) in
      (
        heap_update_lem q effect (length s.heap) now checked reads
            (count_if_le_length (earlier now) s.heap),
        omega arith,
        omega arith,
      )

  -- While a timed callback is registered, the clock is read at the first poll after as many as the
  -- count says. That poll calls the callbacks of all timers that are due by then, in the order of
  -- their times, and leaves a count between 1 and 20. Callbacks read the clock at `now` or later.
  pub polls_fire :
      (ts : List ℕ) (now : ℕ) (s : Ccd)
      → length ts ≡ s.numchecks
      → 0 < num_timer_cbs s
      → ((e : Timer) → ReadFrom now (effect e).delayed)
      → let u = polls q effect requests (ts ++ now ∷ []) s in
        ((f : List Timer) × Fired q effect now s f u) × (1 ≤ u.numchecks) × (u.numchecks ≤ 20)
  polls_fire ts now s z h reads =
      subst
        (λ (u : Ccd).
          ((f : List Timer) × Fired q effect now s f u) × (1 ≤ u.numchecks) × (u.numchecks ≤ 20))
        (sym (polls_count ts now s z h)) (call_backs-Fired now (record s { numchecks = 0 }) reads)
