-- ===== src/Conditions/Timers/Due.antt =====
-- The loop over the heap of timed callbacks, src/conv-conds.cpp: which callbacks it calls, in which
-- order, and which are left.
use reconverse.Prelude.{
  ℕ, zero, suc, ◌+◌, ◌*◌, ◌≤◌, ◌≡◌, inl, inr, refl, sym, ap, ◌∙◌, subst, Bool, true, false, not,
  ◌&&◌, List, [], ◌∷◌, ◌++◌, append-nil, append_assoc, map, ltb, leb, Option-cases, if_cases, arith,
}
use reconverse.Prelude.Count.{flat_map}
use reconverse.Conditions.{register}
use reconverse.Conditions.Timers.{
  Timer, Ccd, Delayed, call_fn_after_on_pe, call_all_after, count_if, earlier, PriorityQueue,
  Effect, fire, heap_update,
}

abbrev pub due : ℕ → (Timer → Bool) → Timer → Bool
due now p e = p e && earlier now e

abbrev pub waiting : ℕ → (Timer → Bool) → Timer → Bool
waiting now p e = p e && not (earlier now e)

count_if-append :
    (p : Timer → Bool) (xs ys : List Timer) → count_if p (xs ++ ys) ≡ count_if p xs + count_if p ys
count_if-append p [] ys = omega arith
count_if-append p (e ∷ es) ys = omega (arith, count_if-append p es ys)

pub count_if_le :
    (p q : Timer → Bool) (es : List Timer)
    → ((e : Timer) → p e ≡ true → q e ≡ true)
    → count_if p es ≤ count_if q es
count_if_le p q [] h = omega arith
count_if_le p q (e ∷ es) h = ground (arith, count_if_le p q es h, h e)

first_of : (a b : Bool) → (a && b) ≡ true → a ≡ true
first_of a b h = ground arith

-- None is due: those of any kind that are due are none, and those that wait are all.
none_due :
    (now : ℕ) (p : Timer → Bool) (es : List Timer)
    → count_if (earlier now) es ≡ 0
    → (count_if (due now p) es ≡ 0) × (count_if (waiting now p) es ≡ count_if p es)
none_due now p [] h = (refl, refl)
none_due now p (e ∷ es) h = ground (arith, none_due now p es)

-- The timer that a call of CcdCallFnAfterOnPE adds.
abbrev pub timer_of : Delayed → Timer
timer_of d = record { time = d.ctime + d.delta_t * 1000; fn = d.fn; arg = d.arg; pe = d.pe }

-- The clock does not run back: the calls read it at `now` or later.
abbrev pub ReadFrom : ℕ → List Delayed → Type 0
ReadFrom now [] = Unit {0}
ReadFrom now (d ∷ ds) = (now ≤ d.ctime) × ReadFrom now ds

none_due-added :
    (now : ℕ) (ds : List Delayed) → ReadFrom now ds → count_if (earlier now) (map timer_of ds) ≡ 0
none_due-added now [] r = refl
none_due-added now (d ∷ ds) r = ground (arith, none_due-added now ds r.1)

call_all_after-heap :
    (ds : List Delayed) (s : Ccd) (p : Timer → Bool)
    → count_if p (call_all_after ds s).heap ≡ count_if p (map timer_of ds) + count_if p s.heap
unfolding call_all_after call_fn_after_on_pe
call_all_after-heap [] s p = omega arith
call_all_after-heap (d ∷ ds) s p = omega (arith, call_all_after-heap ds (call_fn_after_on_pe d s) p)

call_all_after-fired : (ds : List Delayed) (s : Ccd) → (call_all_after ds s).fired ≡ s.fired
unfolding call_all_after call_fn_after_on_pe
call_all_after-fired [] s = refl
call_all_after-fired (d ∷ ds) s = call_all_after-fired ds (call_fn_after_on_pe d s)

-- No call comes after one of a later time.
abbrev pub Sorted : List Timer → Type 0
Sorted [] = Unit {0}
Sorted (e ∷ es) = (count_if (earlier e.time) es ≡ 0) × Sorted es

module _ (q : PriorityQueue) (effect : Timer → Effect) where
  -- The timers that the callbacks added when they were called.
  abbrev pub added : Timer → List Timer
  added e = map timer_of (effect e).delayed

  -- From s, the callbacks of f have been called and u is the state.
  abbrev pub Fired : ℕ → Ccd → List Timer → Ccd → Type 0
  Fired now s f u =
      (u.fired ≡ s.fired ++ f)
      × Sorted f
      × ((p : Timer → Bool) → count_if p f ≡ count_if (due now p) s.heap)
      × ((p : Timer → Bool)
          → count_if p u.heap ≡ count_if (waiting now p) s.heap + count_if p (flat_map added f))

  Fired-none : (now : ℕ) (s : Ccd) → count_if (earlier now) s.heap ≡ 0 → Fired now s [] s
  Fired-none now s h = (
    sym (append-nil s.fired),
    tt,
    (λ p. sym (none_due now p s.heap h).0),
    λ p. omega (arith, none_due now p s.heap h),
  )

  -- One turn of the loop: the counts of the heap after it.
  module _ (now : ℕ) (s : Ccd) (e : Timer) (rest : List Timer)
      (same : (p : Timer → Bool) → count_if p s.heap ≡ count_if p (e ∷ rest))
      (first : count_if (earlier e.time) rest ≡ 0) (reads : ReadFrom now (effect e).delayed) where
    after : Ccd
    after = fire (effect e) e (record s { heap = rest })

    after-heap : (p : Timer → Bool) → count_if p after.heap ≡ count_if p (added e) + count_if p rest
    unfolding after fire
    after-heap p =
        call_all_after-heap (effect e).delayed
          (record s {
            heap = rest;
            conds = register (effect e).requests s.conds;
            fired = s.fired ++ e ∷ [];
          })
          p

    after-fired : after.fired ≡ s.fired ++ e ∷ []
    unfolding after fire
    after-fired = call_all_after-fired (effect e).delayed (record s {
      heap = rest;
      conds = register (effect e).requests s.conds;
      fired = s.fired ++ e ∷ [];
    })

    Fired-step :
        (f : List Timer) (u : Ccd)
        → ltb e.time now ≡ true
        → Fired now after f u
        → Fired now s (e ∷ f) u
    Fired-step f u d g = (
      g.0 ∙ ap (λ l. l ++ f) after-fired ∙ append_assoc s.fired (e ∷ []) f,
      (
        (let least = earlier e.time in
            let low =
              count_if_le (due now least) least rest (λ x. first_of (least x) (earlier now x)) in
            omega (
              arith,
              g.2 least,
              after-heap (due now least),
              none_due now least (added e) fresh,
              low,
              first,
            )),
        g.1,
      ),
      (λ p.
          ground (
            arith,
            g.2 p,
            same (due now p),
            after-heap (due now p),
            none_due now p (added e) fresh,
          )),
      λ p. ground (
        arith,
        g.3 p,
        same (waiting now p),
        after-heap (waiting now p),
        none_due now p (added e) fresh,
        count_if-append p (added e) (flat_map added f),
      ),
    )
      where
        fresh : count_if (earlier now) (added e) ≡ 0
        fresh = none_due-added now (effect e).delayed reads

  quiet :
      (now : ℕ) (s : Ccd) (e : Timer) (rest : List Timer)
      → ((p : Timer → Bool) → count_if p s.heap ≡ count_if p (e ∷ rest))
      → count_if (earlier e.time) rest ≡ 0
      → leb now e.time ≡ true
      → count_if (earlier now) s.heap ≡ 0
  quiet now s e rest same first late =
      let low = count_if_le (earlier now) (earlier e.time) rest (λ x h. ground arith) in
      ground (arith, same (earlier now))

  fewer :
      (now : ℕ) (s : Ccd) (e : Timer) (rest : List Timer)
      (same : (p : Timer → Bool) → count_if p s.heap ≡ count_if p (e ∷ rest))
      (first : count_if (earlier e.time) rest ≡ 0) (reads : ReadFrom now (effect e).delayed) (n : ℕ)
      → count_if (earlier now) s.heap ≤ suc n
      → leb now e.time ≡ false
      → count_if (earlier now) (after now s e rest same first reads).heap ≤ n
  fewer now s e rest same first reads n h early = ground (
    arith,
    same (earlier now),
    after-heap now s e rest same first reads (earlier now),
    none_due-added now (effect e).delayed reads,
  )

  -- Let no callback read the clock before `now`, and let the fuel be at least the number of due
  -- timers. The loop calls the callbacks of the due timers, those before `now`, each once and in
  -- the order of their times, and no others; what is left in the heap are the timers that were not
  -- due and those that the callbacks added.
  pub heap_update_lem :
      (n now : ℕ) (s : Ccd)
      → ((e : Timer) → ReadFrom now (effect e).delayed)
      → count_if (earlier now) s.heap ≤ n
      → (f : List Timer) × Fired now s f (heap_update q effect n now s)
  unfolding heap_update after
  heap_update_lem zero now s reads h = ([], Fired-none now s (omega arith))
  heap_update_lem (suc n) now s reads h = elim (Option-cases (q.extract s.heap)) [
    | inl z ↦ rw (heap_update, z) (nothing (q.extract_none s.heap z))
    | inr ((e, rest), z) ↦
        rw (heap_update, z)
          (let law = q.extract_some s.heap e rest z in
            if_cases (λ u. (f : List Timer) × Fired now s f u) (leb now e.time) s (turned e rest)
              (λ late. ([], Fired-none now s (quiet now s e rest law.0 law.1 late)))
              (λ early.
                let (f, g) =
                  heap_update_lem n now (after now s e rest law.0 law.1 (reads e)) reads
                    (fewer now s e rest law.0 law.1 (reads e) n h early) in
                (
                  e ∷ f,
                  Fired-step now s e rest law.0 law.1 (reads e) f (turned e rest) (ground arith) g,
                )))
  ]
    where
      nothing : s.heap ≡ [] → (f : List Timer) × Fired now s f s
      nothing z = ([], Fired-none now s (subst (λ h. count_if (earlier now) h ≡ 0) (sym z) refl))

      turned : Timer → List Timer → Ccd
      turned e rest = heap_update q effect n now (fire (effect e) e (record s { heap = rest }))
