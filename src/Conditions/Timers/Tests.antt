-- ===== src/Conditions/Timers/Tests.antt =====
-- Timers of one millisecond and of ten, with a priority queue that searches a list for its earliest
-- element.
use reconverse.Prelude.{
  ℕ, ◌≤◌, ◌≡◌, refl, sym, subst, Bool, false, Option, none, some, List, [], ◌∷◌, leb, take, ◌==◌,
  if◌then◌else◌, if_cases, arith,
}
use reconverse.Conditions.{Callback, Conds, Request}
use reconverse.Conditions.Timers.{
  Timer, Ccd, count_if, earlier, PriorityQueue, Effect, heap_update, module_init, call_backs,
  num_timer_cbs, fire, call_all_after, polls, serve_timers, call_fn_after_on_pe,
  periodic_call_interval,
}
use reconverse.Conditions.Timers.Due.{count_if_le, ReadFrom, Fired, heap_update_lem}
use reconverse.Conditions.Timers.Polls.{polls_fire}
use reconverse.Conditions.Timers.Periodic.{Within, Raised, call_backs-Within}

abbrev earliest : List Timer → Option (Timer × List Timer)
earliest [] = none
earliest (e ∷ es) = elim (earliest es) [
  | none ↦ some (e, [])
  | some (m, rest) ↦ if leb e.time m.time then some (e, m ∷ rest) else some (m, e ∷ rest)
]

abbrev Law : List Timer → Option (Timer × List Timer) → Type 0
Law h none = h ≡ []
Law h (some (e, rest)) =
    ((p : Timer → Bool) → count_if p h ≡ count_if p (e ∷ rest))
    × (count_if (earlier e.time) rest ≡ 0)

earliest-Law : (h : List Timer) → Law h (earliest h)
earliest-Law [] = refl
earliest-Law (e ∷ es) = go (earliest es) (earliest-Law es)
  where
    go :
        (o : Option (Timer × List Timer))
        → Law es o
        → Law (e ∷ es) (elim o [
          | none ↦ some (e, [])
          | some (m, rest) ↦ if leb e.time m.time then some (e, m ∷ rest) else some (m, e ∷ rest)
        ])
    go none l = subst (λ r. Law (e ∷ r) (some (e, []))) (sym l) ((λ p. refl), refl)
    go (some (m, rest)) l =
        if_cases (Law (e ∷ es)) (leb e.time m.time) (some (e, m ∷ rest)) (some (m, e ∷ rest))
          (λ h. (
            (λ p. omega (arith, l.0 p)),
            ground (
              arith,
              l.1,
              count_if_le (earlier e.time) (earlier m.time) rest (λ x k. ground arith),
            ),
          ))
          (λ h. ((λ p. omega (arith, l.0 p)), ground (arith, l.1)))

abbrev searched : PriorityQueue
searched = record {
  extract = earliest;
  extract_none = λ h z. subst (Law h) z (earliest-Law h);
  extract_some = λ h e rest z. subst (Law h) z (earliest-Law h);
}

abbrev idle : Conds
idle = record {
  condcb = λ c. record { elems = []; flag = false; next_id = 1 };
  condcb_keep = λ c. record { elems = []; flag = false; next_id = 1 };
  timed = 0;
  called = [];
}

-- A delay of one millisecond from the start, and one of three; the first callback asks for another
-- one when it is called at 2 ms.
abbrev started : Ccd
unfolding module_init call_fn_after_on_pe
started =
    call_fn_after_on_pe (record { ctime = 0; fn = 8; arg = 0; delta_t = 3; pe = 0 })
      (call_fn_after_on_pe (record { ctime = 0; fn = 7; arg = 0; delta_t = 1; pe = 0 })
        (module_init 0 99 idle))

abbrev again : Timer → Effect
again e =
    if e.fn == 7
    then record {
      delayed = record { ctime = 2000; fn = 7; arg = 1; delta_t = 1; pe = 0 } ∷ [];
      requests = [];
    }
    else record { delayed = []; requests = [] }

again-ReadFrom : (e : Timer) → ReadFrom 2000 (again e).delayed
again-ReadFrom e =
    if_cases (λ (a : Effect). ReadFrom 2000 a.delayed) (e.fn == 7)
      (record {
        delayed = record { ctime = 2000; fn = 7; arg = 1; delta_t = 1; pe = 0 } ∷ [];
        requests = [];
      })
      (record { delayed = []; requests = [] }) (λ h. (omega arith, tt)) (λ h. tt)

abbrev nothing : Callback → List Request
nothing cb = []

fns : List Timer → List ℕ
fns [] = []
fns (e ∷ es) = e.fn ∷ fns es

abbrev quiet : Timer → Effect
quiet e = record { delayed = []; requests = [] }

-- At 5 ms both callbacks have been called, the earlier first.
fired_in_order : fns (heap_update searched quiet 2 5000 started).fired ≡ 7 ∷ 8 ∷ []
unfolding fns heap_update fire call_all_after started
fired_in_order = refl

-- The condition of every 10 ms is due at 10 ms, but the one of every millisecond was raised at 9.5
-- ms: the loop stops there.
due_after_later :
    let s = call_backs searched again nothing 9500 started in
    take 2 (call_backs searched again nothing 10000 s).pcb.next_call ≡ 10500 ∷ 10000 ∷ []
unfolding call_backs started
due_after_later = refl

heap_update_lem_example :
    (f : List Timer) × Fired searched again 2000 started f
      (heap_update searched again 2 2000 started)
unfolding started
heap_update_lem_example = heap_update_lem searched again 2 2000 started again-ReadFrom (omega arith)

polls_fire_example :
    let u = polls searched again nothing (1500 ∷ 2000 ∷ []) started in
    ((f : List Timer) × Fired searched again 2000 started f u)
    × (1 ≤ u.numchecks)
    × (u.numchecks ≤ 20)
unfolding started num_timer_cbs
polls_fire_example =
    polls_fire searched again nothing (1500 ∷ []) 2000 started refl (omega arith) again-ReadFrom

call_backs-Within_example :
    let u = call_backs searched again nothing 2000 started in
    (u.pcb.last_check ≡ 2000)
    × Within 2000 periodic_call_interval u.pcb.next_call
    × Raised nothing 2000 0 periodic_call_interval started.pcb.next_call
        (serve_timers searched again 2000 started).conds
        (u.pcb.next_call, u.conds)
unfolding started
call_backs-Within_example =
    call_backs-Within searched again nothing 2000 started (omega arith) (omega arith)
