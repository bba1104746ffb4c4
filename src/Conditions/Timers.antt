-- ===== src/Conditions/Timers.antt =====
-- Timed callbacks, src/conv-conds.cpp: the heap of CcdCallFnAfter, the periodic conditions, and the
-- count of polls after which the clock is read. A time is a natural number of microseconds, in
-- place of the source's seconds in a double; the heap is the list of its elements, and which of
-- the earliest ones std::priority_queue gives first is left open.
mod Due
mod Periodic
mod Polls
mod Tests
use reconverse.Prelude.{
  ℕ, zero, suc, ◌+◌, ◌-◌, ◌*◌, ◌/◌, ◌≡◌, Bool, true, false, Option, none, some, List, [], ◌∷◌, map,
  ◌++◌, length, ltb, leb, ◌==◌, if◌then◌else◌,
}
use reconverse.Conditions.{
  Callback, Conds, Request, register, raise_condition, call_on_condition_keep,
}

-- ccd_heap_elem with its ccd_periodic_callback
pub record Timer : Type 0 where
  pub time : ℕ
  pub fn : ℕ
  pub arg : ℕ
  pub pe : ℕ

-- ccd_periodic_callbacks
pub record Pcb : Type 0 where
  pub last_check : ℕ
  pub next_call : List ℕ
  pub n_skip : ℕ

-- The state of the file: the conditions, ccd_heap, pcb and _ccd_numchecks; `fired` records the
-- calls made from the heap.
pub record Ccd : Type 0 where
  pub conds : Conds
  pub heap : List Timer
  pub pcb : Pcb
  pub numchecks : ℕ
  pub fired : List Timer

-- periodicCallInterval
abbrev pub periodic_call_interval : List ℕ
periodic_call_interval =
    1000 ∷ 10000 ∷ 100000 ∷ 1000000 ∷ 5000000 ∷ 10000000 ∷ 60000000 ∷ 120000000 ∷ 300000000
    ∷ 600000000 ∷ 3600000000 ∷ 43200000000 ∷ 86400000000 ∷ []

-- CCD_DEFAULT_RESOLUTION
abbrev pub resolution : ℕ
resolution = 5000

-- CcdNumTimerCBs
unfoldable pub num_timer_cbs : Ccd → ℕ
num_timer_cbs s = length s.heap + s.conds.timed

-- A call of CcdCallFnAfterOnPE: the clock it reads, in microseconds, and its arguments, the delay
-- in milliseconds.
pub record Delayed : Type 0 where
  pub ctime : ℕ
  pub fn : ℕ
  pub arg : ℕ
  pub delta_t : ℕ
  pub pe : ℕ

-- ccd_heap_insert by CcdCallFnAfterOnPE
unfoldable pub call_fn_after_on_pe : Delayed → Ccd → Ccd
call_fn_after_on_pe d s = record s {
  heap = record { time = d.ctime + d.delta_t * 1000; fn = d.fn; arg = d.arg; pe = d.pe } ∷ s.heap;
}

-- CcdModuleInit: the clock, the function CcdCallBacksReset, and the conditions of an idle PE
unfoldable pub module_init : ℕ → ℕ → Conds → Ccd
unfolding call_on_condition_keep
module_init now reset conds =
    let begins = (call_on_condition_keep (record conds { timed = 0 }) 2 reset 0).0 in
    let ends = (call_on_condition_keep begins 1 reset 0).0 in
    record {
      conds = ends;
      heap = [];
      pcb = record {
        last_check = now;
        next_call = map (λ iv. now + iv) periodic_call_interval;
        n_skip = 1;
      };
      numchecks = 1;
      fired = [];
    }

unfoldable pub call_all_after : List Delayed → Ccd → Ccd
unfolding call_fn_after_on_pe
call_all_after [] s = s
call_all_after (d ∷ ds) s = call_all_after ds (call_fn_after_on_pe d s)

-- CcdCallBacksReset
unfoldable pub call_backs_reset : ℕ → Ccd → Ccd
call_backs_reset now s = record s {
  numchecks = 1;
  pcb = record s.pcb { n_skip = 1; last_check = now };
}

-- The first part of CcdCallBacks: how many polls to skip from now on. The multiplier lies between
-- one half and two, and the product is rounded down.
unfoldable pub scaled_skip : ℕ → ℕ → ℕ
scaled_skip n_skip elapsed =
    if elapsed == 0
    then n_skip
    else if leb (2 * elapsed) resolution
    then n_skip * 2
    else if leb (2 * resolution) elapsed
    then n_skip / 2
    else (n_skip * resolution) / elapsed

unfoldable pub clamped_skip : ℕ → ℕ
clamped_skip n = if ltb n 1 then 1 else if ltb 20 n then 20 else n

-- What std::priority_queue with std::greater gives: an element and the others, where no other one
-- is earlier; nothing of an empty heap only. `count_if` tells in which numbers the elements occur.
abbrev pub count_if : (Timer → Bool) → List Timer → ℕ
count_if p [] = 0
count_if p (e ∷ es) = (if p e then 1 else 0) + count_if p es

abbrev pub earlier : ℕ → Timer → Bool
earlier t e = ltb e.time t

pub record PriorityQueue : Type 0 where
  pub extract : List Timer → Option (Timer × List Timer)
  pub extract_none : (h : List Timer) → extract h ≡ none → h ≡ []
  pub extract_some :
      (h : List Timer) (e : Timer) (rest : List Timer)
      → extract h ≡ some (e, rest)
      → ((p : Timer → Bool) → count_if p h ≡ count_if p (e ∷ rest))
        × (count_if (earlier e.time) rest ≡ 0)

-- What a timed callback does when it is called: timers of its own and callbacks on conditions.
pub record Effect : Type 0 where
  pub delayed : List Delayed
  pub requests : List Request

unfoldable pub fire : Effect → Timer → Ccd → Ccd
unfolding call_all_after
fire a e s =
    call_all_after a.delayed
      (record s { conds = register a.requests s.conds; fired = s.fired ++ e ∷ [] })

-- The loop of CcdCallBacks over the periodic conditions: the times of the next calls from position
-- i on, and the conditions.
unfoldable pub periodic_loop :
    (Callback → List Request) → ℕ → ℕ → List ℕ → List ℕ → Conds → List ℕ × Conds
periodic_loop requests now i [] cs s = (cs, s)
periodic_loop requests now i (iv ∷ ivs) [] s = ([], s)
periodic_loop requests now i (iv ∷ ivs) (c ∷ cs) s =
    let (later, t) =
      periodic_loop requests now (suc i) ivs cs (raise_condition requests s (5 + i)) in
    if leb c now then ((now + iv) ∷ later, t) else (c ∷ cs, s)

module _ (q : PriorityQueue) (effect : Timer → Effect) where
  -- ccd_heap_update, on fuel for the calls
  unfoldable pub heap_update : ℕ → ℕ → Ccd → Ccd
  unfolding fire
  heap_update zero now s = s
  heap_update (suc n) now s = elim (q.extract s.heap) [
    | none ↦ s
    | some (e, rest) ↦
        if leb now e.time
        then s
        else heap_update n now (fire (effect e) e (record s { heap = rest }))
  ]

  -- CcdCallBacks up to its loop over the periodic conditions: the new count, then the heap, with
  -- the number of its timers as fuel
  unfoldable pub serve_timers : ℕ → Ccd → Ccd
  unfolding scaled_skip clamped_skip heap_update
  serve_timers now s =
      let n_skip = clamped_skip (scaled_skip s.pcb.n_skip (now - s.pcb.last_check)) in
      heap_update (length s.heap) now
        (record s { numchecks = n_skip; pcb = record s.pcb { n_skip = n_skip; last_check = now } })

module _ (q : PriorityQueue) (effect : Timer → Effect) (requests : Callback → List Request) where
  -- CcdCallBacks
  unfoldable pub call_backs : ℕ → Ccd → Ccd
  unfolding serve_timers periodic_loop
  call_backs now s =
      let t = serve_timers q effect now s in
      let (next, conds) =
        periodic_loop requests now 0 periodic_call_interval t.pcb.next_call t.conds in
      record t { conds = conds; pcb = record t.pcb { next_call = next } }

  -- CsdPeriodic
  unfoldable pub csd_periodic : ℕ → Ccd → Ccd
  unfolding num_timer_cbs call_backs
  csd_periodic now s =
      if ltb 0 (num_timer_cbs s)
      then if s.numchecks == 0 then call_backs now s else record s { numchecks = s.numchecks - 1 }
      else s

  -- One poll at each of the times.
  unfoldable pub polls : List ℕ → Ccd → Ccd
  unfolding csd_periodic
  polls [] s = s
  polls (now ∷ later) s = polls later (csd_periodic now s)
