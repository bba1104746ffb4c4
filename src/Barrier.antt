-- ===== src/Barrier.antt =====
-- The barrier of the PEs of a process, src/barrier.h, as CmiNodeBarrier uses it: the accesses of the
-- threads to the shared counters as steps, in any order, sequentially consistent as std::atomic makes
-- them. Counters are natural numbers, far from the ends of int and int64_t.
mod Totals
mod Progress
mod Rounds
mod Tests
use reconverse.Prelude.{ℕ, suc, ◌+◌, ◌<◌, ◌==◌, if◌then◌else◌}

-- Where a thread is: outside; in arrive, with the step that it loaded, before the increment, before
-- the reset of the count, or before the increment of the step; or testing its ticket.
pub data Phase : Type 0 where
  outside : Phase
  loaded : ℕ → Phase
  last : ℕ → Phase
  clearing : ℕ → Phase
  spinning : ℕ → Phase

-- Barrier, with the phase of each thread and the number of barriers that it has left.
pub record State : Type 0 where
  pub waiting : ℕ
  pub step : ℕ
  pub phase : ℕ → Phase
  pub left : ℕ → ℕ

abbrev pub update {ℓ} : {A : Type ℓ} → (ℕ → A) → ℕ → A → ℕ → A
update f t a u = if u == t then a else f u

-- The next access of a thread in arrive and test_ticket, where n is thread_num_.
unfoldable pub access : ℕ → ℕ → Phase → State → State
access n t outside s = record s { phase = update s.phase t (loaded s.step) }
access n t (loaded m) s = record s {
  waiting = s.waiting + 1;
  phase = update s.phase t (if (s.waiting + 1) == n then last m else spinning m);
}
access n t (last m) s = record s { waiting = 0; phase = update s.phase t (clearing m) }
access n t (clearing m) s = record s { step = s.step + 1; phase = update s.phase t (spinning m) }
access n t (spinning m) s =
    if m == s.step
    then s
    else record s { phase = update s.phase t outside; left = update s.left t (s.left t + 1) }

-- The constructor of Barrier, with all threads outside
unfoldable pub fresh : State
fresh = record { waiting = 0; step = 0; phase = λ t. outside; left = λ t. 0 }

pub data Reach (n : ℕ) : State → Type 0 where
  starts : Reach n fresh
  moves : (s : State) (t : ℕ) → Reach n s → t < n → Reach n (access n t (s.phase t) s)
