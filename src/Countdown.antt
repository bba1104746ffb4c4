-- ===== src/Countdown.antt =====
-- The counters that send a message when they reach 0, src/convcore.cpp and include/converse.h:
-- CmiCreateDecrementToEnqueue, CmiDecrementCounter and CmiResetCounter. The access to the counter is
-- one atomic instruction, so that the calls of several PEs are a sequence of steps. An abort is
-- `none`. Freeing is left out, so that the counter is never null.
mod Tests
mod Rounds
use reconverse.Prelude.{ℕ, zero, suc, ◌+◌, Option, none, some, List, [], ◌∷◌, ltb, if◌then◌else◌}

-- DecrementToEnqueueMsg: the counter, with the destination in the header of the message.
pub record Countdown : Type 0 where
  pub counter : ℕ
  pub dest_pe : ℕ

-- CmiCreateDecrementToEnqueue
unfoldable pub create : ℕ → ℕ → Option Countdown
create dest_pe zero = none
create dest_pe (suc n) = some record { counter = suc n; dest_pe = dest_pe }

-- CmiResetCounter
unfoldable pub reset : ℕ → Countdown → Option Countdown
reset zero s = none
reset (suc n) s = some record s { counter = suc n }

-- CmiDecrementCounter from the value that the fetch gave: the counter with the number of sends.
unfoldable pub after_fetch : ℕ → ℕ → Countdown → Option (Countdown × ℕ)
after_fetch npes zero s = none
after_fetch npes (suc zero) s =
    if ltb s.dest_pe npes then some (record s { counter = 0 }, 1) else none
after_fetch npes (suc (suc n)) s = some (record s { counter = suc n }, 0)

unfoldable pub decrement : ℕ → Countdown → Option (Countdown × ℕ)
unfolding after_fetch
decrement npes s = after_fetch npes s.counter s

infixl 5 ◌>>=◌
abbrev pub ◌>>=◌ {ℓ κ} : {A : Type ℓ} {B : Type κ} → Option A → (A → Option B) → Option B
none >>= f = none
some a >>= f = f a

-- The calls on one counter.
pub data Call : Type 0 where
  decrements : Call
  resets : ℕ → Call

-- The calls one after the other, with the number of sends so far.
unfoldable pub run : ℕ → List Call → Countdown → ℕ → Option (Countdown × ℕ)
unfolding decrement reset
run npes [] s sent = some (s, sent)
run npes (decrements ∷ calls) s sent = do (t, k) ← decrement npes s; run npes calls t (k + sent)
run npes (resets n ∷ calls) s sent = do t ← reset n s; run npes calls t sent
