-- ===== src/Futures/Tests.antt =====
-- Two threads of PE 0 wait for a future that PE 3 sets; the value has arrived.
use reconverse.Prelude.{ℕ, ◌≡◌, refl, true, false, some, List, [], ◌∷◌, arith}
use reconverse.Prelude.Count.{count}
use reconverse.Futures.{
  Future, waiting, woken, Pe, chain_from, awaken, store_buffer, returns, wait, suspend_on, resume,
  start, fresh_cell, sets, arrives, waits, Reach, starts, steps,
}
use reconverse.Futures.Values.{WasSet}
use reconverse.Futures.Wakes.{wait_lem}

abbrev future : Future
future = record { pe = 0; data_at = 5 }

abbrev first_waits : Pe
first_waits = (wait 0 1 future start).0

abbrev both_wait : Pe
both_wait = (wait 0 0 future first_waits).0

abbrev sent : Pe
sent = store_buffer 2 3 0 future 42 both_wait

abbrev arrived : Pe
arrived = awaken 2 5 42 (record sent { flying = [] })

run : Reach 2 0 arrived
unfolding wait suspend_on start fresh_cell store_buffer
run =
    steps sent arrived
      (steps both_wait sent
        (steps first_waits both_wait
          (steps start first_waits starts (waits start 1 future (omega arith) refl))
          (waits first_waits 0 future (omega arith) refl))
        (sets both_wait 3 future 42 refl))
      (arrives sent 5 42 [] [] refl)

-- The later thread is awakened first.
woken_both : arrived.queue ≡ 0 ∷ 1 ∷ []
unfolding wait suspend_on start fresh_cell store_buffer awaken chain_from
woken_both = refl

wait_lem_example :
    (arrived.phase 1 ≡ waiting 5
      → ((arrived.cells 5).ready ≡ false)
        × (count 1 (chain_from 2 arrived.next (arrived.cells 5).waiters) ≡ 1)
        × (count 1 arrived.queue ≡ 0)
        × ((v : ℕ) → (awaken 2 5 v arrived).phase 1 ≡ woken 5))
    × (arrived.phase 1 ≡ woken 5
        → (count 1 arrived.queue ≡ 1)
          × ((v : ℕ) × WasSet run 5 v
              × ((others : List ℕ) → (resume 1 5 others arrived).1 ≡ returns (some v))))
    × ((arrived.cells 5).ready ≡ true
        → (v : ℕ) × WasSet run 5 v
          × (wait 0 1 (record { pe = 0; data_at = 5 }) arrived ≡ (arrived, returns (some v))))
wait_lem_example = wait_lem 2 0 arrived 1 5 run
