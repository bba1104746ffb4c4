-- ===== src/Countdown/Rounds.antt =====
-- The counters of src/convcore.cpp through rounds of decrements, each begun by a reset.
use reconverse.Prelude.{
  ℕ, zero, suc, ◌+◌, ◌<◌, ◌≡◌, refl, ap, ◌∙◌, none, some, List, [], ◌∷◌, length, lt→ltb, arith,
}
use reconverse.Countdown.{
  Countdown, create, reset, after_fetch, decrement, Call, decrements, resets, run, ◌>>=◌,
}

-- As many decrements.
unfoldable pub times : ℕ → List Call → List Call
times zero rest = rest
times (suc n) rest = decrements ∷ times n rest

-- For each number, a reset to one more and as many decrements.
unfoldable pub rounds : List ℕ → List Call
unfolding times
rounds [] = []
rounds (n ∷ ns) = resets (suc n) ∷ times (suc n) (rounds ns)

suc_add : (k n : ℕ) → suc k + n ≡ suc (k + n)
suc_add k n = omega arith

module _ (npes dest : ℕ) (h : dest < npes) where
  abbrev at : ℕ → Countdown
  at n = record { counter = n; dest_pe = dest }

  run-times :
      (n : ℕ) (rest : List Call) (sent : ℕ)
      → run npes (times (suc n) rest) (at (suc n)) sent ≡ run npes rest (at 0) (suc sent)
  unfolding run decrement after_fetch times
  run-times zero rest sent = rw (lt→ltb dest npes h) (ap (run npes rest (at 0)) (omega arith))
  run-times (suc n) rest sent =
      ap (run npes (times (suc n) rest) (at (suc n))) (omega arith) ∙ run-times n rest sent

  run-rounds :
      (ns : List ℕ) (sent : ℕ) → run npes (rounds ns) (at 0) sent ≡ some (at 0, length ns + sent)
  unfolding run reset rounds
  run-rounds [] sent = ap (λ k. some (at 0, k)) (omega arith)
  run-rounds (n ∷ ns) sent =
      run-times n (rounds ns) sent
      ∙ run-rounds ns (suc sent)
      ∙ ap (λ k. some (at 0, k)) (omega arith)

  run-early :
      (k n sent : ℕ) → run npes (times k []) (at (suc (k + n))) sent ≡ some (at (suc n), sent)
  unfolding run decrement after_fetch times
  run-early zero n sent = ap (λ j. some (at (suc j), sent)) (omega arith)
  run-early (suc k) n sent =
      ap (λ j. run npes (decrements ∷ times k []) (at (suc j)) sent) (suc_add k n)
      ∙ ap (run npes (times k []) (at (suc (k + n)))) (omega arith)
      ∙ run-early k n sent

  abbrev pub Counts : ℕ → List ℕ → Type 0
  Counts n ns =
      ((k m : ℕ) → run npes (times k []) (at (suc (k + m))) 0 ≡ some (at (suc m), 0))
      × ((create dest (suc n) >>= (λ s. run npes (times (suc n) (rounds ns)) s 0))
          ≡ some (at 0, suc (length ns)))
      × ((calls : List Call) (sent : ℕ) → run npes (decrements ∷ calls) (at 0) sent ≡ none)

  -- A counter that is created with a number sends its message at the decrement that makes as many
  -- and not before; reset to any number it does so again, so that there is one send for each round,
  -- and one decrement more aborts. The destination of the message is a PE of the run.
  pub run-Counts : (n : ℕ) (ns : List ℕ) → Counts n ns
  unfolding create run decrement after_fetch
  run-Counts n ns = (
    (λ k m. run-early k m 0),
    run-times n (rounds ns) 0 ∙ run-rounds ns 1 ∙ ap (λ j. some (at 0, j)) (omega arith),
    λ calls sent. refl,
  )
