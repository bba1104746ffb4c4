-- ===== src/MessageQueue/Counters.antt =====
-- The counters of the queue of src/queue.h never hide a message that a producer has finished to
-- push, and never promise one that is not there.
use reconverse.Prelude.{
  ℕ, suc, ◌+◌, ◌≤◌, ◌≡◌, inl, inr, refl, sym, ap, ◌∙◌, subst, Option, none, some, length, ◌==◌,
  if◌then◌else◌, if_cases, false, Option-cases, arith,
}
use reconverse.Prelude.Count.{count}
use reconverse.MessageQueue.{
  ConcurrentQueue, State, fresh, enqueue, publish, available, look, take_out, dequeue, Step,
  enqueues, publishes, looks, dequeues, Reach, starts, steps,
}

abbrev FoundAt : Option ℕ → ℕ → Type 0
FoundAt none credit = Unit {0}
FoundAt (some n) credit = n ≡ credit

abbrev Inv : State → Type 0
Inv s =
    (length s.content + s.taken ≡ s.pushed + s.unpublished)
    × (s.taken + s.credit ≤ s.pushed)
    × FoundAt s.found s.credit
    × ((x : ℕ) → count x s.put ≡ count x s.got + count x s.content)

module _ (q : ConcurrentQueue) where
  dequeue-Inv : (s : State) (k n : ℕ) → Inv s → s.found ≡ some n → Inv (dequeue q k n s)
  unfolding dequeue
  dequeue-Inv s k n inv e =
      if_cases Inv (n == 0) (record s { found = none }) (take_out (q.try_dequeue k s.content) s)
        (λ z. (inv.0, inv.1, tt, inv.3))
        (λ more. elim (Option-cases (q.try_dequeue k s.content)) [
          | inl z ↦ subst (λ o. Inv (take_out o s)) (sym z) (inv.0, omega (arith, inv.1), tt, inv.3)
          | inr ((m, rest), z) ↦
              let law = q.try_dequeue_some k s.content m rest z in
              let known = subst (λ o. FoundAt o s.credit) e inv.2 in
              subst (λ o. Inv (take_out o s)) (sym z)
                (
                  omega (arith, inv.0, law.0),
                  ground (arith, inv.1, known),
                  tt,
                  λ x. omega (arith, inv.3 x, law.1 x),
                )
        ])

  Step-Inv : (s t : State) → Inv s → Step q s t → Inv t
  unfolding enqueue publish look available
  Step-Inv s t inv (enqueues _ m) =
      (omega (arith, inv.0), inv.1, inv.2, λ x. omega (arith, inv.3 x))
  Step-Inv s t inv (publishes _ n e) = (omega (arith, inv.0), omega (arith, inv.1), inv.2, inv.3)
  Step-Inv s t inv (looks _ e) = (inv.0, ground (arith, inv.1), refl, inv.3)
  Step-Inv s t inv (dequeues _ k n e) = dequeue-Inv s k n inv e

  Reach-Inv : (s : State) → Reach q s → Inv s
  unfolding fresh
  Reach-Inv s starts = (refl, omega arith, tt, λ x. refl)
  Reach-Inv t (steps s _ r step) = Step-Inv s t (Reach-Inv s r) step

  -- In every order of the accesses of the producers and of one consumer, also when try_dequeue gives
  -- none though there are messages: the messages put in are those got out and those still in the
  -- queue, each as often. The queue holds the messages whose push is complete and that are not taken,
  -- and those whose push is not complete. What a pop finds available is never more than the former,
  -- and it is 0 only if there are none of them. When try_dequeue gives none, no message is lost, and
  -- the next pop finds all messages whose push is complete.
  pub pop_result_lem :
      (s : State)
      → Reach q s
      → ((x : ℕ) → count x s.put ≡ count x s.got + count x s.content)
        × (length s.content + s.taken ≡ s.pushed + s.unpublished)
        × (s.taken + available s ≤ s.pushed)
        × (available s ≡ 0 → s.pushed ≡ s.taken)
        × ((k n : ℕ)
            → q.try_dequeue k s.content ≡ none
            → ((dequeue q k (suc n) s).content ≡ s.content)
              × ((dequeue q k (suc n) s).taken + available (dequeue q k (suc n) s) ≡ s.pushed))
  unfolding available dequeue take_out
  pop_result_lem s r =
      let inv = Reach-Inv s r in
      (
        inv.3,
        inv.0,
        ground (arith, inv.1),
        (λ z. ground (arith, inv.1, z)),
        λ k n z.
            subst (λ t. (t.content ≡ s.content) × (t.taken + available t ≡ s.pushed))
              (sym (failed k n z)) (refl, omega (arith, inv.1)),
      )
    where
      positive : (n : ℕ) → (suc n == 0) ≡ false
      positive n = ground arith

      failed :
          (k n : ℕ)
          → q.try_dequeue k s.content ≡ none
          → (if suc n == 0
              then record s { found = none }
              else take_out (q.try_dequeue k s.content) s)
            ≡ record s { credit = 0; found = none }
      failed k n z =
          ap (λ b. if b then record s { found = none } else take_out (q.try_dequeue k s.content) s)
            (positive n)
          ∙ ap (λ o. take_out o s) z
