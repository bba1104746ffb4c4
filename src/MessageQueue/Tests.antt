-- ===== src/MessageQueue/Tests.antt =====
-- A producer has finished one push and is in the midst of another when the consumer looks; the queue
-- is a list that gives its first element at every other attempt.
use reconverse.Prelude.{
  ℕ, suc, ◌+◌, ◌≡◌, ◌≤◌, ◌%◌, ◌==◌, if◌then◌else◌, if_cases, refl, subst, Option, none, some, List,
  [], ◌∷◌, length,
}
use reconverse.Prelude.Count.{count}
use reconverse.MessageQueue.{
  ConcurrentQueue, State, fresh, enqueue, publish, available, look, dequeue, enqueues, publishes,
  looks, Reach, starts, steps,
}
use reconverse.MessageQueue.Counters.{pop_result_lem}

-- Every other attempt fails.
abbrev first_of : ℕ → List ℕ → Option (ℕ × List ℕ)
first_of k [] = none
first_of k (m ∷ ms) = if k % 2 == 0 then none else some (m, ms)

abbrev Law : List ℕ → Option (ℕ × List ℕ) → Type 0
Law q none = Unit {0}
Law q (some (m, rest)) = (length q ≡ suc (length rest)) × ((x : ℕ) → count x q ≡ count x (m ∷ rest))

first_of-Law : (k : ℕ) (q : List ℕ) → Law q (first_of k q)
first_of-Law k [] = tt
first_of-Law k (m ∷ ms) =
    if_cases (Law (m ∷ ms)) (k % 2 == 0) none (some (m, ms)) (λ e. tt) (λ e. (refl, λ x. refl))

abbrev listed : ConcurrentQueue
listed = record {
  try_dequeue = first_of;
  try_dequeue_some = λ k q m rest z. subst (Law q) z (first_of-Law k q);
}

abbrev one_pushed : State
one_pushed = publish (enqueue 7 fresh)

abbrev looked : State
looked = look (enqueue 8 one_pushed)

run : Reach listed looked
unfolding enqueue fresh publish
run =
    steps (enqueue 8 one_pushed) looked
      (steps one_pushed (enqueue 8 one_pushed)
        (steps (enqueue 7 fresh) one_pushed
          (steps fresh (enqueue 7 fresh) starts (enqueues fresh 7))
          (publishes (enqueue 7 fresh) 0 refl))
        (enqueues one_pushed 8))
      (looks (enqueue 8 one_pushed) refl)

pop_result_lem_example :
    ((x : ℕ) → count x looked.put ≡ count x looked.got + count x looked.content)
    × (length looked.content + looked.taken ≡ looked.pushed + looked.unpublished)
    × (looked.taken + available looked ≤ looked.pushed)
    × (available looked ≡ 0 → looked.pushed ≡ looked.taken)
    × ((k n : ℕ)
        → first_of k looked.content ≡ none
        → ((dequeue listed k (suc n) looked).content ≡ looked.content)
          × ((dequeue listed k (suc n) looked).taken + available (dequeue listed k (suc n) looked)
              ≡ looked.pushed))
pop_result_lem_example = pop_result_lem listed looked run
