-- ===== src/MessageQueue.antt =====
-- The queue of a PE, AtomicAccessControl of src/queue.h with a single consumer: the counters around
-- moodycamel's queue, which stands as a parameter, and the accesses of any number of producers and
-- of the consumer as steps. Counters are natural numbers, far from the ends of a long.
mod Counters
mod Tests
use reconverse.Prelude.{
  ℕ, zero, suc, ◌+◌, ◌-◌, ◌≡◌, Option, none, some, List, [], ◌∷◌, length, ltb, ◌==◌, if◌then◌else◌,
}
use reconverse.Prelude.Count.{count}

-- What ConcurrentQueue promises of try_dequeue: an element that it gives was in the queue, and the
-- others stay. At some attempts, which are numbered, it may give none though the queue holds some.
pub record ConcurrentQueue : Type 0 where
  pub try_dequeue : ℕ → List ℕ → Option (ℕ × List ℕ)
  pub try_dequeue_some :
      (attempt : ℕ) (q : List ℕ) (m : ℕ) (rest : List ℕ)
      → try_dequeue attempt q ≡ some (m, rest)
      → (length q ≡ suc (length rest)) × ((x : ℕ) → count x q ≡ count x (m ∷ rest))

-- AtomicAccessControl: the queue's elements and the counters; the number of pushes between their two
-- accesses, what the consumer found available in the pop that it is in, and, as a record of the
-- run, the messages put in and got out.
pub record State : Type 0 where
  pub content : List ℕ
  pub pushed : ℕ
  pub taken : ℕ
  pub credit : ℕ
  pub unpublished : ℕ
  pub found : Option ℕ
  pub put : List ℕ
  pub got : List ℕ

unfoldable pub fresh : State
fresh = record {
  content = [];
  pushed = 0;
  taken = 0;
  credit = 0;
  unpublished = 0;
  found = none;
  put = [];
  got = [];
}

-- The two accesses of push
unfoldable pub enqueue : ℕ → State → State
enqueue m s = record s { content = m ∷ s.content; unpublished = s.unpublished + 1; put = m ∷ s.put }

unfoldable pub publish : State → State
publish s = record s { pushed = s.pushed + 1; unpublished = s.unpublished - 1 }

-- available
unfoldable pub available : State → ℕ
available s = if ltb 0 s.credit then s.credit else s.pushed - s.taken

-- pop_result: first the count, then the queue.
unfoldable pub look : State → State
unfolding available
look s = record s { credit = available s; found = some (available s) }

-- The rest of pop_result, with the answer of try_dequeue
unfoldable pub take_out : Option (ℕ × List ℕ) → State → State
take_out none s = record s { credit = 0; found = none }
take_out (some (m, rest)) s = record s {
  content = rest;
  credit = s.credit - 1;
  taken = s.taken + 1;
  found = none;
  got = m ∷ s.got;
}

module _ (q : ConcurrentQueue) where
  unfoldable pub dequeue : ℕ → ℕ → State → State
  unfolding take_out
  dequeue attempt n s =
      if n == 0 then record s { found = none } else take_out (q.try_dequeue attempt s.content) s

  pub data Step : State → State → Type 0 where
    enqueues : (s : State) (m : ℕ) → Step s (enqueue m s)
    publishes : (s : State) (n : ℕ) → s.unpublished ≡ suc n → Step s (publish s)
    looks : (s : State) → s.found ≡ none → Step s (look s)
    dequeues : (s : State) (attempt n : ℕ) → s.found ≡ some n → Step s (dequeue attempt n s)

  pub data Reach : State → Type 0 where
    starts : Reach fresh
    steps : (s t : State) → Reach s → Step s t → Reach t
