-- ===== src/PrioQueue/History.antt =====
-- Any sequence of calls on a handle against the same calls on the specification's sequence.
use reconverse.Prelude.{
  ℕ, ◌≡◌, ◌≢◌, refl, ap, Bool, Option, none, some, List, [], ◌∷◌, arith, ◌==◌, length,
}
use reconverse.Prelude.Int.{ℤ}
use reconverse.PrioQueue.Counts.{IsValid, enqueue-IsValid, enqueue_front-IsValid}
use reconverse.PrioQueue.Refine.{contents, size-contents, enqueue_refines, enqueue_front_refines}
use reconverse.PrioQueue.Drain.{dequeue-Drains}
use reconverse.PrioQueue.Merge.{merged}
use reconverse.PrioQueue.Spec.{Entry, rest, head_message, head_priority, insert_back, insert_front}
use reconverse.PrioQueue.{
  Queue, Handle, null, destroyed, live, dequeue, enqueue, enqueue_front, llong_max, push,
  push_front, pop, top, top_priority, size_of, is_queue_empty, init, fresh,
}

-- The calls that a scheduler makes on an initialised queue.
pub data Call : Type 0 where
  pushes : ℕ → ℤ → Call
  pushes_front : ℕ → ℤ → Call
  pops : Call

-- What is seen between two calls: QueueTop, QueueTopPriority, QueueSize and QueueEmpty.
abbrev pub View : Type 0
View = Option ℕ × ℤ × ℕ × Bool

abbrev pub observe : Handle → View
observe h = (top h, top_priority h, size_of h, is_queue_empty h)

abbrev pub observe_list : List Entry → View
observe_list es = (head_message es, head_priority llong_max es, length es, length es == 0)

abbrev pub call : Handle → Call → Option Handle
call h (pushes m p) = push h m p
call h (pushes_front m p) = push_front h m p
call h pops = some (pop h)

abbrev pub call_list : List Entry → Call → List Entry
call_list es (pushes m p) = insert_back p m es
call_list es (pushes_front m p) = insert_front p m es
call_list es pops = rest es

-- The views after each call; the history ends at a faulting call.
pub history : Handle → List Call → List View
history h [] = []
history h (c ∷ cs) = elim (call h c) [ none ↦ [] | some h' ↦ observe h' ∷ history h' cs ]

unfoldable pub history_list : List Entry → List Call → List View
history_list es [] = []
history_list es (c ∷ cs) = observe_list (call_list es c) ∷ history_list (call_list es c) cs

pub fresh-IsValid : IsValid fresh
unfolding fresh
fresh-IsValid = record {
  sorted = tt;
  non_zero = tt;
  counted = refl;
  kept = omega arith;
  sized = refl;
}

observe-live : (q : Queue) → IsValid q → observe (live q) ≡ observe_list (contents q)
unfolding top top_priority size_of is_queue_empty
observe-live q v =
    let d = dequeue-Drains q v in ground (arith, d.top_is, d.priority_is, size-contents q v)

-- What a call makes of a live queue.
abbrev call_live : Queue → Call → Queue
call_live q (pushes m p) = enqueue q m p
call_live q (pushes_front m p) = enqueue_front q m p
call_live q pops = dequeue q

call-live : (q : Queue) (c : Call) → call (live q) c ≡ some (live (call_live q c))
unfolding push push_front pop
call-live q (pushes m p) = refl
call-live q (pushes_front m p) = refl
call-live q pops = refl

call_live-IsValid : (q : Queue) (c : Call) → IsValid q → IsValid (call_live q c)
call_live-IsValid q (pushes m p) v = enqueue-IsValid q m p v
call_live-IsValid q (pushes_front m p) v = enqueue_front-IsValid q m p v
call_live-IsValid q pops v = (dequeue-Drains q v).valid

call_live_refines :
    (q : Queue) (c : Call) → IsValid q → contents (call_live q c) ≡ call_list (contents q) c
call_live_refines q (pushes m p) v = enqueue_refines q m p v
call_live_refines q (pushes_front m p) v = enqueue_front_refines q m p v
call_live_refines q pops v = (dequeue-Drains q v).leaves

-- On a valid queue no sequence of pushes and pops faults, and none tells the queue from the
-- sequence of its contents.
pub history_refines :
    (q : Queue) (cs : List Call) → IsValid q → history (live q) cs ≡ history_list (contents q) cs
unfolding history history_list
history_refines q [] v = refl
history_refines q (c ∷ cs) v =
    rw (call-live q c, history, ← call_live_refines q c v)
      (rw (observe-live (call_live q c) (call_live-IsValid q c v)) (
        ap (λ vs. observe_list (contents (call_live q c)) ∷ vs)
          (history_refines (call_live q c) cs (call_live-IsValid q c v))))

-- Initialising a queue, whatever the struct held, and then making any sequence of calls shows
-- what the specification's empty sequence shows.
pub init-history :
    (h : Handle) (cs : List Call) → h ≢ null → history (init h) cs ≡ history_list [] cs
unfolding init fresh merged
init-history null cs n = absurd (n refl)
init-history destroyed cs n = history_refines fresh cs fresh-IsValid
init-history (live q) cs n = history_refines fresh cs fresh-IsValid
