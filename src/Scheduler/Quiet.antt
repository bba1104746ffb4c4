-- ===== src/Scheduler/Quiet.antt =====
-- Polls of src/scheduler_registered.cpp that find nothing: what their source is then, and that the
-- other sources stay as they are.
use reconverse.Prelude.{
  ℕ, ◌<◌, ◌≡◌, refl, sym, subst, ◌∙◌, true, false, none, some, List, [], ◌∷◌, ◌++◌, Bool-cases, inl,
  inr, arith,
}
use reconverse.PrioQueue.{live, is_queue_empty, top}
use reconverse.PrioQueue.Counts.{IsValid}
use reconverse.PrioQueue.Client.{top-live_some}
use reconverse.Scheduler.{
  Arrival, to_thread, to_node, elsewhere, Queues, take_node_list, take_thread_list,
  take_thread_prio, take_task_list, deliver, progress, Poll, poll_converse_thread_queue,
  poll_node_prio_queue, poll_thread_prio_queue, poll_progress, poll_task_queue,
}

-- Both priority queues are valid, and the length counter of the node's is not behind.
abbrev pub Ready : Queues → Type 0
Ready q =
    IsValid q.node_prio
    × IsValid q.sched
    × (is_queue_empty (live q.node_prio) ≡ false → 0 < q.node_len)

-- The sources that no failing poll changes.
abbrev pub Same : Queues → Queues → Type 0
Same q r =
    (r.sched ≡ q.sched)
    × (r.node_prio ≡ q.node_prio)
    × (r.node_len ≡ q.node_len)
    × (r.tasks ≡ q.tasks)

-- The two converse queues are empty, but for the node's where local work has its turn.
abbrev pub Quiet : Queues → Type 0
Quiet q = (q.thread_queue ≡ []) × (is_queue_empty (live q.sched) ≡ true → q.node_queue ≡ [])

pub Same-refl : (q : Queues) → Same q q
Same-refl q = (refl, refl, refl, refl)

pub Same-trans : (p q r : Queues) → Same p q → Same q r → Same p r
Same-trans p q r a b = (b.0 ∙ a.0, b.1 ∙ a.1, b.2 ∙ a.2, b.3 ∙ a.3)

pub Ready-Same : (q r : Queues) → Same q r → Ready q → Ready r
Ready-Same q r e v = (
  subst IsValid (sym e.1) v.0,
  subst IsValid (sym e.0) v.1,
  λ p. subst (λ n. 0 < n) (sym e.2) (v.2 (subst (λ z. is_queue_empty (live z) ≡ false) e.1 p)),
)

-- What a poll's own source is after it has found nothing.
abbrev pub Nothing : Poll → Queues → Type 0
Nothing poll_converse_thread_queue q = Unit {0}
Nothing poll_node_prio_queue q = is_queue_empty (live q.node_prio) ≡ true
Nothing poll_thread_prio_queue q = is_queue_empty (live q.sched) ≡ true
Nothing poll_progress q = Unit {0}
Nothing poll_task_queue q = q.tasks ≡ []

pub Nothing-Same : (p : Poll) (q r : Queues) → Same q r → Nothing p q → Nothing p r
Nothing-Same poll_converse_thread_queue q r e n = tt
Nothing-Same poll_node_prio_queue q r e n = subst (λ z. is_queue_empty (live z) ≡ true) (sym e.1) n
Nothing-Same poll_thread_prio_queue q r e n =
    subst (λ z. is_queue_empty (live z) ≡ true) (sym e.0) n
Nothing-Same poll_progress q r e n = tt
Nothing-Same poll_task_queue q r e n = e.3 ∙ n

pub deliver-Same : (batch : List Arrival) (q : Queues) → Same q (deliver batch q)
deliver-Same [] q = Same-refl q
deliver-Same (to_thread m ∷ more) q =
    deliver-Same more (record q { thread_queue = q.thread_queue ++ m ∷ [] })
deliver-Same (to_node m ∷ more) q =
    deliver-Same more (record q { node_queue = q.node_queue ++ m ∷ [] })
deliver-Same (elsewhere ∷ more) q = deliver-Same more q

pub progress-Same : (net : List (List Arrival)) (q : Queues) → Same q (progress net q).1
progress-Same [] q = Same-refl q
progress-Same ([] ∷ later) q = Same-refl q
progress-Same ((a ∷ more) ∷ later) q = deliver-Same (a ∷ more) (record q { network = later })

pub progress-quiet :
    (net : List (List Arrival)) (q : Queues)
    → (progress net q).0 ≡ false
    → ((progress net q).1.thread_queue ≡ q.thread_queue)
      × ((progress net q).1.node_queue ≡ q.node_queue)
progress-quiet [] q e = (refl, refl)
progress-quiet ([] ∷ later) q e = (refl, refl)
progress-quiet ((a ∷ more) ∷ later) q e = absurd (cc)

pub take_thread_list-none :
    (ms : List ℕ) (q : Queues)
    → (take_thread_list ms q).0 ≡ none
    → ((take_thread_list ms q).1 ≡ q) × (ms ≡ [])
unfolding take_thread_list
take_thread_list-none [] q e = (refl, refl)
take_thread_list-none (m ∷ ms) q e = absurd (cc)

pub take_node_list-none :
    (ms : List ℕ) (q : Queues)
    → (take_node_list ms q).0 ≡ none
    → ((take_node_list ms q).1 ≡ q) × (ms ≡ [])
unfolding take_node_list
take_node_list-none [] q e = (refl, refl)
take_node_list-none (m ∷ ms) q e = absurd (cc)

pub take_task_list-none :
    (ms : List ℕ) (q : Queues)
    → (take_task_list ms q).0 ≡ none
    → ((take_task_list ms q).1 ≡ q) × (ms ≡ [])
unfolding take_task_list
take_task_list-none [] q e = (refl, refl)
take_task_list-none (m ∷ ms) q e = absurd (cc)

pub take_thread_prio-none :
    (q : Queues)
    → IsValid q.sched
    → (take_thread_prio q).0 ≡ none
    → ((take_thread_prio q).1 ≡ q) × (is_queue_empty (live q.sched) ≡ true)
unfolding take_thread_prio
take_thread_prio-none q v e = elim (Bool-cases (is_queue_empty (live q.sched))) [
  | inl p ↦ (rw p refl, p)
  | inr p ↦ let m = top-live_some q.sched v p in absurd (clash m.0 m.1 p)
]
  where
    clash : (m : ℕ) → top (live q.sched) ≡ some m → is_queue_empty (live q.sched) ≡ false → ⊥
    clash m t p = ground (arith, e, t, p)
