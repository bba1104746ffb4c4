-- ===== src/Scheduler/Takes.antt =====
-- The takes of src/scheduler_take.h, the network and shared memory: what moves
-- is neither lost nor doubled.
use reconverse.Prelude.{
  not, ℕ, ◌+◌, ◌≡◌, refl, ap, ◌∙◌, ◌&&◌, Option, none, some, List, [], ◌∷◌, ◌++◌, ltb,
  if◌then◌else◌, if_cases, arith,
}
use reconverse.Prelude.Int.{ltb_ℤ}
use reconverse.PrioQueue.{top_priority, Queue, live, is_queue_empty, top, dequeue}
use reconverse.PrioQueue.Counts.{IsValid}
use reconverse.PrioQueue.Spec.{Entry, rest, head_message}
use reconverse.PrioQueue.Refine.{contents}
use reconverse.PrioQueue.Drain.{dequeue-Drains}
use reconverse.Scheduler.{
  Env, Arrival, to_thread, to_node, elsewhere, Queues, Taken, take_node_list, take_thread_list,
  take_thread_prio, take_task_list, take_node_prio, take_node_prio_if_ahead, remove_node_prio,
  deliver, backwards, progress, poll_ipc,
}

abbrev pub weigh : (ℕ → ℕ) → List ℕ → ℕ
weigh w [] = 0
weigh w (m ∷ ms) = w m + weigh w ms

pub weigh-append : (w : ℕ → ℕ) (xs ys : List ℕ) → weigh w (xs ++ ys) ≡ weigh w xs + weigh w ys
weigh-append w [] ys = omega arith
weigh-append w (x ∷ xs) ys = omega (arith, weigh-append w xs ys)

abbrev pub messages : List Entry → List ℕ
messages [] = []
messages ((p, m) ∷ es) = m ∷ messages es

-- The weight of the arrivals for this process, where each message has a weight.
abbrev pub arriving : (ℕ → ℕ) → List Arrival → ℕ
arriving w [] = 0
arriving w (to_thread m ∷ more) = w m + arriving w more
arriving w (to_node m ∷ more) = w m + arriving w more
arriving w (elsewhere ∷ more) = arriving w more

abbrev pub to_come : (ℕ → ℕ) → List (List Arrival) → ℕ
to_come w [] = 0
to_come w (batch ∷ later) = arriving w batch + to_come w later

-- The weight of the sources.
abbrev pub held_in : (ℕ → ℕ) → Queues → ℕ
held_in w q =
    weigh w q.thread_queue
    + weigh w q.node_queue
    + weigh w (messages (contents q.node_prio))
    + weigh w (messages (contents q.sched))
    + weigh w q.tasks
    + arriving w q.inbox
    + to_come w q.network

abbrev pub AreValid : Queues → Type 0
AreValid q = IsValid q.node_prio × IsValid q.sched

abbrev pub taken_weight : (ℕ → ℕ) → Option ℕ → ℕ
taken_weight w none = 0
taken_weight w (some m) = w m

-- A take moves at most a message out of the sources.
abbrev pub Keeps : (ℕ → ℕ) → Queues → Taken → Type 0
Keeps w q t =
    (held_in w q ≡ taken_weight w t.0 + held_in w t.1) × AreValid t.1 × (t.1.inbox ≡ q.inbox)

pub take_thread_list-Keeps :
    (w : ℕ → ℕ) (ms : List ℕ) (q : Queues)
    → q.thread_queue ≡ ms
    → AreValid q
    → Keeps w q (take_thread_list ms q)
unfolding take_thread_list
take_thread_list-Keeps w [] q e v = (omega arith, v, refl)
take_thread_list-Keeps w (m ∷ ms) q e v = (omega (arith, ap (weigh w) e), v, refl)

pub take_node_list-Keeps :
    (w : ℕ → ℕ) (ms : List ℕ) (q : Queues)
    → q.node_queue ≡ ms
    → AreValid q
    → Keeps w q (take_node_list ms q)
unfolding take_node_list
take_node_list-Keeps w [] q e v = (omega arith, v, refl)
take_node_list-Keeps w (m ∷ ms) q e v = (omega (arith, ap (weigh w) e), v, refl)

pub take_task_list-Keeps :
    (w : ℕ → ℕ) (ms : List ℕ) (q : Queues)
    → q.tasks ≡ ms
    → AreValid q
    → Keeps w q (take_task_list ms q)
unfolding take_task_list
take_task_list-Keeps w [] q e v = (omega arith, v, refl)
take_task_list-Keeps w (m ∷ ms) q e v = (omega (arith, ap (weigh w) e), v, refl)

head_rest :
    (w : ℕ → ℕ) (es : List Entry)
    → weigh w (messages es) ≡ taken_weight w (head_message es) + weigh w (messages (rest es))
head_rest w [] = refl
head_rest w ((p, m) ∷ es) = omega arith

top-weight :
    (w : ℕ → ℕ) (q : Queue)
    → IsValid q
    → weigh w (messages (contents q))
      ≡ taken_weight w (top (live q)) + weigh w (messages (contents (dequeue q)))
unfolding top
top-weight w q v =
    let d = dequeue-Drains q v in head_rest w (contents q) ∙ rw d.top_is (rw d.leaves refl)

pub take_thread_prio-Keeps : (w : ℕ → ℕ) (q : Queues) → AreValid q → Keeps w q (take_thread_prio q)
unfolding take_thread_prio
take_thread_prio-Keeps w q v =
    if_cases (Keeps w q) (is_queue_empty (live q.sched)) (none, q)
      (top (live q.sched), record q { sched = dequeue q.sched }) (λ p. (omega arith, v, refl))
      (λ p.
        (omega (arith, top-weight w q.sched v.1), (v.0, (dequeue-Drains q.sched v.1).valid), refl))

remove_node_prio-Keeps : (w : ℕ → ℕ) (q : Queues) → AreValid q → Keeps w q (remove_node_prio q)
remove_node_prio-Keeps w q v = (
  omega (arith, top-weight w q.node_prio v.0),
  ((dequeue-Drains q.node_prio v.0).valid, v.1),
  refl,
)

module _ (env : Env) where
  pub take_node_prio-Keeps :
      (w : ℕ → ℕ) (q : Queues) → AreValid q → Keeps w q (take_node_prio env q)
  unfolding take_node_prio
  take_node_prio-Keeps w q v =
      if_cases (Keeps w q) (ltb 0 q.node_len && env.try_lock q)
        (if is_queue_empty (live q.node_prio) then (none, q) else remove_node_prio q) (none, q)
        (λ p.
          if_cases (Keeps w q) (is_queue_empty (live q.node_prio)) (none, q) (remove_node_prio q)
            (λ r. (omega arith, v, refl)) (λ r. remove_node_prio-Keeps w q v))
        (λ p. (omega arith, v, refl))

  pub take_node_prio_if_ahead-Keeps :
      (w : ℕ → ℕ) (q : Queues) → AreValid q → Keeps w q (take_node_prio_if_ahead env q)
  unfolding take_node_prio_if_ahead
  take_node_prio_if_ahead-Keeps w q v =
      if_cases (Keeps w q) (ltb 0 q.node_len && env.try_lock q)
        (if not (is_queue_empty (live q.node_prio))
            && not (ltb_ℤ (top_priority (live q.sched)) (top_priority (live q.node_prio)))
          then remove_node_prio q
          else (none, q))
        (none, q)
        (λ p.
          if_cases (Keeps w q)
            (not (is_queue_empty (live q.node_prio))
              && not (ltb_ℤ (top_priority (live q.sched)) (top_priority (live q.node_prio))))
            (remove_node_prio q) (none, q) (λ r. remove_node_prio-Keeps w q v)
            (λ r. (omega arith, v, refl)))
        (λ p. (omega arith, v, refl))

deliver-weight :
    (w : ℕ → ℕ) (batch : List Arrival) (q : Queues)
    → AreValid q
    → (held_in w (deliver batch q) ≡ arriving w batch + held_in w q) × AreValid (deliver batch q)
deliver-weight w [] q v = (omega arith, v)
deliver-weight w (to_thread m ∷ more) q v =
    let d = deliver-weight w more (record q { thread_queue = q.thread_queue ++ m ∷ [] }) v in
    (omega (arith, d.0, weigh-append w q.thread_queue (m ∷ [])), d.1)
deliver-weight w (to_node m ∷ more) q v =
    let d = deliver-weight w more (record q { node_queue = q.node_queue ++ m ∷ [] }) v in
    (omega (arith, d.0, weigh-append w q.node_queue (m ∷ [])), d.1)
deliver-weight w (elsewhere ∷ more) q v = deliver-weight w more q v

pub progress-weight :
    (w : ℕ → ℕ) (net : List (List Arrival)) (q : Queues)
    → q.network ≡ net
    → AreValid q
    → (held_in w (progress net q).1 ≡ held_in w q) × AreValid (progress net q).1
progress-weight w [] q e v = (refl, v)
progress-weight w ([] ∷ later) q e v = (omega (arith, ap (to_come w) e), v)
progress-weight w ((a ∷ more) ∷ later) q e v =
    let d = deliver-weight w (a ∷ more) (record q { network = later }) v in
    (omega (arith, d.0, ap (to_come w) e), d.1)

arriving-append :
    (w : ℕ → ℕ) (xs ys : List Arrival) → arriving w (xs ++ ys) ≡ arriving w xs + arriving w ys
arriving-append w [] ys = omega arith
arriving-append w (to_thread m ∷ xs) ys = omega (arith, arriving-append w xs ys)
arriving-append w (to_node m ∷ xs) ys = omega (arith, arriving-append w xs ys)
arriving-append w (elsewhere ∷ xs) ys = arriving-append w xs ys

arriving-backwards : (w : ℕ → ℕ) (xs : List Arrival) → arriving w (backwards xs) ≡ arriving w xs
arriving-backwards w [] = refl
arriving-backwards w (to_thread m ∷ xs) =
    omega (arith, arriving-append w (backwards xs) (to_thread m ∷ []), arriving-backwards w xs)
arriving-backwards w (to_node m ∷ xs) =
    omega (arith, arriving-append w (backwards xs) (to_node m ∷ []), arriving-backwards w xs)
arriving-backwards w (elsewhere ∷ xs) =
    omega (arith, arriving-append w (backwards xs) (elsewhere ∷ []), arriving-backwards w xs)

pub poll_ipc-weight :
    (env : Env) (w : ℕ → ℕ) (q : Queues)
    → AreValid q
    → (held_in w (poll_ipc env q).1 ≡ held_in w q) × AreValid (poll_ipc env q).1
unfolding poll_ipc
poll_ipc-weight env w q v =
    let d = deliver-weight w (backwards q.inbox) (record q { inbox = [] }) v in
    (omega (arith, d.0, arriving-backwards w q.inbox), d.1)
