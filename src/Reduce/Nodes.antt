-- ===== src/Reduce/Nodes.antt =====
-- The reductions of nodes, src/collectives.cpp: CmiNodeReduce and its handler on the table of a
-- process. Its lock makes each call one step.
use reconverse.Prelude.{
  ℕ, ◌≤◌, ◌≢◌, true, not, ◌||◌, Option, none, some, List, [], ◌∷◌, ltb, leb, ◌==◌, if◌then◌else◌,
  if_cases, arith,
}
use reconverse.Machine.{Machine}
use reconverse.Reduce.{
  Reduction, Message, Effect, Result, ok, abort, overrun, ◌>>=◌, Shape, Table, node_shape, store,
  reduction_index, get_next_id, check_slot, new_reduction, get_create, received, clear, finish,
  send_reduce, internal_reduce, empty_table, reduce, on_node_reduce,
}

-- CmiGetNextNodeReductionID
unfoldable pub get_next_node_id : ℕ → ℕ × ℕ
unfolding get_next_id
get_next_node_id ctr = get_next_id ctr 1

-- A call on the table of a process: a contribution of the own process, or one of another node.
pub data Call {ℓ} (D : Type ℓ) : Type ℓ where
  own : Message D → Call D
  arrival : ℕ → Message D → Call D

module _ {ℓ} {D : Type ℓ} (merge : D → List D → D) (m : Machine) (my_node : ℕ) where
  -- CmiNodeReduce with the id that it draws; CmiInternalNodeReduce, CmiSendNodeReduce and
  -- CmiClearNodeReduction do on the table of the process what their namesakes do on that of a PE.
  unfoldable pub node_reduce : Table D → ℕ → Message D → Result (Table D × Option (Effect D))
  unfolding reduce node_shape
  node_reduce t id msg = reduce merge (node_shape m my_node) t id msg

  -- CmiNodeReduceHandler
  unfoldable pub node_reduce_handler :
      Table D → ℕ → Message D → Result (Table D × Option (Effect D))
  unfolding on_node_reduce node_shape
  node_reduce_handler t id msg = on_node_reduce merge (node_shape m my_node) t id msg

  -- The calls one after the other, from the counter of the process and its table.
  unfoldable pub run_calls : List (Call D) → ℕ → Table D → Result (Table D)
  unfolding node_reduce node_reduce_handler get_next_node_id
  run_calls [] ctr t = ok t
  run_calls (own msg ∷ calls) ctr t = do
    (u, e) ← node_reduce t (get_next_node_id ctr).0 msg
    run_calls calls (get_next_node_id ctr).1 u
  run_calls (arrival id msg ∷ calls) ctr t = do
    (u, e) ← node_reduce_handler t id msg
    run_calls calls ctr u

-- Each record has room for its children.
module _ {ℓ} {D : Type ℓ} where
  abbrev RoomyAt : Option (Reduction D) → Type 0
  RoomyAt none = Unit {0}
  RoomyAt (some red) = red.num_children ≤ red.slots

  abbrev pub Roomy : Table D → Type 0
  Roomy t = (i : ℕ) → RoomyAt (t i)

  store-Roomy :
      (t : Table D) (i : ℕ) (r : Option (Reduction D)) → Roomy t → RoomyAt r → Roomy (store t i r)
  store-Roomy t i r h k j = if_cases RoomyAt (i == j) r (t j) (λ e. k) (λ e. h j)

  -- A call that gives a table gives one with room, and no call writes past the end of a buffer.
  abbrev pub Safe : Result (Table D × Option (Effect D)) → Type 0
  Safe (ok (t, e)) = Roomy t
  Safe abort = Unit {0}
  Safe overrun = ⊥

  abbrev pub Fit : Result (Table D) → Type 0
  Fit (ok t) = Roomy t
  Fit abort = Unit {0}
  Fit overrun = ⊥

  abbrev Got : Result (Reduction D × Table D) → Type 0
  Got (ok (red, t)) = (red.num_children ≤ red.slots) × Roomy t
  Got abort = Unit {0}
  Got overrun = ⊥

  module _ (s : Shape) (fits : s.children ≤ s.room) where
    get_create-Got : (t : Table D) (id : ℕ) → Roomy t → Got (get_create s t id)
    unfolding get_create
    get_create-Got t id h =
        if_cases Got (check_slot (t (reduction_index id)) id)
          (elim (t (reduction_index id)) [
            | some red ↦ ok (red, t)
            | none ↦
                ok (new_reduction s id, store t (reduction_index id) (some (new_reduction s id)))
          ])
          abort (λ e. slot (t (reduction_index id)) (h (reduction_index id))) (λ e. tt)
      where
        fresh_room : RoomyAt (some (new_reduction s id))
        fresh_room = fits

        slot :
            (o : Option (Reduction D))
            → RoomyAt o
            → Got (elim o [
              | some red ↦ ok (red, t)
              | none ↦
                  ok (new_reduction s id, store t (reduction_index id) (some (new_reduction s id)))
            ])
        slot none k =
            (fits, store-Roomy t (reduction_index id) (some (new_reduction s id)) h fresh_room)
        slot (some red) k = (k, h)

    bind-Safe :
        (r : Result (Reduction D × Table D))
        (f : Reduction D × Table D → Result (Table D × Option (Effect D)))
        → Got r
        → ((red : Reduction D) (t : Table D)
            → red.num_children ≤ red.slots
            → Roomy t
            → Safe (f (red, t)))
        → Safe (r >>= f)
    bind-Safe (ok (red, t)) f g k = k red t g.0 g.1
    bind-Safe abort f g k = tt
    bind-Safe overrun f g k = g

    send_reduce-Safe :
        (merge : D → List D → D) (t : Table D) (red : Reduction D)
        → red.num_children ≤ red.slots
        → Roomy t
        → Safe (ok (send_reduce merge t red))
    unfolding send_reduce clear
    send_reduce-Safe merge t red k h =
        if_cases (λ (r : Table D × Option (Effect D)). Safe (ok r))
          (not red.local_contributed || not (red.num_children == red.messages_received))
          (store t (reduction_index red.reduction_id) (some red), none)
          (elim red.local_buffer [
            | none ↦ (store t (reduction_index red.reduction_id) (some red), none)
            | some mine ↦ (clear t red.reduction_id, some (finish merge red mine))
          ])
          (λ e. kept) (λ e. sent red.local_buffer)
      where
        kept : Roomy (store t (reduction_index red.reduction_id) (some red))
        kept = store-Roomy t (reduction_index red.reduction_id) (some red) h k

        sent :
            (o : Option (Message D))
            → Safe (
                ok (elim o [
                  | none ↦ (store t (reduction_index red.reduction_id) (some red), none)
                  | some mine ↦ (clear t red.reduction_id, some (finish merge red mine))
                ]))
        sent none = kept
        sent (some mine) = store-Roomy t (reduction_index red.reduction_id) none h tt

module _ {ℓ} {D : Type ℓ} (merge : D → List D → D) (m : Machine) (my_node : ℕ) where
  node_fits : (node_shape m my_node).children ≤ (node_shape m my_node).room
  unfolding node_shape
  node_fits = omega arith

  node_reduce-Safe :
      (t : Table D) (id : ℕ) (msg : Message D)
      → Roomy t
      → Safe (node_reduce merge m my_node t id msg)
  unfolding node_reduce reduce internal_reduce
  node_reduce-Safe t id msg h =
      bind-Safe (node_shape m my_node) node_fits (get_create (node_shape m my_node) t id)
        (λ (red, u). ok (internal_reduce merge u red msg))
        (get_create-Got (node_shape m my_node) node_fits t id h)
        (λ red u k g.
          send_reduce-Safe (node_shape m my_node) node_fits merge u
            (record red { local_contributed = true; local_buffer = some msg }) k g)

  node_reduce_handler-Safe :
      (t : Table D) (id : ℕ) (msg : Message D)
      → Roomy t
      → Safe (node_reduce_handler merge m my_node t id msg)
  unfolding node_reduce_handler on_node_reduce
  node_reduce_handler-Safe t id msg h =
      bind-Safe (node_shape m my_node) node_fits (get_create (node_shape m my_node) t id)
        (λ (red, u).
          if leb red.num_children red.messages_received
          then abort
          else (if ltb red.messages_received red.slots
              then ok (send_reduce merge u (received red msg))
              else overrun))
        (get_create-Got (node_shape m my_node) node_fits t id h)
        (λ red u k g.
          if_cases Safe (leb red.num_children red.messages_received) abort
            (if ltb red.messages_received red.slots
              then ok (send_reduce merge u (received red msg))
              else overrun)
            (λ e. tt)
            (λ e.
              if_cases Safe (ltb red.messages_received red.slots)
                (ok (send_reduce merge u (received red msg))) overrun
                (λ r.
                  send_reduce-Safe (node_shape m my_node) node_fits merge u (received red msg) k g)
                (λ r. absurd (ground arith))))

  then_run :
      (r : Result (Table D × Option (Effect D))) (f : Table D → Result (Table D))
      → Safe r
      → ((t : Table D) → Roomy t → Fit (f t))
      → Fit (r >>= (λ (u, e). f u))
  then_run (ok (t, e)) f h k = k t h
  then_run abort f h k = tt
  then_run overrun f h k = h

  run_calls-Fit :
      (calls : List (Call D)) (ctr : ℕ) (t : Table D)
      → Roomy t
      → Fit (run_calls merge m my_node calls ctr t)
  unfolding run_calls
  run_calls-Fit [] ctr t h = h
  run_calls-Fit (own msg ∷ calls) ctr t h =
      then_run (node_reduce merge m my_node t (get_next_node_id ctr).0 msg)
        (run_calls merge m my_node calls (get_next_node_id ctr).1)
        (node_reduce-Safe t (get_next_node_id ctr).0 msg h)
        (run_calls-Fit calls (get_next_node_id ctr).1)
  run_calls-Fit (arrival id msg ∷ calls) ctr t h =
      then_run (node_reduce_handler merge m my_node t id msg) (run_calls merge m my_node calls ctr)
        (node_reduce_handler-Safe t id msg h) (run_calls-Fit calls ctr)

  empty-Roomy : Roomy {D = D} empty_table
  unfolding empty_table
  empty-Roomy i = tt

  Fit-within : (r : Result (Table D)) → Fit r → r ≢ overrun
  Fit-within (ok t) h e = ground arith
  Fit-within abort h e = ground arith
  Fit-within overrun h e = h

  -- Whatever contributions of the process and of other nodes come, in any order, with any ids and
  -- also more of them than the node has children, no write goes past the end of a buffer for children
  -- messages: each call on the table returns, or the program aborts.
  pub run_calls_within :
      (calls : List (Call D)) (ctr : ℕ) → run_calls merge m my_node calls ctr empty_table ≢ overrun
  run_calls_within calls ctr =
      Fit-within (run_calls merge m my_node calls ctr empty_table)
        (run_calls-Fit calls ctr empty_table empty-Roomy)
