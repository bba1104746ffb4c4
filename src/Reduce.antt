-- ===== src/Reduce.antt =====
-- Reductions, src/collectives.cpp: the table of reductions in flight on one PE (or one process) and
-- every operation on it. A message is its payload with the number of its handler; the merge function
-- is the program's own and stands as a parameter. The two calls at the end of a reduction, the send
-- to the parent and the run of the destination handler, are values of `Effect`.
pub mod Ids
pub mod Nodes
pub mod Rounds
mod Tests
use reconverse.Prelude.{
  ℕ, zero, suc, ◌+◌, ◌-◌, ◌*◌, ◌/◌, ◌%◌, ◌^◌, Bool, true, false, Option, none, some, List, [], ◌∷◌,
  ◌++◌, not, ◌||◌, ltb, leb, ◌==◌, if◌then◌else◌, length, get_elem?,
}
use reconverse.Machine.{Machine, node_of}
use reconverse.SpanTree.{num_pe_children, pe_parent, num_children, node_parent}

-- CmiMaxReductions, CmiReductionsNumChildren, CmiReductionID_multiplier
abbrev pub max_reductions : ℕ
max_reductions = 32

abbrev pub reductions_num_children : ℕ
reductions_num_children = 4

abbrev pub id_multiplier : ℕ
id_multiplier = 2

-- CmiReductionID is a uint32.
abbrev pub id_range : ℕ
id_range = 2 ^ 32

pub record Message {ℓ} (D : Type ℓ) : Type ℓ where
  pub handler : ℕ
  pub payload : D

-- CmiReduction. `slots` is the number of entries that `remotebuffer` was allocated with.
pub record Reduction {ℓ} (D : Type ℓ) : Type ℓ where
  pub reduction_id : ℕ
  pub num_children : ℕ
  pub parent : Option ℕ
  pub messages_received : ℕ
  pub local_contributed : Bool
  pub local_buffer : Option (Message D)
  pub remote_buffer : List (Message D)
  pub slots : ℕ

pub data Effect {ℓ} (D : Type ℓ) : Type ℓ where
  send_up : ℕ → ℕ → D → Effect D
  run_handler : ℕ → D → Effect D

-- `abort` is CmiAbort; `overrun` is a write past the end of `remotebuffer`.
pub data Result {ℓ} (A : Type ℓ) : Type ℓ where
  ok : A → Result A
  abort : Result A
  overrun : Result A

infixl 5 ◌>>=◌
abbrev pub ◌>>=◌ {ℓ κ} : {A : Type ℓ} {B : Type κ} → Result A → (A → Result B) → Result B
ok a >>= f = f a
abort >>= f = abort
overrun >>= f = overrun

-- getNextID: the id handed out and the counter after it.
unfoldable pub get_next_id : ℕ → ℕ → ℕ × ℕ
get_next_id ctr step = (ctr, (ctr + step) % id_range)

-- CmiGetReductionIndex: `id & (CmiMaxReductions - 1)`
unfoldable pub reduction_index : ℕ → ℕ
reduction_index id = id % max_reductions

-- What a new record takes from the tree: children, parent and room in `remotebuffer`.
pub record Shape : Type 0 where
  pub children : ℕ
  pub up : Option ℕ
  pub room : ℕ

-- The shape that CmiGetCreateReduction gives on PE `me`.
unfoldable pub pe_shape : Machine → ℕ → Shape
pe_shape m me = record {
  children = num_pe_children m me;
  up = pe_parent m me;
  room =
      if ltb reductions_num_children (num_pe_children m me)
      then num_pe_children m me
      else reductions_num_children;
}

-- The shape that CmiGetCreateNodeReduction gives on node `me`.
unfoldable pub node_shape : Machine → ℕ → Shape
node_shape m me = record {
  children = num_children m.nodes me;
  up = node_parent me;
  room = num_children m.nodes me;
}

abbrev pub Table {ℓ} : Type ℓ → Type ℓ
Table D = ℕ → Option (Reduction D)

-- The loop of CmiListReduce that finds the caller in the list.
unfoldable pub position_from : ℕ → List ℕ → ℕ → ℕ
position_from me [] i = i
position_from me (p ∷ pes) i = if p == me then i else position_from me pes (i + 1)

-- `npes - (myPos << 2) - 1`, clamped to 0 .. CmiReductionsNumChildren
unfoldable pub list_children : ℕ → ℕ → ℕ
list_children npes pos =
    if ltb npes (pos * 4 + 1)
    then 0
    else (if ltb reductions_num_children (npes - pos * 4 - 1)
        then reductions_num_children
        else npes - pos * 4 - 1)

unfoldable pub list_parent : List ℕ → ℕ → Option ℕ
list_parent pes pos = if pos == 0 then none else get_elem? pes ((pos - 1) / 4)

module _ {ℓ} {D : Type ℓ} where
  abbrev pub store : Table D → ℕ → Option (Reduction D) → Table D
  store t i r j = if i == j then r else t j

  -- CmiReductionsInit
  unfoldable pub empty_table : Table D
  empty_table i = none

  -- CmiCheckReductionSlot
  unfoldable pub check_slot : Option (Reduction D) → ℕ → Bool
  check_slot none id = true
  check_slot (some red) id = red.reduction_id == id

  unfoldable pub new_reduction : Shape → ℕ → Reduction D
  new_reduction s id = record {
    reduction_id = id;
    num_children = s.children;
    parent = s.up;
    messages_received = 0;
    local_contributed = false;
    local_buffer = none;
    remote_buffer = [];
    slots = s.room;
  }

  -- CmiGetCreateReduction, on a table whose new records have shape `s`.
  unfoldable pub get_create : Shape → Table D → ℕ → Result (Reduction D × Table D)
  unfolding check_slot new_reduction reduction_index
  get_create s t id =
      if check_slot (t (reduction_index id)) id
      then elim (t (reduction_index id)) [
        | some red ↦ ok (red, t)
        | none ↦ ok (new_reduction s id, store t (reduction_index id) (some (new_reduction s id)))
      ]
      else abort

  -- The store to `remotebuffer` and the increment behind it.
  abbrev pub received : Reduction D → Message D → Reduction D
  received red msg = record red {
    remote_buffer = red.remote_buffer ++ (msg ∷ []);
    messages_received = red.messages_received + 1;
  }

  -- The shape that CmiListReduce sets.
  abbrev pub reshaped : Reduction D → ℕ → List ℕ → Reduction D
  reshaped red me pes = record red {
    num_children = list_children (length pes) (position_from me pes 0);
    parent = list_parent pes (position_from me pes 0);
  }

  -- CmiClearReduction
  unfoldable pub clear : Table D → ℕ → Table D
  unfolding reduction_index
  clear t id = store t (reduction_index id) none

  abbrev pub payloads : List (Message D) → List D
  payloads [] = []
  payloads (r ∷ rs) = r.payload ∷ payloads rs

  module _ (merge : D → List D → D) where
    -- The payload that goes up: merged if there are children.
    unfoldable pub merged_data : Reduction D → Message D → D
    merged_data red own =
        if ltb 0 red.num_children
        then merge own.payload (payloads red.remote_buffer)
        else own.payload

    unfoldable pub finish : Reduction D → Message D → Effect D
    unfolding merged_data
    finish red own = elim red.parent [
      | some p ↦ send_up p red.reduction_id (merged_data red own)
      | none ↦ run_handler own.handler (merged_data red own)
    ]

    -- CmiSendReduce, where `red` has been written back to its slot.
    unfoldable pub send_reduce : Table D → Reduction D → Table D × Option (Effect D)
    unfolding finish clear
    send_reduce t red =
        if not red.local_contributed || not (red.num_children == red.messages_received)
        then (store t (reduction_index red.reduction_id) (some red), none)
        else elim red.local_buffer [
          | none ↦ (store t (reduction_index red.reduction_id) (some red), none)
          | some own ↦ (clear t red.reduction_id, some (finish red own))
        ]

    -- CmiInternalReduce
    unfoldable pub internal_reduce : Table D → Reduction D → Message D → Table D × Option (Effect D)
    unfolding send_reduce
    internal_reduce t red msg =
        send_reduce t (record red { local_contributed = true; local_buffer = some msg })

    -- CmiReduce with the id that it draws.
    unfoldable pub reduce : Shape → Table D → ℕ → Message D → Result (Table D × Option (Effect D))
    unfolding internal_reduce get_create
    reduce s t id msg = do (red, t') ← get_create s t id; ok (internal_reduce t' red msg)

    -- CmiReduceHandler
    unfoldable pub on_reduce :
        Shape → Table D → ℕ → Message D → Result (Table D × Option (Effect D))
    unfolding send_reduce get_create
    on_reduce s t id msg = do
      (red, t') ← get_create s t id
      if ltb red.messages_received red.slots
          then ok (send_reduce t' (received red msg))
          else overrun

    -- CmiNodeReduceHandler: the same under the slot's lock, with its check for a message too many.
    unfoldable pub on_node_reduce :
        Shape → Table D → ℕ → Message D → Result (Table D × Option (Effect D))
    unfolding send_reduce get_create
    on_node_reduce s t id msg = do
      (red, t') ← get_create s t id
      if leb red.num_children red.messages_received
          then abort
          else (if ltb red.messages_received red.slots
              then ok (send_reduce t' (received red msg))
              else overrun)

    -- CmiListReduce on PE `me`.
    unfoldable pub list_reduce :
        Shape → Table D → ℕ → ℕ → List ℕ → Message D → Result (Table D × Option (Effect D))
    unfolding internal_reduce get_create list_children list_parent position_from
    list_reduce s t id me pes msg = do
      (red, t') ← get_create s t id
      if position_from me pes 0 == length pes
          then abort
          else ok (internal_reduce t' (reshaped red me pes) msg)
