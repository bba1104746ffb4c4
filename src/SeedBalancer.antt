-- ===== src/SeedBalancer.antt =====
-- The seed balancer, src/cldb.cpp and src/cldb.rand.cpp: where a seed is sent, and how its handler is
-- parked on the way. The info and pack functions are the program's own and stand as parameters;
-- the random numbers are arguments.
mod Restore
mod Places
mod Tests
use reconverse.Prelude.{
  ℕ, ◌+◌, ◌*◌, ◌%◌, ◌^◌, Bool, true, false, not, ◌&&◌, Option, none, some, List, ltb, leb, ◌==◌,
  if◌then◌else◌,
}
use mathlib.Core.Option
use reconverse.Machine.{Machine, node_of, num_pes}
use reconverse.Broadcast.{Header}
use reconverse.Groups.{Group}

-- A message with the header fields that the seed balancer reads, among them those of a broadcast.
pub record Seed : Type 0 where
  pub header : Header
  pub cld_info_fn : ℕ
  pub swap_handler_id : ℕ
  pub nokeep : Bool
  pub body : List ℕ

-- What an info function reports: whether there is a pack function, the length, the queueing strategy
-- and the words of the priority.
pub record Info : Type 0 where
  pub packs : Bool
  pub len : ℕ
  pub queueing : ℕ
  pub words : List ℕ

-- A destination, CLD_BROADCAST or CLD_BROADCAST_ALL; CLD_ANYWHERE is `none` below.
pub data Dest : Type 0 where
  single : ℕ → Dest
  broadcast : Dest
  broadcast_all : Dest

-- The last call of an operation: CsdEnqueueGeneral, CsdNodeEnqueueGeneral, the push to the node
-- queue, or a send of a message of the length: to a PE, all others, all PEs, a node, the other
-- nodes, all nodes, a group, a list of PEs, or the PEs of the process.
pub data Out : Type 0 where
  own_queue : ℕ → List ℕ → Seed → Out
  node_queue : ℕ → List ℕ → Seed → Out
  node_push : Seed → Out
  to_pe : ℕ → ℕ → Seed → Out
  to_others : ℕ → Seed → Out
  to_all : ℕ → Seed → Out
  to_node : ℕ → ℕ → Seed → Out
  to_other_nodes : ℕ → Seed → Out
  to_all_nodes : ℕ → Seed → Out
  to_group : Group → ℕ → Seed → Out
  to_list : List ℕ → ℕ → Seed → Out
  to_process : ℕ → Seed → Out

-- CmiSetHandler and CmiSetXHandler, into fields of 16 bits
unfoldable pub set_handler : ℕ → Seed → Seed
set_handler n s = record s { header = record s.header { handler_id = n % 2 ^ 16 } }

unfoldable pub set_xhandler : ℕ → Seed → Seed
set_xhandler n s = record s { swap_handler_id = n % 2 ^ 16 }

-- CmiSetInfo; `none` is its failed assertion.
unfoldable pub set_info : ℕ → Seed → Option Seed
set_info infofn s = if leb infofn 32767 then some (record s { cld_info_fn = infofn }) else none

-- CldSwitchHandler
unfoldable pub switch_handler : ℕ → Seed → Seed
unfolding set_handler set_xhandler
switch_handler handler s = set_handler handler (set_xhandler s.header.handler_id s)

-- CldRestoreHandler
unfoldable pub restore_handler : Seed → Seed
unfolding set_handler
restore_handler s = set_handler s.swap_handler_id s

-- The two lines that end in a send: the handler is parked, and the info function named.
unfoldable pub parked : ℕ → ℕ → Seed → Option Seed
unfolding switch_handler set_info
parked handler infofn s = set_info infofn (switch_handler handler s)

-- `((CrnRand() + i) & 0x7FFFFFFF) % n`
unfoldable pub pick : ℕ → ℕ → ℕ → ℕ
pick rand i n = (rand + i) % 2 ^ 31 % n

-- `CmiNodeOf(pe) != CmiMyNode()`: the division rounds toward zero, also that of the numbers -2 and
-- -3 of the broadcasts.
unfoldable pub outside : Machine → ℕ → Dest → Bool
outside m my_node (single pe) = not (node_of m pe == my_node)
outside m my_node broadcast = if ltb 2 m.node_size then not (my_node == 0) else true
outside m my_node broadcast_all = if ltb 3 m.node_size then not (my_node == 0) else true

-- The branches at the end of CldNodeEnqueue, and of CldEnqueue
unfoldable pub node_send : Dest → ℕ → Seed → Out
node_send (single node) len t = to_node node len t
node_send broadcast len t = to_other_nodes len t
node_send broadcast_all len t = to_all_nodes len t

unfoldable pub pe_send : Dest → ℕ → Seed → Out
pe_send (single pe) len t = to_pe pe len t
pe_send broadcast len t = to_others len t
pe_send broadcast_all len t = to_all len t

module _ (info : ℕ → Seed → Info) (pack : Seed → Seed) where
  -- The calls of the info function, with the packing between them where `may` allows it.
  unfoldable pub ready : Bool → ℕ → Seed → Seed × Info
  ready may infofn s =
      if (info infofn s).packs && may then (pack s, info infofn (pack s)) else (s, info infofn s)

module _ (m : Machine) (info : ℕ → Seed → Info) (pack : Seed → Seed)
    (cld_handler cld_node_handler : ℕ) where
  -- CldHandler
  unfoldable pub on_seed : Seed → Out
  unfolding restore_handler
  on_seed s =
      let r = restore_handler s in let i = info r.cld_info_fn r in own_queue i.queueing i.words r

  -- CldNodeHandler
  unfoldable pub on_node_seed : Seed → Out
  unfolding restore_handler
  on_node_seed s = node_push (restore_handler s)

  -- CldEnqueueGroup
  unfoldable pub enqueue_group : Group → Seed → ℕ → Option Out
  unfolding ready parked
  enqueue_group grp s infofn =
      let (packed, i) = ready info pack true infofn s in
      Option.map (to_group grp i.len) (parked cld_handler infofn packed)

  -- CldEnqueueWithinNode
  unfoldable pub enqueue_within_node : Seed → ℕ → Option Out
  unfolding ready parked
  enqueue_within_node s infofn =
      let (packed, i) = ready info pack (not s.nokeep) infofn s in
      Option.map (to_process i.len) (parked cld_handler infofn packed)

  -- CldEnqueueMulti
  unfoldable pub enqueue_multi : List ℕ → Seed → ℕ → Option Out
  unfolding ready parked
  enqueue_multi pes s infofn =
      let (packed, i) = ready info pack true infofn s in
      Option.map (to_list pes i.len) (parked cld_handler infofn packed)

  -- The branches of CldNodeEnqueue and of CldEnqueue on a message that is not for the caller
  unfoldable pub send_to_node : Dest → Seed → ℕ → Option Out
  unfolding ready parked node_send
  send_to_node dest s infofn =
      let (packed, i) = ready info pack true infofn s in
      Option.map (node_send dest i.len) (parked cld_node_handler infofn packed)

  unfoldable pub send_to_pe : ℕ → Dest → Seed → ℕ → Option Out
  unfolding ready parked pe_send outside
  send_to_pe my_node dest s infofn =
      let (packed, i) = ready info pack (outside m my_node dest) infofn s in
      Option.map (pe_send dest i.len) (parked cld_handler infofn packed)

  -- CldNodeEnqueue, after the choice of the node
  unfoldable pub node_enqueue_at : ℕ → Dest → Seed → ℕ → Option Out
  unfolding send_to_node
  node_enqueue_at my_node (single node) s infofn =
      if node == my_node
      then some (node_queue (info infofn s).queueing (info infofn s).words s)
      else send_to_node (single node) s infofn
  node_enqueue_at my_node broadcast s infofn = send_to_node broadcast s infofn
  node_enqueue_at my_node broadcast_all s infofn = send_to_node broadcast_all s infofn

  -- CldNodeEnqueue, with what it adds to CldRelocatedMessages
  unfoldable pub node_enqueue : ℕ → ℕ → Option Dest → Seed → ℕ → Option Out × ℕ
  unfolding node_enqueue_at pick
  node_enqueue rand my_node none s infofn =
      let node = pick rand my_node m.nodes in
      (node_enqueue_at my_node (single node) s infofn, if node == my_node then 0 else 1)
  node_enqueue rand my_node (some dest) s infofn = (node_enqueue_at my_node dest s infofn, 0)

  -- CldEnqueue on PE `me`, after the choice of the PE
  unfoldable pub enqueue_at : ℕ → Dest → Seed → ℕ → Option Out
  unfolding send_to_pe
  enqueue_at me (single pe) s infofn =
      if pe == me
      then some (own_queue (info infofn s).queueing (info infofn s).words s)
      else send_to_pe (node_of m me) (single pe) s infofn
  enqueue_at me broadcast s infofn = send_to_pe (node_of m me) broadcast s infofn
  enqueue_at me broadcast_all s infofn = send_to_pe (node_of m me) broadcast_all s infofn

  -- CldEnqueue on PE `me`, with what it adds to CldRelocatedMessages
  unfoldable pub enqueue : ℕ → ℕ → Option Dest → Seed → ℕ → Option Out × ℕ
  unfolding enqueue_at node_enqueue_at pick
  enqueue rand me none s infofn =
      let pe = pick rand me (num_pes m) in
      if node_of m pe == node_of m me
      then (node_enqueue_at (node_of m me) (single (node_of m me)) s infofn, 0)
      else (enqueue_at me (single pe) s infofn, if pe == me then 0 else 1)
  enqueue rand me (some dest) s infofn = (enqueue_at me dest s infofn, 0)
