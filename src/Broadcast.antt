-- ===== src/Broadcast.antt =====
-- The PE-level spanning-tree broadcast of src/collectives.cpp (SPANTREE): the header fields that it
-- swaps, the sends of one relay step, and the handler that relays. A send carries the header that
-- the message has at that moment, since CmiSyncSend copies it.
pub mod Delivery
pub mod Nodes
pub mod Shared
mod Tests
use reconverse.Prelude.{ℕ, zero, suc, ◌+◌, List, [], ◌∷◌, ◌++◌, map, ◌==◌, if◌then◌else◌}
use reconverse.Machine.{Machine, node_of, rank_of, node_first}
use reconverse.SpanTree.{forward_to_nodes, send_to_peers}

-- The fields of CmiMessageHeader that a broadcast touches.
pub record Header : Type 0 where
  pub handler_id : ℕ
  pub bcast_swap_handler_id : ℕ
  pub collective_meta_info : ℕ
  pub message_size : ℕ

-- A message under way to a PE.
abbrev pub Send : Type 0
Send = ℕ × Header

-- CmiSetBcastRoot and CmiGetBcastRoot
abbrev pub set_bcast_root : Header → ℕ → Header
set_bcast_root h root = record h { collective_meta_info = root }

abbrev pub get_bcast_root : Header → ℕ
get_bcast_root h = h.collective_meta_info

module _ (m : Machine) (bcast_handler : ℕ) where
  -- CmiBcastSendToPeers on PE `me`.
  pub bcast_send_to_peers : ℕ → Header → List Send
  bcast_send_to_peers me h =
      map
        (λ r. (node_first m (node_of m me) + r, record h { handler_id = h.bcast_swap_handler_id }))
        (send_to_peers m.node_size (rank_of m me))

  -- CmiBcastForward
  unfoldable pub bcast_forward : ℕ → Header → List Send
  unfolding bcast_send_to_peers
  bcast_forward me h =
      map (λ child. (node_first m child, h))
        (forward_to_nodes m.nodes (get_bcast_root h) (node_of m me))
      ++ bcast_send_to_peers me h

  -- The header while CmiSyncBroadcast forwards.
  unfoldable pub relayed_header : ℕ → ℕ → Header → Header
  relayed_header me size h =
      record (set_bcast_root (record h { message_size = size }) (node_of m me)) {
        bcast_swap_handler_id = h.handler_id;
        handler_id = bcast_handler;
      }

  -- CmiSyncBroadcast: what it sends, and the caller's header afterwards.
  unfoldable pub sync_broadcast : ℕ → ℕ → Header → List Send × Header
  unfolding bcast_forward relayed_header
  sync_broadcast me size h =
      let r = relayed_header me size h in
      (bcast_forward me r, record r { handler_id = r.bcast_swap_handler_id })

  -- CmiSyncBroadcastAll: a copy to the caller's own PE first, with the user's handler.
  unfoldable pub sync_broadcast_all : ℕ → ℕ → Header → List Send × Header
  unfolding sync_broadcast
  sync_broadcast_all me size h =
      let own = record h { message_size = size } in
      let (sends, after) = sync_broadcast me size own in ((me, own) ∷ sends, after)

  -- CmiBcastHandler: the sends, and the header with which the user's handler is called.
  unfoldable pub on_bcast : ℕ → Header → List Send × Header
  unfolding bcast_forward
  on_bcast me h = (bcast_forward me h, record h { handler_id = h.bcast_swap_handler_id })
