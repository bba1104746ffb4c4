-- ===== src/Broadcast/Nodes.antt =====
-- The node-level broadcast of src/collectives.cpp (SPANTREE): each process runs the handler once, on
-- whichever of its PEs takes the message.
use reconverse.Prelude.{
  ℕ, zero, suc, ◌<◌, ◌≡◌, ◌≢◌, refl, ap, ◌∙◌, List, [], ◌∷◌, ◌++◌, map, ◌==◌, if◌then◌else◌, arith,
}
use reconverse.Prelude.Count.{count, flat_map}
use reconverse.SpanTree.{forward_to_nodes}
use reconverse.SpanTree.Relay.{relay, relay_once}
use reconverse.Broadcast.{Header, Send, set_bcast_root, get_bcast_root}
use reconverse.Broadcast.Delivery.{runs}

module _ (nodes node_bcast_handler : ℕ) where
  -- CmiNodeBcastForward on a node
  unfoldable pub node_bcast_forward : ℕ → Header → List Send
  node_bcast_forward me h = map (λ child. (child, h)) (forward_to_nodes nodes (get_bcast_root h) me)

  -- The header while CmiSyncNodeBroadcast forwards.
  unfoldable pub node_relayed_header : ℕ → ℕ → Header → Header
  node_relayed_header me size h = record (set_bcast_root (record h { message_size = size }) me) {
    bcast_swap_handler_id = h.handler_id;
    handler_id = node_bcast_handler;
  }

  -- CmiSyncNodeBroadcast: what it sends, and the caller's header afterwards.
  unfoldable pub sync_node_broadcast : ℕ → ℕ → Header → List Send × Header
  unfolding node_bcast_forward node_relayed_header
  sync_node_broadcast me size h =
      let r = node_relayed_header me size h in
      (node_bcast_forward me r, record r { handler_id = r.bcast_swap_handler_id })

  -- CmiSyncNodeBroadcastAll: a copy to the caller's own node first.
  unfoldable pub sync_node_broadcast_all : ℕ → ℕ → Header → List Send × Header
  unfolding sync_node_broadcast
  sync_node_broadcast_all me size h =
      let own = record h { message_size = size } in
      let (sends, after) = sync_node_broadcast me size own in ((me, own) ∷ sends, after)

  -- CmiNodeBcastHandler: the sends, and the header with which the user's handler is called.
  unfoldable pub on_node_bcast : ℕ → Header → List Send × Header
  unfolding node_bcast_forward
  on_node_bcast me h = (node_bcast_forward me h, record h { handler_id = h.bcast_swap_handler_id })

module _ (nodes node_bcast_handler user : ℕ) where
  -- The nodes on which the handler `user` runs, with a unit of fuel for each relay that is left: a
  -- relay runs the handler that CmiNodeBcastHandler leaves in the header.
  pub node_delivered : ℕ → Send → List ℕ
  unfolding on_node_bcast runs
  node_delivered zero (node, h) =
      if h.handler_id == node_bcast_handler then [] else runs user node h
  node_delivered (suc hops) (node, h) =
      let (sends, after) = on_node_bcast nodes node_bcast_handler node h in
      let relayed = runs user node after ++ flat_map (node_delivered hops) sends in
      if h.handler_id == node_bcast_handler then relayed else runs user node h

  module _ (h : Header) (relays : h.handler_id ≡ node_bcast_handler)
      (is : h.bcast_swap_handler_id ≡ user) where
    flat_map-sends :
        (f : Send → List ℕ) (g : ℕ → List ℕ)
        → ((c : ℕ) → f (c, h) ≡ g c)
        → (cs : List ℕ) → flat_map f (map (λ c. (c, h)) cs) ≡ flat_map g cs
    flat_map-sends f g each [] = refl
    flat_map-sends f g each (c ∷ cs) = rw (each c, flat_map-sends f g each cs) refl

    node_delivered-relay :
        (hops c : ℕ) → node_delivered hops (c, h) ≡ relay nodes h.collective_meta_info hops c
    unfolding node_delivered relay
    node_delivered-relay zero c = ground (arith, relays)
    node_delivered-relay (suc hops) c = ground (
      arith,
      relays,
      is,
      flat_map-sends (node_delivered hops) (relay nodes h.collective_meta_info hops)
          (node_delivered-relay hops) (forward_to_nodes nodes h.collective_meta_info c),
    )

    node_forward-relay :
        (hops me : ℕ)
        → me ∷ flat_map (node_delivered hops) (node_bcast_forward nodes node_bcast_handler me h)
          ≡ relay nodes h.collective_meta_info (suc hops) me
    unfolding node_bcast_forward relay
    node_forward-relay hops me =
        ap (λ cs. me ∷ cs)
          (flat_map-sends (node_delivered hops) (relay nodes h.collective_meta_info hops)
            (node_delivered-relay hops) (forward_to_nodes nodes h.collective_meta_info me))

  node_delivered-user :
      (hops node : ℕ) (h : Header)
      → user ≢ node_bcast_handler
      → h.handler_id ≡ user
      → node_delivered hops (node, h) ≡ node ∷ []
  unfolding node_delivered
  node_delivered-user zero node h ne is = ground (arith, is)
  node_delivered-user (suc hops) node h ne is = ground (arith, is)

-- CmiSyncNodeBroadcastAll of a message whose handler is not the broadcast handler: the message's
-- handler runs exactly once on every node, the caller's included, when every relay step is followed
-- (one fewer than the nodes is enough), and the caller's message has its handler back.
pub sync_node_broadcast_all-delivered :
    (nodes node_bcast_handler hops me size : ℕ) (h : Header)
    → suc hops ≡ nodes
    → me < nodes
    → h.handler_id ≢ node_bcast_handler
    → ((x : ℕ)
        → x < nodes
        → count x (
            flat_map
              (node_delivered nodes node_bcast_handler h.handler_id hops)
              (sync_node_broadcast_all nodes node_bcast_handler me size h).0)
          ≡ 1)
      × ((sync_node_broadcast_all nodes node_bcast_handler me size h).1.handler_id ≡ h.handler_id)
unfolding sync_node_broadcast_all
sync_node_broadcast_all-delivered nodes node_bcast_handler hops me size h enough here ne = (
  λ x lt.
      ap
        (λ own. count x (
          own
          ++ flat_map (node_delivered nodes node_bcast_handler h.handler_id hops)
              (node_bcast_forward nodes node_bcast_handler me r)))
        (node_delivered-user nodes node_bcast_handler h.handler_id hops me
          (record h { message_size = size }) ne refl)
      ∙ ap (count x) (node_forward-relay nodes node_bcast_handler h.handler_id r refl refl hops me)
      ∙ ap (λ k. count x (relay nodes me k me)) enough
      ∙ (relay_once nodes me here x).0 lt,
  refl,
)
  where
    r : Header
    r = node_relayed_header nodes node_bcast_handler me size (record h { message_size = size })
