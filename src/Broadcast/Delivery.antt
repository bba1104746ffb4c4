-- ===== src/Broadcast/Delivery.antt =====
-- Following every send of a broadcast to its end: where the user's handler runs.
use reconverse.Prelude.{
  ℕ, zero, suc, ◌+◌, ◌<◌, ◌≡◌, ◌≢◌, refl, ap, List, [], ◌∷◌, ◌++◌, map, ◌==◌, if◌then◌else◌, arith,
}
use reconverse.Prelude.Count.{count, flat_map, count-append}
use reconverse.Machine.{
  Machine, num_pes, node_of, rank_of, node_first, node_of-lt, rank_of-lt, node_first-rank_of,
}
use reconverse.SpanTree.{forward_to_nodes, send_to_peers}
use reconverse.SpanTree.Relay.{relay, relay_once}
use reconverse.SpanTree.Parents.{count-send_to_peers, send_to_peers-AllBelow, count-ranks, pe_cases}
use reconverse.Broadcast.{
  Header, Send, bcast_send_to_peers, bcast_forward, relayed_header, sync_broadcast, on_bcast,
}

flat_map-append :
    (f : Send → List ℕ) (xs ys : List Send) (x : ℕ)
    → count x (flat_map f (xs ++ ys)) ≡ count x (flat_map f xs) + count x (flat_map f ys)
flat_map-append f [] ys x = omega arith
flat_map-append f (s ∷ xs) ys x = omega (
  arith,
  flat_map-append f xs ys x,
  count-append x (f s) (flat_map f (xs ++ ys)),
  count-append x (f s) (flat_map f xs),
)

-- Where the handler `user` runs of a message with this header that is handled on `pe`.
unfoldable pub runs : ℕ → ℕ → Header → List ℕ
runs user pe h = if h.handler_id == user then pe ∷ [] else []

module _ (m : Machine) (bcast_handler user : ℕ) where
  -- The PEs at which the handler `user` runs, with a unit of fuel for each relay that is left: a
  -- relay runs the handler that CmiBcastHandler leaves in the header.
  pub delivered : ℕ → Send → List ℕ
  unfolding runs
  delivered zero (pe, h) = if h.handler_id == bcast_handler then [] else runs user pe h
  delivered (suc hops) (pe, h) =
      let (sends, after) = on_bcast m bcast_handler pe h in
      let relayed = runs user pe after ++ flat_map (delivered hops) sends in
      if h.handler_id == bcast_handler then relayed else runs user pe h

  delivered-user :
      (hops pe : ℕ) (h : Header)
      → user ≢ bcast_handler
      → h.handler_id ≡ user
      → delivered hops (pe, h) ≡ pe ∷ []
  unfolding delivered
  delivered-user zero pe h ne is = ground (arith, is)
  delivered-user (suc hops) pe h ne is = ground (arith, is)

  delivered-users :
      (hops first : ℕ) (h : Header) (rs : List ℕ)
      → user ≢ bcast_handler
      → h.handler_id ≡ user
      → flat_map (delivered hops) (map (λ r. (first + r, h)) rs) ≡ map (λ r. first + r) rs
  delivered-users hops first h [] ne is = refl
  delivered-users hops first h (r ∷ rs) ne is =
      rw (delivered-user hops (first + r) h ne is, delivered-users hops first h rs ne is) refl

  module _ (some_pe : 0 < m.node_size) (h : Header) (ne : user ≢ bcast_handler)
      (is : h.bcast_swap_handler_id ≡ user) (relays : h.handler_id ≡ bcast_handler) (x : ℕ) where
    count-peers :
        (hops me : ℕ)
        → count x (flat_map (delivered hops) (bcast_send_to_peers m bcast_handler me h)) ≡ (
            if node_of m x == node_of m me
            then (if rank_of m x == rank_of m me then 0 else 1)
            else 0)
    unfolding bcast_send_to_peers
    count-peers hops me = ground (
      arith,
      delivered-users hops (node_first m (node_of m me))
          (record h { handler_id = h.bcast_swap_handler_id })
          (send_to_peers m.node_size (rank_of m me)) ne is,
      count-ranks m some_pe x (node_of m me) (send_to_peers m.node_size (rank_of m me))
          (send_to_peers-AllBelow m.node_size (rank_of m me)),
      count-send_to_peers m.node_size (rank_of m me) (rank_of m x) (rank_of-lt m me some_pe),
      rank_of-lt m x some_pe,
    )

    abbrev landing : ℕ → Send
    landing c = (node_first m c, h)

    count-children :
        (hops : ℕ)
        → ((c : ℕ)
            → count x (delivered hops (landing c))
              ≡ count (node_of m x) (relay m.nodes h.collective_meta_info hops c))
        → (cs : List ℕ)
        → count x (flat_map (delivered hops) (map landing cs))
          ≡ count (node_of m x) (flat_map (relay m.nodes h.collective_meta_info hops) cs)
    count-children hops each [] = refl
    count-children hops each (c ∷ cs) = omega (
      arith,
      each c,
      count-children hops each cs,
      count-append x (delivered hops (landing c)) (flat_map (delivered hops) (map landing cs)),
      count-append (node_of m x) (relay m.nodes h.collective_meta_info hops c)
          (flat_map (relay m.nodes h.collective_meta_info hops) cs),
    )

    count-landing :
        (hops c : ℕ)
        → count x (delivered hops (landing c))
          ≡ count (node_of m x) (relay m.nodes h.collective_meta_info hops c)
    unfolding delivered relay on_bcast
    count-landing zero c = ground (arith, relays)
    count-landing (suc hops) c = ground (
      arith,
      relays,
      is,
      flat_map-append (delivered hops)
          (map landing
            (forward_to_nodes m.nodes h.collective_meta_info (node_of m (node_first m c))))
          (bcast_send_to_peers m bcast_handler (node_first m c) h) x,
      count-children hops (count-landing hops) (forward_to_nodes m.nodes h.collective_meta_info c),
      count-peers hops (node_first m c),
      pe_cases m some_pe (node_first m c) c 0 some_pe,
      pe_cases m some_pe x c 0 some_pe,
    )

    -- The sends of one relay step on `me` reach what the relay from its node reaches, less `me`.
    count-forward :
        (hops me : ℕ)
        → count x (flat_map (delivered hops) (bcast_forward m bcast_handler me h))
            + (if x == me then 1 else 0)
          ≡ count (node_of m x) (relay m.nodes h.collective_meta_info (suc hops) (node_of m me))
    unfolding relay bcast_forward
    count-forward hops me = ground (
      arith,
      flat_map-append (delivered hops)
          (map landing (forward_to_nodes m.nodes h.collective_meta_info (node_of m me)))
          (bcast_send_to_peers m bcast_handler me h) x,
      count-children hops (count-landing hops)
          (forward_to_nodes m.nodes h.collective_meta_info (node_of m me)),
      count-peers hops me,
      node_first-rank_of m x,
      node_first-rank_of m me,
    )

-- CmiSyncBroadcast from PE `me`, of a message whose handler is not the broadcast handler: the
-- message's handler runs exactly once on every other PE and not on `me`, when every relay step is
-- followed (one fewer than the nodes is enough), and the caller's message has its handler back.
pub sync_broadcast-delivered :
    (m : Machine) (bcast_handler hops me size : ℕ) (h : Header)
    → suc hops ≡ m.nodes
    → 0 < m.node_size
    → me < num_pes m
    → h.handler_id ≢ bcast_handler
    → ((x : ℕ)
        → x < num_pes m
        → count x (
            flat_map
              (delivered m bcast_handler h.handler_id hops)
              (sync_broadcast m bcast_handler me size h).0)
          ≡ (if x == me then 0 else 1))
      × ((sync_broadcast m bcast_handler me size h).1.handler_id ≡ h.handler_id)
unfolding sync_broadcast
sync_broadcast-delivered m bcast_handler hops me size h enough some_pe here ne = (
  (λ x lt. ground (
    arith,
    count-forward m bcast_handler h.handler_id some_pe (relayed_header m bcast_handler me size h) ne
        refl refl x hops me,
    (relay_once m.nodes (node_of m me) (node_of-lt m me here) (node_of m x)).0,
    node_of-lt m x lt,
    ap (λ k. count (node_of m x) (relay m.nodes (node_of m me) k (node_of m me))) enough,
  )),
  refl,
)
