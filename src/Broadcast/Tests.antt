-- ===== src/Broadcast/Tests.antt =====
-- The theorems on the broadcast at a concrete run.
use reconverse.Prelude.{
  ℕ, ◌<◌, ◌≡◌, ◌==◌, if◌then◌else◌, arith, refl, true, false, [], ◌∷◌, length, ltb,
}
use reconverse.Prelude.Count.{count, flat_map}
use reconverse.Machine.{Machine, num_pes}
use reconverse.Broadcast.{Header, sync_broadcast}
use reconverse.Broadcast.Nodes.{
  node_delivered, sync_node_broadcast_all, sync_node_broadcast_all-delivered,
}
use reconverse.Broadcast.Shared.{
  forward_to_peers, within_node_broadcast, Shared, sent, reference, push_to, references, pushes,
  free, frees, Reach, starts, steps, within_node_broadcast-Shared,
}
use reconverse.Broadcast.Delivery.{delivered, sync_broadcast-delivered}

abbrev small : Machine
small = record { nodes = 3; node_size = 2 }

abbrev message : Header
message = record {
  handler_id = 40;
  bcast_swap_handler_id = 0;
  collective_meta_info = 0;
  message_size = 0;
}

sync_broadcast-delivered_example :
    ((x : ℕ)
      → x < num_pes small
      → count x (flat_map (delivered small 7 40 2) (sync_broadcast small 7 3 64 message).0)
        ≡ (if x == 3 then 0 else 1))
    × ((sync_broadcast small 7 3 64 message).1.handler_id ≡ 40)
sync_broadcast-delivered_example =
    sync_broadcast-delivered small 7 2 3 64 message refl (omega arith) (omega arith) (omega arith)

sync_node_broadcast_all-delivered_example :
    ((x : ℕ)
      → x < 3
      → count x (flat_map (node_delivered 3 9 40 2) (sync_node_broadcast_all 3 9 1 64 message).0)
        ≡ 1)
    × ((sync_node_broadcast_all 3 9 1 64 message).1.handler_id ≡ 40)
sync_node_broadcast_all-delivered_example =
    sync_node_broadcast_all-delivered 3 9 2 1 64 message refl (omega arith) (omega arith)

-- PE 1 of three has handed its buffer to PE 0, which has freed it already.
abbrev promised : Shared
promised = reference (sent (0 ∷ 2 ∷ []))

abbrev lent : Shared
lent = push_to 0 (2 ∷ []) promised

abbrev given_back : Shared
given_back = free [] lent

lending : Reach (forward_to_peers 3 1) 1 given_back
unfolding forward_to_peers reference push_to sent
lending =
    steps lent given_back
      (steps promised lent
        (steps (sent (0 ∷ 2 ∷ [])) promised starts
          (references (sent (0 ∷ 2 ∷ [])) 0 (2 ∷ []) refl refl))
        (pushes promised 0 (2 ∷ []) refl refl))
      (frees lent 0 [] [] refl)

within_node_broadcast-Shared_example :
    ((r : ℕ) → count r (within_node_broadcast false 3 1) ≡ (if ltb r 3 then 1 else 0))
    × (given_back.own ≡ true → given_back.released ≡ 0)
    × (0 < length given_back.holders → given_back.released ≡ 0)
    × (given_back.own ≡ false → length given_back.holders ≡ 0 → given_back.released ≡ 1)
within_node_broadcast-Shared_example =
    within_node_broadcast-Shared 3 1 given_back (omega arith) lending
