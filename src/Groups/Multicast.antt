-- ===== src/Groups/Multicast.antt =====
-- Multicasts to groups, src/collectives.cpp: CmiSyncMulticast on any PE of a run.
use reconverse.Prelude.{
  ℕ, ◌<◌, ◌≤◌, ◌^◌, ◌≡◌, ◌≢◌, ◌⊎◌, inl, inr, refl, Bool, false, some, none, List, ◌∷◌, ◌++◌, length,
  arith, ◌==◌,
}
use reconverse.Machine.{Machine}
use reconverse.ListSend.{Buffer, Send, sync_list_send}
use reconverse.ListSend.Process.{Delivers}
use reconverse.ListSend.Delivery.{sync_list_send-Delivers}
use reconverse.Groups.{GroupDef, System, Reach, sync_multicast}
use reconverse.Groups.Found.{pending, lookup_lem}

module _ (m : Machine) (header_size fanout_handler : ℕ) (msg : Buffer) (size : ℕ)
    (some_pe : 0 < m.node_size) (small : m.node_size ≤ 2 ^ 32)
    (user : msg.handler_id ≢ fanout_handler) (valid : msg.handler_id < 2 ^ 15) where
  -- A multicast on PE q to a group that has been established with some members, in a run of n PEs.
  -- If the group's definition has arrived, the list send gets as many copies of the message to each
  -- PE as the group lists it, with its handler and exactly its payload up to the length that is given; while the definition is under
  -- way to q, the multicast aborts. Ranks, counts and handlers fit their fields.
  pub sync_multicast-Delivers :
      (n : ℕ) (s : System) (q : ℕ) (def : GroupDef) (later_defs earlier_defs : List GroupDef)
      (persistent : Bool) (my_node : ℕ)
      → Reach n s
      → q < n
      → s.log ≡ later_defs ++ def ∷ earlier_defs
      → 0 < length def.pes
      → length def.pes < 2 ^ 32
      → let sent =
          sync_multicast m header_size fanout_handler persistent my_node def.group size msg
            (s.pe q).table in
        ((pending q def.group s.flying ≡ 0)
          × ((sends : List Send) × (sent ≡ some sends)
              × Delivers m header_size fanout_handler msg size some_pe small user valid sends
                  def.pes))
        ⊎ ((pending q def.group s.flying ≡ 1) × (sent ≡ none))
  unfolding sync_multicast
  sync_multicast-Delivers n s q def later_defs earlier_defs persistent my_node r h e members short =
      elim (lookup_lem n s q def later_defs earlier_defs r h e) [
        | inl found ↦ inl (
          found.1,
          (
            sync_list_send m header_size fanout_handler persistent my_node def.pes size msg,
            rw (found.0, sync_multicast, nonempty) refl,
            sync_list_send-Delivers m header_size fanout_handler msg size some_pe small user valid
                persistent my_node def.pes short,
          ),
        )
        | inr none_yet ↦ inr (none_yet.1, rw (none_yet.0, sync_multicast) refl)
      ]
    where
      nonempty : (length def.pes == 0) ≡ false
      nonempty = ground arith
