-- ===== src/ListSend/Tests.antt =====
-- A list send from process 0 of two to PEs of both processes, one of them listed twice.
use reconverse.Prelude.{ℕ, ◌≡◌, refl, List, [], ◌∷◌, false, length, arith}
use reconverse.Prelude.Count.{count, flat_map}
use reconverse.Machine.{Machine}
use reconverse.ListSend.{Buffer, sync_list_send, arrivals}
use reconverse.ListSend.Process.{pes_of, AllCopies}
use reconverse.ListSend.Delivery.{sync_list_send-Delivers}

abbrev machine : Machine
machine = record { nodes = 2; node_size = 2 }

abbrev message : Buffer
message = record {
  handler_id = 5;
  message_size = 40;
  dest_pe = 0;
  payload = 1 ∷ 2 ∷ 3 ∷ 4 ∷ 5 ∷ 6 ∷ 7 ∷ 8 ∷ [];
  trailer_at = 0;
  trailer = [];
}

abbrev dests : List ℕ
dests = 3 ∷ 0 ∷ 2 ∷ 3 ∷ []

-- Three sends leave: a copy to PE 0, and one fan-out message.
two_sends : length (sync_list_send machine 32 9 false 0 dests 40 message) ≡ 2
unfolding sync_list_send reconverse.Machine.node_of
two_sends = refl

sync_list_send-Delivers_example :
    ((x : ℕ)
      → count x (
          pes_of (
            flat_map
              (arrivals machine 32 9)
              (sync_list_send machine 32 9 false 0 dests 40 message)))
        ≡ count x dests)
    × AllCopies 32 40 message
        (flat_map (arrivals machine 32 9) (sync_list_send machine 32 9 false 0 dests 40 message))
sync_list_send-Delivers_example =
    sync_list_send-Delivers machine 32 9 message 40 (omega arith) (omega arith) (omega arith)
      (omega arith) false 0 dests (omega arith)
