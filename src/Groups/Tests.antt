-- ===== src/Groups/Tests.antt =====
-- Four PEs in two processes: PE 1 establishes a group, and its broadcast has reached PE 2 only.
use reconverse.Prelude.{ℕ, ◌≡◌, ◌⊎◌, refl, some, none, List, [], ◌∷◌, arith, false}
use reconverse.Prelude.Count.{count, flat_map}
use reconverse.Machine.{Machine}
use reconverse.ListSend.{Buffer, Send, arrivals}
use reconverse.ListSend.Process.{pes_of, AllCopies}
use reconverse.Groups.{
  GroupDef, System, establish_at, arrive, start, establishes, arrives, Reach, starts, steps, lookup,
  sync_multicast, spread, establish, bucket, search, on_group, fresh,
}
use reconverse.Groups.Found.{pending, Shown, lookup_lem}
use reconverse.Groups.Multicast.{sync_multicast-Delivers}

abbrev machine : Machine
machine = record { nodes = 2; node_size = 2 }

abbrev message : Buffer
message = record {
  handler_id = 5;
  message_size = 0;
  dest_pe = 0;
  payload = 1 ∷ 2 ∷ [];
  trailer_at = 0;
  trailer = [];
}

abbrev made : GroupDef
made = record { group = record { id = 0; pe = 1 }; pes = 0 ∷ 3 ∷ [] }

abbrev flying : List (ℕ × GroupDef)
flying = (3, made) ∷ (0, made) ∷ []

abbrev established : System
established = establish_at 4 1 (0 ∷ 3 ∷ []) start

abbrev arrived : System
arrived = arrive 2 made flying established

run : Reach 4 arrived
unfolding establish_at spread establish start fresh
run =
    steps established arrived
      (steps start established starts (establishes start 1 (0 ∷ 3 ∷ []) (omega arith)))
      (arrives established 2 made ((3, made) ∷ []) ((0, made) ∷ []) refl)

-- PE 2 finds the group, and PE 0 does not yet.
looked_up :
    (lookup made.group (arrived.pe 2).table ≡ some (0 ∷ 3 ∷ []))
    × (lookup made.group (arrived.pe 0).table ≡ none)
unfolding lookup search bucket arrive establish_at establish start fresh on_group
looked_up = (refl, refl)

lookup_lem_example :
    Shown
      (lookup made.group (arrived.pe 2).table)
      (some (0 ∷ 3 ∷ []))
      (pending 2 made.group arrived.flying)
unfolding arrive establish_at establish start fresh
lookup_lem_example = lookup_lem 4 arrived 2 made [] [] run (omega arith) refl

sync_multicast-Delivers_example :
    let sent = sync_multicast machine 32 9 false 1 made.group 34 message (arrived.pe 2).table in
    ((pending 2 made.group arrived.flying ≡ 0)
      × ((sends : List Send) × (sent ≡ some sends)
          × (((x : ℕ)
                → count x (pes_of (flat_map (arrivals machine 32 9) sends)) ≡ count x (0 ∷ 3 ∷ []))
              × AllCopies 32 34 message (flat_map (arrivals machine 32 9) sends))))
    ⊎ ((pending 2 made.group arrived.flying ≡ 1) × (sent ≡ none))
unfolding arrive establish_at establish start fresh
sync_multicast-Delivers_example =
    sync_multicast-Delivers machine 32 9 message 34 (omega arith) (omega arith) (omega arith)
      (omega arith) 4 arrived 2 made [] [] false 1 run (omega arith) refl (omega arith)
      (omega arith)
