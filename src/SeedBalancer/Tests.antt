-- ===== src/SeedBalancer/Tests.antt =====
-- A seed on four PEs in two processes; the pack function marks the body.
use reconverse.Prelude.{
  ℕ, ◌<◌, ◌≡◌, refl, true, false, Option, some, none, List, [], ◌∷◌, ◌^◌, arith,
}
use reconverse.Machine.{Machine, node_of}
use reconverse.SeedBalancer.{
  Seed, Info, single, broadcast, Out, to_pe, to_others, enqueue, enqueue_group, enqueue_multi,
  enqueue_within_node, node_enqueue,
}
use reconverse.SeedBalancer.Restore.{Sent, enqueue-Restores}
use reconverse.SeedBalancer.Places.{Lands, enqueue-Anywhere}

abbrev machine : Machine
machine = record { nodes = 2; node_size = 3 }

abbrev seed : Seed
seed = record {
  header = record {
    handler_id = 21;
    bcast_swap_handler_id = 0;
    collective_meta_info = 0;
    message_size = 0;
  };
  cld_info_fn = 0;
  swap_handler_id = 0;
  nokeep = false;
  body = 7 ∷ [];
}

abbrev report : ℕ → Seed → Info
report f s = record { packs = true; len = 64; queueing = 4; words = 5 ∷ [] }

abbrev mark : Seed → Seed
mark s = record s { body = 1 ∷ s.body }

abbrev body_of : Out → List ℕ
body_of (to_pe pe len t) = t.body
body_of (to_others len t) = t.body
body_of out = []

abbrev sent_body : Option Out → List ℕ
sent_body none = []
sent_body (some out) = body_of out

-- A broadcast from process 0 of three PEs leaves unpacked, that from process 1 packed.
unpacked :
    (sent_body (enqueue machine report mark 30 31 0 0 (some broadcast) seed 9).0 ≡ 7 ∷ [])
    × (sent_body (enqueue machine report mark 30 31 0 3 (some broadcast) seed 9).0 ≡ 1 ∷ 7 ∷ [])
unfolding enqueue node_of
unpacked = (refl, refl)

enqueue-Restores_example :
    Sent machine report mark 30 31 seed 9
      (enqueue machine report mark 30 31 0 0 (some (single 4)) seed 9).0
    × Sent machine report mark 30 31 seed 9
        (node_enqueue machine report mark 30 31 0 0 (some (single 4)) seed 9).0
    × Sent machine report mark 30 31 seed 9
        (enqueue_group machine report mark 30 31 (record { id = 0; pe = 1 }) seed 9)
    × Sent machine report mark 30 31 seed 9
        (enqueue_multi machine report mark 30 31 (2 ∷ 3 ∷ []) seed 9)
    × Sent machine report mark 30 31 seed 9 (enqueue_within_node machine report mark 30 31 seed 9)
enqueue-Restores_example =
    enqueue-Restores machine report mark 30 31 seed 9 (λ s. refl) (omega arith) (omega arith) 0 0
      (some (single 4)) (record { id = 0; pe = 1 }) (2 ∷ 3 ∷ [])

enqueue-Anywhere_example :
    ((rand : ℕ) → (x : ℕ) × (x < 6) × Lands machine report mark 30 31 seed 9 2 rand x)
    × ((x : ℕ)
        → x < 6
        → (rand : ℕ) × (rand < 2 ^ 31) × Lands machine report mark 30 31 seed 9 2 rand x)
enqueue-Anywhere_example =
    enqueue-Anywhere machine report mark 30 31 seed 9 2 (omega arith) (omega arith) (omega arith)
