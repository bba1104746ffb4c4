-- ===== src/SpanTree/Tests.antt =====
-- The theorems on the spanning trees at concrete runs.
use reconverse.Prelude.{◌<◌, ◌≤◌, ◌≡◌, refl, [], ◌∷◌, arith}
use reconverse.Prelude.Count.{count}
use reconverse.Machine.{Machine}
use reconverse.SpanTree.{pe_children, pe_parent, forward_to_nodes}
use reconverse.SpanTree.Relay.{relay, relay_once}
use reconverse.SpanTree.Parents.{is_parent, count-pe_children}

-- Three processes of six PEs.
abbrev small : Machine
small = record { nodes = 3; node_size = 6 }

relay_once_example : (3 < 7 → count 3 (relay 7 5 7 5) ≡ 1) × (7 ≤ 3 → count 3 (relay 7 5 7 5) ≡ 0)
relay_once_example = relay_once 7 5 (omega arith) 3

relay_runs : relay 7 5 7 5 ≡ 5 ∷ 6 ∷ 3 ∷ 4 ∷ 0 ∷ 1 ∷ 2 ∷ []
unfolding relay forward_to_nodes
relay_runs = refl

count-pe_children_example : count 12 (pe_children small 0) ≡ is_parent 0 (pe_parent small 12)
count-pe_children_example = count-pe_children small (omega arith) 0 12 (omega arith)
