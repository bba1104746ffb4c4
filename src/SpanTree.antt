-- ===== src/SpanTree.antt =====
-- The spanning trees of the collectives: the macros of include/converse.h that reductions use,
-- and the relay of a broadcast, src/collectives.cpp, whose tree is rooted at the sender.
pub mod Relay
pub mod Parents
mod Tests
use reconverse.Prelude.{
  ℕ, zero, suc, ◌+◌, ◌-◌, ◌*◌, ◌/◌, ◌<◌, ◌≡◌, Bool, true, false, Option, none, some, List, [], ◌∷◌,
  ◌++◌, map, ltb, leb, ◌==◌, if◌then◌else◌,
}
use reconverse.Machine.{Machine, node_of, rank_of, node_first}

-- CST_W
abbrev pub width : ℕ
width = 4

-- `rel` of CmiSpanTreeForwardToNodes: the node's number counted from the root.
pub relative : ℕ → ℕ → ℕ → ℕ
relative n root me = if ltb me root then me + n - root else me - root

-- `childNode`
pub from_relative : ℕ → ℕ → ℕ → ℕ
from_relative n root rel = if leb n (rel + root) then rel + root - n else rel + root

-- The loop over `i`, with `k` rounds left: the nodes that it sends to.
pub forward_loop : ℕ → ℕ → ℕ → ℕ → ℕ → List ℕ
unfolding from_relative
forward_loop n root rel zero i = []
forward_loop n root rel (suc k) i =
    let rest = forward_loop n root rel k (i + 1) in
    if leb n (rel * width + i + 1) then [] else from_relative n root (rel * width + i + 1) ∷ rest

-- CmiSpanTreeForwardToNodes on node `me` of `n`.
pub forward_to_nodes : ℕ → ℕ → ℕ → List ℕ
unfolding relative forward_loop
forward_to_nodes n root me = forward_loop n root (relative n root me) width 0

-- The loop of CmiBcastSendToPeers, from rank `r` with `k` ranks left.
unfoldable pub peers_from : ℕ → ℕ → ℕ → List ℕ
peers_from my_rank zero r = []
peers_from my_rank (suc k) r =
    let rest = peers_from my_rank k (r + 1) in if r == my_rank then rest else r ∷ rest

-- CmiBcastSendToPeers: the ranks of the node that get a copy of their own.
unfoldable pub send_to_peers : ℕ → ℕ → List ℕ
unfolding peers_from
send_to_peers node_size my_rank = if leb node_size 1 then [] else peers_from my_rank node_size 0

-- CmiNodeSpanTreeParent; `none` is the -1 of the root.
pub node_parent : ℕ → Option ℕ
node_parent n = if n == 0 then none else some ((n - 1) / width)

-- CmiNumNodeSpanTreeChildren, and CST_C with the ranks of one node for the nodes.
pub num_children : ℕ → ℕ → ℕ
num_children total n =
    if ltb ((n + 1) * width) total
    then width
    else (if leb total (n * width + 1) then 0 else total - 1 - n * width)

-- The loops of CmiNodeSpanTreeChildren and CmiSpanTreeChildren: a child is listed if it exists.
pub children_loop : ℕ → ℕ → ℕ → ℕ → List ℕ
children_loop total n zero i = []
children_loop total n (suc k) i =
    let rest = children_loop total n k (i + 1) in
    if ltb (n * width + i + 1) total then (n * width + i + 1) ∷ rest else rest

pub node_children : ℕ → ℕ → List ℕ
unfolding children_loop
node_children total n = children_loop total n width 0

-- CmiSpanTreeParent: over ranks within a node, and from rank 0 to rank 0 of the parent node.
pub pe_parent : Machine → ℕ → Option ℕ
unfolding node_parent
pe_parent m p =
    if p == 0
    then none
    else (if rank_of m p == 0
        then elim (node_parent (node_of m p)) [ none ↦ none | some n ↦ some (node_first m n) ]
        else some (node_first m (node_of m p) + (rank_of m p - 1) / width))

-- CmiNumSpanTreeChildren
pub num_pe_children : Machine → ℕ → ℕ
unfolding num_children
num_pe_children m p =
    if rank_of m p == 0
    then num_children m.nodes (node_of m p) + num_children m.node_size (rank_of m p)
    else num_children m.node_size (rank_of m p)

-- CmiSpanTreeChildren
pub pe_children : Machine → ℕ → List ℕ
unfolding node_children
pe_children m p =
    (if rank_of m p == 0 then map (node_first m) (node_children m.nodes (node_of m p)) else [])
    ++ map (λ r. node_first m (node_of m p) + r) (node_children m.node_size (rank_of m p))
