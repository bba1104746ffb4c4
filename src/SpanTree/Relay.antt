-- ===== src/SpanTree/Relay.antt =====
-- A broadcast relayed over the nodes: the sender and then each node that a copy lands on forward it.
use reconverse.Prelude.{
  ℕ, zero, suc, ◌+◌, ◌-◌, ◌*◌, ◌/◌, ◌<◌, ◌≤◌, ◌≡◌, refl, sym, ap, ◌∙◌, List, [], ◌∷◌, map,
  map-append, ◌==◌, if◌then◌else◌, arith,
}
use reconverse.Prelude.Count.{
  count, flat_map, count-append, AllBelow, AllBelow-flat_map, count-AllBelow,
}
use reconverse.SpanTree.{
  width, relative, from_relative, forward_loop, forward_to_nodes, children_loop, node_children,
}

-- The nodes that receive a copy, the sender first: one more hop for each unit of fuel.
unfoldable pub relay : ℕ → ℕ → ℕ → ℕ → List ℕ
relay n root zero node = []
relay n root (suc hops) node = node ∷ flat_map (relay n root hops) (forward_to_nodes n root node)

-- The same tree over the numbers relative to the root.
tree : ℕ → ℕ → ℕ → List ℕ
tree n zero r = []
tree n (suc hops) r = r ∷ flat_map (tree n hops) (node_children n r)

abbrev up : ℕ → ℕ
up x = (x - 1) / width

abbrev above_root : ℕ → ℕ → ℕ
above_root x c = if x == 0 then 0 else c

count-children :
    (n r x : ℕ) → x < n → count x (node_children n r) ≡ above_root x (if r == up x then 1 else 0)
unfolding node_children
count-children n r x h = ground arith

children-AllBelow : (n r k i : ℕ) → AllBelow n (children_loop n r k i)
unfolding children_loop
children-AllBelow n r zero i = tt
children-AllBelow n r (suc k) i = ground (arith, children-AllBelow n r k (i + 1))

tree-AllBelow : (n hops r : ℕ) → r < n → AllBelow n (tree n hops r)
unfolding tree node_children
tree-AllBelow n zero r h = tt
tree-AllBelow n (suc hops) r h = (
  h,
  AllBelow-flat_map n (tree n hops) (node_children n r) (λ c. tree-AllBelow n hops c)
      (children-AllBelow n r width 0),
)

-- A number is in the tree of `r` once for itself, and once for its parent being in it one hop
-- nearer.
count-tree :
    (n hops r x : ℕ)
    → x < n
    → count x (tree n (suc hops) r)
      ≡ (if r == x then 1 else 0) + above_root x (count (up x) (tree n hops r))
unfolding tree
count-tree n zero r x h = ground (arith, none_in (node_children n r))
  where
    none_in : (cs : List ℕ) → count x (flat_map (tree n zero) cs) ≡ 0
    none_in [] = refl
    none_in (c ∷ cs) = none_in cs
count-tree n (suc hops) r x h =
    ground (arith, sum (node_children n r) (λ c. count-tree n hops c x h), count-children n r x h)
  where
    sum :
        (cs : List ℕ)
        → ((c : ℕ)
            → count x (tree n (suc hops) c)
              ≡ (if c == x then 1 else 0) + above_root x (count (up x) (tree n hops c)))
        → count x (flat_map (tree n (suc hops)) cs)
          ≡ count x cs + above_root x (count (up x) (flat_map (tree n hops) cs))
    sum [] each = ground arith
    sum (c ∷ cs) each = ground (
      arith,
      sum cs each,
      each c,
      count-append x (tree n (suc hops) c) (flat_map (tree n (suc hops)) cs),
      count-append (up x) (tree n hops c) (flat_map (tree n hops) cs),
    )

tree_once : (n hops x : ℕ) → x < n → x < hops → count x (tree n hops 0) ≡ 1
tree_once n zero x h k = absurd (omega arith)
tree_once n (suc hops) x h k = ground (arith, count-tree n hops 0 x h, tree_once n hops (up x))

-- The forwarding loop stops where the macro's loop only lists no further child.
children-none : (n r k i : ℕ) → n ≤ r * width + i + 1 → children_loop n r k i ≡ []
unfolding children_loop
children-none n r zero i h = refl
children-none n r (suc k) i h = ground (arith, children-none n r k (i + 1))

forward_loop-children :
    (n root r k i : ℕ)
    → forward_loop n root r k i ≡ map (from_relative n root) (children_loop n r k i)
unfolding forward_loop children_loop
forward_loop-children n root r zero i = refl
forward_loop-children n root r (suc k) i =
    ground (arith, forward_loop-children n root r k (i + 1), children-none n r k (i + 1))

relative-from_relative :
    (n root r : ℕ) → root < n → r < n → relative n root (from_relative n root r) ≡ r
unfolding relative from_relative
relative-from_relative n root r h k = ground arith

forward-children :
    (n root r : ℕ)
    → root < n
    → r < n
    → forward_to_nodes n root (from_relative n root r)
      ≡ map (from_relative n root) (node_children n r)
unfolding forward_to_nodes node_children
forward-children n root r h k =
    rw (relative-from_relative n root r h k) (forward_loop-children n root r width 0)

module _ (n root : ℕ) (h : root < n) where
  flat_map-relay :
      (f g : ℕ → List ℕ)
      → ((r : ℕ) → r < n → f (from_relative n root r) ≡ map (from_relative n root) (g r))
      → (cs : List ℕ) → AllBelow n cs
      → flat_map f (map (from_relative n root) cs) ≡ map (from_relative n root) (flat_map g cs)
  flat_map-relay f g each [] a = refl
  flat_map-relay f g each (c ∷ cs) a =
      rw (each c a.0, flat_map-relay f g each cs a.1)
        (sym (map-append (from_relative n root) (g c) (flat_map g cs)))

  relay-tree :
      (hops r : ℕ)
      → r < n
      → relay n root hops (from_relative n root r) ≡ map (from_relative n root) (tree n hops r)
  unfolding relay tree node_children
  relay-tree zero r k = refl
  relay-tree (suc hops) r k = rw (forward-children n root r h k) (
      ap (λ t. from_relative n root r ∷ t)
        (flat_map-relay (relay n root hops) (tree n hops) (relay-tree hops) (node_children n r)
          (children-AllBelow n r width 0)))

  count-from_relative :
      (x : ℕ) (rs : List ℕ)
      → x < n
      → AllBelow n rs
      → count x (map (from_relative n root) rs) ≡ count (relative n root x) rs
  unfolding from_relative relative
  count-from_relative x [] k a = refl
  count-from_relative x (r ∷ rs) k a = ground (arith, count-from_relative x rs k a.1)

  from_relative-AllBelow :
      (rs : List ℕ) → AllBelow n rs → AllBelow n (map (from_relative n root) rs)
  unfolding from_relative
  from_relative-AllBelow [] a = tt
  from_relative-AllBelow (r ∷ rs) a = ground (arith, from_relative-AllBelow rs a.1)

  relative-lt : (x : ℕ) → x < n → relative n root x < n
  unfolding relative
  relative-lt x k = ground arith

  from_root : from_relative n root 0 ≡ root
  unfolding from_relative
  from_root = ground arith

  relay-root : relay n root n root ≡ map (from_relative n root) (tree n n 0)
  relay-root = rw from_root at (relay-tree n 0 (omega arith))

  -- A broadcast that node `root` starts in a run of `n` nodes, relayed over at most `n` hops,
  -- reaches every node exactly once, and no number that is not a node.
  pub relay_once :
      (x : ℕ)
      → (x < n → count x (relay n root n root) ≡ 1) × (n ≤ x → count x (relay n root n root) ≡ 0)
  relay_once x = (
    λ k. rw relay-root (
        count-from_relative x (tree n n 0) k (tree-AllBelow n n 0 (omega arith))
        ∙ tree_once n n (relative n root x) (relative-lt x k) (relative-lt x k)),
    λ k. rw relay-root (
        count-AllBelow n x (map (from_relative n root) (tree n n 0))
          (from_relative-AllBelow (tree n n 0) (tree-AllBelow n n 0 (omega arith))) k),
  )
