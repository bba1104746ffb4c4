-- ===== src/SpanTree/Parents.antt =====
-- The macros for parents, children and child counts agree, over nodes and over PEs.
use reconverse.Prelude.{
  ℕ, zero, suc, ◌+◌, ◌-◌, ◌/◌, ◌<◌, ◌≤◌, ◌≡◌, ◌∙◌, Option, none, some, List, [], ◌∷◌, map, ltb, leb,
  ◌==◌, if◌then◌else◌, ◌&&◌, arith, length, length-append, length-map, ◌↔◌, Bool-cases, inl, inr,
}
use reconverse.Prelude.Count.{count, count-append, AllBelow}
use reconverse.Machine.{
  Machine, num_pes, node_of, rank_of, node_first, rank_of-lt, node_first-rank_of, node_of-add,
  rank_of-add, node_of-lt,
}
use reconverse.SpanTree.{
  width, children_loop, node_children, node_parent, num_children, pe_parent, pe_children,
  num_pe_children, peers_from, send_to_peers,
}

abbrev pub is_parent : ℕ → Option ℕ → ℕ
is_parent p none = 0
is_parent p (some q) = if q == p then 1 else 0

-- The children listed for `p` are the numbers below `total` whose parent is `p`, once each.
pub count-node_children :
    (total p x : ℕ) → x < total → count x (node_children total p) ≡ is_parent p (node_parent x)
unfolding node_children node_parent
count-node_children total p x h = ground arith

pub length-node_children : (total p : ℕ) → length (node_children total p) ≡ num_children total p
unfolding node_children num_children
length-node_children total p = ground arith

children-below : (total p k i : ℕ) → AllBelow total (children_loop total p k i)
unfolding children_loop
children-below total p zero i = tt
children-below total p (suc k) i = ground (arith, children-below total p k (i + 1))

pub node_children-AllBelow : (total p : ℕ) → AllBelow total (node_children total p)
unfolding node_children
node_children-AllBelow total p = children-below total p width 0

-- CmiNumSpanTreeChildren counts what CmiSpanTreeChildren lists.
pub length-pe_children : (m : Machine) (p : ℕ) → length (pe_children m p) ≡ num_pe_children m p
unfolding pe_children num_pe_children
length-pe_children m p = elim (Bool-cases (rank_of m p == 0)) [
  | inl z ↦ rw z (
      length-append (map (node_first m) ns) rs
      ∙ omega
          (arith, length-map ns (node_first m), ranks, length-node_children m.nodes (node_of m p)))
  | inr nz ↦ rw nz ranks
]
  where
    ns : List ℕ
    ns = node_children m.nodes (node_of m p)

    rs : List ℕ
    rs = map (λ r. node_first m (node_of m p) + r) (node_children m.node_size (rank_of m p))

    ranks : length rs ≡ num_children m.node_size (rank_of m p)
    ranks =
        length-map (node_children m.node_size (rank_of m p)) (λ r. node_first m (node_of m p) + r)
        ∙ length-node_children m.node_size (rank_of m p)

pub zero_first : (m : Machine) → node_first m 0 ≡ 0
unfolding node_first
zero_first m = omega arith

module _ (m : Machine) (some_pe : 0 < m.node_size) where
  pub pe_cases :
      (x node r : ℕ)
      → r < m.node_size
      → (node_first m node + r ≡ x) ↔ ((node_of m x ≡ node) × (rank_of m x ≡ r))
  pe_cases x node r h = (
    (λ e. (rw (← e) (node_of-add m node r h), rw (← e) (rank_of-add m node r h))),
    (λ e. rw (← e.0, ← e.1) (node_first-rank_of m x)),
  )

  pub count-ranks :
      (x node : ℕ) (rs : List ℕ)
      → AllBelow m.node_size rs
      → count x (map (λ r. node_first m node + r) rs)
        ≡ (if node_of m x == node then count (rank_of m x) rs else 0)
  count-ranks x node [] a = ground arith
  count-ranks x node (r ∷ rs) a = ground (arith, pe_cases x node r a.0, count-ranks x node rs a.1)

  pub count-firsts :
      (x : ℕ) (ns : List ℕ)
      → count x (map (node_first m) ns) ≡ (if rank_of m x == 0 then count (node_of m x) ns else 0)
  count-firsts x [] = ground arith
  count-firsts x (n ∷ ns) = ground (arith, pe_cases x n 0 some_pe, count-firsts x ns)

  count_parts : ℕ → ℕ → ℕ
  count_parts p x =
      (if rank_of m p == 0
        then (if rank_of m x == 0 then is_parent (node_of m p) (node_parent (node_of m x)) else 0)
        else 0)
      + (if node_of m x == node_of m p
          then is_parent (rank_of m p) (node_parent (rank_of m x))
          else 0)

  count-pe_parts : (p x : ℕ) → x < num_pes m → count x (pe_children m p) ≡ count_parts p x
  unfolding pe_children count_parts
  count-pe_parts p x h = elim (Bool-cases (rank_of m p == 0)) [
    | inl z ↦ rw z (count-append x (map (node_first m) ns) rs ∙ ground (arith, firsts, ranks))
    | inr nz ↦ rw nz (omega (arith, ranks))
  ]
    where
      ns : List ℕ
      ns = node_children m.nodes (node_of m p)

      rs : List ℕ
      rs = map (λ r. node_first m (node_of m p) + r) (node_children m.node_size (rank_of m p))

      firsts :
          count x (map (node_first m) ns)
          ≡ (if rank_of m x == 0 then is_parent (node_of m p) (node_parent (node_of m x)) else 0)
      firsts = ground (
        arith,
        count-firsts x ns,
        count-node_children m.nodes (node_of m p) (node_of m x) (node_of-lt m x h),
      )

      ranks : count x rs ≡ (
          if node_of m x == node_of m p
          then is_parent (rank_of m p) (node_parent (rank_of m x))
          else 0)
      ranks = ground (
        arith,
        count-ranks x (node_of m p) (node_children m.node_size (rank_of m p))
            (node_children-AllBelow m.node_size (rank_of m p)),
        count-node_children m.node_size (rank_of m p) (rank_of m x) (rank_of-lt m x some_pe),
      )

  parent_parts : (p x : ℕ) → count_parts p x ≡ is_parent p (pe_parent m x)
  unfolding pe_parent node_parent count_parts
  parent_parts p x = ground (
    arith,
    node_first_zero,
    pe_cases x 0 0 some_pe,
    pe_cases p (node_of m x) ((rank_of m x - 1) / width),
    pe_cases p ((node_of m x - 1) / width) 0 some_pe,
    rank_of-lt m x some_pe,
  )
    where
      node_first_zero : node_first m 0 ≡ 0
      node_first_zero = zero_first m

  -- In a run whose processes have at least one PE, the children that CmiSpanTreeChildren lists for
  -- `p` are the PEs whose CmiSpanTreeParent is `p`, once each.
  pub count-pe_children :
      (p x : ℕ) → x < num_pes m → count x (pe_children m p) ≡ is_parent p (pe_parent m x)
  count-pe_children p x h = count-pe_parts p x h ∙ parent_parts p x

-- Each other rank of the node gets one copy from CmiBcastSendToPeers, and the caller's rank none.
pub count-send_to_peers :
    (node_size my_rank r : ℕ)
    → my_rank < node_size
    → count r (send_to_peers node_size my_rank)
      ≡ (if r == my_rank then 0 else (if ltb r node_size then 1 else 0))
unfolding send_to_peers peers_from
count-send_to_peers node_size my_rank r h = ground (arith, from node_size 0)
  where
    from :
        (k i : ℕ)
        → count r (peers_from my_rank k i)
          ≡ (if r == my_rank then 0 else (if leb i r && ltb r (i + k) then 1 else 0))
    from zero i = ground arith
    from (suc k) i = ground (arith, from k (i + 1))

pub send_to_peers-AllBelow :
    (node_size my_rank : ℕ) → AllBelow node_size (send_to_peers node_size my_rank)
unfolding send_to_peers peers_from
send_to_peers-AllBelow node_size my_rank = ground (arith, from node_size 0 (omega arith))
  where
    from : (k i : ℕ) → i + k ≤ node_size → AllBelow node_size (peers_from my_rank k i)
    from zero i h = tt
    from (suc k) i h = ground (arith, from k (i + 1))
