-- ===== src/Machine.antt =====
-- The layout of a run: processes (called nodes in the source) of equally many PEs, and the numbering
-- functions of src/convcore.cpp.
use reconverse.Prelude.{ℕ, ◌+◌, ◌*◌, ◌/◌, ◌%◌, ◌<◌, ◌≡◌, arith}

pub record Machine : Type 0 where
  pub nodes : ℕ
  pub node_size : ℕ

abbrev pub num_pes : Machine → ℕ
num_pes m = m.nodes * m.node_size

unfoldable pub node_of : Machine → ℕ → ℕ
node_of m pe = pe / m.node_size

unfoldable pub rank_of : Machine → ℕ → ℕ
rank_of m pe = pe % m.node_size

unfoldable pub node_first : Machine → ℕ → ℕ
node_first m node = node * m.node_size

module _ (m : Machine) where
  pub rank_of-lt : (pe : ℕ) → 0 < m.node_size → rank_of m pe < m.node_size
  unfolding rank_of
  rank_of-lt pe h = omega arith

  pub node_first-rank_of : (pe : ℕ) → node_first m (node_of m pe) + rank_of m pe ≡ pe
  unfolding node_first node_of rank_of
  node_first-rank_of pe = grind arith

  pub node_of-add : (node r : ℕ) → r < m.node_size → node_of m (node_first m node + r) ≡ node
  unfolding node_first node_of
  node_of-add node r h = grind arith

  pub rank_of-add : (node r : ℕ) → r < m.node_size → rank_of m (node_first m node + r) ≡ r
  unfolding node_first rank_of
  rank_of-add node r h = grind arith

  pub node_of-lt : (pe : ℕ) → pe < num_pes m → node_of m pe < m.nodes
  unfolding node_of
  node_of-lt pe h = grind arith
