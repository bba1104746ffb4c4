-- ===== src/TaskQueue/Victim.antt =====
-- Whom StealTask of src/conv-taskq.cpp steals from. The random number is an argument.
use reconverse.Prelude.{
  ℕ, ◌+◌, ◌-◌, ◌%◌, ◌<◌, ◌≡◌, ◌≢◌, Option, none, some, leb, ltb, ap, ◌∙◌, Bool-cases, inl, inr,
  false, if◌then◌else◌, arith,
}

-- `random_rank`, where the process has more than one PE
unfoldable pub random_rank : ℕ → ℕ → ℕ → ℕ
random_rank node_size my_rank random =
    let r = random % (node_size - 1) in if leb my_rank r then r + 1 else r

-- The rank whose queue StealTask tries, if any
unfoldable pub steal_from : ℕ → ℕ → ℕ → Option ℕ
unfolding random_rank
steal_from node_size my_rank random =
    if leb node_size 1 then none else some (random_rank node_size my_rank random)

random_rank_lem :
    (node_size my_rank random : ℕ)
    → 1 < node_size
    → my_rank < node_size
    → (random_rank node_size my_rank random < node_size)
      × (random_rank node_size my_rank random ≢ my_rank)
unfolding random_rank
random_rank_lem node_size my_rank random several mine =
    let below = mod_below in (ground (arith, below), λ e. ground (arith, below))
  where
    mod_below : random % (node_size - 1) < node_size - 1
    mod_below = omega arith

random_rank-below :
    (node_size my_rank other : ℕ)
    → my_rank < node_size
    → other < my_rank
    → random_rank node_size my_rank other ≡ other
unfolding random_rank
random_rank-below node_size my_rank other mine less = let small = mod_same in ground (arith, small)
  where
    mod_same : other % (node_size - 1) ≡ other
    mod_same = grind arith

random_rank-above :
    (node_size my_rank other : ℕ)
    → other < node_size
    → my_rank < other
    → random_rank node_size my_rank (other - 1) ≡ other
unfolding random_rank
random_rank-above node_size my_rank other in_range more =
    let small = mod_same in ground (arith, small)
  where
    mod_same : (other - 1) % (node_size - 1) ≡ other - 1
    mod_same = grind arith

steal_from-several :
    (node_size my_rank random : ℕ)
    → 1 < node_size
    → steal_from node_size my_rank random ≡ some (random_rank node_size my_rank random)
unfolding steal_from
steal_from-several node_size my_rank random several = ground arith

reaches :
    (node_size my_rank other : ℕ)
    → my_rank < node_size
    → other < node_size
    → other ≢ my_rank
    → (r : ℕ) × (r < node_size - 1) × (random_rank node_size my_rank r ≡ other)
reaches node_size my_rank other mine in_range differs = elim (Bool-cases (ltb other my_rank)) [
  | inl p ↦ (other, ground arith, random_rank-below node_size my_rank other mine (ground arith))
  | inr p ↦ (other - 1, above p, random_rank-above node_size my_rank other in_range (more p))
]
  where
    more : ltb other my_rank ≡ false → my_rank < other
    more p = ground arith

    above : ltb other my_rank ≡ false → other - 1 < node_size - 1
    above p = let m = more p in omega arith

-- In a process of several PEs, StealTask tries a rank of the process that is not its own, and each
-- other rank is the choice of some random number below the number of other PEs.
pub steal_from_lem :
    (node_size my_rank random other : ℕ)
    → 1 < node_size
    → my_rank < node_size
    → other < node_size
    → other ≢ my_rank
    → ((v : ℕ) × (steal_from node_size my_rank random ≡ some v) × (v < node_size) × (v ≢ my_rank))
      × ((r : ℕ) × (r < node_size - 1) × (steal_from node_size my_rank r ≡ some other))
steal_from_lem node_size my_rank random other several mine in_range differs =
    let ok = random_rank_lem node_size my_rank random several mine in
    let to = reaches node_size my_rank other mine in_range differs in
    (
      (
        random_rank node_size my_rank random,
        steal_from-several node_size my_rank random several,
        ok.0,
        ok.1,
      ),
      (to.0, to.1, steal_from-several node_size my_rank to.0 several ∙ ap some to.2),
    )
