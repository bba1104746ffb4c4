-- ===== src/Reduce/Ids.antt =====
-- The ids of reductions and the table slots that they use, src/collectives.cpp.
use reconverse.Prelude.{ℕ, zero, suc, ◌+◌, ◌*◌, ◌%◌, ◌<◌, ◌≡◌, ◌≢◌, arith}
use reconverse.Reduce.{get_next_id, reduction_index, id_multiplier, id_range}

-- A counter that starts at `offset`, after `k` ids have been drawn from it.
pub counter_after : ℕ → ℕ → ℕ
counter_after offset zero = offset
counter_after offset (suc k) = (get_next_id (counter_after offset k) id_multiplier).1

-- The `k`-th id that is drawn from it, from 0.
pub nth_id : ℕ → ℕ → ℕ
nth_id offset k = (get_next_id (counter_after offset k) id_multiplier).0

counter_after_lem :
    (offset k : ℕ) → offset < 2 → counter_after offset k ≡ (offset + 2 * k) % id_range
unfolding counter_after get_next_id
counter_after_lem offset zero h = omega arith
counter_after_lem offset (suc k) h = omega (arith, counter_after_lem offset k h)

index-nth_id :
    (offset k : ℕ) → offset < 2 → reduction_index (nth_id offset k) ≡ (offset + 2 * k) % 32
unfolding reduction_index nth_id get_next_id
index-nth_id offset k h = omega (arith, counter_after_lem offset k h)

-- An id of the runtime's own sequence and one of the requested ids never meet in the table, also
-- after a counter has wrapped.
pub ids_disjoint : (j k : ℕ) → reduction_index (nth_id 0 j) ≢ reduction_index (nth_id 1 k)
ids_disjoint j k = omega (arith, index-nth_id 0 j (omega arith), index-nth_id 1 k (omega arith))

-- Two ids of one sequence use one slot exactly when they were drawn a multiple of 16 draws apart:
-- so 16 reductions of a kind can be in flight at once.
pub ids_share_slot :
    (offset j d : ℕ)
    → offset < 2
    → (reduction_index (nth_id offset j) ≡ reduction_index (nth_id offset (j + d)) → d % 16 ≡ 0)
      × (d % 16 ≡ 0 → reduction_index (nth_id offset j) ≡ reduction_index (nth_id offset (j + d)))
ids_share_slot offset j d h = (
  (λ e. omega (arith, index-nth_id offset j h, index-nth_id offset (j + d) h)),
  (λ e. omega (arith, index-nth_id offset j h, index-nth_id offset (j + d) h)),
)
