-- ===== src/Randomized/Draw.antt =====
-- drawFromPool of src/scheduler_randomized.cpp: one message leaves the pool, and no other.
use reconverse.Prelude.{
  ℕ, zero, suc, ◌+◌, ◌*◌, ◌^◌, ◌<◌, ◌≡◌, refl, ap, List, [], ◌∷◌, length, get_or, set, arith,
  length-set,
}
use reconverse.Prelude.Count.{count}
use reconverse.Randomized.{back, pop_back, draw_index, draw_from_pool}

abbrev pub is_one : ℕ → ℕ → ℕ
is_one k m = count k (m ∷ [])

pop_back-count :
    (k m : ℕ) (ms : List ℕ)
    → count k (m ∷ ms) ≡ is_one k (back (m ∷ ms)) + count k (pop_back (m ∷ ms))
pop_back-count k m [] = omega arith
pop_back-count k m (n ∷ ms) = omega (arith, pop_back-count k n ms)

set-count :
    (k v : ℕ) (ms : List ℕ) (i : ℕ)
    → i < length ms
    → is_one k (get_or ms i 0) + count k (set ms i v) ≡ is_one k v + count k ms
set-count k v [] i h = elim h [ ]
set-count k v (m ∷ ms) zero h = omega arith
set-count k v (m ∷ ms) (suc i) h = omega (arith, set-count k v ms i (omega arith))

back-set : (m : ℕ) (ms : List ℕ) (i : ℕ) → back (set (m ∷ ms) i (back (m ∷ ms))) ≡ back (m ∷ ms)
back-set m [] zero = refl
back-set m [] (suc i) = refl
back-set m (n ∷ ms) zero = refl
back-set m (n ∷ []) (suc zero) = refl
back-set m (n ∷ []) (suc (suc i)) = refl
back-set m (n ∷ o ∷ ms) (suc zero) = refl
back-set m (n ∷ o ∷ ms) (suc (suc i)) = back-set n (o ∷ ms) (suc i)

times_below : (r : ℕ) → r < 2 ^ 64 → (n : ℕ) → r * suc n < suc n * 2 ^ 64
times_below r h zero = omega arith
times_below r h (suc n) = omega (arith, times_below r h n)

draw_index-below :
    (random m : ℕ) (ms : List ℕ) → random < 2 ^ 64 → draw_index random (m ∷ ms) < length (m ∷ ms)
draw_index-below random m ms h = omega (arith, times_below random h (length ms))

set-shape :
    (k : ℕ) (ns : List ℕ) → 0 < length ns → count k ns ≡ is_one k (back ns) + count k (pop_back ns)
set-shape k [] h = elim h [ ]
set-shape k (n ∷ ns) h = pop_back-count k n ns

-- For every random number of 64 bits: the message that is drawn and the pool that is left hold
-- together what the pool held, each message as often as before.
pub draw_from_pool-count :
    (random k m : ℕ) (ms : List ℕ)
    → random < 2 ^ 64
    → count k (m ∷ ms)
      ≡ is_one k (draw_from_pool random (m ∷ ms)).0 + count k (draw_from_pool random (m ∷ ms)).1
unfolding draw_from_pool
draw_from_pool-count random k m ms h =
    let i = draw_index random (m ∷ ms) in
    let long = length-set (m ∷ ms) i (back (m ∷ ms)) in
    let left = set-shape k (set (m ∷ ms) i (back (m ∷ ms))) (omega (arith, long)) in
    omega (
      arith,
      set-count k (back (m ∷ ms)) (m ∷ ms) i (draw_index-below random m ms h),
      ap (is_one k) (back-set m ms i),
      left,
    )
