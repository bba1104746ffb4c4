-- ===== src/Barrier/Totals.antt =====
-- Sums over the threads of src/barrier.h.
use reconverse.Prelude.{
  ℕ, zero, suc, ◌+◌, ◌<◌, ◌≤◌, ◌≡◌, ◌≢◌, refl, ap, inl, inr, Bool-cases, ◌==◌, ==_iff, arith,
}

pub total : ℕ → (ℕ → ℕ) → ℕ
total zero f = 0
total (suc n) f = f n + total n f

pub total_same : (n : ℕ) (f g : ℕ → ℕ) → ((u : ℕ) → u < n → f u ≡ g u) → total n f ≡ total n g
unfolding total
total_same zero f g h = refl
total_same (suc n) f g h =
    omega (arith, h n (omega arith), total_same n f g (λ u l. h u (omega arith)))

pub total_none : (n : ℕ) (f : ℕ → ℕ) → ((u : ℕ) → u < n → f u ≡ 0) → total n f ≡ 0
unfolding total
total_none zero f h = refl
total_none (suc n) f h = omega (arith, h n (omega arith), total_none n f (λ u l. h u (omega arith)))

-- One value changes.
pub total_change :
    (n t : ℕ) (f g : ℕ → ℕ)
    → t < n
    → ((u : ℕ) → u < n → u ≢ t → f u ≡ g u)
    → total n g + f t ≡ total n f + g t
unfolding total
total_change zero t f g there h = absurd (omega arith)
total_change (suc n) t f g there h = elim (Bool-cases (t == n)) [
  | inl e ↦
      let same = (==_iff t n).0 e in
      let below = total_same n f g (λ u l. h u (omega arith) (λ k. omega arith)) in
      omega (arith, below, ap f same, ap g same)
  | inr e ↦
      let apart = h n (omega arith) (λ k. ground (arith, k)) in
      let below = total_change n t f g (ground arith) (λ u l. h u (omega arith)) in
      omega (arith, apart, below)
]

-- Values of at most one: their sum is as far below n as there are zeros.
module _ (f : ℕ → ℕ) (small : (u : ℕ) → f u ≤ 1) where
  pub total_le : (n : ℕ) → total n f ≤ n
  unfolding total
  total_le zero = omega arith
  total_le (suc n) = omega (arith, small n, total_le n)

  total_zero : (n t : ℕ) → t < n → f t ≡ 0 → total n f < n
  unfolding total
  total_zero zero t there z = absurd (omega arith)
  total_zero (suc n) t there z = elim (Bool-cases (t == n)) [
    | inl e ↦ omega (arith, total_le n, ap f ((==_iff t n).0 e))
    | inr e ↦ omega (arith, total_zero n t (ground arith) z, small n)
  ]

  total_zeros : (n t u : ℕ) → t < n → u < n → u ≢ t → f t ≡ 0 → f u ≡ 0 → suc (total n f) < n
  unfolding total
  total_zeros zero t u a b ne z w = absurd (omega arith)
  total_zeros (suc n) t u a b ne z w = elim (Bool-cases (t == n)) [
    | inl e ↦ omega (arith, total_zero n u (ground (arith, ne)) w, ap f ((==_iff t n).0 e))
    | inr e ↦ elim (Bool-cases (u == n)) [
      | inl g ↦ omega (arith, total_zero n t (ground arith) z, ap f ((==_iff u n).0 g))
      | inr g ↦ omega (arith, total_zeros n t u (ground arith) (ground arith) ne z w, small n)
    ]
  ]

  -- With one zero and a sum one below n, the others are ones.
  pub total_full : (n t u : ℕ) → t < n → u < n → u ≢ t → f t ≡ 0 → total n f + 1 ≡ n → f u ≡ 1
  total_full n t u a b ne z full = elim (Bool-cases (f u == 0)) [
    | inl e ↦ absurd (omega (arith, total_zeros n t u a b ne z ((==_iff (f u) 0).0 e)))
    | inr e ↦ ground (arith, small u)
  ]

-- A sum below n has a zero.
pub find_zero :
    (n : ℕ) (f : ℕ → ℕ) → ((u : ℕ) → f u ≤ 1) → total n f < n → (u : ℕ) × (u < n) × (f u ≡ 0)
unfolding total
find_zero zero f small h = absurd (omega arith)
find_zero (suc n) f small h = elim (Bool-cases (f n == 0)) [
  | inl e ↦ (n, omega arith, (==_iff (f n) 0).0 e)
  | inr e ↦ let (u, lt, z) = find_zero n f small (ground (arith, small n)) in (u, omega arith, z)
]
