-- ===== src/Prelude/Count.antt =====
-- How often a number occurs in a list.
use reconverse.Prelude.{
  ℕ, ◌+◌, ◌<◌, ◌≤◌, ◌≡◌, refl, List, [], ◌∷◌, ◌++◌, ◌==◌, if◌then◌else◌, arith,
}

abbrev pub count : ℕ → List ℕ → ℕ
count n [] = 0
count n (m ∷ ms) = (if m == n then 1 else 0) + count n ms

abbrev pub flat_map {ℓ κ} : {A : Type ℓ} {B : Type κ} → (A → List B) → List A → List B
flat_map f [] = []
flat_map f (x ∷ xs) = f x ++ flat_map f xs

pub count-append :
    (n : ℕ) (left right : List ℕ) → count n (left ++ right) ≡ count n left + count n right
count-append n [] right = omega arith
count-append n (m ∷ left) right = ground (arith, count-append n left right)

abbrev pub AllBelow : ℕ → List ℕ → Type 0
AllBelow n [] = Unit {0}
AllBelow n (x ∷ xs) = (x < n) × AllBelow n xs

pub AllBelow-append :
    (n : ℕ) (xs ys : List ℕ) → AllBelow n xs → AllBelow n ys → AllBelow n (xs ++ ys)
AllBelow-append n [] ys a b = b
AllBelow-append n (x ∷ xs) ys a b = (a.0, AllBelow-append n xs ys a.1 b)

pub count-AllBelow : (n x : ℕ) (xs : List ℕ) → AllBelow n xs → n ≤ x → count x xs ≡ 0
count-AllBelow n x [] a h = refl
count-AllBelow n x (y ∷ ys) a h = ground (arith, count-AllBelow n x ys a.1 h)

pub AllBelow-flat_map :
    (n : ℕ) (f : ℕ → List ℕ) (cs : List ℕ)
    → ((c : ℕ) → c < n → AllBelow n (f c))
    → AllBelow n cs
    → AllBelow n (flat_map f cs)
AllBelow-flat_map n f [] each a = tt
AllBelow-flat_map n f (c ∷ cs) each a =
    AllBelow-append n (f c) (flat_map f cs) (each c a.0) (AllBelow-flat_map n f cs each a.1)
