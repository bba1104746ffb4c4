-- ===== src/Futures/Chains.antt =====
-- The chains of waiting threads of src/futures.cpp as lists: what a walk along the pointers visits.
use reconverse.Prelude.{
  ℕ, zero, suc, ◌+◌, ◌≤◌, ◌≡◌, refl, sym, ap, ◌∙◌, subst, Bool, true, false, Option, none, some,
  List, [], ◌∷◌, length, ltb, ◌==◌, ==_iff, if◌then◌else◌, Bool-cases, inl, inr, arith,
}
use reconverse.Prelude.Count.{count, AllBelow}
use reconverse.Futures.{Phase, running, waiting, woken, update, chain_from, awakened, awaken_all}

-- From the thread `h`, the pointers lead along the list.
abbrev pub Linked : (ℕ → Option ℕ) → Option ℕ → List ℕ → Type 0
Linked next none [] = Unit {0}
Linked next none (x ∷ xs) = ⊥
Linked next (some t) [] = ⊥
Linked next (some t) (x ∷ xs) = (t ≡ x) × Linked next (next t) xs

pub chain_from-Linked :
    (n : ℕ) (next : ℕ → Option ℕ) (h : Option ℕ) (xs : List ℕ)
    → length xs ≤ n
    → Linked next h xs
    → chain_from n next h ≡ xs
unfolding chain_from
chain_from-Linked zero next none [] short l = refl
chain_from-Linked zero next h (x ∷ xs) short l = absurd (omega arith)
chain_from-Linked zero next (some t) [] short l = elim l [ ]
chain_from-Linked (suc n) next none [] short l = refl
chain_from-Linked (suc n) next none (x ∷ xs) short l = elim l [ ]
chain_from-Linked (suc n) next (some t) [] short l = elim l [ ]
chain_from-Linked (suc n) next (some t) (x ∷ xs) short l =
    ap (λ ys. t ∷ ys) (chain_from-Linked n next (next t) xs (omega arith) l.1)
    ∙ ap (λ y. y ∷ xs) l.0

-- A pointer of a thread that is not in the list may change.
pub Linked-update :
    (next : ℕ → Option ℕ) (t : ℕ) (p h : Option ℕ) (xs : List ℕ)
    → count t xs ≡ 0
    → Linked next h xs
    → Linked (update next t p) h xs
Linked-update next t p none [] z l = tt
Linked-update next t p none (x ∷ xs) z l = l
Linked-update next t p (some u) [] z l = l
Linked-update next t p (some u) (x ∷ xs) z l = (
  l.0,
  subst (λ q. Linked (update next t p) q xs) (sym same)
      (Linked-update next t p (next u) xs (ground arith) l.1),
)
  where
    other : (u == t) ≡ false
    other = ground (arith, l.0)

    same : update next t p u ≡ next u
    same = rw other refl

-- A list of different numbers below n has at most n of them.
sums : ℕ → List ℕ → ℕ
sums zero xs = 0
sums (suc n) xs = count n xs + sums n xs

sums-cons : (n x : ℕ) (xs : List ℕ) → sums n (x ∷ xs) ≡ (if ltb x n then 1 else 0) + sums n xs
unfolding sums
sums-cons zero x xs = ground arith
sums-cons (suc n) x xs = ground (arith, sums-cons n x xs)

sums-length : (n : ℕ) (xs : List ℕ) → AllBelow n xs → length xs ≤ sums n xs
sums-length n [] b = omega arith
sums-length n (x ∷ xs) b = ground (arith, sums-cons n x xs, sums-length n xs b.1)

sums_le : (n : ℕ) (xs : List ℕ) → ((x : ℕ) → count x xs ≤ 1) → sums n xs ≤ n
unfolding sums
sums_le zero xs once = omega arith
sums_le (suc n) xs once = omega (arith, once n, sums_le n xs once)

pub length_le : (n : ℕ) (xs : List ℕ) → AllBelow n xs → ((x : ℕ) → count x xs ≤ 1) → length xs ≤ n
length_le n xs b once = omega (arith, sums-length n xs b, sums_le n xs once)

awakened_twice : (p : Phase) → awakened (awakened p) ≡ awakened p
awakened_twice running = refl
awakened_twice (waiting c) = refl
awakened_twice (woken c) = refl

awakened_if :
    (b : Bool) (p : Phase) → (if b then awakened p else awakened (awakened p)) ≡ awakened p
awakened_if true p = refl
awakened_if false p = awakened_twice p

-- The threads of the list are awakened, however often they occur, and no others.
pub awaken_all_lem :
    (ts : List ℕ) (phase : ℕ → Phase) (t : ℕ)
    → awaken_all ts phase t ≡ (if count t ts == 0 then phase t else awakened (phase t))
awaken_all_lem [] phase t = refl
awaken_all_lem (x ∷ ts) phase t =
    awaken_all_lem ts (update phase x (awakened (phase x))) t ∙ elim (Bool-cases (t == x)) [
      | inl e ↦ rw e (
          ap (λ y. if count t ts == 0 then awakened (phase y) else awakened (awakened (phase y)))
            (sym ((==_iff t x).0 e))
          ∙ awakened_if (count t ts == 0) (phase t)
          ∙ sym (ap (λ b. if b then phase t else awakened (phase t)) (some_x e)))
      | inr e ↦ rw e (ap (λ b. if b then phase t else awakened (phase t)) (same e))
    ]
  where
    some_x : (t == x) ≡ true → (count t (x ∷ ts) == 0) ≡ false
    some_x e = ground arith

    same : (t == x) ≡ false → (count t ts == 0) ≡ (count t (x ∷ ts) == 0)
    same e = ground arith
