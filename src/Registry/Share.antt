-- ===== src/Registry/Share.antt =====
-- The shares of the handlers in the slot table of src/scheduler_registry.cpp: each has at least one
-- slot, and all together they fit the table.
use reconverse.Prelude.{
  ℕ, zero, suc, ◌+◌, ◌-◌, ◌<◌, ◌≤◌, ◌≡◌, refl, ap, subst, ◌∙◌, List, [], ◌∷◌, length, ltb, leb,
  ◌==◌, if◌then◌else◌, if_cases, arith,
}
use reconverse.Registry.{
  sched_table_size, sum, largest, decrement_first, trim, normalized, normalize,
}

abbrev pub AllPositive : List ℕ → Type 0
AllPositive [] = Unit {0}
AllPositive (x ∷ xs) = (0 < x) × AllPositive xs

normalized-pos : (total w : ℕ) → 0 < normalized total w
unfolding normalized
normalized-pos total w = ground arith

pub normalize-AllPositive {ℓ} :
    {A : Type ℓ} (total : ℕ) (hs : List (A × ℕ)) → AllPositive (normalize total hs)
unfolding normalize
normalize-AllPositive total [] = tt
normalize-AllPositive total ((fn, w) ∷ hs) =
    (normalized-pos total w, normalize-AllPositive total hs)

pub length-normalize {ℓ} :
    {A : Type ℓ} (total : ℕ) (hs : List (A × ℕ)) → length (normalize total hs) ≡ length hs
unfolding normalize
length-normalize total [] = refl
length-normalize total ((fn, w) ∷ hs) = ap suc (length-normalize total hs)

sum-le-length : (xs : List ℕ) → largest xs ≤ 1 → sum xs ≤ length xs
sum-le-length [] h = omega arith
sum-le-length (x ∷ xs) h = ground (arith, sum-le-length xs)

-- What a decrement of a largest element does to the shares.
abbrev Shorter : List ℕ → List ℕ → Type 0
Shorter xs ys = AllPositive ys × (length ys ≡ length xs) × (sum ys + 1 ≡ sum xs)

decrement_first-Shorter :
    (m : ℕ) (xs : List ℕ)
    → m ≡ largest xs
    → 1 < m
    → AllPositive xs
    → Shorter xs (decrement_first m xs)
unfolding decrement_first
decrement_first-Shorter m [] e big pos = absurd (omega arith)
decrement_first-Shorter m (x ∷ xs) e big pos =
    if_cases (Shorter (x ∷ xs)) (x == m) ((x - 1) ∷ xs) (x ∷ decrement_first m xs)
      (λ p. ground arith)
      (λ p.
        let ih = decrement_first-Shorter m xs (ground arith) big pos.1 in
        ((pos.0, ih.0), ap suc ih.1, omega arith))

abbrev pub Trimmed : List ℕ → List ℕ → Type 0
Trimmed slots out = AllPositive out × (length out ≡ length slots) × (sum out ≤ sched_table_size)

-- With no more handlers than slots, the trimmed shares fit.
pub trim_lem :
    (fuel : ℕ) (slots : List ℕ)
    → sum slots ≤ fuel
    → AllPositive slots
    → length slots ≤ sched_table_size
    → Trimmed slots (trim fuel (sum slots) slots)
unfolding trim
trim_lem zero slots enough pos short = (pos, refl, omega arith)
trim_lem (suc fuel) slots enough pos short =
    if_cases (Trimmed slots) (ltb sched_table_size (sum slots))
      (if leb m 1 then slots else trim fuel (sum slots - 1) (decrement_first m slots)) slots
      (λ p.
        if_cases (Trimmed slots) (leb m 1) slots
          (trim fuel (sum slots - 1) (decrement_first m slots))
          (λ q. (pos, refl, omega (arith, sum-le-length slots (ground arith))))
          (λ q.
            let d = decrement_first-Shorter m slots refl (ground arith) pos in
            let ih = trim_lem fuel (decrement_first m slots) (omega arith) d.0 (omega arith) in
            subst (λ n. Trimmed slots (trim fuel n (decrement_first m slots))) (one_less d.2)
              (ih.0, ih.1 ∙ d.1, ih.2)))
      (λ p. (pos, refl, ground arith))
  where
    m : ℕ
    m = largest slots

    one_less :
        sum (decrement_first m slots) + 1 ≡ sum slots
        → sum (decrement_first m slots) ≡ sum slots - 1
    one_less e = omega arith
