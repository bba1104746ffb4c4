-- ===== src/ListSend/Sorted.antt =====
-- The grouping of destinations by process in CmiSyncListSend of src/collectives.cpp: the sort and the
-- scan keep every destination.
use reconverse.Prelude.{
  ℕ, zero, suc, ◌≤◌, ◌≡◌, refl, ◌∙◌, ap, List, [], ◌∷◌, ◌++◌, map, length, leb, ◌==◌, if_cases,
  arith,
}
use reconverse.Prelude.Count.{count}
use reconverse.ListSend.{insert_by, stable_sort, indices, at, scan}

count-insert_by :
    (x : ℕ) (f key : ℕ → ℕ) (a : ℕ) (l : List ℕ)
    → count x (map f (insert_by key a l)) ≡ count x (map f (a ∷ l))
unfolding insert_by
count-insert_by x f key a [] = refl
count-insert_by x f key a (b ∷ l) =
    if_cases (λ r. count x (map f r) ≡ count x (map f (a ∷ b ∷ l))) (leb (key a) (key b))
      (a ∷ b ∷ l) (b ∷ insert_by key a l) (λ p. refl)
      (λ p. rw (count-insert_by x f key a l) (omega arith))

pub count-stable_sort :
    (x : ℕ) (f key : ℕ → ℕ) (l : List ℕ) → count x (map f (stable_sort key l)) ≡ count x (map f l)
unfolding stable_sort
count-stable_sort x f key [] = refl
count-stable_sort x f key (a ∷ l) =
    rw (count-insert_by x f key a (stable_sort key l), count-stable_sort x f key l) refl

length-insert_by : (key : ℕ → ℕ) (a : ℕ) (l : List ℕ) → length (insert_by key a l) ≡ suc (length l)
unfolding insert_by
length-insert_by key a [] = refl
length-insert_by key a (b ∷ l) =
    if_cases (λ r. length r ≡ suc (suc (length l))) (leb (key a) (key b)) (a ∷ b ∷ l)
      (b ∷ insert_by key a l) (λ p. refl) (λ p. ap suc (length-insert_by key a l))

pub length-stable_sort : (key : ℕ → ℕ) (l : List ℕ) → length (stable_sort key l) ≡ length l
unfolding stable_sort
length-stable_sort key [] = refl
length-stable_sort key (a ∷ l) =
    rw (length-insert_by key a (stable_sort key l)) (ap suc (length-stable_sort key l))

pub length-indices : (i n : ℕ) → length (indices i n) ≡ n
length-indices i zero = refl
length-indices i (suc n) = ap suc (length-indices (suc i) n)

at-suc :
    (p : ℕ) (pes : List ℕ) (i n : ℕ)
    → map (at (p ∷ pes)) (indices (suc i) n) ≡ map (at pes) (indices i n)
at-suc p pes i zero = refl
at-suc p pes i (suc n) = ap (λ r. at pes i ∷ r) (at-suc p pes (suc i) n)

pub at-indices : (pes : List ℕ) → map (at pes) (indices 0 (length pes)) ≡ pes
at-indices [] = refl
at-indices (p ∷ pes) = ap (λ r. p ∷ r) (at-suc p pes 0 (length pes) ∙ at-indices pes)

abbrev pub AllKey : (ℕ → ℕ) → ℕ → List ℕ → Type 0
AllKey key node [] = Unit {0}
AllKey key node (o ∷ os) = (key o ≡ node) × AllKey key node os

-- What the scan skips has the key, and the rest is what remains.
pub scan_lem :
    (key : ℕ → ℕ) (node : ℕ) (order : List ℕ)
    → let r = scan key node order in
      (r.0 ++ r.1 ≡ order)
      × AllKey key node r.0
      × (length r.1 ≤ length order)
      × (length r.0 ≤ length order)
unfolding scan
scan_lem key node [] = (refl, tt, omega arith, omega arith)
scan_lem key node (o ∷ order) =
    let ih = scan_lem key node order in
    let r = scan key node order in
    if_cases
      (λ (s : List ℕ × List ℕ).
        (s.0 ++ s.1 ≡ o ∷ order)
        × AllKey key node s.0
        × (length s.1 ≤ suc (length order))
        × (length s.0 ≤ suc (length order)))
      (key o == node) (o ∷ r.0, r.1) ([], o ∷ order)
      (λ p. (ap (λ l. o ∷ l) ih.0, (ground arith, ih.1), omega arith, omega arith))
      (λ p. (refl, tt, omega arith, omega arith))

pub AllKey-map :
    (key f : ℕ → ℕ) (node : ℕ) (os : List ℕ)
    → AllKey (λ o. key (f o)) node os
    → AllKey key node (map f os)
AllKey-map key f node [] a = tt
AllKey-map key f node (o ∷ os) a = (a.0, AllKey-map key f node os a.1)

pub length-map : (f : ℕ → ℕ) (os : List ℕ) → length (map f os) ≡ length os
length-map f [] = refl
length-map f (o ∷ os) = ap suc (length-map f os)
