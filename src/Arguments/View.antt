-- ===== src/Arguments/View.antt =====
-- The arguments in argv of src/convcore.cpp, and what CmiDeleteArgs makes of them.
use reconverse.Prelude.{
  ℕ, zero, suc, ◌≤◌, ◌<◌, ◌≡◌, refl, sym, ap, ◌∙◌, Option, none, some, List, [], ◌∷◌, length,
  get_or, get_elem?, drop, arith,
}
use reconverse.Arguments.{Str, Cells, delete_args}

-- The arguments up to the null pointer.
abbrev pub args : Cells → List Str
args [] = []
args (none ∷ cells) = []
args (some a ∷ cells) = a ∷ args cells

get_or-args :
    (cells : Cells) (k : ℕ)
    → k ≤ length (args cells)
    → get_or cells k none ≡ get_elem? (args cells) k
get_or-args [] k h = refl
get_or-args (none ∷ cells) zero h = refl
get_or-args (none ∷ cells) (suc k) h = elim h [ ]
get_or-args (some a ∷ cells) zero h = refl
get_or-args (some a ∷ cells) (suc k) h = get_or-args cells k (omega arith)

drop-none : (xs : List Str) (k : ℕ) → get_elem? xs k ≡ none → drop k xs ≡ []
drop-none [] zero e = refl
drop-none [] (suc k) e = refl
drop-none (x ∷ xs) zero e = absurd (cc)
drop-none (x ∷ xs) (suc k) e = drop-none xs k e

drop-some :
    (xs : List Str) (k : ℕ) (b : Str)
    → get_elem? xs k ≡ some b
    → (drop k xs ≡ b ∷ drop (suc k) xs) × (k < length xs)
drop-some [] k b e = absurd (cc)
drop-some (x ∷ xs) zero b e = (cc, omega arith)
drop-some (x ∷ xs) (suc k) b e = let r = drop-some xs k b e in (r.0, omega (arith, r.1))

-- CmiDeleteArgs takes exactly the first k arguments away, where there are as many: the others move
-- up in their order, and the null pointer behind them.
pub delete_args-args :
    (k : ℕ) (cells : Cells)
    → k ≤ length (args cells)
    → args (delete_args k cells) ≡ drop k (args cells)
unfolding delete_args
delete_args-args zero [] h = refl
delete_args-args (suc k) [] h = refl
delete_args-args zero (none ∷ cells) h = refl
delete_args-args (suc k) (none ∷ cells) h = elim h [ ]
delete_args-args zero (some a ∷ cells) h =
    ap (λ xs. a ∷ xs) (delete_args-args zero cells (omega arith))
delete_args-args (suc k) (some a ∷ cells) h =
    moved (get_or cells k none) (get_or-args cells k (omega arith)) (delete_args-args (suc k) cells)
  where
    moved :
        (x : Option Str)
        → x ≡ get_elem? (args cells) k
        → (suc k ≤ length (args cells)
            → args (delete_args (suc k) cells) ≡ drop (suc k) (args cells))
        → args (elim x [ none ↦ none ∷ cells | some b ↦ some b ∷ delete_args (suc k) cells ])
          ≡ drop k (args cells)
    moved none e further = sym (drop-none (args cells) k (sym e))
    moved (some b) e further =
        let r = drop-some (args cells) k b (sym e) in
        ap (λ xs. b ∷ xs) (further (omega (arith, r.1))) ∙ sym r.0
