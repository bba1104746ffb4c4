-- ===== src/Conditions/Growth.antt =====
-- The lists of callbacks of src/conv-conds.cpp grow at their ends while callbacks are called.
use reconverse.Prelude.{
  ℕ, ◌+◌, ◌≤◌, ◌≡◌, refl, ◌∙◌, sym, ap, subst, Bool, true, false, ◌||◌, List, [], ◌∷◌, ◌++◌,
  append_assoc, append-nil, length, drop, ltb, ◌==◌, if_cases, arith,
}
use reconverse.Conditions.{
  Callback, Cblist, Conds, Request, append_elem, register, at_cond, call_on_condition,
  call_on_condition_keep,
}
use reconverse.Conditions.Handles.{IsValid, Distinct-append}

-- All handles are at least `n`.
abbrev pub AllFrom : ℕ → List Callback → Type 0
AllFrom n [] = Unit {0}
AllFrom n (e ∷ es) = (n ≤ e.id) × AllFrom n es

pub AllFrom-append :
    (m n : ℕ) (xs ys : List Callback) → m ≤ n → AllFrom m xs → AllFrom n ys → AllFrom m (xs ++ ys)
AllFrom-append m n [] [] le a b = tt
AllFrom-append m n [] (y ∷ ys) le a b = (omega arith, AllFrom-append m n [] ys le a b.1)
AllFrom-append m n (x ∷ xs) ys le a b = (a.0, AllFrom-append m n xs ys le a.1 b)

-- A list that has grown at its end, by callbacks with new handles.
abbrev pub Grows : Cblist → Cblist → Type 0
Grows l k =
    ((new : List Callback) × (k.elems ≡ l.elems ++ new) × AllFrom l.next_id new)
    × (k.flag ≡ l.flag)
    × (IsValid l → IsValid k)
    × (l.next_id ≤ k.next_id)

pub Grows-refl : (l : Cblist) → Grows l l
Grows-refl l = (([], sym (append-nil l.elems), tt), refl, (λ v. v), omega arith)

pub Grows-trans : (j k l : Cblist) → Grows j k → Grows k l → Grows j l
Grows-trans j k l g h = (
  (
    g.0.0 ++ h.0.0,
    h.0.1 ∙ ap (λ es. es ++ h.0.0) g.0.1 ∙ append_assoc j.elems g.0.0 h.0.0,
    AllFrom-append j.next_id k.next_id g.0.0 h.0.0 g.3 g.0.2 h.0.2,
  ),
  h.1 ∙ g.1,
  (λ v. h.2 (g.2 v)),
  omega (arith, g.3, h.3),
)

pub append_elem-Grows :
    (l : Cblist) (timed condnum fn arg : ℕ) → Grows l (append_elem l timed condnum fn arg).0
unfolding append_elem
append_elem-Grows l timed condnum fn arg = (
  (record { fn = fn; arg = arg; id = l.next_id } ∷ [], refl, (omega arith, tt)),
  refl,
  (λ v. Distinct-append l.next_id (record { fn = fn; arg = arg; id = l.next_id }) l.elems refl v),
  omega arith,
)

-- All lists have grown so.
abbrev pub AllGrow : Conds → Conds → Type 0
AllGrow s t =
    ((c : ℕ) → Grows (s.condcb c) (t.condcb c))
    × ((c : ℕ) → Grows (s.condcb_keep c) (t.condcb_keep c))

pub at_cond-Grows :
    (lists : ℕ → Cblist) (condnum : ℕ) (l : Cblist) (c : ℕ)
    → Grows (lists condnum) l
    → Grows (lists c) (at_cond lists condnum l c)
at_cond-Grows lists condnum l c g =
    if_cases (Grows (lists c)) (c == condnum) l (lists c)
      (λ p. subst (λ k. Grows (lists k) l) (same (ground arith)) g) (λ p. Grows-refl (lists c))
  where
    same : c ≡ condnum → condnum ≡ c
    same e = sym e

pub register-AllGrow : (rs : List Request) (s : Conds) → AllGrow s (register rs s)
unfolding register call_on_condition call_on_condition_keep
register-AllGrow [] s = ((λ c. Grows-refl (s.condcb c)), λ c. Grows-refl (s.condcb_keep c))
register-AllGrow ((true, condnum, fn, arg) ∷ rs) s =
    let u = (call_on_condition_keep s condnum fn arg).0 in
    let ih = register-AllGrow rs u in
    (
      ih.0,
      λ c.
          Grows-trans (s.condcb_keep c) (u.condcb_keep c) ((register rs u).condcb_keep c)
            (at_cond-Grows s.condcb_keep condnum
              (append_elem (s.condcb_keep condnum) s.timed condnum fn arg).0 c
              (append_elem-Grows (s.condcb_keep condnum) s.timed condnum fn arg))
            (ih.1 c),
    )
register-AllGrow ((false, condnum, fn, arg) ∷ rs) s =
    let u = (call_on_condition s condnum fn arg).0 in
    let ih = register-AllGrow rs u in
    (
      λ c.
          Grows-trans (s.condcb c) (u.condcb c) ((register rs u).condcb c)
            (at_cond-Grows s.condcb condnum
              (append_elem (s.condcb condnum) s.timed condnum fn arg).0 c
              (append_elem-Grows (s.condcb condnum) s.timed condnum fn arg))
            (ih.0 c),
      ih.1,
    )

pub register-called : (rs : List Request) (s : Conds) → (register rs s).called ≡ s.called
unfolding register call_on_condition call_on_condition_keep
register-called [] s = refl
register-called ((true, condnum, fn, arg) ∷ rs) s =
    register-called rs (call_on_condition_keep s condnum fn arg).0
register-called ((false, condnum, fn, arg) ∷ rs) s =
    register-called rs (call_on_condition s condnum fn arg).0

pub drop-length {ℓ} : {A : Type ℓ} (xs ys : List A) → drop (length xs) (xs ++ ys) ≡ ys
drop-length [] ys = refl
drop-length (x ∷ xs) ys = drop-length xs ys

pub length-append : (xs ys : List Callback) → length (xs ++ ys) ≡ length xs + length ys
length-append [] ys = omega arith
length-append (x ∷ xs) ys = omega (arith, length-append xs ys)

-- What is dropped after the calls is all that was there before them.
pub grown_at_zero :
    (P : List Callback → Type 0) (es ks new : List Callback)
    → ks ≡ es ++ new
    → P new
    → ((length es == 0) || ltb (length ks) (length es)) ≡ true
    → P ks
grown_at_zero P [] ks new e a p = subst P (sym e) a
grown_at_zero P (x ∷ es) ks new e a p = absurd (ground (arith, length-append es new, ap length e))

pub is_empty_list : (es : List Callback) → (length es == 0) ≡ true → es ≡ []
is_empty_list [] p = refl
is_empty_list (x ∷ es) p = absurd (ground arith)

pub or-false : (a b : Bool) → (a || b) ≡ true → b ≡ false → a ≡ true
or-false true b p q = refl
or-false false b p q = absurd (cc)

pub at_cond-same :
    (lists : ℕ → Cblist) (condnum : ℕ) (l : Cblist) → at_cond lists condnum l condnum ≡ l
at_cond-same lists condnum l = ground arith
