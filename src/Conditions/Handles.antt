-- ===== src/Conditions/Handles.antt =====
-- The handles of the callbacks of src/conv-conds.cpp: they are never given twice in a list, and
-- cancelling by a handle removes that callback alone.
use reconverse.Prelude.{
  ℕ, ◌+◌, ◌-◌, ◌<◌, ◌≡◌, ◌≢◌, refl, ◌∙◌, sym, ap, subst, Bool, true, false, ◌&&◌, List, [], ◌∷◌,
  ◌++◌, ◌==◌, if◌then◌else◌, if_cases, arith,
}
use reconverse.Conditions.{Callback, Cblist, is_timed, erase_id, remove_elem, append_elem}

-- No callback of the list has the handle.
abbrev pub IsFree : ℕ → List Callback → Type 0
IsFree id [] = Unit {0}
IsFree id (e ∷ es) = (e.id ≢ id) × IsFree id es

-- Handles are different, and below the next one.
abbrev pub Distinct : ℕ → List Callback → Type 0
Distinct n [] = Unit {0}
Distinct n (e ∷ es) = (e.id < n) × IsFree e.id es × Distinct n es

abbrev pub IsValid : Cblist → Type 0
IsValid l = Distinct l.next_id l.elems

-- The callbacks of the list but those with the handle.
abbrev pub without : ℕ → List Callback → List Callback
without id [] = []
without id (e ∷ es) = if e.id == id then without id es else e ∷ without id es

abbrev pub is_listed : ℕ → List Callback → Bool
is_listed id [] = false
is_listed id (e ∷ es) = if e.id == id then true else is_listed id es

without-IsFree : (id : ℕ) (es : List Callback) → IsFree id es → without id es ≡ es
without-IsFree id [] f = refl
without-IsFree id (e ∷ es) f =
    if_cases (λ r. r ≡ e ∷ es) (e.id == id) (without id es) (e ∷ without id es)
      (λ p. absurd (f.0 (ground arith))) (λ p. ap (λ r. e ∷ r) (without-IsFree id es f.1))

erase_id_lem :
    (n id : ℕ) (es : List Callback)
    → Distinct n es
    → erase_id id es ≡ (without id es, is_listed id es)
unfolding erase_id
erase_id_lem n id [] d = refl
erase_id_lem n id (e ∷ es) d =
    rw (erase_id_lem n id es d.2) (pick (e.id == id) (λ p. free (ground arith) d.1))
  where
    free : e.id ≡ id → IsFree e.id es → without id es ≡ es
    free q f = subst (λ k. without k es ≡ es) q (without-IsFree e.id es f)

    pick :
        (c : Bool)
        → (c ≡ true → without id es ≡ es)
        → ◌≡◌ {A = List Callback × Bool}
            (if c then (es, true) else (e ∷ without id es, is_listed id es))
            (if c then without id es else e ∷ without id es, if c then true else is_listed id es)
    pick true w = ap (λ r. (r, true)) (sym (w refl))
    pick false w = refl

IsFree-without : (k id : ℕ) (es : List Callback) → IsFree k es → IsFree k (without id es)
IsFree-without k id [] f = tt
IsFree-without k id (e ∷ es) f =
    if_cases (IsFree k) (e.id == id) (without id es) (e ∷ without id es)
      (λ p. IsFree-without k id es f.1) (λ p. (f.0, IsFree-without k id es f.1))

Distinct-without : (n id : ℕ) (es : List Callback) → Distinct n es → Distinct n (without id es)
Distinct-without n id [] d = tt
Distinct-without n id (e ∷ es) d =
    if_cases (Distinct n) (e.id == id) (without id es) (e ∷ without id es)
      (λ p. Distinct-without n id es d.2)
      (λ p. (d.0, IsFree-without e.id id es d.1, Distinct-without n id es d.2))

without-gone : (id : ℕ) (es : List Callback) → IsFree id (without id es)
without-gone id [] = tt
without-gone id (e ∷ es) =
    if_cases (IsFree id) (e.id == id) (without id es) (e ∷ without id es) (λ p. without-gone id es)
      (λ p. ((λ q. absurd (ground arith)), without-gone id es))

IsFree-append :
    (id : ℕ) (e : Callback) (es : List Callback)
    → e.id ≢ id
    → IsFree id es
    → IsFree id (es ++ e ∷ [])
IsFree-append id e [] n f = (n, tt)
IsFree-append id e (x ∷ es) n f = (f.0, IsFree-append id e es n f.1)

pub Distinct-append :
    (n : ℕ) (e : Callback) (es : List Callback)
    → e.id ≡ n
    → Distinct n es
    → Distinct (n + 1) (es ++ e ∷ [])
Distinct-append n e [] i d = (omega arith, tt, tt)
Distinct-append n e (x ∷ es) i d = (
  omega arith,
  IsFree-append x.id e es (λ q. absurd (omega arith)) d.1,
  Distinct-append n e es i d.2,
)

Distinct-IsFree : (n : ℕ) (es : List Callback) → Distinct n es → IsFree n es
Distinct-IsFree n [] d = tt
Distinct-IsFree n (e ∷ es) d = ((λ q. absurd (omega arith)), Distinct-IsFree n es d.2)

without-last :
    (e : Callback) (es : List Callback) → IsFree e.id es → without e.id (es ++ e ∷ []) ≡ es
without-last e [] f = ground arith
without-last e (x ∷ es) f =
    if_cases (λ r. r ≡ x ∷ es) (x.id == e.id) (without e.id (es ++ e ∷ []))
      (x ∷ without e.id (es ++ e ∷ [])) (λ p. absurd (f.0 (ground arith)))
      (λ p. ap (λ r. x ∷ r) (without-last e es f.1))

-- Cancelling by a handle removes the callback that has it and no other, keeps their order, and takes
-- it off the count exactly when the condition is timed and the callback was still listed; the list
-- stays valid, and a second cancel finds nothing.
pub remove_elem_lem :
    (l : Cblist) (timed condnum id : ℕ)
    → IsValid l
    → let r = remove_elem l timed condnum id in
      (r.0.elems ≡ without id l.elems)
      × IsFree id r.0.elems
      × IsValid r.0
      × (r.1 ≡ (if is_listed id l.elems && is_timed condnum then timed - 1 else timed))
unfolding remove_elem
remove_elem_lem l timed condnum id v =
    rw (erase_id_lem l.next_id id l.elems v)
      (refl, without-gone id l.elems, Distinct-without l.next_id id l.elems v, refl)

is_listed-last : (e : Callback) (es : List Callback) → is_listed e.id (es ++ e ∷ []) ≡ true
is_listed-last e [] = ground arith
is_listed-last e (x ∷ es) = ground (arith, is_listed-last e es)

-- A registration keeps the list valid, and its handle is one that no callback of the list has.
-- Cancelling by that handle undoes it: the callbacks and the count are as before.
pub cancel_registered :
    (l : Cblist) (timed condnum fn arg : ℕ)
    → IsValid l
    → let a = append_elem l timed condnum fn arg in
      let r = remove_elem a.0 a.1 condnum a.2 in
      IsValid a.0 × IsFree a.2 l.elems × (r.0.elems ≡ l.elems) × (r.1 ≡ timed)
unfolding append_elem
cancel_registered l timed condnum fn arg v =
    let e = new_one in
    let a = append_elem l timed condnum fn arg in
    let d = Distinct-append l.next_id e l.elems refl v in
    let c = remove_elem_lem a.0 a.1 condnum a.2 d in
    (
      d,
      Distinct-IsFree l.next_id l.elems v,
      c.0 ∙ without-last e l.elems (Distinct-IsFree l.next_id l.elems v),
      c.3 ∙ rw (is_listed-last e l.elems) (undone (is_timed condnum)),
    )
  where
    new_one : Callback
    new_one = record { fn = fn; arg = arg; id = l.next_id }

    undone :
        (c : Bool)
        → (if c then (if c then timed + 1 else timed) - 1 else (if c then timed + 1 else timed))
          ≡ timed
    undone true = omega arith
    undone false = refl
