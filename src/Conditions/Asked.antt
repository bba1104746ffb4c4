-- ===== src/Conditions/Asked.antt =====
-- What the callbacks of src/conv-conds.cpp register while they are called, read off their requests.
use reconverse.Prelude.{
  ℕ, ◌≡◌, refl, sym, ap, ◌∙◌, true, false, Bool, List, [], ◌∷◌, ◌++◌, map, map-append, append_assoc,
  append-nil, ◌==◌, if◌then◌else◌, length, drop, Bool-cases, inl, inr, ==_iff,
}
use reconverse.Conditions.{
  Callback, Cblist, Conds, Request, register, at_cond, call_on_condition, call_on_condition_keep,
  append_elem, call_each,
}
use reconverse.Conditions.Growth.{drop-length}

-- The function and the argument of a callback.
abbrev pub what : Callback → ℕ × ℕ
what cb = (cb.fn, cb.arg)

-- Of some requests, the functions and arguments for the condition, to be kept or not, in order.
unfoldable pub asked : Bool → ℕ → List Request → List (ℕ × ℕ)
asked keep condnum [] = []
asked true condnum ((true, c, fn, arg) ∷ rs) =
    (if condnum == c then (fn, arg) ∷ [] else []) ++ asked true condnum rs
asked true condnum ((false, c, fn, arg) ∷ rs) = asked true condnum rs
asked false condnum ((true, c, fn, arg) ∷ rs) = asked false condnum rs
asked false condnum ((false, c, fn, arg) ∷ rs) =
    (if condnum == c then (fn, arg) ∷ [] else []) ++ asked false condnum rs

abbrev pub list_of : Bool → ℕ → Conds → List (ℕ × ℕ)
list_of true c s = map what (s.condcb_keep c).elems
list_of false c s = map what (s.condcb c).elems

at_cond-what :
    (lists : ℕ → Cblist) (timed n fn arg c : ℕ)
    → map what (at_cond lists n (append_elem (lists n) timed n fn arg).0 c).elems
      ≡ map what (lists c).elems ++ (if c == n then (fn, arg) ∷ [] else [])
unfolding append_elem
at_cond-what lists timed n fn arg c = elim (Bool-cases (c == n)) [
  | inl e ↦ rw e (
      map-append what (lists n).elems (record { fn = fn; arg = arg; id = (lists n).next_id } ∷ [])
      ∙ ap (λ i. map what (lists i).elems ++ (fn, arg) ∷ []) (sym ((==_iff c n).0 e)))
  | inr e ↦ rw e (sym (append-nil (map what (lists c).elems)))
]

register-asked :
    (keep : Bool) (c : ℕ) (rs : List Request) (s : Conds)
    → list_of keep c (register rs s) ≡ list_of keep c s ++ asked keep c rs
unfolding register asked call_on_condition call_on_condition_keep
register-asked true c [] s = sym (append-nil (list_of true c s))
register-asked false c [] s = sym (append-nil (list_of false c s))
register-asked true c ((true, n, fn, arg) ∷ rs) s =
    register-asked true c rs (call_on_condition_keep s n fn arg).0
    ∙ ap (λ l. l ++ asked true c rs) (at_cond-what s.condcb_keep s.timed n fn arg c)
    ∙ append_assoc (list_of true c s) (if c == n then (fn, arg) ∷ [] else []) (asked true c rs)
register-asked true c ((false, n, fn, arg) ∷ rs) s =
    register-asked true c rs (call_on_condition s n fn arg).0
register-asked false c ((true, n, fn, arg) ∷ rs) s =
    register-asked false c rs (call_on_condition_keep s n fn arg).0
register-asked false c ((false, n, fn, arg) ∷ rs) s =
    register-asked false c rs (call_on_condition s n fn arg).0
    ∙ ap (λ l. l ++ asked false c rs) (at_cond-what s.condcb s.timed n fn arg c)
    ∙ append_assoc (list_of false c s) (if c == n then (fn, arg) ∷ [] else []) (asked false c rs)

module _ (requests : Callback → List Request) where
  -- What a row of callbacks asks for.
  unfoldable pub asked_by : Bool → ℕ → List Callback → List (ℕ × ℕ)
  unfolding asked
  asked_by keep condnum [] = []
  asked_by keep condnum (cb ∷ cbs) = asked keep condnum (requests cb) ++ asked_by keep condnum cbs

  pub call_each-asked :
      (keep : Bool) (c : ℕ) (cbs : List Callback) (s : Conds)
      → list_of keep c (call_each requests cbs s) ≡ list_of keep c s ++ asked_by keep c cbs
  unfolding call_each asked_by
  call_each-asked true c [] s = sym (append-nil (list_of true c s))
  call_each-asked false c [] s = sym (append-nil (list_of false c s))
  call_each-asked true c (cb ∷ cbs) s =
      let noted = record s { called = s.called ++ cb ∷ [] } in
      call_each-asked true c cbs (register (requests cb) noted)
      ∙ ap (λ l. l ++ asked_by true c cbs) (register-asked true c (requests cb) noted)
      ∙ append_assoc (list_of true c s) (asked true c (requests cb)) (asked_by true c cbs)
  call_each-asked false c (cb ∷ cbs) s =
      let noted = record s { called = s.called ++ cb ∷ [] } in
      call_each-asked false c cbs (register (requests cb) noted)
      ∙ ap (λ l. l ++ asked_by false c cbs) (register-asked false c (requests cb) noted)
      ∙ append_assoc (list_of false c s) (asked false c (requests cb)) (asked_by false c cbs)

  pub asked_by-append :
      (keep : Bool) (c : ℕ) (xs ys : List Callback)
      → asked_by keep c (xs ++ ys) ≡ asked_by keep c xs ++ asked_by keep c ys
  unfolding asked_by
  asked_by-append keep c [] ys = refl
  asked_by-append keep c (x ∷ xs) ys =
      ap (λ l. asked keep c (requests x) ++ l) (asked_by-append keep c xs ys)
      ∙ sym (append_assoc (asked keep c (requests x)) (asked_by keep c xs) (asked_by keep c ys))

-- What a list that has grown has new.
pub added-what :
    (old new : List Callback) (asked : List (ℕ × ℕ))
    → map what (old ++ new) ≡ map what old ++ asked
    → map what new ≡ asked
added-what old new asked e =
    sym (drop-length (map what old) (map what new))
    ∙ ap (drop (length (map what old))) (sym (map-append what old new) ∙ e)
    ∙ drop-length (map what old) asked
