-- ===== src/Conditions/Raise.antt =====
-- Raising a condition, src/conv-conds.cpp: which callbacks are called, and what is registered
-- afterwards.
use reconverse.Prelude.{
  ℕ, ◌-◌, ◌≡◌, ◌∙◌, sym, ap, subst, true, false, ◌||◌, List, [], ◌∷◌, ◌++◌, append_assoc,
  append-nil, length, drop, ltb, map, refl, ◌==◌, if◌then◌else◌, if_cases,
}
use reconverse.Conditions.{
  Callback, Cblist, Conds, is_timed, Request, remove_n_elems, register, reversed, at_cond,
  call_each, call_cblist_keep, call_cblist_remove, raise_condition,
}
use reconverse.Conditions.Asked.{
  what, list_of, asked_by, asked_by-append, call_each-asked, added-what,
}
use reconverse.Conditions.Growth.{
  AllFrom, Grows, Grows-refl, Grows-trans, AllGrow, register-AllGrow, register-called, drop-length,
  grown_at_zero, is_empty_list, or-false, at_cond-same,
}

module _ (requests : Callback → List Request) where
  call_each-AllGrow : (cbs : List Callback) (s : Conds) → AllGrow s (call_each requests cbs s)
  unfolding call_each
  call_each-AllGrow [] s = ((λ c. Grows-refl (s.condcb c)), λ c. Grows-refl (s.condcb_keep c))
  call_each-AllGrow (cb ∷ cbs) s =
      let noted = record s { called = s.called ++ cb ∷ [] } in
      let u = register (requests cb) noted in
      let g = register-AllGrow (requests cb) noted in
      let ih = call_each-AllGrow cbs u in
      let t = call_each requests cbs u in
      (
        (λ c. Grows-trans (s.condcb c) (u.condcb c) (t.condcb c) (g.0 c) (ih.0 c)),
        λ c. Grows-trans (s.condcb_keep c) (u.condcb_keep c) (t.condcb_keep c) (g.1 c) (ih.1 c),
      )

  call_each-called :
      (cbs : List Callback) (s : Conds) → (call_each requests cbs s).called ≡ s.called ++ cbs
  unfolding call_each
  call_each-called [] s = sym (append-nil s.called)
  call_each-called (cb ∷ cbs) s =
      let noted = record s { called = s.called ++ cb ∷ [] } in
      call_each-called cbs (register (requests cb) noted)
      ∙ ap (λ l. l ++ cbs) (register-called (requests cb) noted)
      ∙ append_assoc s.called (cb ∷ []) cbs

  -- The list of the condition once its callbacks have been called and are to be removed.
  remove_grown :
      (P : List Callback → Type 0) (l k : Cblist) (timed condnum : ℕ) (new : List Callback)
      → k.elems ≡ l.elems ++ new
      → P new
      → P (remove_n_elems k timed condnum (length l.elems)).0.elems
  unfolding remove_n_elems
  remove_grown P l k timed condnum new g holds =
      if_cases (λ (r : Cblist × ℕ). P r.0.elems)
        ((length l.elems == 0) || ltb (length k.elems) (length l.elems)) (k, timed)
        (
          record k { elems = drop (length l.elems) k.elems },
          if is_timed condnum then timed - length l.elems else timed,
        )
        (λ p. grown_at_zero P l.elems k.elems new g holds p)
        (λ p.
          subst (λ es. P (drop (length l.elems) es)) (sym g)
            (subst P (sym (drop-length l.elems new)) holds))

  -- New callbacks, for what the called ones ask.
  abbrev New : Cblist → ℕ → List Callback → Type 0
  New l condnum es =
      AllFrom l.next_id es × (map what es ≡ asked_by requests false condnum (reversed l.elems))

  -- What one call of call_cblist_remove does, where the list is not being called already.
  abbrev Removed : Conds → ℕ → Conds → Type 0
  Removed s condnum t =
      (t.called ≡ s.called ++ reversed (s.condcb condnum).elems)
      × New (s.condcb condnum) condnum (t.condcb condnum).elems
      × Grows (s.condcb_keep condnum) (t.condcb_keep condnum)
      × (list_of true condnum t
          ≡ list_of true condnum s
            ++ asked_by requests true condnum (reversed (s.condcb condnum).elems))

  call_cblist_remove-Removed :
      (s : Conds) (condnum : ℕ)
      → (s.condcb condnum).flag ≡ false
      → Removed s condnum (call_cblist_remove requests s condnum)
  unfolding call_cblist_remove asked_by
  call_cblist_remove-Removed s condnum free =
      if_cases (Removed s condnum)
        ((length (s.condcb condnum).elems == 0) || (s.condcb condnum).flag) s
        (record ran {
          condcb = at_cond ran.condcb condnum (record removed.0 { flag = false });
          timed = removed.1;
        })
        (λ p. nothing (
          is_empty_list (s.condcb condnum).elems
            (or-false (length (s.condcb condnum).elems == 0) (s.condcb condnum).flag p free)))
        (λ p. (
          call_each-called (reversed (s.condcb condnum).elems) entered,
          subst (λ (l : Cblist). New (s.condcb condnum) condnum l.elems)
              (sym (at_cond-same ran.condcb condnum (record removed.0 { flag = false })))
              (remove_grown (New (s.condcb condnum) condnum) flagged (ran.condcb condnum) ran.timed
                condnum grown.0.0 grown.0.1 (grown.0.2, fresh)),
          (call_each-AllGrow (reversed (s.condcb condnum).elems) entered).1 condnum,
          call_each-asked requests true condnum (reversed (s.condcb condnum).elems) entered,
        ))
    where
      nothing : (s.condcb condnum).elems ≡ [] → Removed s condnum s
      nothing z = (
        subst (λ es. s.called ≡ s.called ++ reversed es) (sym z) (sym (append-nil s.called)),
        subst
            (λ es.
              AllFrom (s.condcb condnum).next_id es
              × (map what es ≡ asked_by requests false condnum (reversed es)))
            (sym z) (tt, refl),
        Grows-refl (s.condcb_keep condnum),
        subst
            (λ es.
              list_of true condnum s
              ≡ list_of true condnum s ++ asked_by requests true condnum (reversed es))
            (sym z) (sym (append-nil (list_of true condnum s))),
      )

      flagged : Cblist
      flagged = record (s.condcb condnum) { flag = true }

      entered : Conds
      entered = record s { condcb = at_cond s.condcb condnum flagged }

      ran : Conds
      ran = call_each requests (reversed (s.condcb condnum).elems) entered

      grown : Grows flagged (ran.condcb condnum)
      grown =
          subst (λ l. Grows l (ran.condcb condnum)) (at_cond-same s.condcb condnum flagged)
            ((call_each-AllGrow (reversed (s.condcb condnum).elems) entered).0 condnum)

      fresh :
          map what grown.0.0 ≡ asked_by requests false condnum (reversed (s.condcb condnum).elems)
      fresh =
          added-what (s.condcb condnum).elems grown.0.0
            (asked_by requests false condnum (reversed (s.condcb condnum).elems))
            (ap (map what) (sym grown.0.1)
              ∙ call_each-asked requests false condnum (reversed (s.condcb condnum).elems) entered
              ∙ ap
                  (λ (l : Cblist).
                    map what l.elems
                    ++ asked_by requests false condnum (reversed (s.condcb condnum).elems))
                  (at_cond-same s.condcb condnum flagged))

      removed : Cblist × ℕ
      removed =
          remove_n_elems (ran.condcb condnum) ran.timed condnum (length (s.condcb condnum).elems)

  -- A raise of a condition that is not being raised already calls each callback registered for the
  -- next raise, the latest first, and then those to be kept, also the ones that the first calls
  -- registered. Afterwards the callbacks for the next raise are exactly those that the called ones
  -- have registered for this condition, with their functions and arguments in the order of the
  -- calls, and those that the first calls registered have new handles. The callbacks to be kept
  -- stay, in their order, and behind them come exactly those that the called ones have registered to
  -- be kept.
  pub raise_condition_lem :
      (s : Conds) (condnum : ℕ)
      → (s.condcb condnum).flag ≡ false
      → let t = call_cblist_remove requests s condnum in
        let u = raise_condition requests s condnum in
        let calls = reversed (s.condcb condnum).elems ++ (t.condcb_keep condnum).elems in
        (t.called ≡ s.called ++ reversed (s.condcb condnum).elems)
        × (u.called ≡ t.called ++ (t.condcb_keep condnum).elems)
        × AllFrom (s.condcb condnum).next_id (t.condcb condnum).elems
        × (map what (u.condcb condnum).elems ≡ asked_by requests false condnum calls)
        × ((new : List Callback) × ((u.condcb_keep condnum).elems
              ≡ (s.condcb_keep condnum).elems ++ new)
            × (map what new ≡ asked_by requests true condnum calls))
  unfolding raise_condition call_cblist_keep
  raise_condition_lem s condnum free =
      let r = call_cblist_remove-Removed s condnum free in
      let t = call_cblist_remove requests s condnum in
      let first = reversed (s.condcb condnum).elems in
      let kept = (t.condcb_keep condnum).elems in
      let g = (call_each-AllGrow kept t).1 condnum in
      let u = raise_condition requests s condnum in
      let k =
        Grows-trans (s.condcb_keep condnum) (t.condcb_keep condnum) (u.condcb_keep condnum) r.2 g in
      (
        r.0,
        call_each-called kept t,
        r.1.0,
        call_each-asked requests false condnum kept t
            ∙ ap (λ l. l ++ asked_by requests false condnum kept) r.1.1
            ∙ sym (asked_by-append requests false condnum first kept),
        (
          k.0.0,
          k.0.1,
          added-what (s.condcb_keep condnum).elems k.0.0
              (asked_by requests true condnum (first ++ kept))
              (ap (map what) (sym k.0.1)
                ∙ call_each-asked requests true condnum kept t
                ∙ ap (λ l. l ++ asked_by requests true condnum kept) r.3
                ∙ append_assoc (list_of true condnum s) (asked_by requests true condnum first)
                    (asked_by requests true condnum kept)
                ∙ ap (λ l. list_of true condnum s ++ l)
                    (sym (asked_by-append requests true condnum first kept))),
        ),
      )
