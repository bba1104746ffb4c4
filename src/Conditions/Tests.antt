-- ===== src/Conditions/Tests.antt =====
-- A condition of a few milliseconds with two callbacks, of which one registers again.
use reconverse.Prelude.{
  ◌≡◌, refl, true, false, List, [], ◌∷◌, ◌++◌, map, ◌==◌, if◌then◌else◌, arith,
}
use reconverse.Conditions.{
  Callback, Cblist, Conds, Request, append_elem, remove_elem, call_cblist_remove, raise_condition,
}
use reconverse.Conditions.Handles.{IsFree, IsValid, cancel_registered}
use reconverse.Conditions.Asked.{what, asked_by}
use reconverse.Conditions.Growth.{AllFrom}
use reconverse.Conditions.Raise.{raise_condition_lem}

abbrev first : Callback
first = record { fn = 7; arg = 0; id = 1 }

abbrev second : Callback
second = record { fn = 8; arg = 0; id = 2 }

abbrev two : Cblist
two = record { elems = first ∷ second ∷ []; flag = false; next_id = 3 }

abbrev none_yet : Cblist
none_yet = record { elems = []; flag = false; next_id = 1 }

abbrev both : Conds
both = record { condcb = λ c. two; condcb_keep = λ c. none_yet; timed = 26; called = [] }

-- The function 7 registers itself again, once and to be kept.
abbrev again : Callback → List Request
again cb = if cb.fn == 7 then (false, 5, 7, 1) ∷ (true, 5, 7, 2) ∷ [] else []

two-IsValid : IsValid two
two-IsValid = (omega arith, ((λ e. absurd (omega arith)), tt), (omega arith, tt, tt))

cancel_registered_example :
    let a = append_elem two 26 5 9 4 in
    let r = remove_elem a.0 a.1 5 a.2 in
    IsValid a.0 × IsFree a.2 two.elems × (r.0.elems ≡ two.elems) × (r.1 ≡ 26)
cancel_registered_example = cancel_registered two 26 5 9 4 two-IsValid

raise_condition_lem_example :
    let t = call_cblist_remove again both 5 in
    let u = raise_condition again both 5 in
    (t.called ≡ second ∷ first ∷ [])
    × (u.called ≡ t.called ++ (t.condcb_keep 5).elems)
    × AllFrom 3 (t.condcb 5).elems
    × (map what (u.condcb 5).elems
        ≡ asked_by again false 5 (second ∷ first ∷ (t.condcb_keep 5).elems))
    × ((new : List Callback) × ((u.condcb_keep 5).elems ≡ [] ++ new)
        × (map what new ≡ asked_by again true 5 (second ∷ first ∷ (t.condcb_keep 5).elems)))
raise_condition_lem_example = raise_condition_lem again both 5 refl
