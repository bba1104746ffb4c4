-- ===== src/Conditions.antt =====
-- Callbacks on conditions, src/conv-conds.cpp: the two lists of each condition, with their handles,
-- the count of timed callbacks, and the raising of a condition. A callback that is called may
-- register further callbacks; it cancels none, as the source demands.
mod Asked
mod Growth
mod Handles
mod Raise
mod Tests
mod Timers
use reconverse.Prelude.{
  ℕ, zero, suc, ◌+◌, ◌-◌, Bool, true, false, ◌&&◌, ◌||◌, List, [], ◌∷◌, ◌++◌, length, drop, ltb,
  leb, ◌==◌, if◌then◌else◌,
}

-- ccd_cond_callback
pub record Callback : Type 0 where
  pub fn : ℕ
  pub arg : ℕ
  pub id : ℕ

-- ccd_cblist
pub record Cblist : Type 0 where
  pub elems : List Callback
  pub flag : Bool
  pub next_id : ℕ

-- ccd_cond_callbacks with _ccd_num_timed_cond_cbs; `called` records the calls made.
pub record Conds : Type 0 where
  pub condcb : ℕ → Cblist
  pub condcb_keep : ℕ → Cblist
  pub timed : ℕ
  pub called : List Callback

-- isTimed
abbrev pub is_timed : ℕ → Bool
is_timed condnum = leb 5 condnum && ltb condnum 18

-- The search of remove_elem: the elements without the first one of that handle, and whether there
-- was one.
unfoldable pub erase_id : ℕ → List Callback → List Callback × Bool
erase_id id [] = ([], false)
erase_id id (e ∷ es) =
    let (rest, found) = erase_id id es in if e.id == id then (es, true) else (e ∷ rest, found)

-- remove_elem, with the count of timed callbacks
unfoldable pub remove_elem : Cblist → ℕ → ℕ → ℕ → Cblist × ℕ
unfolding erase_id
remove_elem l timed condnum id =
    let (es, found) = erase_id id l.elems in
    (record l { elems = es }, if found && is_timed condnum then timed - 1 else timed)

-- remove_n_elems
unfoldable pub remove_n_elems : Cblist → ℕ → ℕ → ℕ → Cblist × ℕ
remove_n_elems l timed condnum n =
    if (n == 0) || ltb (length l.elems) n
    then (l, timed)
    else (record l { elems = drop n l.elems }, if is_timed condnum then timed - n else timed)

-- append_elem: the list, the count and the handle
unfoldable pub append_elem : Cblist → ℕ → ℕ → ℕ → ℕ → Cblist × ℕ × ℕ
append_elem l timed condnum fn arg = (
  record l {
    next_id = l.next_id + 1;
    elems = l.elems ++ record { fn = fn; arg = arg; id = l.next_id } ∷ [];
  },
  if is_timed condnum then timed + 1 else timed,
  l.next_id,
)

-- `condcb[condnum] = l`
abbrev pub at_cond : (ℕ → Cblist) → ℕ → Cblist → ℕ → Cblist
at_cond lists condnum l c = if c == condnum then l else lists c

-- CcdCallOnCondition
unfoldable pub call_on_condition : Conds → ℕ → ℕ → ℕ → Conds × ℕ
unfolding append_elem
call_on_condition s condnum fn arg =
    let (l, timed, id) = append_elem (s.condcb condnum) s.timed condnum fn arg in
    (record s { condcb = at_cond s.condcb condnum l; timed = timed }, id)

-- CcdCallOnConditionKeep
unfoldable pub call_on_condition_keep : Conds → ℕ → ℕ → ℕ → Conds × ℕ
unfolding append_elem
call_on_condition_keep s condnum fn arg =
    let (l, timed, id) = append_elem (s.condcb_keep condnum) s.timed condnum fn arg in
    (record s { condcb_keep = at_cond s.condcb_keep condnum l; timed = timed }, id)

-- CcdCancelCallOnCondition
unfoldable pub cancel_call_on_condition : Conds → ℕ → ℕ → Conds
unfolding remove_elem
cancel_call_on_condition s condnum handle =
    let (l, timed) = remove_elem (s.condcb condnum) s.timed condnum handle in
    record s { condcb = at_cond s.condcb condnum l; timed = timed }

-- CcdCancelCallOnConditionKeep
unfoldable pub cancel_call_on_condition_keep : Conds → ℕ → ℕ → Conds
unfolding remove_elem
cancel_call_on_condition_keep s condnum handle =
    let (l, timed) = remove_elem (s.condcb_keep condnum) s.timed condnum handle in
    record s { condcb_keep = at_cond s.condcb_keep condnum l; timed = timed }

-- A registration: whether to keep, the condition, the function and its argument.
abbrev pub Request : Type 0
Request = Bool × ℕ × ℕ × ℕ

unfoldable pub register : List Request → Conds → Conds
unfolding call_on_condition call_on_condition_keep
register [] s = s
register ((true, condnum, fn, arg) ∷ rs) s = register rs (call_on_condition_keep s condnum fn arg).0
register ((false, condnum, fn, arg) ∷ rs) s = register rs (call_on_condition s condnum fn arg).0

abbrev pub reversed : List Callback → List Callback
reversed [] = []
reversed (e ∷ es) = reversed es ++ e ∷ []

-- What a callback registers when it is called.
module _ (requests : Callback → List Request) where
  -- The calls of a loop over callbacks.
  unfoldable pub call_each : List Callback → Conds → Conds
  unfolding register
  call_each [] s = s
  call_each (cb ∷ cbs) s =
      call_each cbs (register (requests cb) (record s { called = s.called ++ cb ∷ [] }))

  -- call_cblist_keep. Positions below the saved length do not move: callbacks are only appended.
  unfoldable pub call_cblist_keep : Conds → ℕ → Conds
  unfolding call_each
  call_cblist_keep s condnum = call_each (s.condcb_keep condnum).elems s

  -- call_cblist_remove
  unfoldable pub call_cblist_remove : Conds → ℕ → Conds
  unfolding call_each remove_n_elems
  call_cblist_remove s condnum =
      let len = length (s.condcb condnum).elems in
      let entered = record s {
        condcb = at_cond s.condcb condnum (record (s.condcb condnum) { flag = true });
      } in
      let ran = call_each (reversed (s.condcb condnum).elems) entered in
      let (l, timed) = remove_n_elems (ran.condcb condnum) ran.timed condnum len in
      if (len == 0) || (s.condcb condnum).flag then s else record ran {
        condcb = at_cond ran.condcb condnum (record l { flag = false });
        timed = timed;
      }

  -- CcdRaiseCondition
  unfoldable pub raise_condition : Conds → ℕ → Conds
  unfolding call_cblist_remove call_cblist_keep
  raise_condition s condnum = call_cblist_keep (call_cblist_remove s condnum) condnum
