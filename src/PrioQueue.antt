-- ===== src/PrioQueue.antt =====
-- The scheduler's priority queue, src/queueing.cpp: a map of deques by priority, with priority zero
-- in a deque of its own. A message is the number that its pointer stands for, and a deque is the
-- list of its messages, front first. `int size` and `int emptyLevels` do not reach 2 ^ 31.
pub mod Levels
pub mod Order
pub mod Spec
pub mod Merge
pub mod Counts
pub mod Refine
pub mod Pop
pub mod Drain
pub mod History
pub mod Client
pub mod Strategy
mod Tests
use reconverse.Prelude.{
  ℕ, suc, ◌+◌, ◌-◌, ◌^◌, Bool, true, false, Option, none, some, List, [], ◌∷◌, ◌++◌, ltb, ◌==◌,
  if◌then◌else◌,
}
use reconverse.Prelude.Int.{ℤ, pos, negsuc, ltb_ℤ, eqb_ℤ}
use Levels.{Level, LevelMap, is_empty, is_negative, is_zero, find, emplace, modify, erase}

-- The `QueueImpl` behind an initialised handle.
pub record Queue : Type 0 where
  pub levels : LevelMap
  pub zero_level : Level
  pub empty_levels : ℕ
  pub size : ℕ

-- What a `Queue` pointer may be: null, a struct that `QueueDestroy` has cleared, or a live queue.
pub data Handle : Type 0 where
  null : Handle
  destroyed : Handle
  live : Queue → Handle

-- kKeptEmptyLevels
abbrev pub kept_empty_levels : ℕ
kept_empty_levels = 4

-- LLONG_MAX
abbrev pub llong_max : ℤ
llong_max = pos (2 ^ 63 - 1)

-- The deque that a `Level *` points to.
pub data Place : Type 0 where
  at_zero : Place
  at_key : ℤ → Place

pub front_rest : LevelMap → Option Place
front_rest [] = none
front_rest ((k, l) ∷ lv) = if is_empty l then front_rest lv else some (at_key k)

pub front_zero : Level → LevelMap → Option Place
unfolding front_rest
front_zero z lv = if is_empty z then front_rest lv else some at_zero

-- front_level: the negative levels, then the zero level, then the rest of the same iterator.
pub front_from : LevelMap → Level → Option Place
unfolding front_zero
front_from [] z = front_zero z []
front_from ((k, l) ∷ lv) z =
    if is_negative k
    then (if is_empty l then front_from lv z else some (at_key k))
    else front_zero z ((k, l) ∷ lv)

abbrev pub front_level : Queue → Option Place
front_level q = front_from q.levels q.zero_level

-- The side effect of `level_for` at a nonzero priority: the level exists afterwards, and is no
-- longer counted as a kept empty one.
pub claim_level : Queue → ℤ → Queue
claim_level q p = elim (find p q.levels) [
  | none ↦ record q { levels = emplace p q.levels }
  | some l ↦ if is_empty l then record q { empty_levels = q.empty_levels - 1 } else q
]

-- level_for, followed by `edit` on the deque that it returns.
pub edit_level : Queue → ℤ → (Level → Level) → Queue
unfolding claim_level
edit_level q p edit =
    if is_zero p
    then record q { zero_level = edit q.zero_level }
    else (let r = claim_level q p in record r { levels = modify p edit r.levels })

pub level_at : Queue → Place → Level
level_at q at_zero = q.zero_level
level_at q (at_key k) = elim (find k q.levels) [ none ↦ [] | some l ↦ l ]

pub level_drained : Queue → Place → Queue
level_drained q at_zero = q
level_drained q (at_key k) =
    if ltb q.empty_levels kept_empty_levels
    then record q { empty_levels = suc q.empty_levels }
    else record q { levels = erase k q.levels }

pub fresh : Queue
fresh = record { levels = []; zero_level = []; empty_levels = 0; size = 0 }

pub init : Handle → Handle
unfolding fresh
init null = null
init destroyed = live fresh
init (live q) = live fresh

pub destroy : Handle → Handle
destroy null = null
destroy destroyed = destroyed
destroy (live q) = destroyed

unfoldable pub size_of : Handle → ℕ
size_of null = 0
size_of destroyed = 0
size_of (live q) = q.size

unfoldable pub is_queue_empty : Handle → Bool
is_queue_empty null = true
is_queue_empty destroyed = true
is_queue_empty (live q) = q.size == 0

abbrev pub push_back : ℕ → Level → Level
push_back m l = l ++ (m ∷ [])

abbrev pub push_front_level : ℕ → Level → Level
push_front_level m l = m ∷ l

unfoldable pub enqueue : Queue → ℕ → ℤ → Queue
unfolding edit_level
enqueue q m p = let r = edit_level q p (push_back m) in record r { size = suc r.size }

unfoldable pub enqueue_front : Queue → ℕ → ℤ → Queue
unfolding edit_level
enqueue_front q m p = let r = edit_level q p (push_front_level m) in record r { size = suc r.size }

-- QueuePush. `none` is the null dereference of a push to a destroyed queue.
unfoldable pub push : Handle → ℕ → ℤ → Option Handle
unfolding enqueue
push null m p = some null
push destroyed m p = none
push (live q) m p = some (live (enqueue q m p))

unfoldable pub push_front : Handle → ℕ → ℤ → Option Handle
unfolding enqueue_front
push_front null m p = some null
push_front destroyed m p = none
push_front (live q) m p = some (live (enqueue_front q m p))

-- `l->front()`
pub front : Level → Option ℕ
front [] = none
front (m ∷ l) = some m

-- `l->pop_front()`
pub pop_front : Level → Level
pop_front [] = []
pop_front (m ∷ l) = l

pub top_live : Queue → Option ℕ
unfolding front front_from level_at
top_live q =
    if q.size == 0
    then none
    else elim (front_level q) [ none ↦ none | some p ↦ front (level_at q p) ]

-- QueueTop
unfoldable pub top : Handle → Option ℕ
unfolding top_live
top null = none
top destroyed = none
top (live q) = top_live q

pub priority_rest : LevelMap → ℤ
priority_rest [] = llong_max
priority_rest ((k, l) ∷ lv) = if is_empty l then priority_rest lv else k

pub priority_zero : Level → LevelMap → ℤ
unfolding priority_rest
priority_zero z lv = if is_empty z then priority_rest lv else pos 0

-- The walk of `QueueTopPriority`.
pub priority_from : LevelMap → Level → ℤ
unfolding priority_zero
priority_from [] z = priority_zero z []
priority_from ((k, l) ∷ lv) z =
    if is_negative k
    then (if is_empty l then priority_from lv z else k)
    else priority_zero z ((k, l) ∷ lv)

pub top_priority_live : Queue → ℤ
unfolding priority_from
top_priority_live q = if q.size == 0 then llong_max else priority_from q.levels q.zero_level

-- QueueTopPriority
pub top_priority : Handle → ℤ
unfolding top_priority_live
top_priority null = llong_max
top_priority destroyed = llong_max
top_priority (live q) = top_priority_live q

-- `pop_front` on the deque at a place.
pub pop_at : Queue → Place → Queue
unfolding pop_front
pop_at q at_zero = record q { zero_level = pop_front q.zero_level }
pop_at q (at_key k) = record q { levels = modify k pop_front q.levels }

-- The rest of `QueuePop` once `front_level` has found its level.
pub take_from : Queue → Place → Queue
unfolding pop_at level_at level_drained
take_from q p =
    let popped = pop_at q p in
    let r : Queue = record popped { size = popped.size - 1 } in
    if is_empty (level_at r p) then level_drained r p else r

unfoldable pub dequeue : Queue → Queue
unfolding front_from take_from
dequeue q = if q.size == 0 then q else elim (front_level q) [ none ↦ q | some p ↦ take_from q p ]

-- QueuePop
pub pop : Handle → Handle
unfolding dequeue
pop null = null
pop destroyed = destroyed
pop (live q) = live (dequeue q)
