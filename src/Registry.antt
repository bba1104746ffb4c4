-- ===== src/Registry.antt =====
-- The slot table of the registered scheduler, src/scheduler_registry.cpp: the share of the slots that
-- each handler gets, and where they lie.
mod Share
pub mod Place
pub mod Fill
mod Groups
mod Due
mod Tests
use reconverse.Prelude.{
  ℕ, zero, suc, ◌+◌, ◌-◌, ◌*◌, ◌/◌, ◌%◌, ◌^◌, Bool, true, false, Option, none, some, List, [], ◌∷◌,
  map, ltb, leb, ◌==◌, if◌then◌else◌, get_or, set, replicate,
}

-- SCHED_TABLE_SIZE
abbrev pub sched_table_size : ℕ
sched_table_size = 64

-- lround(a / (double) b): halves go up. The quotients that occur are exact enough in a double.
unfoldable pub lround : ℕ → ℕ → ℕ
lround a b = (2 * a + b) / (2 * b)

abbrev pub sum : List ℕ → ℕ
sum [] = 0
sum (x ∷ xs) = x + sum xs

-- The largest element, as std::max_element finds it
abbrev pub largest : List ℕ → ℕ
largest [] = 0
largest (x ∷ xs) = let m = largest xs in if ltb x m then m else x

-- `(*largest)--`: the first of the largest elements
unfoldable pub decrement_first : ℕ → List ℕ → List ℕ
decrement_first m [] = []
decrement_first m (x ∷ xs) =
    let rest = decrement_first m xs in if x == m then (x - 1) ∷ xs else x ∷ rest

-- The loop that trims the slots to the size of the table, with a unit of fuel for each slot.
unfoldable pub trim : ℕ → ℕ → List ℕ → List ℕ
unfolding decrement_first
trim zero total_slots slots = slots
trim (suc fuel) total_slots slots =
    let m = largest slots in
    let shorter = trim fuel (total_slots - 1) (decrement_first m slots) in
    if ltb sched_table_size total_slots then (if leb m 1 then slots else shorter) else slots

-- The slots of one handler, at least one
unfoldable pub normalized : ℕ → ℕ → ℕ
unfolding lround
normalized total w = let n = lround (w * sched_table_size % 2 ^ 32) total in if n == 0 then 1 else n

-- A slot of poll_handlers with its mark in poll_handler_assigned: `none` is pollNoWork, unmarked.
abbrev pub Table {ℓ} : Type ℓ → Type ℓ
Table A = List (Option A)

module _ {ℓ} {A : Type ℓ} where
  -- The sum of the frequencies, an unsigned int
  abbrev pub total_of : List (A × ℕ) → ℕ
  total_of [] = 0
  total_of ((fn, w) ∷ hs) = (w + total_of hs) % 2 ^ 32

  unfoldable pub normalize : ℕ → List (A × ℕ) → List ℕ
  unfolding normalized
  normalize total [] = []
  normalize total ((fn, w) ∷ hs) = normalized total w ∷ normalize total hs

  abbrev pub is_assigned : Option A → Bool
  is_assigned none = false
  is_assigned (some fn) = true

  -- `while (poll_handler_assigned[index] != 0) index = (index + 1) % SCHED_TABLE_SIZE`
  unfoldable pub next_empty : ℕ → Table A → ℕ → ℕ
  next_empty zero table index = index
  next_empty (suc fuel) table index =
      let further = next_empty fuel table ((index + 1) % sched_table_size) in
      if is_assigned (get_or table index none) then further else index

  -- The loop over the slots of one handler: the table and total_assigned.
  unfoldable pub place : A → ℕ → ℕ → Table A → ℕ → ℕ → Table A × ℕ
  unfolding next_empty
  place fn step zero table total_assigned index = (table, total_assigned)
  place fn step (suc remaining) table total_assigned index =
      let i = next_empty sched_table_size table index in
      let further =
        place fn step remaining (set table i (some fn)) (total_assigned + 1)
          ((i + step) % sched_table_size) in
      if leb sched_table_size total_assigned then (table, total_assigned) else further

  -- The loop over the handlers.
  unfoldable pub fill : List (A × ℕ) → List ℕ → Table A → ℕ → ℕ → Table A
  unfolding place
  fill [] slots table total_assigned current_index = table
  fill (h ∷ hs) [] table total_assigned current_index = table
  fill ((fn, w) ∷ hs) (n ∷ slots) table total_assigned current_index =
      let (placed, assigned) =
        place fn (sched_table_size / n) n table total_assigned current_index in
      fill hs slots placed assigned ((current_index + 1) % sched_table_size)

  -- add_list_of_handlers; `none` where it builds no table.
  unfoldable pub add_list_of_handlers : List (A × ℕ) → Option (Table A)
  unfolding fill trim normalize
  add_list_of_handlers hs =
      let total = total_of hs in
      let slots = normalize total hs in
      if total == 0
      then none
      else some (
          fill hs (trim (sum slots) (sum slots % 2 ^ 32) slots) (replicate sched_table_size none) 0
            0)
