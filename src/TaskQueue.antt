-- ===== src/TaskQueue.antt =====
-- The work-stealing queue of include/taskqueue.h (the THE protocol), as interleavings of its owner
-- and any number of thieves. Each access to `head`, `tail` or `data` is one step. The fences of the
-- source are full fences and the compare-and-swap is atomic, so the accesses of one thread take
-- effect in program order. Indices do not reach 2 ^ 31; `tail` can be -1 while the owner pops.
mod Accounts
mod Limits
mod Bounds
mod Conserve
mod Victim
mod Tests
use reconverse.Prelude.{
  ℕ, zero, suc, ◌+◌, ◌-◌, ◌%◌, ◌<◌, ◌≤◌, ◌≡◌, Bool, true, false, List, [], ◌∷◌, ◌++◌, ltb, leb,
  ◌==◌, if◌then◌else◌,
}
use reconverse.Prelude.Int.{ℤ, pos, negsuc, ltb_ℤ, pos_part}

-- TaskQueueSize
abbrev pub task_queue_size : ℕ
task_queue_size = 1024

-- Where the owner stands.
pub data Owner : Type 0 where
  idle : Owner
  -- In TaskQueuePush: the task is in `data`, and `tail` is not yet advanced.
  pushing : ℕ → Owner
  -- In TaskQueuePop: `tail` holds `t`.
  stored : ℤ → Owner
  -- `t < h`: `tail` is to be reset to `h`.
  empty : ℕ → Owner
  -- `t == h`: `tail` is to be set to `h + 1`, and then `head` is contended for.
  last : ℕ → Owner
  contend : ℕ → Owner
  -- The task at an index is the owner's and is to be read: with `t > h`, or after the swap.
  reading_top : ℕ → Owner
  reading_last : ℕ → Owner

-- The queue, its owner, and the thieves in TaskQueueSteal by how far they are: with `head` read,
-- with `tail` read and larger, and with the swap done. `pushed` and `got` record the tasks whose
-- push has completed and those that a pop or a steal has returned.
pub record State : Type 0 where
  pub head : ℕ
  pub tail : ℤ
  pub cells : ℕ → ℕ
  pub owner : Owner
  pub saw_head : List ℕ
  pub saw_tail : List ℕ
  pub reading : List ℕ
  pub pushed : List ℕ
  pub got : List ℕ

-- `data[i % TaskQueueSize]`
abbrev pub cell : (ℕ → ℕ) → ℕ → ℕ
cell cells i = cells (i % task_queue_size)

abbrev pub write : (ℕ → ℕ) → ℕ → ℕ → ℕ → ℕ
write cells i x j = if j == i % task_queue_size then x else cells j

-- `t - 1` of an int
abbrev pub decrement : ℤ → ℤ
decrement (pos zero) = negsuc 0
decrement (pos (suc n)) = pos n
decrement (negsuc n) = negsuc (suc n)

-- TaskQueueCreate
pub create : (ℕ → ℕ) → State
create cells = record {
  head = 0;
  tail = pos 0;
  cells = cells;
  owner = idle;
  saw_head = [];
  saw_tail = [];
  reading = [];
  pushed = [];
  got = [];
}

-- The first access of TaskQueuePush, at a tail of `n`.
abbrev pub begin_push : State → ℕ → ℕ → State
begin_push s n x = record s { cells = write s.cells n x; owner = pushing x }

-- The first access of TaskQueuePop.
abbrev pub begin_pop : State → State
begin_pop s = record s { tail = decrement s.tail; owner = stored (decrement s.tail) }

-- The next access of the owner inside a call.
pub owner_step : Owner → State → State
owner_step idle s = s
owner_step (pushing x) s = record s {
  tail = pos (suc (pos_part s.tail));
  owner = idle;
  pushed = x ∷ s.pushed;
}
owner_step (stored t) s =
    if ltb_ℤ (pos s.head) t
    then record s { owner = reading_top (pos_part t) }
    else (if ltb_ℤ t (pos s.head)
        then record s { owner = empty s.head }
        else record s { owner = last s.head })
owner_step (empty h) s = record s { tail = pos h; owner = idle }
owner_step (last h) s = record s { tail = pos (h + 1); owner = contend h }
owner_step (contend h) s =
    if s.head == h
    then record s { head = h + 1; owner = reading_last h }
    else record s { owner = idle }
owner_step (reading_top t) s = record s { owner = idle; got = cell s.cells t ∷ s.got }
owner_step (reading_last h) s = record s { owner = idle; got = cell s.cells h ∷ s.got }

-- The thief that read the head `h` compares it with the tail; it leaves if the queue looks empty.
pub thief_tail : State → ℕ → List ℕ → State
thief_tail s h others =
    if ltb_ℤ (pos h) s.tail
    then record s { saw_head = others; saw_tail = h ∷ s.saw_tail }
    else record s { saw_head = others }

-- The swap of the thief that read the head `h`; where it fails the loop begins again.
pub thief_swap : State → ℕ → List ℕ → State
thief_swap s h others =
    if s.head == h
    then record s { head = h + 1; saw_tail = others; reading = h ∷ s.reading }
    else record s { saw_tail = others }

-- The thief's read of the task that its swap has won.
pub thief_read : State → ℕ → List ℕ → State
thief_read s h others = record s { reading = others; got = cell s.cells h ∷ s.got }

-- One access of one thread.
pub data Step : State → State → Type 0 where
  push_begins : (s : State) (n x : ℕ) → s.owner ≡ idle → s.tail ≡ pos n → Step s (begin_push s n x)
  pop_begins : (s : State) → s.owner ≡ idle → Step s (begin_pop s)
  owner_moves : (s : State) → Step s (owner_step s.owner s)
  thief_comes : (s : State) → Step s (record s { saw_head = s.head ∷ s.saw_head })
  thief_compares :
      (s : State) (h : ℕ) (before after : List ℕ)
      → s.saw_head ≡ before ++ h ∷ after
      → Step s (thief_tail s h (before ++ after))
  thief_swaps :
      (s : State) (h : ℕ) (before after : List ℕ)
      → s.saw_tail ≡ before ++ h ∷ after
      → Step s (thief_swap s h (before ++ after))
  thief_reads :
      (s : State) (h : ℕ) (before after : List ℕ)
      → s.reading ≡ before ++ h ∷ after
      → Step s (thief_read s h (before ++ after))

pub data Reach (s : State) : State → Type 0 where
  here : Reach s s
  next : {t u : State} → Reach s t → Step t u → Reach s u

abbrev pub AllFree : ℕ → List ℕ → Type 0
AllFree n [] = Unit {0}
AllFree n (j ∷ js) = (n < j + task_queue_size) × AllFree n js

-- A push finds its cell free: the queue holds fewer than TaskQueueSize tasks, and no thief still has
-- to read the cell. The source does not check this.
abbrev pub HasRoom : {s u : State} → Step s u → Type 0
HasRoom (push_begins s n x e t) = (n < s.head + task_queue_size) × AllFree n s.reading
HasRoom (pop_begins s e) = Unit {0}
HasRoom (owner_moves s) = Unit {0}
HasRoom (thief_comes s) = Unit {0}
HasRoom (thief_compares s h before after e) = Unit {0}
HasRoom (thief_swaps s h before after e) = Unit {0}
HasRoom (thief_reads s h before after e) = Unit {0}

-- So do all pushes of a history.
abbrev pub AllRoom : {s u : State} → Reach s u → Type 0
AllRoom here = Unit {0}
AllRoom (next r p) = AllRoom r × HasRoom p
