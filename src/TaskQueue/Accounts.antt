-- ===== src/TaskQueue/Accounts.antt =====
-- Where the tasks of the queue of include/taskqueue.h are: how often a task stands in the cells that
-- are still to be claimed, and in those that a thread has claimed and not yet read.
use reconverse.Prelude.{
  ℕ, zero, suc, ◌+◌, ◌-◌, ◌<◌, ◌≤◌, ◌≡◌, refl, List, [], ◌∷◌, ◌++◌, ◌==◌, if◌then◌else◌, arith,
}
use reconverse.Prelude.Int.{ℤ, pos_part, neg_part}
use reconverse.Prelude.Count.{count, AllBelow}
use reconverse.TaskQueue.{
  Owner, idle, pushing, stored, empty, last, contend, reading_top, reading_last, State, cell, write,
  AllFree,
}

abbrev pub once : ℕ → ℕ → ℕ
once a x = if x == a then 1 else 0

-- How often the task `a` stands in the cells of the `n` indices from `h` on.
abbrev pub window : ℕ → (ℕ → ℕ) → ℕ → ℕ → ℕ
window a cells h zero = 0
window a cells h (suc n) = once a (cell cells h) + window a cells (h + 1) n

-- How often it stands in the cells that thieves have claimed and not yet read.
abbrev pub held : ℕ → (ℕ → ℕ) → List ℕ → ℕ
held a cells [] = 0
held a cells (j ∷ js) = once a (cell cells j) + held a cells js

-- The same of the owner.
abbrev pub own : ℕ → (ℕ → ℕ) → Owner → ℕ
own a cells (reading_top t) = once a (cell cells t)
own a cells (reading_last h) = once a (cell cells h)
own a cells idle = 0
own a cells (pushing x) = 0
own a cells (stored t) = 0
own a cells (empty h) = 0
own a cells (last h) = 0
own a cells (contend h) = 0

-- The index below which tasks may still be claimed.
abbrev pub limit_of : Owner → ℤ → ℕ
limit_of idle tail = pos_part tail
limit_of (pushing x) tail = pos_part tail
limit_of (stored t) tail = pos_part t + 1 - neg_part t
limit_of (empty h) tail = h
limit_of (last h) tail = h + 1
limit_of (contend h) tail = h + 1
limit_of (reading_top t) tail = t
limit_of (reading_last h) tail = h + 1

-- The task that a push in progress has written is in its cell.
abbrev pub Written : Owner → ℤ → (ℕ → ℕ) → Type 0
Written (pushing x) tail cells = cell cells (pos_part tail) ≡ x
Written idle tail cells = Unit {0}
Written (stored t) tail cells = Unit {0}
Written (empty h) tail cells = Unit {0}
Written (last h) tail cells = Unit {0}
Written (contend h) tail cells = Unit {0}
Written (reading_top t) tail cells = Unit {0}
Written (reading_last h) tail cells = Unit {0}

-- Each completed push is accounted for once: returned, about to be read, or still to be claimed.
abbrev pub BalanceAt : ℕ → Owner → State → Type 0
BalanceAt a o s =
    count a s.pushed
    ≡ count a s.got
      + held a s.cells s.reading
      + own a s.cells o
      + window a s.cells s.head (limit_of o s.tail - s.head)

abbrev pub Balance : ℕ → State → Type 0
Balance a s = BalanceAt a s.owner s

abbrev pub Accounts : ℕ → State → Type 0
Accounts a s = Balance a s × Written s.owner s.tail s.cells

pub write_other :
    (cells : ℕ → ℕ) (n x j : ℕ) → j < n → n < j + 1024 → cell (write cells n x) j ≡ cell cells j
write_other cells n x j p q = ground arith

pub window-write :
    (a : ℕ) (cells : ℕ → ℕ) (n x h k : ℕ)
    → h + k ≤ n
    → n < h + 1024
    → window a (write cells n x) h k ≡ window a cells h k
window-write a cells n x h zero p q = refl
window-write a cells n x h (suc k) p q =
    rw
      (
        write_other cells n x h (omega arith) q,
        window-write a cells n x (h + 1) k (omega arith) (omega arith),
      )
      refl

pub held-write :
    (a : ℕ) (cells : ℕ → ℕ) (n x h : ℕ) (js : List ℕ)
    → h ≤ n
    → AllBelow h js
    → AllFree n js
    → held a (write cells n x) js ≡ held a cells js
held-write a cells n x h [] p b f = refl
held-write a cells n x h (j ∷ js) p b f =
    rw (write_other cells n x j (omega arith) f.0, held-write a cells n x h js p b.1 f.1) refl

pub once-cell :
    (a : ℕ) (cells : ℕ → ℕ) (i j : ℕ) → i ≡ j → once a (cell cells i) ≡ once a (cell cells j)
once-cell a cells i j e = rw e refl

pub window-end :
    (a : ℕ) (cells : ℕ → ℕ) (h k : ℕ)
    → window a cells h (suc k) ≡ window a cells h k + once a (cell cells (h + k))
window-end a cells h zero = omega (arith, once-cell a cells h (h + 0) (omega arith))
window-end a cells h (suc k) =
    let shifted = once-cell a cells ((h + 1) + k) (h + suc k) (omega arith) in
    rw (window-end a cells (h + 1) k) (omega (arith, shifted))

pub held-removed :
    (a : ℕ) (cells : ℕ → ℕ) (h : ℕ) (before after : List ℕ)
    → held a cells (before ++ h ∷ after) ≡ once a (cell cells h) + held a cells (before ++ after)
held-removed a cells h [] after = refl
held-removed a cells h (j ∷ before) after = rw (held-removed a cells h before after) (omega arith)

pub window-length :
    (a : ℕ) (cells : ℕ → ℕ) (h m n : ℕ) → m ≡ n → window a cells h m ≡ window a cells h n
window-length a cells h m n e = rw e refl

pub window-more :
    (a : ℕ) (cells : ℕ → ℕ) (h b n : ℕ)
    → h ≤ b
    → n ≡ suc b - h
    → window a cells h n ≡ window a cells h (b - h) + once a (cell cells b)
window-more a cells h b n p e = omega (
  arith,
  window-length a cells h n (suc (b - h)) (omega arith),
  window-end a cells h (b - h),
  once-cell a cells (h + (b - h)) b (omega arith),
)

pub window-first :
    (a : ℕ) (cells : ℕ → ℕ) (h b : ℕ)
    → h < b
    → window a cells h (b - h) ≡ once a (cell cells h) + window a cells (h + 1) (b - (h + 1))
window-first a cells h b p = window-length a cells h (b - h) (suc (b - (h + 1))) (omega arith)
