-- ===== src/TaskQueue/Conserve.antt =====
-- What the THE protocol of include/taskqueue.h keeps of the tasks themselves: every interleaving of
-- the owner with the thieves returns each pushed task at most once, and loses none.
use reconverse.Prelude.{
  ℕ, suc, ◌+◌, ◌-◌, ◌<◌, ◌≤◌, ◌≡◌, refl, sym, subst, List, [], ◌∷◌, ◌++◌, ◌==◌, if◌then◌else◌,
  arith, ap, if_cases,
}
use reconverse.Prelude.Int.{ℤ, pos, ltb_ℤ, pos_part, neg_part}
use reconverse.Prelude.Count.{count, AllBelow}
use reconverse.TaskQueue.{
  Owner, idle, pushing, stored, empty, last, contend, reading_top, reading_last, State, create,
  decrement, owner_step, thief_tail, thief_swap, thief_read, begin_push, AllFree, HasRoom, AllRoom,
  Step, push_begins, pop_begins, owner_moves, thief_comes, thief_compares, thief_swaps, thief_reads,
  Reach, here, next,
}
use reconverse.TaskQueue.Limits.{Fits, IsBounded, AllBelow-removed}
use reconverse.TaskQueue.Bounds.{Reach-IsBounded, create-IsBounded, decrement_lem}
use reconverse.TaskQueue.Accounts.{
  once, window, held, limit_of, Written, BalanceAt, Balance, Accounts, window-write, held-write,
  held-removed, window-length, window-more, window-first,
}

owner_step-Accounts :
    (a : ℕ) (o : Owner) (s : State) (b : ℕ)
    → s.owner ≡ o
    → Fits o s.head s.tail b
    → BalanceAt a o s
    → Written o s.tail s.cells
    → Accounts a (owner_step o s)
unfolding owner_step
owner_step-Accounts a idle s b e f q w =
    (subst (λ o. BalanceAt a o s) (sym e) q, subst (λ o. Written o s.tail s.cells) (sym e) tt)
owner_step-Accounts a (pushing x) s b e f q w = (
  omega (
    arith,
    ap (once a) w,
    window-more a s.cells s.head (pos_part s.tail) (suc (pos_part s.tail) - s.head) (ground arith)
        refl,
  ),
  tt,
)
owner_step-Accounts a (stored t) s b e f q w =
    if_cases (Accounts a) (ltb_ℤ (pos s.head) t) (record s { owner = reading_top (pos_part t) })
      (if ltb_ℤ t (pos s.head)
        then record s { owner = empty s.head }
        else record s { owner = last s.head })
      (λ p. (
        omega (
          arith,
          window-more a s.cells s.head (pos_part t) (limit_of (stored t) s.tail - s.head)
              (ground arith) (ground arith),
        ),
        tt,
      ))
      (λ p.
        if_cases (Accounts a) (ltb_ℤ t (pos s.head)) (record s { owner = empty s.head })
          (record s { owner = last s.head })
          (λ p'. (
            omega (
              arith,
              window-length a s.cells s.head (limit_of (stored t) s.tail - s.head) (s.head - s.head)
                  (ground arith),
            ),
            tt,
          ))
          (λ p'. (
            omega (
              arith,
              window-length a s.cells s.head (limit_of (stored t) s.tail - s.head)
                  (s.head + 1 - s.head) (ground arith),
            ),
            tt,
          )))
owner_step-Accounts a (empty h) s b e f q w = (q, tt)
owner_step-Accounts a (last h) s b e f q w = (q, tt)
owner_step-Accounts a (contend h) s b e f q w =
    if_cases (Accounts a) (s.head == h) (record s { head = h + 1; owner = reading_last h })
      (record s { owner = idle }) (λ p. (won (ground arith), tt)) (λ p. (lost, tt))
  where
    won : s.head ≡ h → Balance a (record s { head = h + 1; owner = reading_last h })
    won p = omega (
      arith,
      window-first a s.cells h (h + 1) (omega arith),
      subst (λ k. window a s.cells k (h + 1 - k) ≡ window a s.cells h (h + 1 - h)) (sym p) refl,
    )

    lost : Balance a (record s { owner = idle })
    lost = omega (
      arith,
      window-length a s.cells s.head (h + 1 - s.head) (pos_part s.tail - s.head) (ground arith),
    )
owner_step-Accounts a (reading_top t) s b e f q w = (
  omega (
    arith,
    window-length a s.cells s.head (t - s.head) (pos_part s.tail - s.head) (ground arith),
  ),
  tt,
)
owner_step-Accounts a (reading_last h) s b e f q w = (
  omega (
    arith,
    window-length a s.cells s.head (h + 1 - s.head) (pos_part s.tail - s.head) (ground arith),
  ),
  tt,
)

Fits-limit_of : (o : Owner) (head : ℕ) (tail : ℤ) (b : ℕ) → Fits o head tail b → limit_of o tail ≡ b
Fits-limit_of idle head tail b f = ground arith
Fits-limit_of (pushing x) head tail b f = ground arith
Fits-limit_of (stored t) head tail b f = omega arith
Fits-limit_of (empty h) head tail b f = f.2
Fits-limit_of (last h) head tail b f = sym f.1
Fits-limit_of (contend h) head tail b f = sym f.1
Fits-limit_of (reading_top t) head tail b f = f.1
Fits-limit_of (reading_last h) head tail b f = sym f.1

thief_tail-Accounts :
    (a : ℕ) (s : State) (h : ℕ) (others : List ℕ)
    → Accounts a s
    → Accounts a (thief_tail s h others)
unfolding thief_tail
thief_tail-Accounts a s h others q =
    if_cases (Accounts a) (ltb_ℤ (pos h) s.tail)
      (record s { saw_head = others; saw_tail = h ∷ s.saw_tail }) (record s { saw_head = others })
      (λ p. q) (λ p. q)

thief_swap-Accounts :
    (a : ℕ) (s : State) (h : ℕ) (others : List ℕ)
    → h < limit_of s.owner s.tail
    → Accounts a s
    → Accounts a (thief_swap s h others)
unfolding thief_swap
thief_swap-Accounts a s h others c q =
    if_cases (Accounts a) (s.head == h)
      (record s { head = h + 1; saw_tail = others; reading = h ∷ s.reading })
      (record s { saw_tail = others }) (λ p. (won (ground arith), q.1)) (λ p. q)
  where
    won :
        s.head ≡ h
        → Balance a (record s { head = h + 1; saw_tail = others; reading = h ∷ s.reading })
    won p = omega (
      arith,
      q.0,
      window-first a s.cells h (limit_of s.owner s.tail) c,
      subst
          (λ k.
            window a s.cells k (limit_of s.owner s.tail - k)
            ≡ window a s.cells h (limit_of s.owner s.tail - h))
          (sym p) refl,
    )

begin_push-Accounts :
    (a : ℕ) (s : State) (n x : ℕ)
    → s.owner ≡ idle
    → s.tail ≡ pos n
    → n < s.head + 1024
    → AllFree n s.reading
    → IsBounded s
    → Accounts a s
    → Accounts a (begin_push s n x)
begin_push-Accounts a s n x e t room free i q =
    let f = subst (λ o. Fits o s.head s.tail i.limit) e i.fits in
    let at_limit = ap pos_part f.0 in
    let at_n = ap pos_part t in
    (
      omega (
        arith,
        subst (λ o. BalanceAt a o s) e q.0,
        held-write a s.cells n x s.head s.reading (omega arith) i.reads free,
        window-write a s.cells n x s.head (pos_part s.tail - s.head) (omega arith) room,
      ),
      rw at_n (ground arith),
    )

-- Every access keeps the accounts.
Step-Accounts :
    {s u : State} (a : ℕ) (p : Step s u) → HasRoom p → IsBounded s → Accounts a s → Accounts a u
unfolding thief_read
Step-Accounts a (push_begins s n x e t) room i q = begin_push-Accounts a s n x e t room.0 room.1 i q
Step-Accounts a (pop_begins s e) room i q =
    let f = subst (λ o. Fits o s.head s.tail i.limit) e i.fits in
    let at_limit = ap pos_part f.0 in
    let before = decrement_lem s.tail i.limit f.0 in
    (
      omega (
        arith,
        subst (λ o. BalanceAt a o s) e q.0,
        window-length a s.cells s.head
            (pos_part (decrement s.tail) + 1 - neg_part (decrement s.tail) - s.head)
            (pos_part s.tail - s.head) (omega arith),
      ),
      tt,
    )
Step-Accounts a (owner_moves s) room i q =
    owner_step-Accounts a s.owner s i.limit refl i.fits q.0 q.1
Step-Accounts a (thief_comes s) room i q = q
Step-Accounts a (thief_compares s h before after e) room i q =
    thief_tail-Accounts a s h (before ++ after) q
Step-Accounts a (thief_swaps s h before after e) room i q =
    thief_swap-Accounts a s h (before ++ after)
      (subst (λ b. h < b) (sym (Fits-limit_of s.owner s.head s.tail i.limit i.fits))
        (AllBelow-removed i.limit h before after (subst (AllBelow i.limit) e i.claims)).0)
      q
Step-Accounts a (thief_reads s h before after e) room i q =
    (omega (arith, q.0, held-removed a s.cells h before after, ap (held a s.cells) e), q.1)

Reach-Accounts :
    {s u : State} (a : ℕ) (r : Reach s u) → AllRoom r → IsBounded s → Accounts a s → Accounts a u
Reach-Accounts a here room i q = q
Reach-Accounts a (next r p) room i q =
    Step-Accounts a p room.1 (Reach-IsBounded r i) (Reach-Accounts a r room.0 i q)

-- In every interleaving of the owner's pushes and pops with any number of thieves in which each push
-- finds fewer than TaskQueueSize tasks in the queue and no thief that is still to read the cell: each
-- completed push of a task is accounted for exactly once. It has been returned by a pop or a steal,
-- or one thread has claimed its cell and is about to read it, or it is still to be claimed.
pub Reach-Balance :
    (a : ℕ) (cells : ℕ → ℕ) (s : State) (r : Reach (create cells) s) → AllRoom r → Balance a s
unfolding create
Reach-Balance a cells s r room = (Reach-Accounts a r room (create-IsBounded cells) (refl, tt)).0

-- So no task is returned more often than it was pushed, at any time of any interleaving.
pub got_le_pushed :
    (a : ℕ) (cells : ℕ → ℕ) (s : State) (r : Reach (create cells) s)
    → AllRoom r
    → count a s.got ≤ count a s.pushed
got_le_pushed a cells s r room = omega (arith, Reach-Balance a cells s r room)

-- And when the owner rests with an empty queue, and no thief has a task to read, each task has been
-- returned as often as it was pushed.
pub got_all :
    (a : ℕ) (cells : ℕ → ℕ) (s : State) (r : Reach (create cells) s)
    → AllRoom r
    → s.owner ≡ idle
    → s.reading ≡ []
    → s.tail ≡ pos s.head
    → count a s.got ≡ count a s.pushed
got_all a cells s r room rests none_reads at_tail = omega (
  arith,
  subst (λ o. BalanceAt a o s) rests (Reach-Balance a cells s r room),
  ap (held a s.cells) none_reads,
  window-length a s.cells s.head (pos_part s.tail - s.head) 0 (rw at_tail (omega arith)),
)
