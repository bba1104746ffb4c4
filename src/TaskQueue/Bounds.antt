-- ===== src/TaskQueue/Bounds.antt =====
-- The bounds that the THE protocol of include/taskqueue.h keeps: which indices each thread may still
-- claim, at every access.
use reconverse.Prelude.{
  ℕ, zero, suc, ◌+◌, ◌<◌, ◌≡◌, refl, sym, subst, List, ◌∷◌, ◌++◌, ◌==◌, if◌then◌else◌, arith,
  if_cases,
}
use reconverse.Prelude.Int.{ℤ, pos, negsuc, ltb_ℤ, pos_part, neg_part}
use reconverse.Prelude.Count.{AllBelow}
use reconverse.TaskQueue.{
  Owner, idle, pushing, stored, empty, last, contend, reading_top, reading_last, State, create,
  decrement, owner_step, thief_tail, thief_swap, thief_read, begin_push, begin_pop, cell, Step,
  push_begins, pop_begins, owner_moves, thief_comes, thief_compares, thief_swaps, thief_reads,
  Reach, here, next,
}
use reconverse.TaskQueue.Limits.{
  Fits, IsBounded, AllBelow-mono, AllBelow-removed, tail-le, swap-Fits, Held, bounded, Held-up,
  top_tail, empty-Fits, last-Fits,
}

owner_step-IsBounded :
    (o : Owner) (s : State) (b : ℕ)
    → s.owner ≡ o
    → Fits o s.head s.tail b
    → Held s b
    → IsBounded (owner_step o s)
unfolding owner_step
owner_step-IsBounded idle s b e f m = bounded s b (subst (λ w. Fits w s.head s.tail b) (sym e) f) m
owner_step-IsBounded (pushing x) s b e f m =
    bounded (record s { tail = pos (suc (pos_part s.tail)); owner = idle; pushed = x ∷ s.pushed })
      (suc b) (rw f.0 (refl, omega arith))
      (m.0, m.1, AllBelow-mono b (suc b) s.saw_tail (omega arith) m.2, m.3)
owner_step-IsBounded (stored t) s b e f m =
    if_cases IsBounded (ltb_ℤ (pos s.head) t) (record s { owner = reading_top (pos_part t) })
      (if ltb_ℤ t (pos s.head)
        then record s { owner = empty s.head }
        else record s { owner = last s.head })
      (λ p.
        bounded (record s { owner = reading_top (pos_part t) }) (pos_part t)
          (top_tail t s.head s.tail b f p, refl, ground arith)
          (m.0, m.1, AllBelow-mono (suc s.head) (pos_part t) s.saw_tail (ground arith) m.1, m.3))
      (λ p.
        if_cases IsBounded (ltb_ℤ t (pos s.head)) (record s { owner = empty s.head })
          (record s { owner = last s.head })
          (λ q.
            bounded (record s { owner = empty s.head }) b (empty-Fits t s.head s.tail b f p q) m)
          (λ q. bounded (record s { owner = last s.head }) b (last-Fits t s.head s.tail b f p q) m))
owner_step-IsBounded (empty h) s b e f m =
    bounded (record s { tail = pos h; owner = idle }) b (ground arith) m
owner_step-IsBounded (last h) s b e f m =
    bounded (record s { tail = pos (h + 1); owner = contend h }) b (ground arith) m
owner_step-IsBounded (contend h) s b e f m =
    if_cases IsBounded (s.head == h) (record s { head = h + 1; owner = reading_last h })
      (record s { owner = idle })
      (λ p.
        bounded (record s { head = h + 1; owner = reading_last h }) b (f.0, f.1, ground arith)
          (Held-up s b (h + 1) (omega arith) m))
      (λ p. bounded (record s { owner = idle }) b (ground arith) m)
owner_step-IsBounded (reading_top t) s b e f m =
    bounded (record s { owner = idle; got = cell s.cells t ∷ s.got }) b (f.0, f.2) m
owner_step-IsBounded (reading_last h) s b e f m =
    bounded (record s { owner = idle; got = cell s.cells h ∷ s.got }) b (f.0, omega arith) m

thief_tail-IsBounded :
    (s : State) (h : ℕ) (others : List ℕ) (b : ℕ)
    → (h < suc s.head) × AllBelow (suc s.head) others
    → Fits s.owner s.head s.tail b
    → Held s b
    → IsBounded (thief_tail s h others)
unfolding thief_tail
thief_tail-IsBounded s h others b o f m =
    if_cases IsBounded (ltb_ℤ (pos h) s.tail)
      (record s { saw_head = others; saw_tail = h ∷ s.saw_tail }) (record s { saw_head = others })
      (λ p.
        bounded (record s { saw_head = others; saw_tail = h ∷ s.saw_tail }) b f
          (o.1, (o.0, m.1), (tail-le s.owner s.head s.tail b h f (ground arith), m.2), m.3))
      (λ p. bounded (record s { saw_head = others }) b f (o.1, m.1, m.2, m.3))

thief_swap-IsBounded :
    (s : State) (h : ℕ) (others : List ℕ) (b : ℕ)
    → AllBelow (suc s.head) others
    → (h < b) × AllBelow b others
    → Fits s.owner s.head s.tail b
    → Held s b
    → IsBounded (thief_swap s h others)
unfolding thief_swap
thief_swap-IsBounded s h others b o c f m =
    if_cases IsBounded (s.head == h)
      (record s { head = h + 1; saw_tail = others; reading = h ∷ s.reading })
      (record s { saw_tail = others }) (λ p. won (ground arith))
      (λ p. bounded (record s { saw_tail = others }) b f (m.0, o, c.1, m.3))
  where
    won :
        s.head ≡ h
        → IsBounded (record s { head = h + 1; saw_tail = others; reading = h ∷ s.reading })
    won e =
        let up =
          Held-up (record s { saw_tail = others }) b (h + 1) (omega arith) (m.0, o, c.1, m.3) in
        bounded (record s { head = h + 1; saw_tail = others; reading = h ∷ s.reading }) b
          (subst (λ k. Fits s.owner (k + 1) s.tail b) e
            (swap-Fits s.owner s.head s.tail b (omega arith) f))
          (up.0, up.1, up.2, (omega arith, up.3))

pub decrement_lem :
    (z : ℤ) (n : ℕ) → z ≡ pos n → pos_part (decrement z) + 1 ≡ n + neg_part (decrement z)
decrement_lem (pos zero) n e = ground arith
decrement_lem (pos (suc m)) n e = ground arith
decrement_lem (negsuc m) n e = ground arith

-- Every access keeps the bounds.
pub Step-IsBounded : {s u : State} → Step s u → IsBounded s → IsBounded u
unfolding thief_read
Step-IsBounded (push_begins s n x e t) i =
    bounded (begin_push s n x) i.limit (subst (λ w. Fits w s.head s.tail i.limit) e i.fits)
      (i.heads, i.tails, i.claims, i.reads)
Step-IsBounded (pop_begins s e) i =
    bounded (begin_pop s) i.limit (pop_fits (subst (λ w. Fits w s.head s.tail i.limit) e i.fits))
      (i.heads, i.tails, i.claims, i.reads)
  where
    pop_fits :
        Fits idle s.head s.tail i.limit
        → Fits (stored (decrement s.tail)) s.head (decrement s.tail) i.limit
    pop_fits f = (refl, decrement_lem s.tail i.limit f.0, f.1)
Step-IsBounded (owner_moves s) i =
    owner_step-IsBounded s.owner s i.limit refl i.fits (i.heads, i.tails, i.claims, i.reads)
Step-IsBounded (thief_comes s) i =
    bounded (record s { saw_head = s.head ∷ s.saw_head }) i.limit i.fits
      ((omega arith, i.heads), i.tails, i.claims, i.reads)
Step-IsBounded (thief_compares s h before after e) i =
    thief_tail-IsBounded s h (before ++ after) i.limit
      (AllBelow-removed (suc s.head) h before after (subst (AllBelow (suc s.head)) e i.heads))
      i.fits (i.heads, i.tails, i.claims, i.reads)
Step-IsBounded (thief_swaps s h before after e) i =
    thief_swap-IsBounded s h (before ++ after) i.limit
      (AllBelow-removed (suc s.head) h before after (subst (AllBelow (suc s.head)) e i.tails)).1
      (AllBelow-removed i.limit h before after (subst (AllBelow i.limit) e i.claims)) i.fits
      (i.heads, i.tails, i.claims, i.reads)
Step-IsBounded (thief_reads s h before after e) i =
    bounded (thief_read s h (before ++ after)) i.limit i.fits (
      i.heads,
      i.tails,
      i.claims,
      (AllBelow-removed s.head h before after (subst (AllBelow s.head) e i.reads)).1,
    )

pub create-IsBounded : (cells : ℕ → ℕ) → IsBounded (create cells)
unfolding create
create-IsBounded cells = bounded (create cells) 0 (refl, omega arith) (tt, tt, tt, tt)

pub Reach-IsBounded : {s u : State} → Reach s u → IsBounded s → IsBounded u
Reach-IsBounded here i = i
Reach-IsBounded (next r p) i = Step-IsBounded p (Reach-IsBounded r i)
