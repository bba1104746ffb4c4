-- ===== src/TaskQueue/Limits.antt =====
-- Which indices may still be claimed in the queue of include/taskqueue.h: the limit up to which tasks
-- are unclaimed, at each point of the owner's code.
use reconverse.Prelude.{
  ℕ, suc, ◌+◌, ◌<◌, ◌≤◌, ◌≡◌, refl, true, false, List, [], ◌∷◌, ◌++◌, arith, ◌∙◌,
}
use reconverse.Prelude.Int.{ℤ, pos, ltb_ℤ, ◌<ℤ◌, pos_part, neg_part, eq_of_parts}
use reconverse.Prelude.Count.{AllBelow}
use reconverse.TaskQueue.{
  Owner, idle, pushing, stored, empty, last, contend, reading_top, reading_last, State,
}

-- Below `b` lie the tasks that nobody has claimed yet, from `head` on: how `b` stands to the owner,
-- the head and the tail.
abbrev pub Fits : Owner → ℕ → ℤ → ℕ → Type 0
Fits idle head tail b = (tail ≡ pos b) × (head ≤ b)
Fits (pushing x) head tail b = (tail ≡ pos b) × (head ≤ b)
Fits (stored t) head tail b = (tail ≡ t) × (pos_part t + 1 ≡ b + neg_part t) × (head ≤ b)
Fits (empty h) head tail b = (tail <ℤ pos b) × (head ≡ h) × (h ≡ b)
Fits (last h) head tail b = (tail ≡ pos h) × (b ≡ h + 1) × (h ≤ head) × (head ≤ b)
Fits (contend h) head tail b = (tail ≡ pos b) × (b ≡ h + 1) × (h ≤ head) × (head ≤ b)
Fits (reading_top t) head tail b = (tail ≡ pos b) × (t ≡ b) × (head ≤ b)
Fits (reading_last h) head tail b = (tail ≡ pos b) × (b ≡ h + 1) × (head ≡ b)

pub record IsBounded (s : State) : Type 0 where
  pub limit : ℕ
  pub fits : Fits s.owner s.head s.tail limit
  -- Heads that thieves hold are not ahead of the head, and those past their test are claimable.
  pub heads : AllBelow (suc s.head) s.saw_head
  pub tails : AllBelow (suc s.head) s.saw_tail
  pub claims : AllBelow limit s.saw_tail
  -- What thieves still have to read lies behind the head.
  pub reads : AllBelow s.head s.reading

pub AllBelow-mono : (m n : ℕ) (xs : List ℕ) → m ≤ n → AllBelow m xs → AllBelow n xs
AllBelow-mono m n [] h a = tt
AllBelow-mono m n (x ∷ xs) h a = (omega arith, AllBelow-mono m n xs h a.1)

pub AllBelow-removed :
    (n h : ℕ) (before after : List ℕ)
    → AllBelow n (before ++ h ∷ after)
    → (h < n) × AllBelow n (before ++ after)
AllBelow-removed n h [] after a = a
AllBelow-removed n h (x ∷ before) after a =
    let r = AllBelow-removed n h before after a.1 in (r.0, (a.0, r.1))

pub tail-le :
    (o : Owner) (head : ℕ) (tail : ℤ) (b h : ℕ) → Fits o head tail b → pos h <ℤ tail → h < b
tail-le idle head tail b h f p = ground arith
tail-le (pushing x) head tail b h f p = ground arith
tail-le (stored t) head tail b h f p = ground arith
tail-le (empty k) head tail b h f p = ground arith
tail-le (last k) head tail b h f p = ground arith
tail-le (contend k) head tail b h f p = ground arith
tail-le (reading_top k) head tail b h f p = ground arith
tail-le (reading_last k) head tail b h f p = ground arith

-- A thief that wins the swap moves the head within the limit.
pub swap-Fits :
    (o : Owner) (head : ℕ) (tail : ℤ) (b : ℕ)
    → head < b
    → Fits o head tail b
    → Fits o (head + 1) tail b
swap-Fits idle head tail b p f = ground arith
swap-Fits (pushing x) head tail b p f = ground arith
swap-Fits (stored t) head tail b p f = (f.0, f.1, omega arith)
swap-Fits (empty k) head tail b p f = absurd (omega arith)
swap-Fits (last k) head tail b p f = ground arith
swap-Fits (contend k) head tail b p f = ground arith
swap-Fits (reading_top k) head tail b p f = ground arith
swap-Fits (reading_last k) head tail b p f = absurd (omega arith)

-- What thieves hold, at a limit.
abbrev pub Held : State → ℕ → Type 0
Held s b =
    AllBelow (suc s.head) s.saw_head
    × AllBelow (suc s.head) s.saw_tail
    × AllBelow b s.saw_tail
    × AllBelow s.head s.reading

pub bounded : (s : State) (b : ℕ) → Fits s.owner s.head s.tail b → Held s b → IsBounded s
bounded s b f m = record {
  limit = b;
  fits = f;
  heads = m.0;
  tails = m.1;
  claims = m.2;
  reads = m.3;
}

pub Held-up : (s : State) (b h : ℕ) → s.head ≤ h → Held s b → Held (record s { head = h }) b
Held-up s b h le m = (
  AllBelow-mono (suc s.head) (suc h) s.saw_head (omega arith) m.0,
  AllBelow-mono (suc s.head) (suc h) s.saw_tail (omega arith) m.1,
  m.2,
  AllBelow-mono s.head h s.reading le m.3,
)

module _ (t : ℤ) (head : ℕ) (tail : ℤ) (b : ℕ) (f : Fits (stored t) head tail b) where
  pub top_tail : ltb_ℤ (pos head) t ≡ true → tail ≡ pos (pos_part t)
  top_tail p = f.0 ∙ eq_of_parts t (pos (pos_part t)) (ground arith)

  pub empty-Fits :
      ltb_ℤ (pos head) t ≡ false → ltb_ℤ t (pos head) ≡ true → Fits (empty head) head tail b
  empty-Fits p q = rw f.0 (ground arith, refl, ground arith)

  pub last-Fits :
      ltb_ℤ (pos head) t ≡ false → ltb_ℤ t (pos head) ≡ false → Fits (last head) head tail b
  last-Fits p q = (f.0 ∙ eq_of_parts t (pos head) (ground arith), ground arith, omega arith, f.2)
