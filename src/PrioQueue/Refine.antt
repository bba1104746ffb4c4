-- ===== src/PrioQueue/Refine.antt =====
-- The queue holds one sequence of messages, and the pushes act on it as the specification says.
use reconverse.Prelude.{
  ℕ, suc, ◌+◌, ◌≡◌, refl, sym, ap, ◌∙◌, List, [], ◌∷◌, ◌++◌, arith, length, length-append, inl, inr,
  Bool-cases,
}
use reconverse.Prelude.Int.{ℤ, pos, ◌<ℤ◌, eqb_ℤ→eq, below, same, above, Compare-total}
use reconverse.PrioQueue.Levels.{Level, LevelMap, is_zero}
use reconverse.PrioQueue.Order.{Above, IsSorted, put_level, Above-mono}
use reconverse.PrioQueue.Counts.{
  IsValid, total, edit_level-levels, edit_level-rest, edit_level-zero,
}
use reconverse.PrioQueue.Merge.{
  merged, tag, entries, merged-IsSorted, merged-put_level, merged-zero,
}
use reconverse.PrioQueue.Spec.{Entry, insert_back, insert_front}
use reconverse.PrioQueue.{Queue, edit_level, enqueue, enqueue_front, push_back, push_front_level}

-- The messages in the order in which they come out, each with its priority.
abbrev pub contents : Queue → List Entry
contents q = entries (merged q.levels q.zero_level)

length-tag : (k : ℤ) (l : Level) → length (tag k l) ≡ length l
length-tag k [] = refl
length-tag k (m ∷ l) = ap suc (length-tag k l)

length-entries : (lv : LevelMap) → length (entries lv) ≡ total lv
length-entries [] = refl
length-entries ((k, l) ∷ lv) =
    omega (arith, length-append (tag k l) (entries lv), length-tag k l, length-entries lv)

total-merged : (lv : LevelMap) (z : Level) → total (merged lv z) ≡ length z + total lv
unfolding merged
total-merged [] z = refl
total-merged ((k, l) ∷ lv) z = ground (arith, total-merged lv z)

pub size-contents : (q : Queue) → IsValid q → length (contents q) ≡ q.size
size-contents q v = omega (
  arith,
  length-entries (merged q.levels q.zero_level),
  total-merged q.levels q.zero_level,
  v.sized,
)

abbrev Behind : ℤ → List Entry → Type 0
Behind p [] = Unit {0}
Behind p ((k, m) ∷ es) = (p <ℤ k) × Behind p es

Behind-tag :
    (p k : ℤ) (l : Level) (es : List Entry) → p <ℤ k → Behind p es → Behind p (tag k l ++ es)
Behind-tag p k [] es h b = b
Behind-tag p k (m ∷ l) es h b = (h, Behind-tag p k l es h b)

Behind-entries : (p : ℤ) (lv : LevelMap) → Above p lv → Behind p (entries lv)
Behind-entries p [] a = tt
Behind-entries p ((k, l) ∷ lv) a = Behind-tag p k l (entries lv) a.0 (Behind-entries p lv a.1)

-- An edit of a level acts on the entries as `ins`, when it does so at the level's own place.
module _ (p : ℤ) (f : Level → Level) (ins : List Entry → List Entry)
    (passes : (k : ℤ) (l : Level) (es : List Entry)
      → k <ℤ p
      → ins (tag k l ++ es) ≡ tag k l ++ ins es)
    (lands : (l : Level) (es : List Entry)
      → Behind p es
      → ins (tag p l ++ es) ≡ tag p (f l) ++ es) where
  entries-put_level : (lv : LevelMap) → IsSorted lv → entries (put_level p f lv) ≡ ins (entries lv)
  unfolding put_level
  entries-put_level [] s = sym (lands [] [] tt)
  entries-put_level ((k, l) ∷ lv) s = elim (Compare-total p k) [
    | below h ↦ rw (put_below h) (
        sym (
          lands [] (tag k l ++ entries lv) (
            Behind-tag p k l (entries lv) h
              (Behind-entries p lv (Above-mono p k lv (omega arith) s.0)))))
    | same e ↦ rw (put_same e) (
        rw (← e)
          (sym (lands l (entries lv) (Behind-entries p lv (Above-mono p k lv (ground arith) s.0)))))
    | above h ↦
        rw (put_above h)
          (ap (◌++◌ (tag k l)) (entries-put_level lv s.1) ∙ sym (passes k l (entries lv) h))
  ]
    where
      put_below : p <ℤ k → put_level p f ((k, l) ∷ lv) ≡ (p, f []) ∷ (k, l) ∷ lv
      put_below h = ground arith

      put_same : p ≡ k → put_level p f ((k, l) ∷ lv) ≡ (k, f l) ∷ lv
      put_same e = ground arith

      put_above : k <ℤ p → put_level p f ((k, l) ∷ lv) ≡ (k, l) ∷ put_level p f lv
      put_above h = ground arith

  contents-edit : (q : Queue) → IsValid q → contents (edit_level q p f) ≡ ins (contents q)
  contents-edit q v = elim (Bool-cases (is_zero p)) [
    | inl z ↦ rw (edit_level-zero p f q z) (
        rw (merged-zero f q.levels q.zero_level v.non_zero) (
          let e : p ≡ pos 0 = eqb_ℤ→eq p (pos 0) z in
          rw (← e)
            (entries-put_level _ (merged-IsSorted q.levels q.zero_level v.sorted v.non_zero))))
    | inr nz ↦
        rw
          (
            edit_level-levels p f q v.sorted nz,
            (edit_level-rest p f q nz).0,
            merged-put_level p f q.levels q.zero_level nz v.non_zero,
          )
          (entries-put_level _ (merged-IsSorted q.levels q.zero_level v.sorted v.non_zero))
  ]

module _ (p : ℤ) (m : ℕ) where
  insert_back-passes :
      (k : ℤ) (l : Level) (es : List Entry)
      → k <ℤ p
      → insert_back p m (tag k l ++ es) ≡ tag k l ++ insert_back p m es
  unfolding insert_back
  insert_back-passes k [] es h = refl
  insert_back-passes k (x ∷ l) es h = ground (arith, insert_back-passes k l es h)

  insert_back-Behind : (es : List Entry) → Behind p es → insert_back p m es ≡ (p, m) ∷ es
  unfolding insert_back
  insert_back-Behind [] b = refl
  insert_back-Behind ((k, x) ∷ es) b = ground arith

  insert_back-lands :
      (l : Level) (es : List Entry)
      → Behind p es
      → insert_back p m (tag p l ++ es) ≡ tag p (push_back m l) ++ es
  unfolding insert_back
  insert_back-lands [] es b = insert_back-Behind es b
  insert_back-lands (x ∷ l) es b = ground (arith, insert_back-lands l es b)

  insert_front-passes :
      (k : ℤ) (l : Level) (es : List Entry)
      → k <ℤ p
      → insert_front p m (tag k l ++ es) ≡ tag k l ++ insert_front p m es
  unfolding insert_front
  insert_front-passes k [] es h = refl
  insert_front-passes k (x ∷ l) es h = ground (arith, insert_front-passes k l es h)

  insert_front-lands :
      (l : Level) (es : List Entry)
      → Behind p es
      → insert_front p m (tag p l ++ es) ≡ tag p (push_front_level m l) ++ es
  unfolding insert_front
  insert_front-lands [] [] b = refl
  insert_front-lands [] ((k, x) ∷ es) b = ground arith
  insert_front-lands (x ∷ l) es b = ground arith

-- A FIFO push puts the message behind all those of its priority and before the later ones.
pub enqueue_refines :
    (q : Queue) (m : ℕ) (p : ℤ)
    → IsValid q
    → contents (enqueue q m p) ≡ insert_back p m (contents q)
unfolding enqueue
enqueue_refines q m p v =
    contents-edit p (push_back m) (insert_back p m) (insert_back-passes p m) (insert_back-lands p m)
      q v

-- A LIFO push puts the message ahead of all those of its priority and behind the earlier ones.
pub enqueue_front_refines :
    (q : Queue) (m : ℕ) (p : ℤ)
    → IsValid q
    → contents (enqueue_front q m p) ≡ insert_front p m (contents q)
unfolding enqueue_front
enqueue_front_refines q m p v =
    contents-edit p (push_front_level m) (insert_front p m) (insert_front-passes p m)
      (insert_front-lands p m) q v
