-- ===== src/PrioQueue/Counts.antt =====
-- The counters of the queue, and its invariant: the levels are sorted and none has priority zero,
-- `empty_levels` counts the kept empty levels, and `size` the messages.
use reconverse.Prelude.{
  ℕ, suc, ◌≤◌, ◌+◌, ◌-◌, ◌≡◌, refl, ap, Bool, true, false, Option, none, some, [], ◌∷◌, arith,
  length, length-append, Option-cases, inl, inr, Bool-cases,
}
use reconverse.Prelude.Int.{ℤ}
use reconverse.PrioQueue.Levels.{Level, LevelMap, is_zero, is_empty, find}
use reconverse.PrioQueue.Order.{
  IsSorted, NonZero, put_level, modify-claimed, find-Above, Above-mono, put_level-IsSorted,
  put_level-NonZero,
}
use reconverse.PrioQueue.{
  Queue, kept_empty_levels, edit_level, enqueue, enqueue_front, push_back, push_front_level,
}

abbrev pub count_if : Bool → ℕ
count_if true = 1
count_if false = 0

abbrev pub empties : LevelMap → ℕ
empties [] = 0
empties ((k, l) ∷ lv) = count_if (is_empty l) + empties lv

abbrev pub total : LevelMap → ℕ
total [] = 0
total ((k, l) ∷ lv) = length l + total lv

pub record IsValid (q : Queue) : Type 0 where
  pub sorted : IsSorted q.levels
  pub non_zero : NonZero q.levels
  pub counted : q.empty_levels ≡ empties q.levels
  pub kept : q.empty_levels ≤ kept_empty_levels
  pub sized : q.size ≡ length q.zero_level + total q.levels

-- An edit that adds one message.
abbrev pub Grows : (Level → Level) → Type 0
Grows f = (l : Level) → length (f l) ≡ suc (length l)

abbrev found_empty : Option Level → ℕ
found_empty none = 0
found_empty (some l) = count_if (is_empty l)

count_if-nonempty : (l : Level) (n : ℕ) → length l ≡ suc n → count_if (is_empty l) ≡ 0
count_if-nonempty [] n e = ground arith
count_if-nonempty (m ∷ l) n e = refl

module _ (p : ℤ) (f : Level → Level) where
  pub edit_level-levels :
      (q : Queue)
      → IsSorted q.levels
      → is_zero p ≡ false
      → (edit_level q p f).levels ≡ put_level p f q.levels
  unfolding edit_level
  edit_level-levels q s h =
      ground (arith, modify-claimed p f q.levels s, Option-cases (find p q.levels))

  edit_level-empties :
      (q : Queue)
      → is_zero p ≡ false
      → (edit_level q p f).empty_levels ≡ q.empty_levels - found_empty (find p q.levels)
  unfolding edit_level
  edit_level-empties q h = ground (arith, Option-cases (find p q.levels))

  pub edit_level-rest :
      (q : Queue)
      → is_zero p ≡ false
      → ((edit_level q p f).zero_level ≡ q.zero_level) × ((edit_level q p f).size ≡ q.size)
  unfolding edit_level
  edit_level-rest q h = ground (arith, Option-cases (find p q.levels))

  pub edit_level-zero :
      (q : Queue) → is_zero p ≡ true → edit_level q p f ≡ record q { zero_level = f q.zero_level }
  unfolding edit_level
  edit_level-zero q h = rw h

module _ (p : ℤ) (f : Level → Level) (grows : Grows f) where
  empties-put_level :
      (lv : LevelMap)
      → IsSorted lv
      → empties (put_level p f lv) + found_empty (find p lv) ≡ empties lv
  unfolding put_level find
  empties-put_level [] s = ground (arith, count_if-nonempty (f []) 0 (grows []))
  empties-put_level ((k, l) ∷ lv) s = ground (
    arith,
    empties-put_level lv s.1,
    count_if-nonempty (f []) 0 (grows []),
    count_if-nonempty (f l) (length l) (grows l),
    find-Above p lv,
    Above-mono p k lv,
  )

  total-put_level : (lv : LevelMap) → total (put_level p f lv) ≡ suc (total lv)
  unfolding put_level
  total-put_level [] = ground (arith, grows [])
  total-put_level ((k, l) ∷ lv) = ground (arith, total-put_level lv, grows [], grows l)

  edit_level-counts :
      (q : Queue) → IsValid q → let r = edit_level q p f in IsValid (record r { size = suc r.size })
  edit_level-counts q v = elim (Bool-cases (is_zero p)) [
    | inl z ↦ rw (edit_level-zero p f q z) (record {
      sorted = v.sorted;
      non_zero = v.non_zero;
      counted = v.counted;
      kept = v.kept;
      sized = omega (arith, grows q.zero_level, v.sized);
    })
    | inr nz ↦ record {
      sorted = rw (edit_level-levels p f q v.sorted nz) (put_level-IsSorted p f q.levels v.sorted);
      non_zero =
          rw (edit_level-levels p f q v.sorted nz) (put_level-NonZero p f q.levels nz v.non_zero);
      counted = rw (edit_level-levels p f q v.sorted nz) (
          omega
            (arith, edit_level-empties p f q nz, empties-put_level q.levels v.sorted, v.counted));
      kept = omega (arith, edit_level-empties p f q nz, v.kept);
      sized = rw (edit_level-levels p f q v.sorted nz) (
          omega (
            arith,
            ap length (edit_level-rest p f q nz).0,
            (edit_level-rest p f q nz).1,
            total-put_level q.levels,
            v.sized,
          ));
    }
  ]

pub push_back-Grows : (m : ℕ) → Grows (push_back m)
push_back-Grows m l = omega (arith, length-append l (m ∷ []))

pub push_front-Grows : (m : ℕ) → Grows (push_front_level m)
push_front-Grows m l = refl

-- QueuePush keeps the invariant.
pub enqueue-IsValid : (q : Queue) (m : ℕ) (p : ℤ) → IsValid q → IsValid (enqueue q m p)
unfolding enqueue
enqueue-IsValid q m p v = edit_level-counts p (push_back m) (push_back-Grows m) q v

-- QueuePushFront keeps the invariant.
pub enqueue_front-IsValid : (q : Queue) (m : ℕ) (p : ℤ) → IsValid q → IsValid (enqueue_front q m p)
unfolding enqueue_front
enqueue_front-IsValid q m p v = edit_level-counts p (push_front_level m) (push_front-Grows m) q v
