-- ===== src/PrioQueue/Pop.antt =====
-- What comes out: QueueTop, QueueTopPriority and QueuePop against the sequence of the contents.
use reconverse.Prelude.{
  ℕ, suc, ◌+◌, ◌-◌, ◌≡◌, refl, sym, ap, ◌∙◌, true, false, none, some, List, [], ◌∷◌, arith, inl,
  inr, Bool-cases,
}
use reconverse.Prelude.Int.{ℤ, pos, eqb_ℤ, eqb_ℤ→eq}
use reconverse.PrioQueue.Levels.{
  Level, LevelMap, is_zero, is_empty, is_negative, find, modify, erase,
}
use reconverse.PrioQueue.Order.{
  Above, IsSorted, NonZero, find-Above, modify-IsSorted, modify-NonZero, erase-IsSorted,
  erase-NonZero,
}
use reconverse.PrioQueue.Counts.{IsValid, total, empties, count_if}
use reconverse.PrioQueue.Merge.{merged, entries, first, place_of, merged-modify, merged-modify_zero}
use reconverse.PrioQueue.Refine.{contents}
use reconverse.PrioQueue.Spec.{Entry}
use reconverse.PrioQueue.{Queue, at_zero, at_key, pop_front, take_from}

pub find-merged :
    (p : ℤ) (lv : LevelMap) (z : Level) → is_zero p ≡ false → find p (merged lv z) ≡ find p lv
unfolding find merged
find-merged p [] z h = ground arith
find-merged p ((k, l) ∷ lv) z h = ground (arith, find-merged p lv z h)

pub find-merged_zero :
    (lv : LevelMap) (z : Level) → NonZero lv → find (pos 0) (merged lv z) ≡ some z
unfolding find merged
find-merged_zero [] z n = refl
find-merged_zero ((k, l) ∷ lv) z n = ground (arith, find-merged_zero lv z n.1)

merged-positive :
    (k : ℤ) (lv : LevelMap) (z : Level)
    → is_negative k ≡ false
    → Above k lv
    → merged lv z ≡ (pos 0, z) ∷ lv
unfolding merged
merged-positive k [] z h a = refl
merged-positive k ((j, l) ∷ lv) z h a = ground arith

merged-erase :
    (p : ℤ) (lv : LevelMap) (z : Level)
    → is_zero p ≡ false
    → IsSorted lv
    → merged (erase p lv) z ≡ erase p (merged lv z)
unfolding erase merged
merged-erase p [] z h s = ground arith
merged-erase p ((k, l) ∷ lv) z h s =
    ground (arith, merged-erase p lv z h s.1, merged-positive k lv z)

pub first-none : (lv : LevelMap) → first lv ≡ none → entries lv ≡ []
unfolding first
first-none [] e = refl
first-none ((k, []) ∷ lv) e = first-none lv e
first-none ((k, m ∷ l) ∷ lv) e = cc

pub record Front (k : ℤ) (lv : LevelMap) : Type 0 where
  pub message : ℕ
  pub behind : Level
  pub found : find k lv ≡ some (message ∷ behind)
  pub leads : entries lv ≡ (k, message) ∷ entries (modify k pop_front lv)

pub first-Front : (k : ℤ) (lv : LevelMap) → IsSorted lv → first lv ≡ some k → Front k lv
unfolding first find modify pop_front
first-Front k [] s e = absurd (cc)
first-Front k ((j, m ∷ l) ∷ lv) s e = record {
  message = m;
  behind = l;
  found = ground arith;
  leads = ground arith;
}
first-Front k ((j, []) ∷ lv) s e =
    let r = first-Front k lv s.1 e in
    record {
      message = r.message;
      behind = r.behind;
      found = ground (arith, r.found, find-Above k lv, off);
      leads = ground (arith, r.leads, r.found, find-Above k lv, off);
    }
  where
    off : eqb_ℤ j k ≡ true → find k lv ≡ none
    off h = let p : j ≡ k = eqb_ℤ→eq j k h in rw (← p) (find-Above j lv s.0)

find-modify :
    (p : ℤ) (f : Level → Level) (lv : LevelMap) (l : Level)
    → find p lv ≡ some l
    → find p (modify p f lv) ≡ some (f l)
unfolding find modify
find-modify p f [] l e = cc
find-modify p f ((k, x) ∷ lv) l e = ground (arith, find-modify p f lv l)

entries-erase : (p : ℤ) (lv : LevelMap) → find p lv ≡ some [] → entries (erase p lv) ≡ entries lv
unfolding find erase
entries-erase p [] e = refl
entries-erase p ((k, x) ∷ lv) e = ground (arith, entries-erase p lv)

empties-erase :
    (p : ℤ) (lv : LevelMap) → find p lv ≡ some [] → suc (empties (erase p lv)) ≡ empties lv
unfolding find erase
empties-erase p [] e = cc
empties-erase p ((k, x) ∷ lv) e = ground (arith, empties-erase p lv)

total-erase : (p : ℤ) (lv : LevelMap) → find p lv ≡ some [] → total (erase p lv) ≡ total lv
unfolding find erase
total-erase p [] e = refl
total-erase p ((k, x) ∷ lv) e = ground (arith, total-erase p lv)

empties-modify :
    (p : ℤ) (lv : LevelMap) (m : ℕ) (l : Level)
    → find p lv ≡ some (m ∷ l)
    → (empties (modify p pop_front lv) ≡ count_if (is_empty l) + empties lv)
      × (suc (total (modify p pop_front lv)) ≡ total lv)
unfolding find modify pop_front
empties-modify p [] m l e = absurd (cc)
empties-modify p ((k, x) ∷ lv) m l e = ground (arith, empties-modify p lv m l)

-- Taking the first message of a level `k` of the map.
module _ (q : Queue) (v : IsValid q) (k : ℤ) (m : ℕ) (l : Level) (nz : is_zero k ≡ false)
    (found : find k q.levels ≡ some (m ∷ l)) where
  abbrev shorter : LevelMap
  shorter = modify k pop_front q.levels

  shorter-found : find k shorter ≡ some l
  unfolding pop_front
  shorter-found = find-modify k pop_front q.levels (m ∷ l) found

  take_key-entries :
      entries (merged (take_from q (at_key k)).levels q.zero_level)
      ≡ entries (merged shorter q.zero_level)
  unfolding take_from
  take_key-entries = ground (
    arith,
    shorter-found,
    ap entries
        (merged-erase k shorter q.zero_level nz (modify-IsSorted k pop_front q.levels v.sorted)),
    entries-erase k (merged shorter q.zero_level),
    find-merged k shorter q.zero_level nz,
  )

  take_key-zero : (take_from q (at_key k)).zero_level ≡ q.zero_level
  unfolding take_from
  take_key-zero = ground (arith, shorter-found)

  take_key-IsValid : IsValid (take_from q (at_key k))
  unfolding take_from
  take_key-IsValid = ground (
    arith,
    shorter-found,
    empties-modify k q.levels m l found,
    empties-erase k shorter,
    total-erase k shorter,
    modify-IsSorted k pop_front q.levels v.sorted,
    modify-NonZero k pop_front q.levels v.non_zero,
    erase-IsSorted k shorter,
    erase-NonZero k shorter,
  )

-- Taking the first message of the zero level.
module _ (q : Queue) (v : IsValid q) (m : ℕ) (l : Level) (found : q.zero_level ≡ m ∷ l) where
  take_zero :
      take_from q at_zero ≡ record q { zero_level = pop_front q.zero_level; size = q.size - 1 }
  unfolding take_from
  take_zero = ground arith

  take_zero-IsValid : IsValid (take_from q at_zero)
  unfolding pop_front
  take_zero-IsValid = rw take_zero (record {
    sorted = v.sorted;
    non_zero = v.non_zero;
    counted = v.counted;
    kept = v.kept;
    sized = rw found (ground (arith, v.sized, found));
  })

-- What `take_from` does at the place of the first level.
pub record Taken (q : Queue) (r : Queue) (es : List Entry) : Type 0 where
  pub valid : IsValid r
  pub leaves : contents r ≡ es

pub take_from-Taken :
    (q : Queue) (k : ℤ)
    → IsValid q
    → (f : Front k (merged q.levels q.zero_level))
    → Taken q
        (take_from q (place_of k))
        (entries (modify k pop_front (merged q.levels q.zero_level)))
take_from-Taken q k v f = elim (Bool-cases (is_zero k)) [
  | inl z ↦
      let e : k ≡ pos 0 = eqb_ℤ→eq k (pos 0) z in
      let zl : q.zero_level ≡ f.message ∷ f.behind = ground (
        arith,
        find-merged_zero q.levels q.zero_level v.non_zero,
        (let g : find (pos 0) (merged q.levels q.zero_level) ≡ some (f.message ∷ f.behind) =
              rw (← e) f.found in
            g),
      ) in
      rw z (record {
        valid = take_zero-IsValid q v f.message f.behind zl;
        leaves =
            rw (take_zero q v f.message f.behind zl)
              (rw (merged-modify_zero pop_front q.levels q.zero_level v.non_zero) (rw e refl));
      })
  | inr nz ↦
      let fl : find k q.levels ≡ some (f.message ∷ f.behind) =
        sym (find-merged k q.levels q.zero_level nz) ∙ f.found in
      rw nz (record {
        valid = take_key-IsValid q v k f.message f.behind nz fl;
        leaves = rw (take_key-zero q v k f.message f.behind nz fl) (
            take_key-entries q v k f.message f.behind nz fl
            ∙ ap entries (merged-modify k pop_front q.levels q.zero_level nz));
      })
]
