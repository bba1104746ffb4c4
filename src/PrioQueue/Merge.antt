-- ===== src/PrioQueue/Merge.antt =====
-- The levels with the zero level put at its place among them: one sorted map, whose entries in
-- order are the contents of the queue.
use reconverse.Prelude.{
  ◌≡◌, refl, false, Option, none, some, List, [], ◌∷◌, ◌++◌, arith, if◌then◌else◌,
}
use reconverse.Prelude.Int.{ℤ, pos, ◌<ℤ◌}
use reconverse.PrioQueue.Levels.{Level, LevelMap, is_zero, is_negative, is_empty, modify}
use reconverse.PrioQueue.Order.{Above, IsSorted, NonZero, put_level, Above-mono}
use reconverse.PrioQueue.Spec.{Entry}
use reconverse.PrioQueue.{
  Place, at_zero, at_key, front_from, front_rest, priority_from, priority_rest, llong_max,
}

unfoldable pub merged : LevelMap → Level → LevelMap
merged [] z = (pos 0, z) ∷ []
merged ((k, l) ∷ lv) z = if is_negative k then (k, l) ∷ merged lv z else (pos 0, z) ∷ (k, l) ∷ lv

abbrev pub tag : ℤ → Level → List Entry
tag k [] = []
tag k (m ∷ l) = (k, m) ∷ tag k l

abbrev pub entries : LevelMap → List Entry
entries [] = []
entries ((k, l) ∷ lv) = tag k l ++ entries lv

merged-Above : (b : ℤ) (lv : LevelMap) (z : Level) → b <ℤ pos 0 → Above b lv → Above b (merged lv z)
unfolding merged
merged-Above b [] z h a = (h, tt)
merged-Above b ((k, l) ∷ lv) z h a = ground (arith, merged-Above b lv z h a.1)

pub merged-IsSorted :
    (lv : LevelMap) (z : Level) → IsSorted lv → NonZero lv → IsSorted (merged lv z)
unfolding merged
merged-IsSorted [] z s n = (tt, tt)
merged-IsSorted ((k, l) ∷ lv) z s n =
    ground (arith, merged-IsSorted lv z s.1 n.1, merged-Above k lv z, Above-mono (pos 0) k lv)

pub merged-put_level :
    (p : ℤ) (f : Level → Level) (lv : LevelMap) (z : Level)
    → is_zero p ≡ false
    → NonZero lv
    → merged (put_level p f lv) z ≡ put_level p f (merged lv z)
unfolding merged put_level
merged-put_level p f [] z h n = ground arith
merged-put_level p f ((k, l) ∷ lv) z h n = ground (arith, merged-put_level p f lv z h n.1)

pub merged-zero :
    (f : Level → Level) (lv : LevelMap) (z : Level)
    → NonZero lv
    → merged lv (f z) ≡ put_level (pos 0) f (merged lv z)
unfolding merged put_level
merged-zero f [] z n = refl
merged-zero f ((k, l) ∷ lv) z n = ground (arith, merged-zero f lv z n.1)

pub merged-modify :
    (p : ℤ) (f : Level → Level) (lv : LevelMap) (z : Level)
    → is_zero p ≡ false
    → merged (modify p f lv) z ≡ modify p f (merged lv z)
unfolding merged modify
merged-modify p f [] z h = ground arith
merged-modify p f ((k, l) ∷ lv) z h = ground (arith, merged-modify p f lv z h)

pub merged-modify_zero :
    (f : Level → Level) (lv : LevelMap) (z : Level)
    → NonZero lv
    → merged lv (f z) ≡ modify (pos 0) f (merged lv z)
unfolding merged modify
merged-modify_zero f [] z n = refl
merged-modify_zero f ((k, l) ∷ lv) z n = ground (arith, merged-modify_zero f lv z n.1)

-- The first level that is not empty.
unfoldable pub first : LevelMap → Option ℤ
first [] = none
first ((k, l) ∷ lv) = if is_empty l then first lv else some k

abbrev pub place_of : ℤ → Place
place_of k = if is_zero k then at_zero else at_key k

abbrev pub places : Option ℤ → Option Place
places none = none
places (some k) = some (place_of k)

front_rest-first : (lv : LevelMap) → NonZero lv → front_rest lv ≡ places (first lv)
unfolding front_rest first
front_rest-first [] n = refl
front_rest-first ((k, l) ∷ lv) n = ground (arith, front_rest-first lv n.1)

pub front_from-first :
    (lv : LevelMap) (z : Level) → NonZero lv → front_from lv z ≡ places (first (merged lv z))
unfolding front_from first merged
front_from-first [] z n = ground arith
front_from-first ((k, l) ∷ lv) z n =
    ground (arith, front_from-first lv z n.1, front_rest-first lv n.1)

abbrev pub priority_of : Option ℤ → ℤ
priority_of none = llong_max
priority_of (some k) = k

priority_rest-first : (lv : LevelMap) → priority_rest lv ≡ priority_of (first lv)
unfolding priority_rest first
priority_rest-first [] = refl
priority_rest-first ((k, l) ∷ lv) = ground (arith, priority_rest-first lv)

pub priority_from-first :
    (lv : LevelMap) (z : Level) → priority_from lv z ≡ priority_of (first (merged lv z))
unfolding priority_from first merged
priority_from-first [] z = ground arith
priority_from-first ((k, l) ∷ lv) z =
    ground (arith, priority_from-first lv z, priority_rest-first lv)
