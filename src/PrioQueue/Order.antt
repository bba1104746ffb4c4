-- ===== src/PrioQueue/Order.antt =====
-- The order of the level map: its keys increase, and the operations on it keep that.
use reconverse.Prelude.{◌≡◌, refl, false, Option, none, some, [], ◌∷◌, arith, if◌then◌else◌}
use reconverse.Prelude.Int.{ℤ, ltb_ℤ, eqb_ℤ, ◌<ℤ◌, ◌≤ℤ◌}
use reconverse.PrioQueue.Levels.{Level, LevelMap, is_zero, find, emplace, modify, erase}

abbrev pub Above : ℤ → LevelMap → Type 0
Above p [] = Unit {0}
Above p ((k, l) ∷ lv) = (p <ℤ k) × Above p lv

abbrev pub IsSorted : LevelMap → Type 0
IsSorted [] = Unit {0}
IsSorted ((k, l) ∷ lv) = Above k lv × IsSorted lv

-- Priority zero is not in the map.
abbrev pub NonZero : LevelMap → Type 0
NonZero [] = Unit {0}
NonZero ((k, l) ∷ lv) = (is_zero k ≡ false) × NonZero lv

pub Above-mono : (p k : ℤ) (lv : LevelMap) → p ≤ℤ k → Above k lv → Above p lv
Above-mono p k [] h a = tt
Above-mono p k ((j, l) ∷ lv) h a = (omega arith, Above-mono p k lv h a.1)

pub find-Above : (p : ℤ) (lv : LevelMap) → Above p lv → find p lv ≡ none
unfolding find
find-Above p [] a = refl
find-Above p ((k, l) ∷ lv) a = ground (arith, find-Above p lv a.1)

-- The level `p` edited by `f`, made first where it is missing.
unfoldable pub put_level : ℤ → (Level → Level) → LevelMap → LevelMap
put_level p f [] = (p, f []) ∷ []
put_level p f ((k, l) ∷ lv) =
    if ltb_ℤ p k
    then (p, f []) ∷ (k, l) ∷ lv
    else (if eqb_ℤ k p then (k, f l) ∷ lv else (k, l) ∷ put_level p f lv)

-- The map after `claim_level`.
abbrev pub claimed : ℤ → LevelMap → LevelMap
claimed p lv = elim (find p lv) [ none ↦ emplace p lv | some l ↦ lv ]

pub modify-emplace :
    (p : ℤ) (f : Level → Level) (lv : LevelMap)
    → IsSorted lv
    → find p lv ≡ none
    → modify p f (emplace p lv) ≡ put_level p f lv
unfolding find modify emplace put_level
modify-emplace p f [] s e = ground arith
modify-emplace p f ((k, l) ∷ lv) s e = ground (arith, modify-emplace p f lv s.1)

pub modify-found :
    (p : ℤ) (f : Level → Level) (lv : LevelMap) (l : Level)
    → IsSorted lv
    → find p lv ≡ some l
    → modify p f lv ≡ put_level p f lv
unfolding find modify put_level
modify-found p f [] l s e = ground arith
modify-found p f ((k, m) ∷ lv) l s e =
    ground (arith, modify-found p f lv l s.1, find-Above p lv, Above-mono p k lv)

pub modify-claimed :
    (p : ℤ) (f : Level → Level) (lv : LevelMap)
    → IsSorted lv
    → modify p f (claimed p lv) ≡ put_level p f lv
modify-claimed p f lv s = go (find p lv) refl
  where
    go :
        (o : Option Level)
        → find p lv ≡ o
        → modify p f (elim o [ none ↦ emplace p lv | some l ↦ lv ]) ≡ put_level p f lv
    go none e = modify-emplace p f lv s e
    go (some l) e = modify-found p f lv l s e

pub put_level-Above :
    (b p : ℤ) (f : Level → Level) (lv : LevelMap) → b <ℤ p → Above b lv → Above b (put_level p f lv)
unfolding put_level
put_level-Above b p f [] h a = (h, tt)
put_level-Above b p f ((k, l) ∷ lv) h a = ground (arith, put_level-Above b p f lv h a.1)

pub put_level-IsSorted :
    (p : ℤ) (f : Level → Level) (lv : LevelMap) → IsSorted lv → IsSorted (put_level p f lv)
unfolding put_level
put_level-IsSorted p f [] s = (tt, tt)
put_level-IsSorted p f ((k, l) ∷ lv) s =
    ground (arith, put_level-IsSorted p f lv s.1, Above-mono p k lv, put_level-Above k p f lv)

pub put_level-NonZero :
    (p : ℤ) (f : Level → Level) (lv : LevelMap)
    → is_zero p ≡ false
    → NonZero lv
    → NonZero (put_level p f lv)
unfolding put_level
put_level-NonZero p f [] h n = (h, tt)
put_level-NonZero p f ((k, l) ∷ lv) h n = ground (arith, put_level-NonZero p f lv h n.1)

module _ (p : ℤ) where
  pub modify-Above :
      (b : ℤ) (f : Level → Level) (lv : LevelMap) → Above b lv → Above b (modify p f lv)
  unfolding modify
  modify-Above b f [] a = tt
  modify-Above b f ((k, l) ∷ lv) a = ground (arith, modify-Above b f lv a.1)

  pub modify-IsSorted : (f : Level → Level) (lv : LevelMap) → IsSorted lv → IsSorted (modify p f lv)
  unfolding modify
  modify-IsSorted f [] s = tt
  modify-IsSorted f ((k, l) ∷ lv) s =
      ground (arith, modify-IsSorted f lv s.1, modify-Above k f lv s.0)

  pub modify-NonZero : (f : Level → Level) (lv : LevelMap) → NonZero lv → NonZero (modify p f lv)
  unfolding modify
  modify-NonZero f [] n = tt
  modify-NonZero f ((k, l) ∷ lv) n = ground (arith, modify-NonZero f lv n.1)

  pub erase-Above : (b : ℤ) (lv : LevelMap) → Above b lv → Above b (erase p lv)
  unfolding erase
  erase-Above b [] a = tt
  erase-Above b ((k, l) ∷ lv) a = ground (arith, erase-Above b lv a.1)

  pub erase-IsSorted : (lv : LevelMap) → IsSorted lv → IsSorted (erase p lv)
  unfolding erase
  erase-IsSorted [] s = tt
  erase-IsSorted ((k, l) ∷ lv) s = ground (arith, erase-IsSorted lv s.1, erase-Above k lv s.0)

  pub erase-NonZero : (lv : LevelMap) → NonZero lv → NonZero (erase p lv)
  unfolding erase
  erase-NonZero [] n = tt
  erase-NonZero ((k, l) ∷ lv) n = ground (arith, erase-NonZero lv n.1)
