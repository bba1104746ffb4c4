-- ===== src/PrioQueue/Levels.antt =====
-- std::map<long long, std::deque<void *>> as a list of its pairs by increasing key, and the map
-- operations that src/queueing.cpp calls.
use reconverse.Prelude.{ℕ, Bool, true, false, Option, none, some, List, [], ◌∷◌, if◌then◌else◌}
use reconverse.Prelude.Int.{ℤ, pos, ltb_ℤ, eqb_ℤ}

abbrev pub Level : Type 0
Level = List ℕ

abbrev pub LevelMap : Type 0
LevelMap = List (ℤ × Level)

abbrev pub is_empty : Level → Bool
is_empty [] = true
is_empty (m ∷ l) = false

abbrev pub is_negative : ℤ → Bool
is_negative k = ltb_ℤ k (pos 0)

abbrev pub is_zero : ℤ → Bool
is_zero k = eqb_ℤ k (pos 0)

unfoldable pub find : ℤ → LevelMap → Option Level
find p [] = none
find p ((k, l) ∷ lv) = if eqb_ℤ k p then some l else find p lv

-- An empty level under a key that is not there yet.
unfoldable pub emplace : ℤ → LevelMap → LevelMap
emplace p [] = (p, []) ∷ []
emplace p ((k, l) ∷ lv) = if ltb_ℤ p k then (p, []) ∷ (k, l) ∷ lv else (k, l) ∷ emplace p lv

unfoldable pub modify : ℤ → (Level → Level) → LevelMap → LevelMap
modify p f [] = []
modify p f ((k, l) ∷ lv) = if eqb_ℤ k p then (k, f l) ∷ lv else (k, l) ∷ modify p f lv

unfoldable pub erase : ℤ → LevelMap → LevelMap
erase p [] = []
erase p ((k, l) ∷ lv) = if eqb_ℤ k p then lv else (k, l) ∷ erase p lv
