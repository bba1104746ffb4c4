-- ===== src/MessageTable/Tests.antt =====
-- The theorems on the message table at a concrete table.
use reconverse.Prelude.{◌≡◌, ◌↔◌, refl, true, [], ◌∷◌, arith}
use reconverse.Prelude.Int.{pos}
use reconverse.MessageTable.{Table, next_of, find, tags_match, wild_card}
use reconverse.MessageTable.Match.{AllAgree, tags_match_iff}
use reconverse.MessageTable.Chain.{IsValid, entry, first_match, without_match, find_lem}

abbrev two : Table
two = record {
  entries = entry 100 (pos 1 ∷ pos 2 ∷ []) 7 ∷ entry 200 (pos 1 ∷ wild_card ∷ []) 8 ∷ [];
  lasth = next_of 200;
}

two-IsValid : IsValid two
two-IsValid = record { distinct = omega arith; at_end = refl }

find_lem_example :
    ((find two (pos 1 ∷ pos 5 ∷ []) true).0 ≡ first_match (pos 1 ∷ pos 5 ∷ []) two.entries)
    × ((find two (pos 1 ∷ pos 5 ∷ []) true).1.entries
        ≡ without_match (pos 1 ∷ pos 5 ∷ []) two.entries)
    × IsValid (find two (pos 1 ∷ pos 5 ∷ []) true).1
find_lem_example = find_lem two (pos 1 ∷ pos 5 ∷ []) true two-IsValid

tags_match_iff_example :
    (tags_match (pos 1 ∷ wild_card ∷ []) (pos 1 ∷ pos 4 ∷ []) ≡ true)
    ↔ AllAgree (pos 1 ∷ wild_card ∷ []) (pos 1 ∷ pos 4 ∷ [])
tags_match_iff_example = tags_match_iff (pos 1 ∷ wild_card ∷ []) (pos 1 ∷ pos 4 ∷ [])
