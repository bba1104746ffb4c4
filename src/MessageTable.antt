-- ===== src/MessageTable.antt =====
-- The tagged message table of src/msgmgr.cpp: a singly linked list with a pointer to the link that
-- the next entry is stored through. The chain from `first` is a list; each entry has the address
-- that CmiAlloc gave it, and `lasth` names the link that it points to. Tags are C ints.
pub mod Match
pub mod Chain
mod Tests
use reconverse.Prelude.{
  ℕ, zero, suc, ◌+◌, Bool, true, false, Option, none, some, List, [], ◌∷◌, ◌||◌, ◌==◌,
  if◌then◌else◌, length,
}
use reconverse.Prelude.Int.{ℤ, pos, negsuc, eqb_ℤ}

-- CmmEntryStruct; `ntags` is the length of `tags`.
pub record Entry : Type 0 where
  pub address : ℕ
  pub msg : ℕ
  pub tags : List ℤ

-- A `CmmEntry *`: the table's own link, or the `next` field of the entry at an address.
pub data Link : Type 0 where
  first_link : Link
  next_of : ℕ → Link

pub record Table : Type 0 where
  pub entries : List Entry
  pub lasth : Link

-- CmmWildCard
abbrev pub wild_card : ℤ
wild_card = negsuc 0

-- CmmNew
pub new : Table
new = record { entries = []; lasth = first_link }

-- CmmFree: whether it is allowed to free the table, and does not abort.
pub free : Table → Bool
free t = elim t.entries [ [] ↦ true | e ∷ es ↦ false ]

-- `*(link) = e` for an entry `e` whose `next` is null: what the chain is afterwards.
pub store_after : ℕ → Entry → List Entry → List Entry
store_after a e [] = []
store_after a e (x ∷ es) = if x.address == a then x ∷ e ∷ [] else x ∷ store_after a e es

pub store_through : Link → Entry → List Entry → List Entry
unfolding store_after
store_through first_link e es = e ∷ []
store_through (next_of a) e es = store_after a e es

-- CmmPut, with the address of the new entry.
pub put : Table → ℕ → List ℤ → ℕ → Table
unfolding store_through
put t address tags msg =
    let e : Entry = record { address = address; msg = msg; tags = tags } in
    record { entries = store_through t.lasth e t.entries; lasth = next_of address }

-- The comparison of two tags in the loop of CmmTagsMatch.
abbrev pub tag_matches : ℤ → ℤ → Bool
tag_matches tag1 tag2 = eqb_ℤ tag1 tag2 || eqb_ℤ tag1 wild_card || eqb_ℤ tag2 wild_card

-- The loop over the first list's tags. `none` is a read past the end of the second list.
pub match_loop : List ℤ → List ℤ → Option Bool
match_loop [] tags2 = some true
match_loop (tag1 ∷ tags1) [] = none
match_loop (tag1 ∷ tags1) (tag2 ∷ tags2) =
    let rest = match_loop tags1 tags2 in if tag_matches tag1 tag2 then rest else some false

-- CmmTagsMatch on two whole lists.
pub tags_match : List ℤ → List ℤ → Bool
unfolding match_loop
tags_match tags1 tags2 =
    if length tags1 == length tags2
    then elim (match_loop tags1 tags2) [ none ↦ false | some b ↦ b ]
    else false

-- What CmmFind returns: the message and the entry's tags (`rtags`), and the table.
abbrev pub Found : Type 0
Found = Option (ℕ × List ℤ)

-- The loop of CmmFind at the link `enth`: the chain behind that link and `lasth` afterwards.
pub find_loop : Link → List Entry → List ℤ → Bool → Link → Found × List Entry × Link
find_loop enth [] tags del lasth = (none, [], lasth)
find_loop enth (ent ∷ next) tags del lasth =
    let (found, rest, last) = find_loop (next_of ent.address) next tags del lasth in
    if tags_match tags ent.tags
    then (if del
        then (some (ent.msg, ent.tags), next, elim next [ [] ↦ enth | e ∷ es ↦ lasth ])
        else (some (ent.msg, ent.tags), ent ∷ next, lasth))
    else (found, ent ∷ rest, last)

-- CmmFind on a table that is not null.
pub find : Table → List ℤ → Bool → Found × Table
unfolding find_loop
find t tags del =
    let (found, es, last) = find_loop first_link t.entries tags del t.lasth in
    (found, record { entries = es; lasth = last })

abbrev pub last_tag : List ℤ → ℤ
last_tag [] = wild_card
last_tag (x ∷ []) = x
last_tag (x ∷ y ∷ xs) = last_tag (y ∷ xs)

-- CmmGetLastTag; `none` is a read past the end of an entry's tags, and -1 means no match.
pub last_tag_loop : List Entry → List ℤ → Option ℤ
unfolding match_loop
last_tag_loop [] tags = some (negsuc 0)
last_tag_loop (ent ∷ es) tags =
    let rest = last_tag_loop es tags in
    elim (match_loop tags ent.tags) [
      | none ↦ none
      | some true ↦ (elim ent.tags [ [] ↦ none | x ∷ xs ↦ some (last_tag (x ∷ xs)) ])
      | some false ↦ rest
    ]

pub get_last_tag : Table → List ℤ → Option ℤ
unfolding last_tag_loop
get_last_tag t tags = last_tag_loop t.entries tags

-- CmmEntries
pub count_entries : List Entry → ℕ → ℕ
count_entries [] n = n
count_entries (e ∷ es) n = count_entries es (n + 1)

pub entries : Table → ℕ
unfolding count_entries
entries t = count_entries t.entries 0
