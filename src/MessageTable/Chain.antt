-- ===== src/MessageTable/Chain.antt =====
-- The linked list of src/msgmgr.cpp behaves as a sequence: entries go to its end, and a search takes
-- the oldest entry that matches.
use reconverse.Prelude.{
  ℕ, ◌+◌, ◌≡◌, ◌≢◌, refl, sym, ap, ◌∙◌, Bool, true, false, none, some, List, [], ◌∷◌, ◌++◌, arith,
  length, if◌then◌else◌,
}
use reconverse.Prelude.Int.{ℤ}
use reconverse.MessageTable.{
  Entry, Link, first_link, next_of, Table, Found, new, store_after, store_through, put, tags_match,
  find_loop, find, count_entries, entries,
}

-- The link behind the last entry of a chain that hangs on `from`.
abbrev pub end_link : Link → List Entry → Link
end_link from [] = from
end_link from (e ∷ es) = end_link (next_of e.address) es

abbrev pub Fresh : ℕ → List Entry → Type 0
Fresh a [] = Unit {0}
Fresh a (e ∷ es) = (e.address ≢ a) × Fresh a es

abbrev pub Distinct : List Entry → Type 0
Distinct [] = Unit {0}
Distinct (e ∷ es) = Fresh e.address es × Distinct es

-- Addresses are distinct, and `lasth` is the link behind the last entry.
pub record IsValid (t : Table) : Type 0 where
  pub distinct : Distinct t.entries
  pub at_end : t.lasth ≡ end_link first_link t.entries

-- The search as a function on the sequence.
pub first_match : List ℤ → List Entry → Found
first_match tags [] = none
first_match tags (e ∷ es) =
    if tags_match tags e.tags then some (e.msg, e.tags) else first_match tags es

pub without_match : List ℤ → List Entry → List Entry
without_match tags [] = []
without_match tags (e ∷ es) = if tags_match tags e.tags then es else e ∷ without_match tags es

new-IsValid : IsValid new
unfolding new
new-IsValid = record { distinct = tt; at_end = refl }

last_address : ℕ → List Entry → ℕ
last_address a [] = a
last_address a (e ∷ es) = last_address e.address es

end_link-last : (a : ℕ) (es : List Entry) → end_link (next_of a) es ≡ next_of (last_address a es)
unfolding last_address
end_link-last a [] = refl
end_link-last a (e ∷ es) = end_link-last e.address es

last_address-Fresh : (a b : ℕ) (es : List Entry) → b ≢ a → Fresh a es → last_address b es ≢ a
unfolding last_address
last_address-Fresh a b [] n f = n
last_address-Fresh a b (e ∷ es) n f = last_address-Fresh a e.address es f.0 f.1

store_after-last :
    (x e : Entry) (es : List Entry)
    → Distinct (x ∷ es)
    → store_after (last_address x.address es) e (x ∷ es) ≡ (x ∷ es) ++ e ∷ []
unfolding store_after last_address
store_after-last x e [] d = ground arith
store_after-last x e (y ∷ es) d =
    ground
      (arith, store_after-last y e es d.1, last_address-Fresh x.address y.address es d.0.0 d.0.1)

store_through-end :
    (e : Entry) (es : List Entry)
    → Distinct es
    → store_through (end_link first_link es) e es ≡ es ++ e ∷ []
unfolding store_through
store_through-end e [] d = refl
store_through-end e (x ∷ es) d = rw (end_link-last x.address es) (store_after-last x e es d)

Fresh-append :
    (a : ℕ) (e : Entry) (es : List Entry) → e.address ≢ a → Fresh a es → Fresh a (es ++ e ∷ [])
Fresh-append a e [] n f = (n, tt)
Fresh-append a e (x ∷ es) n f = (f.0, Fresh-append a e es n f.1)

Distinct-append :
    (e : Entry) (es : List Entry) → Fresh e.address es → Distinct es → Distinct (es ++ e ∷ [])
Distinct-append e [] f d = (tt, tt)
Distinct-append e (x ∷ es) f d =
    (Fresh-append x.address e es (λ p. f.0 (sym p)) d.0, Distinct-append e es f.1 d.1)

end_link-append :
    (from : Link) (e : Entry) (es : List Entry) → end_link from (es ++ e ∷ []) ≡ next_of e.address
end_link-append from e [] = refl
end_link-append from e (x ∷ es) = end_link-append (next_of x.address) e es

abbrev pub entry : ℕ → List ℤ → ℕ → Entry
entry address tags msg = record { address = address; msg = msg; tags = tags }

-- CmmPut through the stored link appends the entry, when the allocator returns an address that no
-- entry of the table has; the link is right again afterwards.
pub put_lem :
    (t : Table) (address : ℕ) (tags : List ℤ) (msg : ℕ)
    → IsValid t
    → Fresh address t.entries
    → ((put t address tags msg).entries ≡ t.entries ++ entry address tags msg ∷ [])
      × IsValid (put t address tags msg)
unfolding put
put_lem t address tags msg v f = (
  stored,
  record {
    distinct = rw stored (Distinct-append (entry address tags msg) t.entries f v.distinct);
    at_end = rw stored (sym (end_link-append first_link (entry address tags msg) t.entries));
  },
)
  where
    stored :
        store_through t.lasth (entry address tags msg) t.entries
        ≡ t.entries ++ entry address tags msg ∷ []
    stored = rw v.at_end (store_through-end (entry address tags msg) t.entries v.distinct)

without_match-Fresh :
    (a : ℕ) (tags : List ℤ) (es : List Entry) → Fresh a es → Fresh a (without_match tags es)
unfolding without_match
without_match-Fresh a tags [] f = tt
without_match-Fresh a tags (e ∷ es) f = ground (arith, without_match-Fresh a tags es f.1)

without_match-Distinct :
    (tags : List ℤ) (es : List Entry) → Distinct es → Distinct (without_match tags es)
unfolding without_match
without_match-Distinct tags [] d = tt
without_match-Distinct tags (e ∷ es) d =
    ground (arith, without_match-Distinct tags es d.1, without_match-Fresh e.address tags es d.0)

find_loop_lem :
    (enth : Link) (es : List Entry) (tags : List ℤ) (del : Bool)
    → let es' = (if del then without_match tags es else es) in
      find_loop enth es tags del (end_link enth es) ≡ (first_match tags es, es', end_link enth es')
unfolding find_loop first_match without_match
find_loop_lem enth [] tags true = refl
find_loop_lem enth [] tags false = refl
find_loop_lem enth (e ∷ []) tags true = ground arith
find_loop_lem enth (e ∷ []) tags false = ground arith
find_loop_lem enth (e ∷ x ∷ es) tags true =
    ground (arith, find_loop_lem (next_of e.address) (x ∷ es) tags true)
find_loop_lem enth (e ∷ x ∷ es) tags false =
    ground (arith, find_loop_lem (next_of e.address) (x ∷ es) tags false)

-- CmmFind returns the message and tags of the oldest entry that matches, and nothing if there is
-- none. With `del` exactly that entry leaves the chain, without it the table is unchanged; either
-- way the stored link is right afterwards.
pub find_lem :
    (t : Table) (tags : List ℤ) (del : Bool)
    → IsValid t
    → ((find t tags del).0 ≡ first_match tags t.entries)
      × ((find t tags del).1.entries ≡ (if del then without_match tags t.entries else t.entries))
      × IsValid (find t tags del).1
unfolding find
find_lem t tags del v =
    let e : find_loop first_link t.entries tags del t.lasth ≡ (
      first_match tags t.entries,
      (if del then without_match tags t.entries else t.entries),
      end_link first_link (if del then without_match tags t.entries else t.entries),
    ) =
      rw v.at_end (find_loop_lem first_link t.entries tags del) in
    (
      ap (λ r. r.0) e,
      ap (λ r. r.1) e,
      record {
        distinct = rw (ap (λ r. r.1) e) (kept del);
        at_end = ap (λ r. r.2) e ∙ ap (end_link first_link) (sym (ap (λ r. r.1) e));
      },
    )
  where
    kept : (b : Bool) → Distinct (if b then without_match tags t.entries else t.entries)
    kept true = without_match-Distinct tags t.entries v.distinct
    kept false = v.distinct

count_entries_lem : (es : List Entry) (n : ℕ) → count_entries es n ≡ n + length es
unfolding count_entries
count_entries_lem [] n = omega arith
count_entries_lem (e ∷ es) n = omega (arith, count_entries_lem es (n + 1))

pub entries-length : (t : Table) → entries t ≡ length t.entries
unfolding entries
entries-length t = omega (arith, count_entries_lem t.entries 0)
