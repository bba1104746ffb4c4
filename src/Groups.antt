-- ===== src/Groups.antt =====
-- Groups of PEs and multicasts, src/collectives.cpp: each PE's table of groups, which
-- CmiEstablishGroup and the arrivals of its broadcast fill, and the PEs together with the broadcasts
-- under way. Ids and counters are natural numbers, far from the ends of an int.
mod Found
mod Multicast
mod Tests
use Prim.Native.Nat.{bit_xor}
use reconverse.Prelude.{
  ℕ, zero, suc, ◌+◌, ◌%◌, ◌<◌, ◌≡◌, Bool, ◌&&◌, Option, none, some, List, [], ◌∷◌, ◌++◌, length,
  ltb, ◌==◌, if◌then◌else◌,
}
use reconverse.Machine.{Machine}
use reconverse.ListSend.{Buffer, Send, sync_list_send}

-- CmiGroup
pub record Group : Type 0 where
  pub id : ℕ
  pub pe : ℕ

-- GroupDef_s; the chain is the list that a bucket holds.
pub record GroupDef : Type 0 where
  pub group : Group
  pub pes : List ℕ

-- CmiGroupTable: the chain of each bucket.
abbrev pub GroupTable : Type 0
GroupTable = ℕ → List GroupDef

-- What one PE keeps: CmiGroupTable and CmiGroupCounter.
pub record Pe : Type 0 where
  pub table : GroupTable
  pub counter : ℕ

-- collectiveInit
unfoldable pub fresh : Pe
fresh = record { table = λ b. []; counter = 0 }

-- GROUPTAB_SIZE
abbrev pub table_size : ℕ
table_size = 101

-- `(id ^ pe) % GROUPTAB_SIZE`
unfoldable pub bucket : Group → ℕ
bucket g = bit_xor g.id g.pe % table_size

-- `(def->group.id == grp.id) && (def->group.pe == grp.pe)`
abbrev pub same : Group → Group → Bool
same g h = (h.id == g.id) && (h.pe == g.pe)

-- CmiGroupHandler
unfoldable pub on_group : GroupDef → GroupTable → GroupTable
unfolding bucket
on_group def table b = if b == bucket def.group then def ∷ table b else table b

-- The loop of CmiLookupGroup along a chain; `none` is no members at the null pointer.
unfoldable pub search : Group → List GroupDef → Option (List ℕ)
search grp [] = none
search grp (def ∷ next) =
    let later = search grp next in if same grp def.group then some def.pes else later

-- CmiLookupGroup
unfoldable pub lookup : Group → GroupTable → Option (List ℕ)
unfolding search bucket
lookup grp table = search grp (table (bucket grp))

-- CmiEstablishGroup on PE `me`: what it broadcasts to the other PEs, and the PE's state.
unfoldable pub establish : ℕ → List ℕ → Pe → GroupDef × Pe
unfolding on_group
establish me pes s =
    let def : GroupDef = record { group = record { id = s.counter; pe = me }; pes = pes } in
    (def, record { table = on_group def s.table; counter = s.counter + 1 })

module _ (m : Machine) (header_size fanout_handler : ℕ) (persistent : Bool) (my_node : ℕ) where
  -- CmiSyncMulticast: the sends of the list send, `none` for CmiAbort.
  unfoldable pub sync_multicast : Group → ℕ → Buffer → GroupTable → Option (List Send)
  unfolding lookup
  sync_multicast grp size msg table = elim (lookup grp table) [
    | none ↦ none
    | some pes ↦
        if length pes == 0
        then none
        else some (sync_list_send m header_size fanout_handler persistent my_node pes size msg)
  ]

-- All PEs, the broadcasts under way, and the groups established so far, the latest first.
pub record System : Type 0 where
  pub pe : ℕ → Pe
  pub flying : List (ℕ × GroupDef)
  pub log : List GroupDef

-- The copies of a broadcast of PE `me` to the others.
unfoldable pub spread : ℕ → ℕ → GroupDef → List (ℕ × GroupDef)
spread zero me def = []
spread (suc n) me def = let rest = spread n me def in if n == me then rest else (n, def) ∷ rest

abbrev pub at_pe : (ℕ → Pe) → ℕ → Pe → ℕ → Pe
at_pe pe q s p = if p == q then s else pe p

unfoldable pub establish_at : ℕ → ℕ → List ℕ → System → System
unfolding establish spread
establish_at n me pes s =
    let (def, t) = establish me pes (s.pe me) in
    record { pe = at_pe s.pe me t; flying = s.flying ++ spread n me def; log = def ∷ s.log }

-- CmiGroupHandler on PE q
unfoldable pub arrive : ℕ → GroupDef → List (ℕ × GroupDef) → System → System
unfolding on_group
arrive q def others s = record s {
  pe = at_pe s.pe q (record (s.pe q) { table = on_group def (s.pe q).table });
  flying = others;
}

unfoldable pub start : System
unfolding fresh
start = record { pe = λ p. fresh; flying = []; log = [] }

-- One event on n PEs: broadcasts arrive in any order.
pub data Step (n : ℕ) : System → System → Type 0 where
  establishes : (s : System) (me : ℕ) (pes : List ℕ) → me < n → Step n s (establish_at n me pes s)
  arrives :
      (s : System) (q : ℕ) (def : GroupDef) (before after : List (ℕ × GroupDef))
      → s.flying ≡ before ++ (q, def) ∷ after
      → Step n s (arrive q def (before ++ after) s)

pub data Reach (n : ℕ) : System → Type 0 where
  starts : Reach n start
  steps : (s t : System) → Reach n s → Step n s t → Reach n t
