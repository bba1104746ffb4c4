-- ===== src/Groups/Found.antt =====
-- What the PEs find in their tables of groups, src/collectives.cpp, however the broadcasts of the
-- groups overtake one another.
use reconverse.Prelude.{
  ℕ, zero, suc, ◌+◌, ◌<◌, ◌≤◌, ◌≡◌, ◌⊎◌, inl, inr, refl, sym, ap, ◌∙◌, subst, Bool, true, false,
  not, ◌&&◌, Option, none, some, List, [], ◌∷◌, ◌++◌, ltb, lt→ltb, ==_iff, ◌==◌, if◌then◌else◌,
  if_cases, Bool-cases, arith,
}
use reconverse.Groups.{
  Group, GroupDef, GroupTable, Pe, bucket, same, on_group, search, lookup, establish, System,
  spread, at_pe, establish_at, arrive, start, Step, establishes, arrives, Reach, starts, steps,
  fresh,
}

eq_of_same : (g h : Group) → same g h ≡ true → g ≡ h
eq_of_same g h e = ground arith

second : (a b : Bool) → (a && b) ≡ true → b ≡ true
second a b h = ground arith

same_self : (g : Group) → same g g ≡ true
same_self g = ground arith

-- The copies under way to PE q of the definition of group g.
abbrev pub pending : ℕ → Group → List (ℕ × GroupDef) → ℕ
pending q g [] = 0
pending q g ((p, def) ∷ ds) = (if (p == q) && same g def.group then 1 else 0) + pending q g ds

lookup-on_group :
    (g : Group) (def : GroupDef) (t : GroupTable)
    → lookup g (on_group def t) ≡ (if same g def.group then some def.pes else lookup g t)
unfolding lookup on_group search
lookup-on_group g def t =
    if_cases
      (λ l. search g l ≡ (if same g def.group then some def.pes else search g (t (bucket g))))
      (bucket g == bucket def.group) (def ∷ t (bucket g)) (t (bucket g)) (λ e. refl)
      (λ e. rw (apart e) refl)
  where
    apart : (bucket g == bucket def.group) ≡ false → same g def.group ≡ false
    apart e = elim (Bool-cases (same g def.group)) [
      | inl h ↦ let b = ap bucket (eq_of_same g def.group h) in ground arith
      | inr h ↦ h
    ]

pending-append :
    (q : ℕ) (g : Group) (xs ys : List (ℕ × GroupDef))
    → pending q g (xs ++ ys) ≡ pending q g xs + pending q g ys
pending-append q g [] ys = omega arith
pending-append q g ((p, def) ∷ xs) ys = omega (arith, pending-append q g xs ys)

pending-spread :
    (n me q : ℕ) (g : Group) (def : GroupDef)
    → pending q g (spread n me def)
      ≡ (if (ltb q n && not (q == me)) && same g def.group then 1 else 0)
unfolding spread
pending-spread zero me q g def = ground arith
pending-spread (suc n) me q g def = ground (arith, pending-spread n me q g def)

-- What the log says of the definitions under way.
abbrev Known : List GroupDef → List (ℕ × GroupDef) → Type 0
Known log [] = Unit {0}
Known log ((q, def) ∷ ds) = (search def.group log ≡ some def.pes) × Known log ds

-- No two definitions of the log are of the same group.
abbrev Own : List GroupDef → List GroupDef → Type 0
Own log [] = Unit {0}
Own log (def ∷ ds) = (search def.group log ≡ some def.pes) × Own log ds

Own-split : (log xs ys : List GroupDef) → Own log (xs ++ ys) → Own log ys
Own-split log [] ys a = a
Own-split log (def ∷ xs) ys a = Own-split log xs ys a.1

Known-append :
    (log : List GroupDef) (xs ys : List (ℕ × GroupDef))
    → Known log xs
    → Known log ys
    → Known log (xs ++ ys)
Known-append log [] ys a b = b
Known-append log ((q, def) ∷ xs) ys a b = (a.0, Known-append log xs ys a.1 b)

Known-split :
    (log : List GroupDef) (xs ys : List (ℕ × GroupDef))
    → Known log (xs ++ ys)
    → Known log xs × Known log ys
Known-split log [] ys a = (tt, a)
Known-split log ((q, def) ∷ xs) ys a = let r = Known-split log xs ys a.1 in ((a.0, r.0), r.1)

search-cons :
    (g : Group) (def : GroupDef) (log : List GroupDef)
    → search g (def ∷ log) ≡ (if same g def.group then some def.pes else search g log)
unfolding search
search-cons g def log = refl

-- A definition of a group that the log does not hold yet.
module _ (def : GroupDef) (log : List GroupDef) (new : search def.group log ≡ none) where
  differs : (g : Group) (pes : List ℕ) → search g log ≡ some pes → same g def.group ≡ false
  differs g pes k = elim (Bool-cases (same g def.group)) [
    | inl h ↦ let e = sym new ∙ sym (ap (λ x. search x log) (eq_of_same g def.group h)) ∙ k in cc
    | inr h ↦ h
  ]

  Known-cons : (ds : List (ℕ × GroupDef)) → Known log ds → Known (def ∷ log) ds
  unfolding search
  Known-cons [] k = tt
  Known-cons ((q, d) ∷ ds) k = (rw (differs d.group d.pes k.0) k.0, Known-cons ds k.1)

  Own-cons : (ds : List GroupDef) → Own log ds → Own (def ∷ log) ds
  unfolding search
  Own-cons [] k = tt
  Own-cons (d ∷ ds) k = (rw (differs d.group d.pes k.0) k.0, Own-cons ds k.1)

  Own-log : Own log log → Own (def ∷ log) (def ∷ log)
  unfolding search
  Own-log k = (rw (same_self def.group) refl, Own-cons log k)

  Known-spread : (n me : ℕ) → Known (def ∷ log) (spread n me def)
  unfolding spread search
  Known-spread zero me = tt
  Known-spread (suc n) me =
      if_cases (Known (def ∷ log)) (n == me) (spread n me def) ((n, def) ∷ spread n me def)
        (λ e. Known-spread n me) (λ e. (rw (same_self def.group) refl, Known-spread n me))

  none_pending : (q : ℕ) (ds : List (ℕ × GroupDef)) → Known log ds → pending q def.group ds ≡ 0
  none_pending q [] k = refl
  none_pending q ((p, d) ∷ ds) k =
      let d = differs d.group d.pes k.0 in ground (arith, none_pending q ds k.1)

-- A PE looks up what the log says, or else nothing while one copy is under way.
abbrev pub Shown : Option (List ℕ) → Option (List ℕ) → ℕ → Type 0
Shown found logged copies = ((found ≡ logged) × (copies ≡ 0)) ⊎ ((found ≡ none) × (copies ≡ 1))

Shown-made :
    (own new : Bool) (pes : List ℕ) (found logged : Option (List ℕ)) (copies : ℕ)
    → (new ≡ true → (logged ≡ none) × (copies ≡ 0))
    → Shown found logged copies
    → Shown
        (if own && new then some pes else found)
        (if new then some pes else logged)
        (copies + (if not own && new then 1 else 0))
Shown-made true true pes found logged copies fresh h = inl (refl, omega (arith, fresh refl))
Shown-made false true pes found logged copies fresh h =
    inr (none_found h, omega (arith, fresh refl))
  where
    none_found : Shown found logged copies → found ≡ none
    none_found (inl e) = e.0 ∙ (fresh refl).0
    none_found (inr e) = e.0
Shown-made true false pes found logged copies fresh (inl e) = inl (e.0, omega arith)
Shown-made true false pes found logged copies fresh (inr e) = inr (e.0, omega arith)
Shown-made false false pes found logged copies fresh (inl e) = inl (e.0, omega arith)
Shown-made false false pes found logged copies fresh (inr e) = inr (e.0, omega arith)

Shown-come :
    (this : Bool) (pes : List ℕ) (found logged : Option (List ℕ)) (copies left : ℕ)
    → (this ≡ true → logged ≡ some pes)
    → copies ≡ (if this then 1 else 0) + left
    → Shown found logged copies
    → Shown (if this then some pes else found) logged left
Shown-come true pes found logged copies left is e (inl h) = absurd (omega arith)
Shown-come true pes found logged copies left is e (inr h) = inl (sym (is refl), omega arith)
Shown-come false pes found logged copies left is e (inl h) = inl (h.0, omega arith)
Shown-come false pes found logged copies left is e (inr h) = inr (h.0, omega arith)

lookup-at_pe :
    (g : Group) (pe : ℕ → Pe) (q p counter : ℕ) (def : GroupDef)
    → lookup g
        (at_pe pe q (record { table = on_group def (pe q).table; counter = counter }) p).table
      ≡ (if (p == q) && same g def.group then some def.pes else lookup g (pe p).table)
lookup-at_pe g pe q p counter def = go (p == q) (==_iff p q).0
  where
    go :
        (b : Bool)
        → (b ≡ true → p ≡ q)
        → lookup g
            (if b
              then record { table = on_group def (pe q).table; counter = counter }
              else pe p).table
          ≡ (if b && same g def.group then some def.pes else lookup g (pe p).table)
    go true h =
        subst
          (λ r.
            lookup g (on_group def (pe q).table)
            ≡ (if same g def.group then some def.pes else lookup g (pe r).table))
          (sym (h refl)) (lookup-on_group g def (pe q).table)
    go false h = refl

counter-at_pe :
    (g : Group) (pe : ℕ → Pe) (q : ℕ) (t : Pe)
    → (pe q).counter ≤ t.counter
    → (at_pe pe q t g.pe).counter ≤ g.id
    → (pe g.pe).counter ≤ g.id
counter-at_pe g pe q t more =
    if_cases (λ (u : Pe). u.counter ≤ g.id → (pe g.pe).counter ≤ g.id) (g.pe == q) t (pe g.pe)
      (λ e h. omega (arith, ap (λ r. (pe r).counter) ((==_iff g.pe q).0 e))) (λ e h. h)

search-same :
    (g h : Group) (log : List GroupDef) (found : Option (List ℕ))
    → same g h ≡ true
    → search h log ≡ found
    → search g log ≡ found
search-same g h log found e k = ap (λ x. search x log) (eq_of_same g h e) ∙ k

abbrev pub Inv : ℕ → System → Type 0
Inv n s =
    ((g : Group) → (s.pe g.pe).counter ≤ g.id → search g s.log ≡ none)
    × Known s.log s.flying
    × Own s.log s.log
    × ((q : ℕ) (g : Group)
        → q < n
        → Shown (lookup g (s.pe q).table) (search g s.log) (pending q g s.flying))

module _ (n : ℕ) (s : System) (inv : Inv n s) where
  module _ (me : ℕ) (pes : List ℕ) (there : me < n) where
    made : GroupDef
    made = (establish me pes (s.pe me)).0

    unmade : search made.group s.log ≡ none
    unfolding made establish
    unmade = inv.0 made.group (omega arith)

    more :
        (q : ℕ) (g : Group)
        → q < n
        → pending q g (s.flying ++ spread n me made)
          ≡ pending q g s.flying + (if not (q == me) && same g made.group then 1 else 0)
    more q g h = ground (
      arith,
      pending-append q g s.flying (spread n me made),
      pending-spread n me q g made,
      lt→ltb q n h,
    )

    -- A group of a later id than any of its PE is not the new one.
    later :
        (g : Group)
        → (at_pe s.pe me (establish me pes (s.pe me)).1 g.pe).counter ≤ g.id
        → search g (made ∷ s.log) ≡ none
    unfolding made establish search unmade
    later g h = elim (Bool-cases (same g made.group)) [
      | inl e ↦ absurd (ground arith)
      | inr e ↦
          rw e (inv.0 g (counter-at_pe g s.pe me (establish me pes (s.pe me)).1 (omega arith) h))
    ]

    establish_at-Inv : Inv n (establish_at n me pes s)
    unfolding establish_at made establish unmade search
    establish_at-Inv = (
      later,
      Known-append (made ∷ s.log) s.flying (spread n me made)
          (Known-cons made s.log unmade s.flying inv.1) (Known-spread made s.log unmade n me),
      Own-log made s.log unmade inv.2,
      λ q g h.
          subst
            (λ found.
              Shown found (search g (made ∷ s.log)) (pending q g (s.flying ++ spread n me made)))
            (sym (lookup-at_pe g s.pe me q ((s.pe me).counter + 1) made))
            (subst
              (λ copies.
                Shown (if (q == me) && same g made.group then some pes else lookup g (s.pe q).table)
                  (search g (made ∷ s.log)) copies)
              (sym (more q g h))
              (Shown-made (q == me) (same g made.group) pes (lookup g (s.pe q).table)
                (search g s.log) (pending q g s.flying)
                (λ e. (
                  search-same g made.group s.log none e unmade,
                  ap (λ x. pending q x s.flying) (eq_of_same g made.group e)
                      ∙ none_pending made s.log unmade q s.flying inv.1,
                ))
                (inv.3 q g h))),
    )

  module _ (q : ℕ) (def : GroupDef) (before after : List (ℕ × GroupDef))
      (here : s.flying ≡ before ++ (q, def) ∷ after) where
    known : Known s.log before × Known s.log ((q, def) ∷ after)
    known = Known-split s.log before ((q, def) ∷ after) (subst (Known s.log) here inv.1)

    fewer :
        (p : ℕ) (g : Group)
        → pending p g s.flying
          ≡ (if (p == q) && same g def.group then 1 else 0) + pending p g (before ++ after)
    fewer p g = ground (
      arith,
      ap (pending p g) here,
      pending-append p g before ((q, def) ∷ after),
      pending-append p g before after,
    )

    arrive-Inv : Inv n (arrive q def (before ++ after) s)
    unfolding arrive
    arrive-Inv = (
      (λ g h. inv.0 g (
          counter-at_pe g s.pe q (record (s.pe q) { table = on_group def (s.pe q).table })
            (omega arith) h)),
      Known-append s.log before after known.0 known.1.1,
      inv.2,
      λ p g h.
          subst (λ found. Shown found (search g s.log) (pending p g (before ++ after)))
            (sym (lookup-at_pe g s.pe q p (s.pe q).counter def))
            (Shown-come ((p == q) && same g def.group) def.pes (lookup g (s.pe p).table)
              (search g s.log) (pending p g s.flying) (pending p g (before ++ after))
              (λ e.
                search-same g def.group s.log (some def.pes) (second (p == q) (same g def.group) e)
                  known.1.0)
              (fewer p g) (inv.3 p g h)),
    )

Step-Inv : (n : ℕ) (s t : System) → Inv n s → Step n s t → Inv n t
Step-Inv n s t inv (establishes _ me pes there) = establish_at-Inv n s inv me pes there
Step-Inv n s t inv (arrives _ q def before after here) = arrive-Inv n s inv q def before after here

Reach-Inv : (n : ℕ) (s : System) → Reach n s → Inv n s
unfolding start fresh lookup search
Reach-Inv n s starts = ((λ g h. refl), tt, tt, λ q g h. inl (refl, refl))
Reach-Inv n t (steps s _ r step) = Step-Inv n s t (Reach-Inv n s r) step

-- Let a group have been established on some PE of a run of n PEs, after any others and however the
-- broadcasts under way overtake one another. On every PE, the lookup of the group gives just the
-- members that it was established with, or else no group while one copy of its definition is under
-- way to the PE.
pub lookup_lem :
    (n : ℕ) (s : System) (q : ℕ) (def : GroupDef) (later_defs earlier_defs : List GroupDef)
    → Reach n s
    → q < n
    → s.log ≡ later_defs ++ def ∷ earlier_defs
    → Shown (lookup def.group (s.pe q).table) (some def.pes) (pending q def.group s.flying)
lookup_lem n s q def later_defs earlier_defs r h e =
    let inv = Reach-Inv n s r in
    subst (λ found. Shown (lookup def.group (s.pe q).table) found (pending q def.group s.flying))
      (Own-split s.log later_defs (def ∷ earlier_defs) (subst (Own s.log) e inv.2)).0
      (inv.3 q def.group h)
