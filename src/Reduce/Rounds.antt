-- ===== src/Reduce/Rounds.antt =====
-- One reduction on one PE, src/collectives.cpp: its own contribution and its children's messages in
-- any order, from a free slot to the send to the parent.
use reconverse.Prelude.{
  ℕ, ◌+◌, ◌<◌, ◌≤◌, ◌≡◌, ◌≢◌, refl, ap, ◌∙◌, Bool, true, false, Option, none, some, List, [], ◌∷◌,
  ◌++◌, ◌⊎◌, inl, inr, length, length-append, append_assoc, append-nil, arith, ltb, if◌then◌else◌,
}
use native.Mathlib.Decide.{ℕ_discrete}
use reconverse.Machine.{Machine}
use reconverse.Reduce.{
  Reduction, Message, Effect, send_up, run_handler, Result, ok, ◌>>=◌, Shape, Table, store,
  reduction_index, check_slot, new_reduction, get_create, clear, send_reduce, internal_reduce,
  reduce, on_reduce, pe_shape, list_children, finish, merged_data, payloads,
}

pub data Event {ℓ} (D : Type ℓ) : Type ℓ where
  contributes : Message D → Event D
  receives : Message D → Event D

module _ {ℓ} {D : Type ℓ} where
  abbrev pub contributions : List (Event D) → List (Message D)
  contributions [] = []
  contributions (contributes m ∷ es) = m ∷ contributions es
  contributions (receives m ∷ es) = contributions es

  abbrev pub arrivals : List (Event D) → List (Message D)
  arrivals [] = []
  arrivals (contributes m ∷ es) = arrivals es
  arrivals (receives m ∷ es) = m ∷ arrivals es

  abbrev is_some : Option (Message D) → Bool
  is_some none = false
  is_some (some m) = true

  abbrev from_option : Option (Message D) → List (Message D)
  from_option none = []
  from_option (some m) = m ∷ []

  module _ (merge : D → List D → D) (s : Shape) (id : ℕ) where
    pub step : Table D → Event D → Result (Table D × Option (Effect D))
    step t (contributes m) = reduce merge s t id m
    step t (receives m) = on_reduce merge s t id m

    -- The effects of a sequence of events, in order.
    pub run : Table D → List (Event D) → Result (Table D × List (Effect D))
    run t [] = ok (t, [])
    run t (e ∷ es) =
        step t e >>= λ r. run r.0 es >>= λ q. ok (q.0, elim r.1 [ none ↦ q.1 | some x ↦ x ∷ q.1 ])

    -- The effect of a whole reduction with contribution `own` and children's messages `rs`.
    pub outcome : Message D → List (Message D) → Effect D
    outcome own rs =
        let data_up = (if ltb 0 s.children then merge own.payload (payloads rs) else own.payload) in
        elim s.up [ some p ↦ send_up p id data_up | none ↦ run_handler own.handler data_up ]

    -- The record after contribution `c` and the arrivals `a`.
    progress : Option (Message D) → List (Message D) → Reduction D
    progress c a = record {
      reduction_id = id;
      num_children = s.children;
      parent = s.up;
      messages_received = length a;
      local_contributed = is_some c;
      local_buffer = c;
      remote_buffer = a;
      slots = s.room;
    }

    abbrev InSlot : Table D → Option (Message D) → List (Message D) → Type ℓ
    InSlot t c a =
        (t (reduction_index id) ≡ some (progress c a))
        ⊎ ((t (reduction_index id) ≡ none) × (c ≡ none) × (a ≡ []))

    abbrev Elsewhere : Table D → Table D → Type ℓ
    Elsewhere t u = (j : ℕ) → j ≢ reduction_index id → u j ≡ t j

    record Created (t : Table D) (c : Option (Message D)) (a : List (Message D)) : Type ℓ where
      table : Table D
      created : get_create s t id ≡ ok (progress c a, table)
      others : Elsewhere t table

    get_create-Created :
        (t : Table D) (c : Option (Message D)) (a : List (Message D)) → InSlot t c a → Created t c a
    unfolding get_create check_slot progress
    get_create-Created t c a (inl e) = record {
      table = t;
      created = ground (arith, e);
      others = λ j ne. refl;
    }
    get_create-Created t c a (inr e) = record {
      table = store t (reduction_index id) (some (new_reduction s id));
      created = ground (arith, e.0, e.1, e.2);
      others = λ j ne. ground arith;
    }

    -- Before the reduction is complete the record is stored and nothing else happens.
    waits :
        (t : Table D) (c : Option (Message D)) (a : List (Message D))
        → (c ≡ none) ⊎ (length a ≢ s.children)
        → send_reduce merge t (progress c a)
          ≡ (store t (reduction_index id) (some (progress c a)), none)
    unfolding send_reduce progress
    waits t none a h = refl
    waits t (some m) a h = ground arith

    finishes :
        (t : Table D) (own : Message D) (a : List (Message D))
        → length a ≡ s.children
        → send_reduce merge t (progress (some own) a)
          ≡ (store t (reduction_index id) none, some (outcome own a))
    unfolding send_reduce progress finish outcome clear merged_data
    finishes t own a h = ground (arith, h)

    nothing_left :
        (es : List (Event D)) → contributions es ≡ [] → length (arrivals es) ≡ 0 → es ≡ []
    nothing_left [] p q = refl
    nothing_left (contributes m ∷ es) p q = absurd (cc)
    nothing_left (receives m ∷ es) p q = absurd (omega arith)

    pub record Completes (t : Table D) (es : List (Event D)) (own : Message D)
        (rs : List (Message D)) : Type ℓ where
      pub table : Table D
      pub runs : run t es ≡ ok (table, outcome own rs ∷ [])
      pub freed : table (reduction_index id) ≡ none
      pub others : Elsewhere t table

    module _ (room : s.children ≤ s.room) (own : Message D) where
      step-contributes :
          (t : Table D) (a : List (Message D)) (m : Message D) (h : InSlot t none a)
          → step t (contributes m)
            ≡ ok (send_reduce merge (get_create-Created t none a h).table (progress (some m) a))
      unfolding step reduce internal_reduce progress
      step-contributes t a m h = rw (get_create-Created t none a h).created

      step-receives :
          (t : Table D) (c : Option (Message D)) (a : List (Message D)) (m : Message D)
          → (h : InSlot t c a) → length a < s.children
          → step t (receives m)
            ≡ ok (send_reduce merge (get_create-Created t c a h).table (progress c (a ++ m ∷ [])))
      unfolding step on_reduce progress
      step-receives t c a m h lt =
          rw (get_create-Created t c a h).created (ground (arith, length-append a (m ∷ [])))

      last_step :
          (t u : Table D) (e : Event D) (a : List (Message D)) (es : List (Event D))
          → step t e ≡ ok (send_reduce merge u (progress (some own) a))
          → length a ≡ s.children
          → Elsewhere t u
          → es ≡ []
          → Completes t (e ∷ es) own a
      unfolding run
      last_step t u e a es p q o n = record {
        table = store u (reduction_index id) none;
        runs = rw (n, p, finishes u own a q) refl;
        freed = ground arith;
        others = λ j ne. ground (arith, o j ne);
      }

      first_step :
          (t u : Table D) (e : Event D) (c : Option (Message D)) (a : List (Message D))
          (es : List (Event D)) (rs : List (Message D))
          → step t e ≡ ok (send_reduce merge u (progress c a))
          → (c ≡ none) ⊎ (length a ≢ s.children)
          → Elsewhere t u
          → Completes (store u (reduction_index id) (some (progress c a))) es own rs
          → Completes t (e ∷ es) own rs
      unfolding run
      first_step t u e c a es rs p q o f = record {
        table = f.table;
        runs = rw (p, waits u c a q) (rw f.runs refl);
        freed = f.freed;
        others = λ j ne. ground (arith, o j ne, f.others j ne);
      }

      rounds :
          (es : List (Event D)) (t : Table D) (c : Option (Message D)) (a : List (Message D))
          → InSlot t c a
          → from_option c ++ contributions es ≡ own ∷ []
          → length a + length (arrivals es) ≡ s.children
          → (c ≡ none) ⊎ (length a ≢ s.children)
          → Completes t es own (a ++ arrivals es)
      rounds [] t none a h p q w = absurd (cc)
      rounds [] t (some m) a h p q (inl e) = absurd (cc)
      rounds [] t (some m) a h p q (inr e) = absurd (e (omega arith))
      rounds (contributes m ∷ es) t (some x) a h p q w = absurd (cc)
      rounds (contributes m ∷ es) t none a h p q w =
          let u : Created t none a = get_create-Created t none a h in
          let mo : m ≡ own = ground arith in
          let st : step t (contributes m) ≡ ok (send_reduce merge u.table (progress (some own) a)) =
            rw (← mo) (step-contributes t a m h) in
          elim (ℕ_discrete (length a) s.children) [
            | yes full ↦
                let n : es ≡ [] = nothing_left es (ground arith) (omega arith) in
                rw (ap (λ l. a ++ arrivals l) n ∙ append-nil a)
                  (last_step t u.table (contributes m) a es st full u.others n)
            | no ne ↦
                first_step t u.table (contributes m) (some own) a es (a ++ arrivals es) st (inr ne)
                  u.others
                  (rounds es (store u.table (reduction_index id) (some (progress (some own) a)))
                    (some own) a (inl (ground arith)) (ground arith) q (inr ne))
          ]
      rounds (receives m ∷ es) t none a h p q w =
          let u : Created t none a = get_create-Created t none a h in
          rw (← append_assoc a (m ∷ []) (arrivals es)) (
            first_step t u.table (receives m) none (a ++ m ∷ []) es ((a ++ m ∷ []) ++ arrivals es)
              (step-receives t none a m h (omega arith)) (inl refl) u.others
              (rounds es (store u.table (reduction_index id) (some (progress none (a ++ m ∷ []))))
                none (a ++ m ∷ []) (inl (ground arith)) p (omega (arith, length-append a (m ∷ [])))
                (inl refl)))
      rounds (receives m ∷ es) t (some x) a h p q w =
          let u : Created t (some x) a = get_create-Created t (some x) a h in
          let xo : x ≡ own = ground arith in
          let st : step t (receives m)
              ≡ ok (send_reduce merge u.table (progress (some own) (a ++ m ∷ []))) =
            rw (← xo) (step-receives t (some x) a m h (omega arith)) in
          rw (← append_assoc a (m ∷ []) (arrivals es))
            (elim (ℕ_discrete (length (a ++ m ∷ [])) s.children) [
              | yes full ↦
                  let n : es ≡ [] =
                    nothing_left es (ground arith) (omega (arith, length-append a (m ∷ []))) in
                  rw (ap (λ l. (a ++ m ∷ []) ++ arrivals l) n ∙ append-nil (a ++ m ∷ []))
                    (last_step t u.table (receives m) (a ++ m ∷ []) es st full u.others n)
              | no ne ↦
                  first_step t u.table (receives m) (some own) (a ++ m ∷ []) es
                    ((a ++ m ∷ []) ++ arrivals es) st (inr ne) u.others
                    (rounds es
                      (store u.table (reduction_index id)
                        (some (progress (some own) (a ++ m ∷ []))))
                      (some own) (a ++ m ∷ []) (inl (ground arith)) (ground arith)
                      (omega (arith, length-append a (m ∷ []))) (inr ne))
            ])

-- One reduction on a PE: its slot is free, one event contributes, and as many messages arrive as
-- the PE has children, in any order with the contribution. Then no event aborts or overruns the
-- buffer, exactly one effect happens, at the last event: the merge of the contribution with the
-- messages in order of arrival goes to the parent, or to the handler at the root. The slot is
-- free again, and no other slot has changed.
pub run-Completes {ℓ} :
    {D : Type ℓ} (merge : D → List D → D) (s : Shape) (id : ℕ) (t : Table D) (es : List (Event D))
    (own : Message D)
    → s.children ≤ s.room
    → t (reduction_index id) ≡ none
    → contributions es ≡ own ∷ []
    → length (arrivals es) ≡ s.children
    → Completes merge s id t es own (arrivals es)
run-Completes merge s id t es own room free p q =
    rounds merge s id room own es t none [] (inr (free, refl, refl)) p (omega arith) (inl refl)

-- The room that CmiGetCreateReduction allocates is enough for the children of the PE tree, and for
-- those of a list reduction of any size and position.
pub room_suffices :
    (m : Machine) (me npes pos : ℕ)
    → ((pe_shape m me).children ≤ (pe_shape m me).room)
      × (list_children npes pos ≤ (pe_shape m me).room)
unfolding pe_shape list_children
room_suffices m me npes pos = ground arith
