-- ===== src/Registry/Place.antt =====
-- The search for an empty slot, and the slots of one handler, in src/scheduler_registry.cpp.
use reconverse.Prelude.{
  ℕ, zero, suc, ◌+◌, ◌-◌, ◌%◌, ◌<◌, ◌≤◌, ◌≡◌, ◌≢◌, refl, ap, ◌∙◌, Option, none, some, [], ◌∷◌,
  length, leb, if◌then◌else◌, if_cases, Option-cases, inl, inr, arith, get_or, set, length-set,
}
use reconverse.Registry.{sched_table_size, Table, is_assigned, next_empty, place}

module _ {ℓ} {A : Type ℓ} where
  abbrev pub assigned_count : Table A → ℕ
  assigned_count [] = 0
  assigned_count (s ∷ t) = (if is_assigned s then 1 else 0) + assigned_count t

  -- The slot holds the handler.
  abbrev pub Holds : Table A → ℕ → A → Type ℓ
  Holds t i fn = get_or t i none ≡ some fn

  get_or-set_self :
      (t : Table A) (i : ℕ) (s : Option A) → i < length t → get_or (set t i s) i none ≡ s
  get_or-set_self [] i s h = elim h [ ]
  get_or-set_self (x ∷ t) zero s h = refl
  get_or-set_self (x ∷ t) (suc i) s h = get_or-set_self t i s (omega arith)

  get_or-set_ne :
      (t : Table A) (i j : ℕ) (s : Option A) → i ≢ j → get_or (set t i s) j none ≡ get_or t j none
  get_or-set_ne [] i j s h = refl
  get_or-set_ne (x ∷ t) zero zero s h = absurd (h refl)
  get_or-set_ne (x ∷ t) zero (suc j) s h = refl
  get_or-set_ne (x ∷ t) (suc i) zero s h = refl
  get_or-set_ne (x ∷ t) (suc i) (suc j) s h = get_or-set_ne t i j s (λ e. h (ap suc e))

  assigned_count-set :
      (t : Table A) (i : ℕ) (fn : A)
      → i < length t
      → get_or t i none ≡ none
      → assigned_count (set t i (some fn)) ≡ suc (assigned_count t)
  assigned_count-set [] i fn h e = elim h [ ]
  assigned_count-set (x ∷ t) zero fn h e = rw e (omega arith)
  assigned_count-set (x ∷ t) (suc i) fn h e =
      omega (arith, assigned_count-set t i fn (omega arith) e)

  -- A table that is not full has an empty slot.
  has_empty :
      (t : Table A)
      → assigned_count t < length t
      → (j : ℕ) × (j < length t) × (get_or t j none ≡ none)
  has_empty [] h = elim h [ ]
  has_empty (none ∷ t) h = (0, omega arith, refl)
  has_empty (some fn ∷ t) h =
      let r = has_empty t (omega arith) in (suc r.0, omega (arith, r.1), r.2)

  -- The search reaches an empty slot before it has gone round.
  next_empty_lem :
      (fuel : ℕ) (t : Table A) (i j : ℕ)
      → i < sched_table_size
      → j < sched_table_size
      → get_or t j none ≡ none
      → (j + sched_table_size - i) % sched_table_size < fuel
      → (next_empty fuel t i < sched_table_size) × (get_or t (next_empty fuel t i) none ≡ none)
  unfolding next_empty
  next_empty_lem zero t i j a b e h = elim h [ ]
  next_empty_lem (suc fuel) t i j a b e h = elim (Option-cases (get_or t i none)) [
    | inl free ↦ rw free (a, free)
    | inr held ↦
        let ih =
          next_empty_lem fuel t ((i + 1) % sched_table_size) j (omega arith) b e
            (closer held.0 held.1) in
        rw held.1 ih
  ]
    where
      apart : (fn : A) → get_or t i none ≡ some fn → i ≢ j
      apart fn q p = cc

      closer :
          (fn : A)
          → get_or t i none ≡ some fn
          → (j + sched_table_size - (i + 1) % sched_table_size) % sched_table_size < fuel
      closer fn q = let ne = apart fn q in omega arith

  -- What placing slots of a handler must keep and gain.
  abbrev pub Placed : A → ℕ → Table A → ℕ → Table A × ℕ → Type ℓ
  Placed fn remaining t n r =
      (length r.0 ≡ sched_table_size)
      × (r.1 ≡ n + remaining)
      × (assigned_count r.0 ≡ r.1)
      × ((i : ℕ) (g : A) → Holds t i g → Holds r.0 i g)
      × (0 < remaining → (i : ℕ) × (i < sched_table_size) × Holds r.0 i fn)

  pub place-Placed :
      (fn : A) (step remaining : ℕ) (t : Table A) (n index : ℕ)
      → length t ≡ sched_table_size
      → assigned_count t ≡ n
      → n + remaining ≤ sched_table_size
      → index < sched_table_size
      → Placed fn remaining t n (place fn step remaining t n index)
  unfolding place
  place-Placed fn step zero t n index len counted room a =
      (len, omega arith, counted, (λ i g h. h), λ h. absurd (omega arith))
  place-Placed fn step (suc remaining) t n index len counted room a =
      if_cases (Placed fn (suc remaining) t n) (leb sched_table_size n) (t, n)
        (place fn step remaining (set t i (some fn)) (n + 1) ((i + step) % sched_table_size))
        (λ p. absurd (ground arith))
        (λ p. more (
          place-Placed fn step remaining (set t i (some fn)) (n + 1) ((i + step) % sched_table_size)
            (length-set t i (some fn) ∙ len)
            (omega (arith, assigned_count-set t i fn inside empty_at.1, counted))
            (omega (arith, room)) (omega arith)))
    where
      i : ℕ
      i = next_empty sched_table_size t index

      empty_at : (i < sched_table_size) × (get_or t i none ≡ none)
      empty_at =
          let e = has_empty t (omega (arith, len, counted, room)) in
          next_empty_lem sched_table_size t index e.0 a (omega (arith, e.1, len)) e.2 (omega arith)

      kept : (k : ℕ) (g : A) → Holds t k g → Holds (set t i (some fn)) k g
      kept k g h = get_or-set_ne t i k (some fn) (apart k g h) ∙ h
        where
          apart : (k : ℕ) (g : A) → Holds t k g → i ≢ k
          apart k g h e = let free = empty_at.1 in cc

      inside : i < length t
      inside = omega (arith, empty_at.0, len)

      more :
          Placed fn remaining
            (set t i (some fn))
            (n + 1)
            (place fn step remaining (set t i (some fn)) (n + 1) ((i + step) % sched_table_size))
          → Placed fn
              (suc remaining)
              t
              n
              (place fn step remaining (set t i (some fn)) (n + 1) ((i + step) % sched_table_size))
      more ih = (
        ih.0,
        omega (arith, ih.1),
        ih.2,
        (λ k g h. ih.3 k g (kept k g h)),
        λ pos. (i, empty_at.0, ih.3 i fn (get_or-set_self t i (some fn) inside)),
      )
