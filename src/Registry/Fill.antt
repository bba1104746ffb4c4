-- ===== src/Registry/Fill.antt =====
-- The whole slot table of src/scheduler_registry.cpp: no handler is left out.
use reconverse.Prelude.{
  ℕ, zero, suc, ◌+◌, ◌/◌, ◌%◌, ◌^◌, ◌<◌, ◌≤◌, ◌≡◌, ◌≢◌, refl, ap, ◌∙◌, Option, none, some, List, [],
  ◌∷◌, length, replicate, length-replicate, ◌==◌, if_cases, arith,
}
use reconverse.Registry.{
  sched_table_size, Table, sum, total_of, normalize, trim, place, fill, add_list_of_handlers,
}
use reconverse.Registry.Share.{
  AllPositive, Trimmed, normalize-AllPositive, length-normalize, trim_lem,
}
use reconverse.Registry.Place.{Holds, assigned_count, place-Placed}

assigned_count-replicate {ℓ} : (A : Type ℓ) (n : ℕ) → assigned_count {A = A} (replicate n none) ≡ 0
assigned_count-replicate A zero = refl
assigned_count-replicate A (suc n) = omega (arith, assigned_count-replicate A n)

module _ {ℓ} {A : Type ℓ} where
  -- Each handler of the list stands in a slot.
  abbrev pub AllHeld : Table A → List (A × ℕ) → Type ℓ
  AllHeld t [] = Unit {ℓ}
  AllHeld t ((fn, w) ∷ hs) = ((i : ℕ) × (i < sched_table_size) × Holds t i fn) × AllHeld t hs

  fill_lem :
      (hs : List (A × ℕ)) (slots : List ℕ) (t : Table A) (n current : ℕ)
      → AllPositive slots
      → length slots ≡ length hs
      → length t ≡ sched_table_size
      → assigned_count t ≡ n
      → n + sum slots ≤ sched_table_size
      → current < sched_table_size
      → (length (fill hs slots t n current) ≡ sched_table_size)
        × ((i : ℕ) (g : A) → Holds t i g → Holds (fill hs slots t n current) i g)
        × AllHeld (fill hs slots t n current) hs
  unfolding fill
  fill_lem [] slots t n current pos same len counted room a = (len, (λ i g h. h), tt)
  fill_lem ((fn, w) ∷ hs) [] t n current pos same len counted room a = absurd (omega arith)
  fill_lem ((fn, w) ∷ hs) (k ∷ slots) t n current pos same len counted room a =
      let p = place-Placed fn (sched_table_size / k) k t n current len counted (omega arith) a in
      let r = place fn (sched_table_size / k) k t n current in
      let g = p.4 pos.0 in
      let ih =
        fill_lem hs slots r.0 r.1 ((current + 1) % sched_table_size) pos.1 (omega (arith, same)) p.0
          p.2 (omega (arith, p.1, room)) (omega arith) in
      (ih.0, (λ i f h. ih.1 i f (p.3 i f h)), ((g.0, g.1, ih.1 g.0 fn g.2), ih.2))

  -- With at most as many handlers as slots and a total frequency that is not 0, a table is built,
  -- of 64 slots, and each handler has a slot in it, however small its frequency is
  -- beside the others. The number of slots before the trimming does not wrap.
  pub add_list_of_handlers-AllHeld :
      (hs : List (A × ℕ))
      → total_of hs ≢ 0
      → length hs ≤ sched_table_size
      → sum (normalize (total_of hs) hs) < 2 ^ 32
      → (t : Table A) × (add_list_of_handlers hs ≡ some t)
        × (length t ≡ sched_table_size)
        × AllHeld t hs
  unfolding add_list_of_handlers
  add_list_of_handlers-AllHeld hs some_work few small = (
    fill hs (trim all all shares) empty 0 0,
    built ∙ ap (λ k. some (fill hs (trim all k shares) empty 0 0)) fits,
    filled.0,
    filled.2,
  )
    where
      shares : List ℕ
      shares = normalize (total_of hs) hs

      all : ℕ
      all = sum shares

      empty : Table A
      empty = replicate sched_table_size none

      fits : all % 2 ^ 32 ≡ all
      fits = omega (arith, small)

      built : add_list_of_handlers hs ≡ some (fill hs (trim all (all % 2 ^ 32) shares) empty 0 0)
      built =
          if_cases (λ r. r ≡ some (fill hs (trim all (all % 2 ^ 32) shares) empty 0 0))
            (total_of hs == 0) none (some (fill hs (trim all (all % 2 ^ 32) shares) empty 0 0))
            (λ p. absurd (some_work (ground arith))) (λ p. refl)

      trimmed : Trimmed shares (trim all all shares)
      trimmed =
          trim_lem all shares (omega arith) (normalize-AllPositive (total_of hs) hs)
            (omega (arith, length-normalize (total_of hs) hs, few))

      filled :
          (length (fill hs (trim all all shares) empty 0 0) ≡ sched_table_size)
          × ((i : ℕ) (g : A)
              → Holds empty i g
              → Holds (fill hs (trim all all shares) empty 0 0) i g)
          × AllHeld (fill hs (trim all all shares) empty 0 0) hs
      filled =
          fill_lem hs (trim all all shares) empty 0 0 trimmed.0
            (trimmed.1 ∙ length-normalize (total_of hs) hs)
            (length-replicate {A = Option A} sched_table_size none)
            (assigned_count-replicate A sched_table_size) (omega (arith, trimmed.2)) (omega arith)
