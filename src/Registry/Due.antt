-- ===== src/Registry/Due.antt =====
-- Which slots a handler of src/scheduler_registry.cpp is due at.
use reconverse.Prelude.{
  ℕ, zero, suc, ◌+◌, ◌%◌, ◌<◌, ◌≡◌, refl, sym, ap, ◌∙◌, Bool, true, false, List, [], ◌∷◌, ◌++◌,
  append-nil, append_assoc, length, replicate, length-replicate, get_or, length-append, ltb, leb,
  ◌==◌, if◌then◌else◌, if_cases, Bool-cases, inl, inr, arith,
}
use reconverse.Registry.{sched_table_size}
use reconverse.Registry.Groups.{
  Mask, mask_bits, make_mask_every_n, QueuePollHandler, push_bits, push_handlers, rebuild_groups,
  with_frequency, change_at, set_frequency, add_handler,
}

module _ {ℓ} {A : Type ℓ} where
  -- The functions whose masks have the bit of a slot, in the order of the handlers.
  abbrev pub due : ℕ → List (QueuePollHandler A) → List A
  due slot [] = []
  due slot (h ∷ hs) = (if get_or h.mask slot false then h.fn ∷ [] else []) ++ due slot hs

  push_bits_lem :
      (fn : A) (bits : Mask) (groups : List (List A)) (slot : ℕ)
      → slot < length groups
      → get_or (push_bits fn bits groups) slot []
        ≡ get_or groups slot [] ++ (if get_or bits slot false then fn ∷ [] else [])
  unfolding push_bits
  push_bits_lem fn [] groups slot h = sym (append-nil (get_or groups slot []))
  push_bits_lem fn (b ∷ bits) [] slot h = elim h [ ]
  push_bits_lem fn (true ∷ bits) (g ∷ groups) zero h = refl
  push_bits_lem fn (false ∷ bits) (g ∷ groups) zero h = sym (append-nil g)
  push_bits_lem fn (b ∷ bits) (g ∷ groups) (suc slot) h =
      push_bits_lem fn bits groups slot (omega arith)

  length-push_bits :
      (fn : A) (bits : Mask) (groups : List (List A))
      → length (push_bits fn bits groups) ≡ length groups
  unfolding push_bits
  length-push_bits fn [] groups = refl
  length-push_bits fn (b ∷ bits) [] = refl
  length-push_bits fn (b ∷ bits) (g ∷ groups) = ap suc (length-push_bits fn bits groups)

  push_handlers_lem :
      (hs : List (QueuePollHandler A)) (groups : List (List A)) (slot : ℕ)
      → slot < length groups
      → get_or (push_handlers hs groups) slot [] ≡ get_or groups slot [] ++ due slot hs
  unfolding push_handlers
  push_handlers_lem [] groups slot h = sym (append-nil (get_or groups slot []))
  push_handlers_lem (x ∷ hs) groups slot h =
      push_handlers_lem hs (push_bits x.fn x.mask groups) slot
        (omega (arith, length-push_bits x.fn x.mask groups))
      ∙ ap (λ g. g ++ due slot hs) (push_bits_lem x.fn x.mask groups slot h)
      ∙ append_assoc (get_or groups slot []) (if get_or x.mask slot false then x.fn ∷ [] else [])
          (due slot hs)

  get_or-nils : (n slot : ℕ) (g : List A) → g ≡ [] → get_or (replicate n g) slot [] ≡ []
  get_or-nils zero slot g e = refl
  get_or-nils (suc n) zero g e = e
  get_or-nils (suc n) (suc slot) g e = get_or-nils n slot g e

  rebuild_groups_lem :
      (hs : List (QueuePollHandler A)) (slot : ℕ)
      → slot < sched_table_size
      → get_or (rebuild_groups hs) slot [] ≡ due slot hs
  unfolding rebuild_groups
  rebuild_groups_lem hs slot h =
      push_handlers_lem hs (replicate sched_table_size []) slot
        (omega (arith, length-replicate {A = List A} sched_table_size []))
      ∙ ap (λ g. g ++ due slot hs) (get_or-nils sched_table_size slot [] refl)

get_or-bits : (n slot : ℕ) (b : Bool) → slot < n → get_or (replicate n b) slot false ≡ b
get_or-bits zero slot b h = elim h [ ]
get_or-bits (suc n) zero b h = refl
get_or-bits (suc n) (suc slot) b h = get_or-bits n slot b (omega arith)

mask_bits_lem :
    (n phase pos count slot : ℕ)
    → slot < count
    → get_or (mask_bits n phase pos count) slot false ≡ ((pos + slot + phase) % n == 0)
unfolding mask_bits
mask_bits_lem n phase pos zero slot h = elim h [ ]
mask_bits_lem n phase pos (suc count) zero h = ap (λ (k : ℕ). (k + phase) % n == 0) (omega arith)
mask_bits_lem n phase pos (suc count) (suc slot) h =
    mask_bits_lem n phase (suc pos) count slot (omega arith)
    ∙ ap (λ (k : ℕ). (k + phase) % n == 0) (omega arith)

-- A period, at most the size of the table
abbrev pub cut : ℕ → ℕ
cut n = if ltb sched_table_size n then sched_table_size else n

-- The slots of a period: every n-th one, from the phase on, with n cut to the size of the table.
abbrev pub is_due : ℕ → ℕ → ℕ → Bool
is_due n phase slot = if n == 0 then false else (slot + phase) % (cut n) == 0

make_mask_every_n_lem :
    (n phase slot : ℕ)
    → slot < sched_table_size
    → get_or (make_mask_every_n n phase) slot false ≡ is_due n phase slot
unfolding make_mask_every_n
make_mask_every_n_lem n phase slot h = elim (Bool-cases (n == 0)) [
  | inl z ↦ rw z (get_or-bits sched_table_size slot false h)
  | inr p ↦ elim (Bool-cases (n == 1)) [
    | inl one ↦
        rw (p, one) (get_or-bits sched_table_size slot true h ∙ sym (every_slot (ground arith)))
    | inr q ↦
        rw (p, q)
          (mask_bits_lem (cut n) phase 0 sched_table_size slot h
            ∙ ap (λ (k : ℕ). (k + phase) % (cut n) == 0) (omega arith))
  ]
]
  where
    every_slot : n ≡ 1 → ((slot + phase) % (cut n) == 0) ≡ true
    every_slot e = rw e (ground arith)

cut-cut : (n : ℕ) → cut (cut n) ≡ cut n
cut-cut n = ground arith

cut-zero : (n : ℕ) → (n == 0) ≡ false → (cut n == 0) ≡ false
cut-zero n p = ground arith

is_due-cut : (n phase slot : ℕ) → (n == 0) ≡ false → is_due (cut n) phase slot ≡ is_due n phase slot
is_due-cut n phase slot p = rw (p, cut-zero n p) (ap (λ k. (slot + phase) % k == 0) (cut-cut n))

is_due-pos :
    (n phase slot : ℕ) → (n == 0) ≡ false → is_due n phase slot ≡ ((slot + phase) % (cut n) == 0)
is_due-pos n phase slot p = rw p refl

module _ {ℓ} {A : Type ℓ} where
  -- A handler as set_frequency leaves it is due at the slots of its period.
  with_frequency-due :
      (period phase slot : ℕ) (h : QueuePollHandler A)
      → slot < sched_table_size
      → due slot (with_frequency period phase h ∷ [])
        ≡ (if is_due period (phase % (cut period)) slot then h.fn ∷ [] else [])
  unfolding with_frequency
  with_frequency-due period phase slot h lt = elim (Bool-cases (period == 0)) [
    | inl z ↦ rw z (
        shown (replicate sched_table_size false) false (get_or-bits sched_table_size slot false lt))
    | inr p ↦ rw p (
        shown (make_mask_every_n (cut period) (phase % (cut period)))
          ((slot + phase % (cut period)) % (cut period) == 0)
          (make_mask_every_n_lem (cut period) (phase % (cut period)) slot lt
            ∙ is_due-cut period (phase % (cut period)) slot p
            ∙ is_due-pos period (phase % (cut period)) slot p))
  ]
    where
      shown :
          (mask : Mask) (b : Bool)
          → get_or mask slot false ≡ b
          → (if get_or mask slot false then h.fn ∷ [] else []) ++ [] ≡ (if b then h.fn ∷ [] else [])
      shown mask b e = rw e (append-nil (if b then h.fn ∷ [] else []))

  due-append :
      (slot : ℕ) (hs ks : List (QueuePollHandler A))
      → due slot (hs ++ ks) ≡ due slot hs ++ due slot ks
  due-append slot [] ks = refl
  due-append slot (h ∷ hs) ks =
      ap (λ l. (if get_or h.mask slot false then h.fn ∷ [] else []) ++ l) (due-append slot hs ks)
      ∙ sym (
          append_assoc (if get_or h.mask slot false then h.fn ∷ [] else []) (due slot hs)
            (due slot ks))

  change_at-end :
      (hs : List (QueuePollHandler A)) (h : QueuePollHandler A) (period phase : ℕ)
      → change_at (hs ++ h ∷ []) (length hs) period phase ≡ hs ++ with_frequency period phase h ∷ []
  unfolding change_at
  change_at-end [] h period phase = refl
  change_at-end (x ∷ hs) h period phase = ap (λ l. x ∷ l) (change_at-end hs h period phase)

  set_frequency_lem :
      (hs : List (QueuePollHandler A)) (groups : List (List A)) (index period phase : ℕ)
      → index < length hs
      → (set_frequency (hs, groups) index period phase).1
        ≡ rebuild_groups (change_at hs index period phase)
  unfolding set_frequency
  set_frequency_lem hs groups index period phase lt =
      if_cases
        (λ (r : List (QueuePollHandler A) × List (List A)).
          r.1 ≡ rebuild_groups (change_at hs index period phase))
        (leb (length hs) index) (hs, groups)
        (change_at hs index period phase, rebuild_groups (change_at hs index period phase))
        (λ p. absurd (ground arith)) (λ p. refl)

  -- The handler that add_handler pushes before it sets the frequency.
  abbrev new_handler : A → QueuePollHandler A
  new_handler fn = record {
    fn = fn;
    mask = replicate sched_table_size false;
    period = 0;
    phase = 0;
  }

  -- add_handler puts the function into the groups of its period and of no other slot, behind the
  -- handlers that are there: into none if the period is 0, and otherwise into each slot at which
  -- slot plus phase is a multiple of the period, where a period above 64 counts as 64.
  pub add_handler_lem :
      (handlers : List (QueuePollHandler A)) (groups : List (List A)) (fn : A)
      (period phase slot : ℕ)
      → slot < sched_table_size
      → get_or (add_handler (handlers, groups) fn period phase).1 slot []
        ≡ due slot handlers ++ (if is_due period (phase % (cut period)) slot then fn ∷ [] else [])
  unfolding add_handler
  add_handler_lem handlers groups fn period phase slot lt =
      ap (λ g. get_or g slot [])
        (set_frequency_lem (handlers ++ new_handler fn ∷ []) groups (length handlers) period phase
          (omega (arith, length-append handlers (new_handler fn ∷ []))))
      ∙ rebuild_groups_lem
          (change_at (handlers ++ new_handler fn ∷ []) (length handlers) period phase) slot lt
      ∙ ap (due slot) (change_at-end handlers (new_handler fn) period phase)
      ∙ due-append slot handlers (with_frequency period phase (new_handler fn) ∷ [])
      ∙ ap (λ l. due slot handlers ++ l) (with_frequency-due period phase slot (new_handler fn) lt)
