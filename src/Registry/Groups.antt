-- ===== src/Registry/Groups.antt =====
-- The slot masks and the groups of handlers of src/scheduler_registry.cpp. A mask is the list of the
-- bits of the 64-bit word, the lowest first.
use reconverse.Prelude.{
  ℕ, zero, suc, ◌+◌, ◌%◌, Bool, true, false, List, [], ◌∷◌, ◌++◌, length, replicate, ltb, leb, ◌==◌,
  if◌then◌else◌,
}
use reconverse.Registry.{sched_table_size}

abbrev pub Mask : Type 0
Mask = List Bool

-- The bits `pos`, ... of a mask, `count` of them: `((pos + phase) % n) == 0`
unfoldable pub mask_bits : ℕ → ℕ → ℕ → ℕ → Mask
mask_bits n phase pos zero = []
mask_bits n phase pos (suc count) = ((pos + phase) % n == 0) ∷ mask_bits n phase (suc pos) count

-- make_mask_every_n
unfoldable pub make_mask_every_n : ℕ → ℕ → Mask
unfolding mask_bits
make_mask_every_n n phase =
    if n == 0
    then replicate sched_table_size false
    else (if n == 1
        then replicate sched_table_size true
        else (let clamped = if ltb sched_table_size n then sched_table_size else n in
            mask_bits clamped phase 0 sched_table_size))

-- QueuePollHandler
pub record QueuePollHandler {ℓ} (A : Type ℓ) : Type ℓ where
  pub fn : A
  pub mask : Mask
  pub period : ℕ
  pub phase : ℕ

module _ {ℓ} {A : Type ℓ} where
  -- The loop over the bits of one handler
  unfoldable pub push_bits : A → Mask → List (List A) → List (List A)
  push_bits fn [] groups = groups
  push_bits fn (b ∷ bits) [] = []
  push_bits fn (b ∷ bits) (g ∷ groups) = (if b then g ++ fn ∷ [] else g) ∷ push_bits fn bits groups

  -- The loop over the handlers. A mask of zeros pushes nothing, as its early `continue` does.
  unfoldable pub push_handlers : List (QueuePollHandler A) → List (List A) → List (List A)
  unfolding push_bits
  push_handlers [] groups = groups
  push_handlers (h ∷ hs) groups = push_handlers hs (push_bits h.fn h.mask groups)

  -- rebuild_groups
  unfoldable pub rebuild_groups : List (QueuePollHandler A) → List (List A)
  unfolding push_handlers
  rebuild_groups handlers = push_handlers handlers (replicate sched_table_size [])

  -- The handler of set_frequency with its new fields
  unfoldable pub with_frequency : ℕ → ℕ → QueuePollHandler A → QueuePollHandler A
  unfolding make_mask_every_n
  with_frequency period phase h =
      if period == 0
      then record h { period = 0; phase = 0; mask = replicate sched_table_size false }
      else (let p = if ltb sched_table_size period then sched_table_size else period in
          record h { period = p; phase = phase % p; mask = make_mask_every_n p (phase % p) })

  -- The handlers of set_frequency
  unfoldable pub change_at : List (QueuePollHandler A) → ℕ → ℕ → ℕ → List (QueuePollHandler A)
  unfolding with_frequency
  change_at [] i period phase = []
  change_at (h ∷ hs) zero period phase = with_frequency period phase h ∷ hs
  change_at (h ∷ hs) (suc i) period phase = h ∷ change_at hs i period phase

  -- set_frequency: the handlers, and the groups rebuilt from them
  unfoldable pub set_frequency :
      List (QueuePollHandler A) × List (List A)
      → ℕ
      → ℕ
      → ℕ
      → List (QueuePollHandler A) × List (List A)
  unfolding change_at rebuild_groups
  set_frequency (handlers, groups) index period phase =
      let changed = change_at handlers index period phase in
      if leb (length handlers) index then (handlers, groups) else (changed, rebuild_groups changed)

  -- add_handler
  unfoldable pub add_handler :
      List (QueuePollHandler A) × List (List A)
      → A
      → ℕ
      → ℕ
      → List (QueuePollHandler A) × List (List A)
  unfolding set_frequency
  add_handler (handlers, groups) fn period phase =
      set_frequency
        (
          handlers
              ++ record { fn = fn; mask = replicate sched_table_size false; period = 0; phase = 0 }
                ∷ [],
          groups,
        )
        (length handlers) period phase
