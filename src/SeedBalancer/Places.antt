-- ===== src/SeedBalancer/Places.antt =====
-- Where seeds go, src/cldb.rand.cpp: the random choice of CLD_ANYWHERE, the count of relocated
-- seeds, and which messages are packed.
use reconverse.Prelude.{
  ℕ, ◌+◌, ◌-◌, ◌%◌, ◌^◌, ◌<◌, ◌≤◌, ◌≡◌, refl, ap, subst, Bool, true, false, Bool-cases, inl, inr,
  ◌∙◌, sym, not, ◌&&◌, Option, none, some, ◌==◌, ==_iff, if◌then◌else◌, arith,
}
use mathlib.Core.Option
use reconverse.Machine.{Machine, node_of, num_pes}
use reconverse.SeedBalancer.{
  Seed, Info, Out, to_pe, single, node_queue, pick, node_enqueue_at, send_to_pe, enqueue_at,
  enqueue, set_info, switch_handler, set_handler, set_xhandler, outside, pe_send, ready, parked,
}

pick-lt : (rand i n : ℕ) → 0 < n → pick rand i n < n
unfolding pick
pick-lt rand i n h = omega arith

-- Each PE is chosen for some random number.
pick-onto :
    (i n x : ℕ) → n ≤ 2 ^ 31 → i < n → x < n → (rand : ℕ) × (rand < 2 ^ 31) × (pick rand i n ≡ x)
unfolding pick
pick-onto i n x small here there = ((2 ^ 31 + x - i) % 2 ^ 31, omega arith, chosen)
  where
    back : ((2 ^ 31 + x - i) % 2 ^ 31 + i) % 2 ^ 31 ≡ x
    back = omega arith

    chosen : ((2 ^ 31 + x - i) % 2 ^ 31 + i) % 2 ^ 31 % n ≡ x
    chosen = rw back (grind arith)

module _ (m : Machine) (info : ℕ → Seed → Info) (pack : Seed → Seed)
    (cld_handler cld_node_handler : ℕ) (s : Seed) (infofn : ℕ) where
  -- The seed as it leaves the process.
  abbrev packed : Seed
  packed = if (info infofn s).packs then pack s else s

  -- What becomes of a seed that is for PE x, by whether x is of the caller's process: it is put into
  -- the node queue there as it is, and not counted; or it is sent to x, packed, with the handler of
  -- the seed balancer in place of its own, which is parked, and counted as relocated.
  abbrev LandsAt : Bool → ℕ → Option Out × ℕ → Type 0
  LandsAt true x r = r ≡ (some (node_queue (info infofn s).queueing (info infofn s).words s), 0)
  LandsAt false x r =
      (t : Seed) × (r ≡ (some (to_pe x (info infofn packed).len t), 1))
      × (t.header.handler_id ≡ cld_handler % 2 ^ 16)
      × (t.swap_handler_id ≡ packed.header.handler_id % 2 ^ 16)
      × (t.cld_info_fn ≡ infofn)
      × (t.body ≡ packed.body)

  abbrev pub Lands : ℕ → ℕ → ℕ → Type 0
  Lands me rand x =
      LandsAt (node_of m x == node_of m me) x
        (enqueue m info pack cld_handler cld_node_handler rand me none s infofn)

  module _ (me : ℕ) (known : infofn ≤ 32767) where
    set_info-known : (t : Seed) → set_info infofn t ≡ some (record t { cld_info_fn = infofn })
    unfolding set_info
    set_info-known t = ground (arith, known)

    pack_of :
        (p : Bool)
        → ◌≡◌ {A = Seed × Info}
            (if p && true then (pack s, info infofn (pack s)) else (s, info infofn s))
            (if p then pack s else s, info infofn (if p then pack s else s))
    pack_of true = refl
    pack_of false = refl

    ready-packed : ready info pack true infofn s ≡ (packed, info infofn packed)
    unfolding ready
    ready-packed = pack_of (info infofn s).packs

    abbrev sending : ℕ → Seed × Info → Option Out
    sending pe r = Option.map (pe_send (single pe) r.1.len) (parked cld_handler infofn r.0)

    abbrev outgoing : Seed
    outgoing = record (switch_handler cld_handler packed) { cld_info_fn = infofn }

    send_to_pe-apart :
        (pe : ℕ)
        → (node_of m pe == node_of m me) ≡ false
        → send_to_pe m info pack cld_handler cld_node_handler (node_of m me) (single pe) s infofn
          ≡ some (to_pe pe (info infofn packed).len outgoing)
    unfolding send_to_pe outside pe_send parked
    send_to_pe-apart pe apart =
        ap (λ b. sending pe (ready info pack (not b) infofn s)) apart
        ∙ ap (sending pe) ready-packed
        ∙ ap (Option.map (pe_send (single pe) (info infofn packed).len))
            (set_info-known (switch_handler cld_handler packed))

    sent_away :
        (pe : ℕ)
        → (node_of m pe == node_of m me) ≡ false
        → LandsAt false pe (
          send_to_pe m info pack cld_handler cld_node_handler (node_of m me) (single pe) s infofn,
          1,
        )
    unfolding switch_handler set_handler set_xhandler
    sent_away pe apart =
        (outgoing, ap (λ o. (o, 1)) (send_to_pe-apart pe apart), refl, refl, refl, refl)

    by_place :
        (b : Bool) (pe : ℕ) (own away : Option Out × ℕ)
        → (b ≡ true → LandsAt true pe own)
        → (b ≡ false → LandsAt false pe away)
        → LandsAt b pe (if b then own else away)
    by_place true pe own away f g = f refl
    by_place false pe own away f g = g refl

    not_me : (pe : ℕ) → (node_of m pe == node_of m me) ≡ false → (pe == me) ≡ false
    not_me pe e = elim (Bool-cases (pe == me)) [
      | inl i ↦ absurd (ground (arith, e, ap (node_of m) ((==_iff pe me).0 i)))
      | inr n ↦ n
    ]

    here_too :
        node_enqueue_at m info pack cld_handler cld_node_handler
          (node_of m me)
          (single (node_of m me))
          s
          infofn
        ≡ some (node_queue (info infofn s).queueing (info infofn s).words s)
    unfolding node_enqueue_at
    here_too = rw ((==_iff (node_of m me) (node_of m me)).1 refl) refl

    enqueue_at-apart :
        (pe : ℕ)
        → (node_of m pe == node_of m me) ≡ false
        → enqueue_at m info pack cld_handler cld_node_handler me (single pe) s infofn
          ≡ send_to_pe m info pack cld_handler cld_node_handler (node_of m me) (single pe) s infofn
    unfolding enqueue_at
    enqueue_at-apart pe e = rw (not_me pe e) refl

    sent : (rand : ℕ) → Lands me rand (pick rand me (num_pes m))
    unfolding enqueue
    sent rand =
        by_place (node_of m pe == node_of m me) pe
          (
            node_enqueue_at m info pack cld_handler cld_node_handler (node_of m me)
                (single (node_of m me)) s infofn,
            0,
          )
          (
            enqueue_at m info pack cld_handler cld_node_handler me (single pe) s infofn,
            if pe == me then 0 else 1,
          )
          (λ e. ap (λ o. (o, 0)) here_too)
          (λ e.
            subst (LandsAt false pe)
              (sym (
                ap
                  (λ c. (
                    enqueue_at m info pack cld_handler cld_node_handler me (single pe) s infofn,
                    if c then 0 else 1,
                  ))
                  (not_me pe e)
                ∙ ap (λ o. (o, 1)) (enqueue_at-apart pe e)))
              (sent_away pe e))
      where
        pe : ℕ
        pe = pick rand me (num_pes m)

  -- On a PE of a machine of at most 2 ^ 31 PEs, with an info function whose index fits its field:
  -- CLD_ANYWHERE chooses for each random number a PE of the machine, and each PE for some random
  -- number below 2 ^ 31. The seed lands at the chosen PE: in the node queue if that PE is of the
  -- caller's process, otherwise packed, its handler parked, in one message to that PE, which is
  -- counted as relocated.
  pub enqueue-Anywhere :
      (me : ℕ)
      → me < num_pes m
      → num_pes m ≤ 2 ^ 31
      → infofn ≤ 32767
      → ((rand : ℕ) → (x : ℕ) × (x < num_pes m) × Lands me rand x)
        × ((x : ℕ) → x < num_pes m → (rand : ℕ) × (rand < 2 ^ 31) × Lands me rand x)
  enqueue-Anywhere me here small known = (
    (λ rand.
        (pick rand me (num_pes m), pick-lt rand me (num_pes m) (omega arith), sent me known rand)),
    λ x there.
        let (rand, low, chosen) = pick-onto me (num_pes m) x small here there in
        (rand, low, subst (Lands me rand) chosen (sent me known rand)),
  )
