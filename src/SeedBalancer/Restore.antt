-- ===== src/SeedBalancer/Restore.antt =====
-- The handler of a seed on its way, src/cldb.cpp and src/cldb.rand.cpp: it is parked when the seed is
-- sent, and put back when the seed arrives.
use reconverse.Prelude.{
  ℕ, ◌%◌, ◌^◌, ◌<◌, ◌≤◌, ◌≡◌, ◌⊎◌, inl, inr, refl, ap, Bool, true, not, ◌&&◌, Option, none, some,
  List, leb, ◌==◌, if◌then◌else◌, if_cases, arith,
}
use mathlib.Core.Option
use reconverse.Machine.{Machine, node_of, num_pes}
use reconverse.Broadcast.{Header}
use reconverse.Groups.{Group}
use reconverse.SeedBalancer.{
  Seed, Info, Dest, single, broadcast, broadcast_all, Out, own_queue, node_queue, node_push, to_pe,
  to_others, to_all, to_node, to_other_nodes, to_all_nodes, to_group, to_list, to_process,
  restore_handler, switch_handler, set_info, set_handler, set_xhandler, parked, pick, outside,
  ready, on_seed, on_node_seed, enqueue_group, enqueue_within_node, enqueue_multi, node_send,
  pe_send, send_to_node, send_to_pe, node_enqueue_at, node_enqueue, enqueue_at, enqueue,
}

-- A pack function leaves the header alone.
abbrev pub KeepsHeader : (Seed → Seed) → Type 0
KeepsHeader pack = (s : Seed) → (pack s).header ≡ s.header

module _ (m : Machine) (info : ℕ → Seed → Info) (pack : Seed → Seed)
    (cld_handler cld_node_handler : ℕ) (s : Seed) (infofn : ℕ) where
  -- The body is that of the seed, packed or not.
  abbrev pub SameBody : Seed → Type 0
  SameBody t = (t.body ≡ s.body) ⊎ (t.body ≡ (pack s).body)

  -- A message that goes to the handler, for which CldRestoreHandler gives the seed's own handler.
  -- CldHandler puts the restored message into its PE's queue as the info function says, and
  -- CldNodeHandler into the node queue.
  abbrev pub Parked : ℕ → Seed → Type 0
  Parked handler t =
      let r = restore_handler t in
      let i = info infofn r in
      (t.header.handler_id ≡ handler % 2 ^ 16)
      × (r.header.handler_id ≡ s.header.handler_id)
      × SameBody r
      × (on_seed m info pack cld_handler cld_node_handler t ≡ own_queue i.queueing i.words r)
      × (on_node_seed m info pack cld_handler cld_node_handler t ≡ node_push r)

  -- A queue of the caller's process gets the seed as it is, under the strategy and the priority that
  -- the info function reports; any other message is parked, for CldHandler on PEs and for
  -- CldNodeHandler on nodes.
  abbrev pub Reaches : Out → Type 0
  Reaches (own_queue strategy words t) =
      (t ≡ s) × (strategy ≡ (info infofn s).queueing) × (words ≡ (info infofn s).words)
  Reaches (node_queue strategy words t) =
      (t ≡ s) × (strategy ≡ (info infofn s).queueing) × (words ≡ (info infofn s).words)
  Reaches (node_push t) = ⊥
  Reaches (to_pe pe len t) = Parked cld_handler t
  Reaches (to_others len t) = Parked cld_handler t
  Reaches (to_all len t) = Parked cld_handler t
  Reaches (to_node node len t) = Parked cld_node_handler t
  Reaches (to_other_nodes len t) = Parked cld_node_handler t
  Reaches (to_all_nodes len t) = Parked cld_node_handler t
  Reaches (to_group grp len t) = Parked cld_handler t
  Reaches (to_list pes len t) = Parked cld_handler t
  Reaches (to_process len t) = Parked cld_handler t

  abbrev pub Sent : Option Out → Type 0
  Sent none = ⊥
  Sent (some out) = Reaches out

  module _ (keeps : KeepsHeader pack) (low : s.header.handler_id < 2 ^ 15)
      (index : infofn ≤ 32767) where
    ready-kept :
        (may : Bool)
        → let r = (ready info pack may infofn s).0 in (r.header ≡ s.header) × SameBody r
    unfolding ready
    ready-kept may =
        if_cases (λ (r : Seed × Info). (r.0.header ≡ s.header) × SameBody r.0)
          ((info infofn s).packs && may) (pack s, info infofn (pack s)) (s, info infofn s)
          (λ e. (keeps s, inr refl)) (λ e. (refl, inl refl))

    -- Parking gives a parked message.
    parked-Sent :
        (handler : ℕ) (f : Seed → Out) (r : Seed)
        → r.header ≡ s.header
        → SameBody r
        → ((t : Seed) → Parked handler t → Reaches (f t))
        → Sent (Option.map f (parked handler infofn r))
    unfolding parked switch_handler set_info set_handler set_xhandler restore_handler on_seed
        on_node_seed
    parked-Sent handler f r e b g =
        rw (fits) (g _ (refl, omega (arith, ap (λ (h : Header). h.handler_id) e), b, refl, refl))
      where
        fits : leb infofn 32767 ≡ true
        fits = ground arith

    send_to_pe-Sent :
        (my_node : ℕ) (dest : Dest)
        → Sent (send_to_pe m info pack cld_handler cld_node_handler my_node dest s infofn)
    unfolding send_to_pe
    send_to_pe-Sent my_node dest =
        let (packed, i) = ready info pack (outside m my_node dest) infofn s in
        let (e, b) = ready-kept (outside m my_node dest) in
        parked-Sent cld_handler (pe_send dest i.len) packed e b (λ t p. branch dest i.len t p)
      where
        branch : (d : Dest) (len : ℕ) (t : Seed) → Parked cld_handler t → Reaches (pe_send d len t)
        branch (single pe) len t p = p
        branch broadcast len t p = p
        branch broadcast_all len t p = p

    send_to_node-Sent :
        (dest : Dest) → Sent (send_to_node m info pack cld_handler cld_node_handler dest s infofn)
    unfolding send_to_node
    send_to_node-Sent dest =
        let (packed, i) = ready info pack true infofn s in
        let (e, b) = ready-kept true in
        parked-Sent cld_node_handler (node_send dest i.len) packed e b
          (λ t p. branch dest i.len t p)
      where
        branch :
            (d : Dest) (len : ℕ) (t : Seed)
            → Parked cld_node_handler t
            → Reaches (node_send d len t)
        branch (single node) len t p = p
        branch broadcast len t p = p
        branch broadcast_all len t p = p

    node_enqueue_at-Sent :
        (my_node : ℕ) (dest : Dest)
        → Sent (node_enqueue_at m info pack cld_handler cld_node_handler my_node dest s infofn)
    unfolding node_enqueue_at
    node_enqueue_at-Sent my_node (single node) =
        if_cases Sent (node == my_node)
          (some (node_queue (info infofn s).queueing (info infofn s).words s))
          (send_to_node m info pack cld_handler cld_node_handler (single node) s infofn)
          (λ e. (refl, refl, refl)) (λ e. send_to_node-Sent (single node))
    node_enqueue_at-Sent my_node broadcast = send_to_node-Sent broadcast
    node_enqueue_at-Sent my_node broadcast_all = send_to_node-Sent broadcast_all

    enqueue_at-Sent :
        (me : ℕ) (dest : Dest)
        → Sent (enqueue_at m info pack cld_handler cld_node_handler me dest s infofn)
    unfolding enqueue_at
    enqueue_at-Sent me (single pe) =
        if_cases Sent (pe == me) (some (own_queue (info infofn s).queueing (info infofn s).words s))
          (send_to_pe m info pack cld_handler cld_node_handler (node_of m me) (single pe) s infofn)
          (λ e. (refl, refl, refl)) (λ e. send_to_pe-Sent (node_of m me) (single pe))
    enqueue_at-Sent me broadcast = send_to_pe-Sent (node_of m me) broadcast
    enqueue_at-Sent me broadcast_all = send_to_pe-Sent (node_of m me) broadcast_all

    node_enqueue-Sent :
        (rand my_node : ℕ) (dest : Option Dest)
        → Sent (node_enqueue m info pack cld_handler cld_node_handler rand my_node dest s infofn).0
    unfolding node_enqueue
    node_enqueue-Sent rand my_node none =
        node_enqueue_at-Sent my_node (single (pick rand my_node m.nodes))
    node_enqueue-Sent rand my_node (some dest) = node_enqueue_at-Sent my_node dest

    enqueue-Sent :
        (rand me : ℕ) (dest : Option Dest)
        → Sent (enqueue m info pack cld_handler cld_node_handler rand me dest s infofn).0
    unfolding enqueue
    enqueue-Sent rand me none =
        let pe = pick rand me (num_pes m) in
        if_cases (λ (r : Option Out × ℕ). Sent r.0) (node_of m pe == node_of m me)
          (
            node_enqueue_at m info pack cld_handler cld_node_handler (node_of m me)
                (single (node_of m me)) s infofn,
            0,
          )
          (
            enqueue_at m info pack cld_handler cld_node_handler me (single pe) s infofn,
            if pe == me then 0 else 1,
          )
          (λ e. node_enqueue_at-Sent (node_of m me) (single (node_of m me)))
          (λ e. enqueue_at-Sent me (single pe))
    enqueue-Sent rand me (some dest) = enqueue_at-Sent me dest

    -- Let the pack function leave the header alone, and let the seed's handler and the info function
    -- fit their fields. Wherever a seed is enqueued, to a PE, a node or all of them, anywhere, to a
    -- group, a list of PEs or the caller's process: the call does not fail; a queue of the caller's
    -- process gets the seed as it is, under the strategy and the priority that the info function
    -- reports; and every message that is sent goes to CldHandler, or to CldNodeHandler on nodes, and
    -- gets its own handler back there; CldHandler queues it as the named info function reports.
    pub enqueue-Restores :
        (rand me : ℕ) (dest : Option Dest) (grp : Group) (pes : List ℕ)
        → Sent (enqueue m info pack cld_handler cld_node_handler rand me dest s infofn).0
          × Sent (node_enqueue m info pack cld_handler cld_node_handler rand me dest s infofn).0
          × Sent (enqueue_group m info pack cld_handler cld_node_handler grp s infofn)
          × Sent (enqueue_multi m info pack cld_handler cld_node_handler pes s infofn)
          × Sent (enqueue_within_node m info pack cld_handler cld_node_handler s infofn)
    unfolding enqueue_group enqueue_multi enqueue_within_node
    enqueue-Restores rand me dest grp pes =
        let (packed, i) = ready info pack true infofn s in
        let (e, b) = ready-kept true in
        let (shared, j) = ready info pack (not s.nokeep) infofn s in
        let (f, c) = ready-kept (not s.nokeep) in
        (
          enqueue-Sent rand me dest,
          node_enqueue-Sent rand me dest,
          parked-Sent cld_handler (to_group grp i.len) packed e b (λ t p. p),
          parked-Sent cld_handler (to_list pes i.len) packed e b (λ t p. p),
          parked-Sent cld_handler (to_process j.len) shared f c (λ t p. p),
        )
