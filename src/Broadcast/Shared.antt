-- ===== src/Broadcast/Shared.antt =====
-- The broadcast within a process, CmiWithinNodeBroadcast of src/collectives.cpp with
-- CmiForwardMsgToPeers, CmiReference and CmiFree of src/convcore.cpp: one buffer that the PEs share
-- by its reference count, or a copy for each. A PE may free its reference while the sender still
-- hands the buffer to others.
use reconverse.Prelude.{
  ℕ, zero, suc, leb, ◌&&◌, ◌≢◌, ◌+◌, ◌-◌, ◌<◌, ◌≡◌, refl, sym, ap, ◌∙◌, Bool, true, false, List, [],
  ◌∷◌, ◌++◌, length, length-append, ltb, ◌==◌, if◌then◌else◌, Bool-cases, inl, inr, arith,
}
use reconverse.Prelude.Count.{count, count-append}

-- `for (int i = first; ...)`, as many ranks.
abbrev pub ranks_from : ℕ → ℕ → List ℕ
ranks_from first zero = []
ranks_from first (suc n) = first ∷ ranks_from (suc first) n

-- CmiForwardMsgToPeers: the ranks to which the buffer, or a copy of it, is pushed, by the loop up to
-- the caller's rank and the loop behind it.
unfoldable pub forward_to_peers : ℕ → ℕ → List ℕ
forward_to_peers node_size my_rank =
    ranks_from 0 my_rank ++ ranks_from (my_rank + 1) (node_size - (my_rank + 1))

-- CmiWithinNodeBroadcast: the ranks that get the message, the caller's own at the end. A zero-copy
-- receive message goes to the caller alone.
unfoldable pub within_node_broadcast : Bool → ℕ → ℕ → List ℕ
unfolding forward_to_peers
within_node_broadcast zero_copy node_size my_rank =
    (if zero_copy then [] else forward_to_peers node_size my_rank) ++ my_rank ∷ []

-- A shared buffer: its reference count, the ranks that are still to get it, whether a reference has
-- been taken for the first of them, whether the sender has its own reference, the ranks that have
-- the buffer, and how often it has been released.
pub record Shared : Type 0 where
  pub refs : ℕ
  pub ahead : List ℕ
  pub referenced : Bool
  pub own : Bool
  pub holders : List ℕ
  pub released : ℕ

-- A buffer with the one reference of CmiAlloc
unfoldable pub sent : List ℕ → Shared
sent ranks = record {
  refs = 1;
  ahead = ranks;
  referenced = false;
  own = true;
  holders = [];
  released = 0;
}

-- CmiReference
unfoldable pub reference : Shared → Shared
reference s = record s { refs = s.refs + 1; referenced = true }

-- CmiPushPE
unfoldable pub push_to : ℕ → List ℕ → Shared → Shared
push_to r rest s = record s { ahead = rest; referenced = false; holders = r ∷ s.holders }

-- CmiSyncSendAndFree to the caller's own PE
unfoldable pub hand_over : ℕ → Shared → Shared
hand_over my_rank s = record s { own = false; holders = my_rank ∷ s.holders }

-- CmiFree
unfoldable pub free : List ℕ → Shared → Shared
free others s = record s {
  refs = s.refs - 1;
  holders = others;
  released = if s.refs == 1 then s.released + 1 else s.released;
}

pub data Step (my_rank : ℕ) : Shared → Shared → Type 0 where
  references :
      (s : Shared) (r : ℕ) (rest : List ℕ)
      → s.ahead ≡ r ∷ rest
      → s.referenced ≡ false
      → Step my_rank s (reference s)
  pushes :
      (s : Shared) (r : ℕ) (rest : List ℕ)
      → s.ahead ≡ r ∷ rest
      → s.referenced ≡ true
      → Step my_rank s (push_to r rest s)
  hands_over : (s : Shared) → s.ahead ≡ [] → s.own ≡ true → Step my_rank s (hand_over my_rank s)
  frees :
      (s : Shared) (r : ℕ) (before after : List ℕ)
      → s.holders ≡ before ++ r ∷ after
      → Step my_rank s (free (before ++ after) s)

pub data Reach (ranks : List ℕ) (my_rank : ℕ) : Shared → Type 0 where
  starts : Reach ranks my_rank (sent ranks)
  steps : (s t : Shared) → Reach ranks my_rank s → Step my_rank s t → Reach ranks my_rank t

count-ranks_from :
    (r first n : ℕ)
    → count r (ranks_from first n) ≡ (if leb first r && ltb r (first + n) then 1 else 0)
count-ranks_from r first zero = ground arith
count-ranks_from r first (suc n) = ground (arith, count-ranks_from r (suc first) n)

-- A message that is no zero-copy receive message reaches each PE of the process once.
count-within_node_broadcast :
    (node_size my_rank r : ℕ)
    → my_rank < node_size
    → count r (within_node_broadcast false node_size my_rank) ≡ (if ltb r node_size then 1 else 0)
unfolding within_node_broadcast forward_to_peers
count-within_node_broadcast node_size my_rank r h = ground (
  arith,
  count-append r (forward_to_peers node_size my_rank) (my_rank ∷ []),
  count-append r (ranks_from 0 my_rank) (ranks_from (my_rank + 1) (node_size - (my_rank + 1))),
  count-ranks_from r 0 my_rank,
  count-ranks_from r (my_rank + 1) (node_size - (my_rank + 1)),
)

abbrev Inv : Shared → Type 0
Inv s =
    (s.refs ≡ (if s.own then 1 else 0) + (if s.referenced then 1 else 0) + length s.holders)
    × (s.released ≡ (if s.refs == 0 then 1 else 0))
    × (s.own ≡ false → s.ahead ≡ [])
    × (s.ahead ≡ [] → s.referenced ≡ false)

some_ahead : (s : Shared) (r : ℕ) (rest : List ℕ) → s.ahead ≡ r ∷ rest → s.ahead ≢ []
some_ahead s r rest e z = omega (arith, ap length (sym e ∙ z))

own_ahead : (s : Shared) (r : ℕ) (rest : List ℕ) → Inv s → s.ahead ≡ r ∷ rest → s.own ≡ true
own_ahead s r rest inv e = elim (Bool-cases s.own) [
  | inl own ↦ own
  | inr done ↦ absurd (some_ahead s r rest e (inv.2 done))
]

Step-Inv : (my_rank : ℕ) (s t : Shared) → Inv s → Step my_rank s t → Inv t
unfolding reference push_to hand_over free
Step-Inv my_rank s t inv (references _ r rest e fresh) =
    let own = own_ahead s r rest inv e in
    (
      ground (arith, inv.0, own, fresh),
      ground (arith, inv.0, inv.1, own),
      (λ done. absurd (ground (arith, own, done))),
      λ z. absurd (some_ahead s r rest e z),
    )
Step-Inv my_rank s t inv (pushes _ r rest e taken) =
    let own = own_ahead s r rest inv e in
    (
      ground (arith, inv.0, own, taken),
      inv.1,
      (λ done. absurd (ground (arith, own, done))),
      λ z. refl,
    )
Step-Inv my_rank s t inv (hands_over _ e own) =
    (ground (arith, inv.0, own, inv.3 e), inv.1, (λ done. e), inv.3)
Step-Inv my_rank s t inv (frees _ r before after e) =
    let before_it = ap length e ∙ length-append before (r ∷ after) in
    let rest = length-append before after in
    (omega (arith, inv.0, before_it, rest), ground (arith, inv.0, inv.1, before_it), inv.2, inv.3)

Reach-Inv : (ranks : List ℕ) (my_rank : ℕ) (s : Shared) → Reach ranks my_rank s → Inv s
unfolding sent
Reach-Inv ranks my_rank s starts = (refl, refl, (λ done. absurd (ground (arith, done))), λ z. refl)
Reach-Inv ranks my_rank t (steps s _ r step) =
    Step-Inv my_rank s t (Reach-Inv ranks my_rank s r) step

-- A broadcast within a process of a message that is no zero-copy receive message goes to each PE of
-- the process once. Of a buffer that these PEs share, in every order of the hand-overs and the frees:
-- it is not released while the sender or a PE has it, and has been released once when the sender
-- has handed it to all and all have freed it.
pub within_node_broadcast-Shared :
    (node_size my_rank : ℕ) (s : Shared)
    → my_rank < node_size
    → Reach (forward_to_peers node_size my_rank) my_rank s
    → ((r : ℕ)
        → count r (within_node_broadcast false node_size my_rank)
          ≡ (if ltb r node_size then 1 else 0))
      × (s.own ≡ true → s.released ≡ 0)
      × (0 < length s.holders → s.released ≡ 0)
      × (s.own ≡ false → length s.holders ≡ 0 → s.released ≡ 1)
within_node_broadcast-Shared node_size my_rank s h reach =
    let inv = Reach-Inv (forward_to_peers node_size my_rank) my_rank s reach in
    (
      (λ r. count-within_node_broadcast node_size my_rank r h),
      (λ own. ground (arith, inv.0, inv.1, own)),
      (λ some_holder. ground (arith, inv.0, inv.1)),
      λ done nobody. ground (arith, inv.0, inv.1, done, inv.3 (inv.2 done)),
    )
