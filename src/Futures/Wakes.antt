-- ===== src/Futures/Wakes.antt =====
-- No thread that waits for a future of src/futures.cpp is forgotten or awakened twice.
use reconverse.Prelude.{
  ℕ, zero, suc, ◌+◌, ◌<◌, ◌≡◌, ◌⊎◌, refl, sym, ap, ◌∙◌, subst, Bool, true, false, Option, none,
  some, List, [], ◌∷◌, ◌++◌, ◌==◌, ==_iff, if◌then◌else◌, if_cases, Bool-cases, inl, inr, arith,
}
use reconverse.Prelude.Count.{count, count-append, AllBelow}
use reconverse.Futures.{
  Cell, Phase, running, waiting, woken, Pe, update, fresh_cell, chain_from, awakened, awaken_all,
  awaken, store_buffer, Outcome, returns, suspends, aborts, suspend_on, wait, resume, start, Step,
  sets, arrives, waits, resumes, Reach, starts, steps,
}
use reconverse.Futures.Values.{WasSet, Reach-Kept}
use reconverse.Futures.Chains.{Linked, chain_from-Linked, Linked-update, length_le, awaken_all_lem}

abbrev is_waiting : ℕ → Phase → Bool
is_waiting c running = false
is_waiting c (waiting d) = d == c
is_waiting c (woken d) = false

abbrev is_woken : ℕ → Phase → Bool
is_woken c running = false
is_woken c (waiting d) = false
is_woken c (woken d) = d == c

abbrev has_token : Phase → ℕ
has_token running = 0
has_token (waiting d) = 0
has_token (woken d) = 1

-- The threads that wait for a cell make up its chain, and a cell that is ready has a value and no
-- waiting thread.
abbrev CellOk : ℕ → Pe → ℕ → Type 0
CellOk n s c =
    (xs : List ℕ) × Linked s.next (s.cells c).waiters xs
    × AllBelow n xs
    × ((t : ℕ) → count t xs ≡ (if is_waiting c (s.phase t) then 1 else 0))
    × ((s.cells c).ready ≡ true
        → ((s.cells c).waiters ≡ none) × ((v : ℕ) × ((s.cells c).value ≡ some v)))

abbrev Inv : ℕ → Pe → Type 0
Inv n s =
    ((c : ℕ) → CellOk n s c)
    × ((t : ℕ) → count t s.queue ≡ has_token (s.phase t))
    × ((t c : ℕ) → is_woken c (s.phase t) ≡ true → (s.cells c).ready ≡ true)

-- What CfutureAwaken for cell c does to a phase.
abbrev moved : ℕ → Phase → Phase
moved c p = if (if is_waiting c p then 1 else 0) == 0 then p else awakened p

waiting_moved :
    (c d : ℕ) (p : Phase) → is_waiting d (moved c p) ≡ (if d == c then false else is_waiting d p)
waiting_moved c d running = ground arith
waiting_moved c d (waiting e) = ground arith
waiting_moved c d (woken e) = ground arith

token_moved :
    (c : ℕ) (p : Phase) → has_token (moved c p) ≡ has_token p + (if is_waiting c p then 1 else 0)
token_moved c running = refl
token_moved c (waiting e) = ground arith
token_moved c (woken e) = refl

woken_moved :
    (c d : ℕ) (p : Phase) → is_woken d (moved c p) ≡ true → (is_woken d p ≡ true) ⊎ (d ≡ c)
woken_moved c d running h = inl h
woken_moved c d (waiting e) h = ground arith
woken_moved c d (woken e) h = inl h

seen : (b w : Bool) → (if b then false else w) ≡ true → w ≡ true
seen b w h = ground arith

-- What can be seen of the phases after one of them changes.
module _ {ℓ} {A : Type ℓ} (see : Phase → A) (phase : ℕ → Phase) (t : ℕ) (p : Phase) (u : ℕ) where
  update-see : see (update phase t p u) ≡ (if u == t then see p else see (phase u))
  update-see = elim (Bool-cases (u == t)) [ inl e ↦ rw e refl | inr e ↦ rw e refl ]

  update-keeps : see p ≡ see (phase t) → see (update phase t p u) ≡ see (phase u)
  update-keeps k = elim (Bool-cases (u == t)) [
    | inl e ↦ rw e (k ∙ ap (λ x. see (phase x)) (sym ((==_iff u t).0 e)))
    | inr e ↦ rw e refl
  ]

module _ (n : ℕ) (s : Pe) (inv : Inv n s) where
  -- The threads that CfutureAwaken visits are those that wait for the cell.
  chain_counts :
      (c t : ℕ)
      → count t (chain_from n s.next (s.cells c).waiters)
        ≡ (if is_waiting c (s.phase t) then 1 else 0)
  chain_counts c t =
      let (xs, l, b, counts, r) = inv.0 c in
      ap (count t) (
        chain_from-Linked n s.next (s.cells c).waiters xs
          (length_le n xs b (λ u. ground (arith, counts u))) l)
      ∙ counts t

  module _ (c v : ℕ) where
    after : ℕ → Phase
    after = awaken_all (chain_from n s.next (s.cells c).waiters) s.phase

    after_lem : (t : ℕ) → after t ≡ moved c (s.phase t)
    unfolding after
    after_lem t =
        awaken_all_lem (chain_from n s.next (s.cells c).waiters) s.phase t
        ∙ ap (λ k. if k == 0 then s.phase t else awakened (s.phase t)) (chain_counts c t)

    abbrev AwakenedOk : ℕ → Cell → Type 0
    AwakenedOk d k =
        (xs : List ℕ) × Linked s.next k.waiters xs
        × AllBelow n xs
        × ((t : ℕ) → count t xs ≡ (if is_waiting d (after t) then 1 else 0))
        × (k.ready ≡ true → (k.waiters ≡ none) × ((w : ℕ) × (k.value ≡ some w)))

    awaken-Inv : (flying : List (ℕ × ℕ)) → Inv n (awaken n c v (record s { flying = flying }))
    unfolding awaken after
    awaken-Inv flying = (
      (λ d.
          if_cases (AwakenedOk d) (d == c) (record { value = some v; ready = true; waiters = none })
            (s.cells d)
            (λ e. (
              [],
              tt,
              tt,
              (λ t. rw (after_lem t, waiting_moved c d (s.phase t), e) refl),
              λ r. (refl, (v, refl)),
            ))
            (λ e.
              let (xs, l, b, counts, r) = inv.0 d in
              (
                xs,
                l,
                b,
                (λ t. counts t ∙ rw (after_lem t, waiting_moved c d (s.phase t), e) refl),
                r,
              ))),
      (λ t. rw (after_lem t) (
          count-append t s.queue (chain_from n s.next (s.cells c).waiters)
          ∙ omega (arith, inv.1 t, chain_counts c t, token_moved c (s.phase t)))),
      λ t d h.
          if_cases (λ (k : Cell). k.ready ≡ true) (d == c)
            (record { value = some v; ready = true; waiters = none }) (s.cells d) (λ e. refl)
            (λ e. elim (woken_moved c d (s.phase t) (ap (is_woken d) (sym (after_lem t)) ∙ h)) [
              | inl w ↦ inv.2 t d w
              | inr same ↦ absurd (ground arith)
            ]),
    )

  -- A running thread waits.
  module _ (t c : ℕ) (there : t < n) (runs : s.phase t ≡ running)
      (unset : (s.cells c).ready ≡ false) where
    idle : (d : ℕ) → count t (inv.0 d).0 ≡ 0
    idle d = let e = ap (is_waiting d) runs in ground (arith, (inv.0 d).3 t)

    same_ready :
        (d : ℕ)
        → (s.cells d).ready ≡ true
        → (update s.cells c (record (s.cells c) { waiters = some t }) d).ready ≡ true
    same_ready d h = elim (Bool-cases (d == c)) [
      | inl e ↦ rw e (ap (λ x. (s.cells x).ready) (sym ((==_iff d c).0 e)) ∙ h)
      | inr e ↦ rw e h
    ]

    apart : (d : ℕ) → (d == c) ≡ false → (c == d) ≡ false
    apart d e = ground arith

    pointed : update s.next t (s.cells c).waiters t ≡ (s.cells c).waiters
    pointed = rw ((==_iff t t).1 refl) refl

    none_of : (u : ℕ) → (u == t) ≡ true → count u (inv.0 c).0 ≡ 0
    none_of u e = ap (λ x. count x (inv.0 c).0) ((==_iff u t).0 e) ∙ idle c

    own : CellOk n (suspend_on t c s) c
    unfolding suspend_on
    own =
        let (xs, l, b, counts, r) = inv.0 c in
        rw ((==_iff c c).1 refl) (
          t ∷ xs,
          (
            refl,
            subst (λ h. Linked (update s.next t (s.cells c).waiters) h xs) (sym pointed)
                (Linked-update s.next t (s.cells c).waiters (s.cells c).waiters xs (idle c) l),
          ),
          (there, b),
          (λ u.
              ground
                (arith, counts u, update-see (is_waiting c) s.phase t (waiting c) u, none_of u)),
          λ e. absurd (ground arith),
        )

    suspend_on-Inv : Inv n (suspend_on t c s)
    unfolding suspend_on
    suspend_on-Inv = (
      (λ d. elim (Bool-cases (d == c)) [
        | inl e ↦ subst (CellOk n (suspend_on t c s)) (sym ((==_iff d c).0 e)) own
        | inr e ↦ rw e (
            let (xs, l, b, counts, r) = inv.0 d in
            (
              xs,
              Linked-update s.next t (s.cells c).waiters (s.cells d).waiters xs (idle d) l,
              b,
              (λ u.
                  counts u
                  ∙ sym (
                      ap (λ w. if w then 1 else 0)
                        (update-keeps (is_waiting d) s.phase t (waiting c) u
                          (apart d e ∙ sym (ap (is_waiting d) runs))))),
              r,
            ))
      ]),
      (λ u.
          inv.1 u ∙ sym (update-keeps has_token s.phase t (waiting c) u (sym (ap has_token runs)))),
      λ u d h.
          let w =
            sym (update-keeps (is_woken d) s.phase t (waiting c) u (sym (ap (is_woken d) runs)))
            ∙ h in
          same_ready d (inv.2 u d w),
    )

  -- A thread whose token is taken runs again.
  module _ (t c : ℕ) (before others : List ℕ) (here : s.queue ≡ before ++ t ∷ others)
      (was : s.phase t ≡ woken c) where
    one : (u : ℕ) → (u == t) ≡ true → has_token (s.phase u) ≡ 1
    one u e = ap (λ x. has_token (s.phase x)) ((==_iff u t).0 e) ∙ ap has_token was

    resume-Inv : Inv n (resume t c (before ++ others) s).0
    unfolding resume
    resume-Inv = (
      (λ d.
          let (xs, l, b, counts, r) = inv.0 d in
          (
            xs,
            l,
            b,
            (λ u.
                counts u
                ∙ sym (
                    ap (λ w. if w then 1 else 0)
                      (update-keeps (is_waiting d) s.phase t running u
                        (sym (ap (is_waiting d) was))))),
            r,
          )),
      (λ u. ground (
        arith,
        inv.1 u,
        ap (count u) here,
        count-append u before (t ∷ others),
        count-append u before others,
        update-see has_token s.phase t running u,
        one u,
      )),
      λ u d h. inv.2 u d (
          seen (u == t) (is_woken d (s.phase u))
            (sym (update-see (is_woken d) s.phase t running u) ∙ h)),
    )

Step-Inv : (n here : ℕ) (s u : Pe) → Inv n s → Step n here s u → Inv n u
unfolding store_buffer wait
Step-Inv n here s u inv (sets _ me f v at_here) =
    if_cases (Inv n) (here == me) (awaken n f.data_at v s)
      (record s { flying = s.flying ++ (f.data_at, v) ∷ [] })
      (λ e. awaken-Inv n s inv f.data_at v s.flying) (λ e. inv)
Step-Inv n here s u inv (arrives _ c v before after at_flying) =
    awaken-Inv n s inv c v (before ++ after)
Step-Inv n here s u inv (waits _ t f there runs) =
    if_cases (λ (r : Pe × Outcome). Inv n r.0) (f.pe == here)
      (if (s.cells f.data_at).ready
        then (s, returns (s.cells f.data_at).value)
        else (suspend_on t f.data_at s, suspends))
      (s, aborts)
      (λ e.
        if_cases (λ (r : Pe × Outcome). Inv n r.0) (s.cells f.data_at).ready
          (s, returns (s.cells f.data_at).value) (suspend_on t f.data_at s, suspends) (λ y. inv)
          (λ unready. suspend_on-Inv n s inv t f.data_at there runs unready))
      (λ e. inv)
Step-Inv n here s u inv (resumes _ t c before others at_queue was) =
    resume-Inv n s inv t c before others at_queue was

Reach-Inv : (n here : ℕ) (s : Pe) → Reach n here s → Inv n s
unfolding start fresh_cell
Reach-Inv n here s starts = (
  (λ c. ([], tt, tt, (λ t. refl), λ e. absurd (ground arith))),
  (λ t. refl),
  λ t c h. absurd (ground arith),
)
Reach-Inv n here u (steps s _ r step) = Step-Inv n here s u (Reach-Inv n here s r) step

chain_none : (n : ℕ) (next : ℕ → Option ℕ) → chain_from n next none ≡ []
unfolding chain_from
chain_none zero next = refl
chain_none (suc n) next = refl

-- In every state that a PE of n threads reaches, by sets on any PE, arrivals, waits and resumptions
-- in any order: a thread that waits for a future is once in the chain of its cell, which is not
-- ready, has no token in the queue, and is awakened by a set; a thread that has been awakened has
-- one token in the queue, and when the token is taken CfutureWait returns a value to which some
-- call of CfutureStoreBuffer, on this PE or another, has set that cell; and a thread that comes to a
-- ready cell gets such a value at once.
pub wait_lem :
    (n here : ℕ) (s : Pe) (t c : ℕ) (r : Reach n here s)
    → (s.phase t ≡ waiting c
        → ((s.cells c).ready ≡ false)
          × (count t (chain_from n s.next (s.cells c).waiters) ≡ 1)
          × (count t s.queue ≡ 0)
          × ((v : ℕ) → (awaken n c v s).phase t ≡ woken c))
      × (s.phase t ≡ woken c
          → (count t s.queue ≡ 1)
            × ((v : ℕ) × WasSet r c v
                × ((others : List ℕ) → (resume t c others s).1 ≡ returns (some v))))
      × ((s.cells c).ready ≡ true
          → (v : ℕ) × WasSet r c v
            × (wait here t (record { pe = here; data_at = c }) s ≡ (s, returns (some v))))
unfolding awaken resume after wait
wait_lem n here s t c r = (
  (λ w. (
    unset w,
    once w,
    inv.1 t ∙ ap has_token w,
    λ v. after_lem n s inv c v t ∙ ap (moved c) w ∙ rw ((==_iff c c).1 refl) refl,
  )),
  λ w.
      let y = inv.2 t c (ap (is_woken c) w ∙ (==_iff c c).1 refl) in
      let (v, set) = ((inv.0 c).4 y).1 in
      (inv.1 t ∙ ap has_token w, (v, (Reach-Kept r).1 c v set, λ others. ap returns set)),
  λ y.
      let (v, set) = ((inv.0 c).4 y).1 in
      (v, (Reach-Kept r).1 c v set, rw ((==_iff here here).1 refl, y, set) refl),
)
  where
    inv : Inv n s
    inv = Reach-Inv n here s r

    once : s.phase t ≡ waiting c → count t (chain_from n s.next (s.cells c).waiters) ≡ 1
    once w =
        chain_counts n s inv c t
        ∙ ap (λ p. if is_waiting c p then 1 else 0) w
        ∙ ap (λ b. if b then 1 else 0) ((==_iff c c).1 refl)

    unset : s.phase t ≡ waiting c → (s.cells c).ready ≡ false
    unset w = elim (Bool-cases (s.cells c).ready) [
      | inl y ↦
          let nobody =
            ap (λ h. count t (chain_from n s.next h)) ((inv.0 c).4 y).0
            ∙ ap (count t) (chain_none n s.next) in
          absurd (omega (arith, once w, nobody))
      | inr unready ↦ unready
    ]
