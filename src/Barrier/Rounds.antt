-- ===== src/Barrier/Rounds.antt =====
-- What the barrier of src/barrier.h promises: nobody leaves before everybody has come, and it does
-- not get stuck.
use reconverse.Prelude.{
  ℕ, suc, ◌+◌, ◌<◌, ◌≤◌, ◌≡◌, ◌≢◌, ◌⊎◌, inl, inr, refl, sym, ap, ◌∙◌, subst, false, ◌==◌, ==_iff,
  if◌then◌else◌, if_cases, Bool-cases, arith,
}
use reconverse.Barrier.{
  Phase, outside, loaded, last, clearing, spinning, State, update, access, fresh, Reach, starts,
  moves,
}
use reconverse.Barrier.Totals.{total, total_same, total_change, total_none, total_full}

-- A thread's ticket and the number of barriers that it has left agree with the step.
abbrev pub Fit : Phase → ℕ → ℕ → Type 0
Fit outside d s = d ≡ s
Fit (loaded m) d s = (m ≡ d) × (d ≡ s)
Fit (last m) d s = (m ≡ d) × (d ≡ s)
Fit (clearing m) d s = (m ≡ d) × (d ≡ s)
Fit (spinning m) d s = (m ≡ d) × ((d ≡ s) ⊎ (suc d ≡ s))

-- Whether a thread has been counted in the present round.
abbrev pub held : Phase → ℕ → ℕ → ℕ
held outside d s = 0
held (loaded m) d s = 0
held (last m) d s = 0
held (clearing m) d s = 0
held (spinning m) d s = if d == s then 1 else 0

-- Whether a thread is about to end the round.
abbrev pub ends : Phase → ℕ
ends outside = 0
ends (loaded m) = 0
ends (last m) = 1
ends (clearing m) = 1
ends (spinning m) = 0

abbrev pub Cleared : Phase → ℕ → Type 0
Cleared outside w = Unit {0}
Cleared (loaded m) w = Unit {0}
Cleared (last m) w = Unit {0}
Cleared (clearing m) w = w ≡ 0
Cleared (spinning m) w = Unit {0}

pub held_le : (p : Phase) (d s : ℕ) → held p d s ≤ 1
held_le outside d s = omega arith
held_le (loaded m) d s = omega arith
held_le (last m) d s = omega arith
held_le (clearing m) d s = omega arith
held_le (spinning m) d s = ground arith

-- Either nobody ends the round and `waiting` counts those who have come, fewer than n; or one thread
-- ends it and all others wait.
abbrev pub Open : ℕ → State → Type 0
Open n s =
    ((u : ℕ) → u < n → ends (s.phase u) ≡ 0)
    × (s.waiting ≡ total n (λ u. held (s.phase u) (s.left u) s.step))
    × (s.waiting < n)

abbrev pub Closing : ℕ → State → Type 0
Closing n s =
    (w : ℕ) × (w < n)
    × (ends (s.phase w) ≡ 1)
    × Cleared (s.phase w) s.waiting
    × ((u : ℕ) → u < n → u ≢ w → held (s.phase u) (s.left u) s.step ≡ 1)

abbrev pub Inv : ℕ → State → Type 0
Inv n s = ((u : ℕ) → u < n → Fit (s.phase u) (s.left u) s.step) × (Open n s ⊎ Closing n s)

-- What a changed phase shows, and the others.
module _ {ℓ κ} {A : Type ℓ} (f : ℕ → A) (t : ℕ) (a : A) (P : ℕ → A → Type κ) where
  at_update : P t a → ((u : ℕ) → u ≢ t → P u (f u)) → (u : ℕ) → P u (update f t a u)
  at_update own others u = elim (Bool-cases (u == t)) [
    | inl e ↦ rw e (subst (λ v. P v a) (sym ((==_iff u t).0 e)) own)
    | inr e ↦ rw e (others u (λ k. ground (arith, k)))
  ]

-- A thread that is not counted and does not end the round moves in an open round.
is_Open :
    (n : ℕ) (s : State) (t : ℕ)
    → t < n
    → Open n s ⊎ Closing n s
    → held (s.phase t) (s.left t) s.step ≡ 0
    → ends (s.phase t) ≡ 0
    → Open n s
is_Open n s t there (inl o) h e = o
is_Open n s t there (inr (w, lt, ending, clear, others)) h e = elim (Bool-cases (t == w)) [
  | inl k ↦ absurd (omega (arith, ap (λ x. ends (s.phase x)) ((==_iff t w).0 k), e, ending))
  | inr k ↦ absurd (omega (arith, others t there (λ j. ground (arith, j)), h))
]

-- A thread that ends the round is the one.
is_Closing :
    (n : ℕ) (s : State) (t : ℕ)
    → t < n
    → Open n s ⊎ Closing n s
    → held (s.phase t) (s.left t) s.step ≡ 0
    → ends (s.phase t) ≡ 1
    → Cleared (s.phase t) s.waiting
      × ((u : ℕ) → u < n → u ≢ t → held (s.phase u) (s.left u) s.step ≡ 1)
is_Closing n s t there (inl o) h e = absurd (omega (arith, o.0 t there, e))
is_Closing n s t there (inr (w, lt, ending, clear, others)) h e = elim (Bool-cases (t == w)) [
  | inl k ↦
      subst
        (λ x.
          Cleared (s.phase x) s.waiting
          × ((u : ℕ) → u < n → u ≢ x → held (s.phase u) (s.left u) s.step ≡ 1))
        (sym ((==_iff t w).0 k)) (clear, others)
  | inr k ↦ absurd (omega (arith, others t there (λ j. ground (arith, j)), h))
]

pub update_self {ℓ} : {A : Type ℓ} (f : ℕ → A) (t : ℕ) (a : A) → update f t a t ≡ a
update_self f t a = rw ((==_iff t t).1 refl) refl

module _ (n : ℕ) (s : State) (t : ℕ) (there : t < n)
    (fits : (u : ℕ) → u < n → Fit (s.phase u) (s.left u) s.step) where
  -- The other threads keep their phases.
  abbrev with_phase : Phase → ℕ → State
  with_phase p w = record s { waiting = w; phase = update s.phase t p }

  fits_after :
      (p : Phase)
      → Fit p (s.left t) s.step
      → (u : ℕ) → u < n
      → Fit (update s.phase t p u) (s.left u) s.step
  fits_after p fit =
      at_update s.phase t p (λ u q. u < n → Fit q (s.left u) s.step) (λ lt. fit)
        (λ u ne lt. fits u lt)

  others_after :
      (p : Phase)
      → ((u : ℕ) → u < n → u ≢ t → held (s.phase u) (s.left u) s.step ≡ 1)
      → (u : ℕ) → u < n
      → u ≢ t
      → held (update s.phase t p u) (s.left u) s.step ≡ 1
  others_after p others =
      at_update s.phase t p (λ u q. u < n → u ≢ t → held q (s.left u) s.step ≡ 1)
        (λ lt ne. absurd (ne refl)) (λ u apart lt ne. others u lt ne)

  -- A step of an open round, which may count the thread.
  counted :
      (p : Phase)
      → held (s.phase t) (s.left t) s.step ≡ 0
      → total n (λ u. held (update s.phase t p u) (s.left u) s.step)
        ≡ total n (λ u. held (s.phase u) (s.left u) s.step) + held p (s.left t) s.step
  counted p z =
      let change =
        total_change n t (λ u. held (s.phase u) (s.left u) s.step)
          (λ u. held (update s.phase t p u) (s.left u) s.step) there
          (at_update s.phase t p
            (λ u q. u < n → u ≢ t → held (s.phase u) (s.left u) s.step ≡ held q (s.left u) s.step)
            (λ lt ne. absurd (ne refl)) (λ u apart lt ne. refl)) in
      omega (arith, change, z, ap (λ q. held q (s.left t) s.step) (update_self s.phase t p))

  stays-Open :
      (p : Phase) (w : ℕ)
      → Open n s
      → held (s.phase t) (s.left t) s.step ≡ 0
      → Fit p (s.left t) s.step
      → ends p ≡ 0
      → w ≡ s.waiting + held p (s.left t) s.step
      → w < n
      → Inv n (with_phase p w)
  stays-Open p w o z fit e more below = (
    fits_after p fit,
    inl (
      at_update s.phase t p (λ u q. u < n → ends q ≡ 0) (λ lt. e) (λ u ne lt. o.0 u lt),
      omega (arith, counted p z, o.1, more),
      below,
    ),
  )

  closes :
      (p : Phase) (w : ℕ)
      → ((u : ℕ) → u < n → u ≢ t → held (s.phase u) (s.left u) s.step ≡ 1)
      → Fit p (s.left t) s.step
      → ends p ≡ 1
      → Cleared p w
      → Inv n (with_phase p w)
  closes p w others fit e clear = (
    fits_after p fit,
    inr (
      t,
      there,
      ap ends (update_self s.phase t p) ∙ e,
      subst (λ q. Cleared q w) (sym (update_self s.phase t p)) clear,
      others_after p others,
    ),
  )

update_ne {ℓ} : {A : Type ℓ} (f : ℕ → A) (t : ℕ) (a : A) (u : ℕ) → u ≢ t → update f t a u ≡ f u
update_ne f t a u ne = rw (apart) refl
  where
    apart : (u == t) ≡ false
    apart = ground arith

-- A thread that has been counted in a round has not been in the next one.
held_next :
    (p : Phase) (d s : ℕ)
    → Fit p d s
    → held p d s ≡ 1
    → Fit p d (s + 1) × (held p d (s + 1) ≡ 0) × (ends p ≡ 0)
held_next outside d s fit h = absurd (omega arith)
held_next (loaded m) d s fit h = absurd (omega arith)
held_next (last m) d s fit h = absurd (omega arith)
held_next (clearing m) d s fit h = absurd (omega arith)
held_next (spinning m) d s fit h = ((fit.0, inr (ground arith)), ground arith, refl)

module _ (n : ℕ) (s : State) (t : ℕ) (there : t < n) (inv : Inv n s) where
  abbrev Keeps : Phase → Type 0
  Keeps p = s.phase t ≡ p → Inv n (access n t p s)

  Fit-at : (p : Phase) → s.phase t ≡ p → Fit p (s.left t) s.step
  Fit-at p e = subst (λ q. Fit q (s.left t) s.step) e (inv.0 t there)

  Open-at : (p : Phase) → s.phase t ≡ p → held p (s.left t) s.step ≡ 0 → ends p ≡ 0 → Open n s
  Open-at p e z no_end =
      is_Open n s t there inv.1 (ap (λ q. held q (s.left t) s.step) e ∙ z) (ap ends e ∙ no_end)

  Closing-at :
      (p : Phase)
      → s.phase t ≡ p
      → held p (s.left t) s.step ≡ 0
      → ends p ≡ 1
      → Cleared p s.waiting × ((u : ℕ) → u < n → u ≢ t → held (s.phase u) (s.left u) s.step ≡ 1)
  Closing-at p e z an_end =
      let r =
        is_Closing n s t there inv.1 (ap (λ q. held q (s.left t) s.step) e ∙ z)
          (ap ends e ∙ an_end) in
      (subst (λ q. Cleared q s.waiting) e r.0, r.1)

  outside-Keeps : Keeps outside
  unfolding access
  outside-Keeps e =
      let o = Open-at outside e refl refl in
      stays-Open n s t there inv.0 (loaded s.step) s.waiting o
        (ap (λ q. held q (s.left t) s.step) e) (sym (Fit-at outside e), Fit-at outside e) refl
        (omega arith) o.2

  loaded-Keeps : (m : ℕ) → Keeps (loaded m)
  unfolding access
  loaded-Keeps m e =
      let o = Open-at (loaded m) e refl refl in
      let fit = Fit-at (loaded m) e in
      let z = ap (λ q. held q (s.left t) s.step) e in
      if_cases (λ p. Inv n (with_phase n s t there inv.0 p (s.waiting + 1))) ((s.waiting + 1) == n)
        (last m) (spinning m)
        (λ full.
          closes n s t there inv.0 (last m) (s.waiting + 1)
            (λ u lt ne.
              total_full (λ v. held (s.phase v) (s.left v) s.step)
                (λ v. held_le (s.phase v) (s.left v) s.step) n t u there lt ne z
                (omega (arith, o.1, (==_iff (s.waiting + 1) n).0 full)))
            fit refl tt)
        (λ more.
          stays-Open n s t there inv.0 (spinning m) (s.waiting + 1) o z (fit.0, inl fit.1) refl
            (ground (arith, fit.1)) (ground (arith, o.2)))

  last-Keeps : (m : ℕ) → Keeps (last m)
  unfolding access
  last-Keeps m e =
      closes n s t there inv.0 (clearing m) 0 (Closing-at (last m) e refl refl).1
        (Fit-at (last m) e) refl refl

  clearing-Keeps : (m : ℕ) → Keeps (clearing m)
  unfolding access
  clearing-Keeps m e =
      let (cleared, others) = Closing-at (clearing m) e refl refl in
      let fit = Fit-at (clearing m) e in
      let next = λ (u : ℕ) (lt : u < n) (ne : u ≢ t).
        held_next (s.phase u) (s.left u) s.step (inv.0 u lt) (others u lt ne) in
      (
        at_update s.phase t (spinning m) (λ u q. u < n → Fit q (s.left u) (s.step + 1))
            (λ lt. (fit.0, inr (omega (arith, fit.1)))) (λ u ne lt. (next u lt ne).0),
        inl (
          at_update s.phase t (spinning m) (λ u q. u < n → ends q ≡ 0) (λ lt. refl)
              (λ u ne lt. (next u lt ne).2),
          cleared
              ∙ sym (
                  total_none n (λ u. held (update s.phase t (spinning m) u) (s.left u) (s.step + 1))
                    (at_update s.phase t (spinning m)
                      (λ u q. u < n → held q (s.left u) (s.step + 1) ≡ 0)
                      (λ lt. ground (arith, fit.1)) (λ u ne lt. (next u lt ne).1))),
          omega (arith, cleared),
        ),
      )

  spinning-Keeps : (m : ℕ) → Keeps (spinning m)
  unfolding access
  spinning-Keeps m e =
      if_cases (Inv n) (m == s.step) s
        (record s { phase = update s.phase t outside; left = update s.left t (s.left t + 1) })
        (λ same. inv) (λ past. leaves past (passed past))
    where
      fit : Fit (spinning m) (s.left t) s.step
      fit = Fit-at (spinning m) e

      passed : (m == s.step) ≡ false → suc (s.left t) ≡ s.step
      passed past = elim fit.1 [ inl k ↦ absurd (ground (arith, fit.0, k)) | inr k ↦ k ]

      leaves :
          (m == s.step) ≡ false
          → suc (s.left t) ≡ s.step
          → Inv n
              (record s { phase = update s.phase t outside; left = update s.left t (s.left t + 1) })
      leaves past k =
          let more = s.left t + 1 in
          let z : held (spinning m) (s.left t) s.step ≡ 0 = ground arith in
          let o = Open-at (spinning m) e z refl in
          (
            at_update s.phase t outside (λ u q. u < n → Fit q (update s.left t more u) s.step)
                (λ lt. update_self s.left t more ∙ omega (arith, k))
                (λ u ne lt.
                  subst (λ d. Fit (s.phase u) d s.step) (sym (update_ne s.left t more u ne))
                    (inv.0 u lt)),
            inl (
              at_update s.phase t outside (λ u q. u < n → ends q ≡ 0) (λ lt. refl)
                  (λ u ne lt. o.0 u lt),
              o.1
                  ∙ total_same n (λ u. held (s.phase u) (s.left u) s.step)
                      (λ u. held (update s.phase t outside u) (update s.left t more u) s.step)
                      (at_update s.phase t outside
                        (λ u q.
                          u < n
                          → held (s.phase u) (s.left u) s.step
                            ≡ held q (update s.left t more u) s.step)
                        (λ lt. ap (λ q. held q (s.left t) s.step) e ∙ z)
                        (λ u ne lt.
                          ap (λ d. held (s.phase u) d s.step)
                            (sym (update_ne s.left t more u ne)))),
              o.2,
            ),
          )

access-Inv : (n : ℕ) (s : State) (t : ℕ) → t < n → Inv n s → Inv n (access n t (s.phase t) s)
access-Inv n s t there inv = go (s.phase t) refl
  where
    go : (p : Phase) → s.phase t ≡ p → Inv n (access n t p s)
    go outside e = outside-Keeps n s t there inv e
    go (loaded m) e = loaded-Keeps n s t there inv m e
    go (last m) e = last-Keeps n s t there inv m e
    go (clearing m) e = clearing-Keeps n s t there inv m e
    go (spinning m) e = spinning-Keeps n s t there inv m e

pub Reach-Inv : (n : ℕ) (s : State) → 0 < n → Reach n s → Inv n s
unfolding fresh
Reach-Inv n s some_thread starts =
    ((λ u lt. refl), inl ((λ u lt. refl), sym (total_none n (λ u. 0) (λ u lt. refl)), some_thread))
Reach-Inv n s some_thread (moves r t reach there) =
    access-Inv n r t there (Reach-Inv n r some_thread reach)

-- The number of barriers to which a thread has come.
abbrev pub come : Phase → ℕ → ℕ
come outside d = d
come (loaded m) d = d
come (last m) d = suc d
come (clearing m) d = suc d
come (spinning m) d = suc d

left_le : (p : Phase) (d s : ℕ) → Fit p d s → d ≤ s
left_le outside d s fit = omega arith
left_le (loaded m) d s fit = omega (arith, fit.1)
left_le (last m) d s fit = omega (arith, fit.1)
left_le (clearing m) d s fit = omega (arith, fit.1)
left_le (spinning m) d s fit = ground (arith, fit.1)

come_ge : (p : Phase) (d s : ℕ) → Fit p d s → s ≤ come p d
come_ge outside d s fit = omega arith
come_ge (loaded m) d s fit = omega (arith, fit.1)
come_ge (last m) d s fit = omega (arith, fit.1)
come_ge (clearing m) d s fit = omega (arith, fit.1)
come_ge (spinning m) d s fit = ground (arith, fit.1)

-- In every order of the accesses of the threads: a thread has left no more barriers than any other
-- has come to.
pub left_le_come :
    (n : ℕ) (s : State) (t u : ℕ)
    → Reach n s
    → t < n
    → u < n
    → s.left t ≤ come (s.phase u) (s.left u)
left_le_come n s t u r a b =
    let inv = Reach-Inv n s (omega arith) r in
    omega (
      arith,
      left_le (s.phase t) (s.left t) s.step (inv.0 t a),
      come_ge (s.phase u) (s.left u) s.step (inv.0 u b),
    )
