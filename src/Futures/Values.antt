-- ===== src/Futures/Values.antt =====
-- Where the values of the futures of src/futures.cpp come from: a cell holds, and a message carries,
-- what a call of CfutureStoreBuffer gave.
use reconverse.Prelude.{
  ℕ, ◌≡◌, refl, sym, subst, ◌⊎◌, inl, inr, true, none, some, List, [], ◌∷◌, ◌++◌, ◌==◌, ==_iff,
  if◌then◌else◌, if_cases,
}
use reconverse.Futures.{
  Cell, Pe, Outcome, returns, suspends, aborts, fresh_cell, awaken, store_buffer, suspend_on, wait,
  resume, start, sets, arrives, waits, resumes, Reach, starts, steps,
}

-- In the history some call has set cell c to v.
abbrev pub WasSet : {n here : ℕ} {s : Pe} → Reach n here s → ℕ → ℕ → Type 0
WasSet starts c v = ⊥
WasSet (steps s _ r (sets _ me f x e)) c v = ((f.data_at ≡ c) × (x ≡ v)) ⊎ WasSet r c v
WasSet (steps s _ r (arrives _ d x before after e)) c v = WasSet r c v
WasSet (steps s _ r (waits _ t f e p)) c v = WasSet r c v
WasSet (steps s _ r (resumes _ t d before after e p)) c v = WasSet r c v

abbrev AllPairs : (ℕ → ℕ → Type 0) → List (ℕ × ℕ) → Type 0
AllPairs P [] = Unit {0}
AllPairs P ((c, v) ∷ fs) = P c v × AllPairs P fs

module _ (P : ℕ → ℕ → Type 0) where
  AllPairs-append : (xs ys : List (ℕ × ℕ)) → AllPairs P xs → AllPairs P ys → AllPairs P (xs ++ ys)
  AllPairs-append [] ys a b = b
  AllPairs-append ((c, v) ∷ xs) ys a b = (a.0, AllPairs-append xs ys a.1 b)

  AllPairs-without :
      (xs : List (ℕ × ℕ)) (c v : ℕ) (ys : List (ℕ × ℕ))
      → AllPairs P (xs ++ (c, v) ∷ ys)
      → P c v × AllPairs P (xs ++ ys)
  AllPairs-without [] c v ys a = a
  AllPairs-without ((d, w) ∷ xs) c v ys a =
      let ih = AllPairs-without xs c v ys a.1 in (ih.0, (a.0, ih.1))

  -- All values that are in cells or under way have the property.
  abbrev Kept : Pe → Type 0
  Kept s = AllPairs P s.flying × ((c v : ℕ) → (s.cells c).value ≡ some v → P c v)

  some_back : (a b : ℕ) → some a ≡ some b → a ≡ b
  some_back a b e = cc

  awaken-Kept : (n : ℕ) (s : Pe) (c v : ℕ) → Kept s → P c v → Kept (awaken n c v s)
  unfolding awaken
  awaken-Kept n s c v k p = (
    k.0,
    λ d w.
        if_cases (λ (cell : Cell). cell.value ≡ some w → P d w) (d == c)
          (record { value = some v; ready = true; waiters = none }) (s.cells d)
          (λ e h. subst (λ x. P x w) (sym ((==_iff d c).0 e)) (subst (P c) (some_back v w h) p))
          (λ e. k.1 d w),
  )

  suspend_on-Kept : (s : Pe) (t c : ℕ) → Kept s → Kept (suspend_on t c s)
  unfolding suspend_on
  suspend_on-Kept s t c k = (
    k.0,
    λ d w.
        if_cases (λ (cell : Cell). cell.value ≡ some w → P d w) (d == c)
          (record (s.cells c) { waiters = some t }) (s.cells d)
          (λ e h. subst (λ x. P x w) (sym ((==_iff d c).0 e)) (k.1 c w h)) (λ e. k.1 d w),
  )

Kept-weaken : (P Q : ℕ → ℕ → Type 0) → ((c v : ℕ) → P c v → Q c v) → (s : Pe) → Kept P s → Kept Q s
Kept-weaken P Q f s k = (all s.flying k.0, λ c v e. f c v (k.1 c v e))
  where
    all : (fs : List (ℕ × ℕ)) → AllPairs P fs → AllPairs Q fs
    all [] a = tt
    all ((c, v) ∷ fs) a = (f c v a.0, all fs a.1)

pub Reach-Kept : {n here : ℕ} {s : Pe} (r : Reach n here s) → Kept (WasSet r) s
unfolding start fresh_cell store_buffer wait resume
Reach-Kept starts = (tt, λ c v e. absurd (cc))
Reach-Kept {n} {here} (steps s _ r (sets _ me f x e)) =
    if_cases (Kept Q) (here == me) (awaken n f.data_at x s)
      (record s { flying = s.flying ++ (f.data_at, x) ∷ [] })
      (λ y. awaken-Kept Q n s f.data_at x (kept (Reach-Kept r)) (inl (refl, refl)))
      (λ y. (
        AllPairs-append Q s.flying ((f.data_at, x) ∷ []) (kept (Reach-Kept r)).0
            (inl (refl, refl), tt),
        (kept (Reach-Kept r)).1,
      ))
  where
    Q : ℕ → ℕ → Type 0
    Q c v = ((f.data_at ≡ c) × (x ≡ v)) ⊎ WasSet r c v

    kept : Kept (WasSet r) s → Kept Q s
    kept k = Kept-weaken (WasSet r) Q (λ c v h. inr h) s k
Reach-Kept {n} {here} (steps s _ r (arrives _ d x before after e)) =
    let w =
      AllPairs-without (WasSet r) before d x after
        (subst (AllPairs (WasSet r)) e (Reach-Kept r).0) in
    awaken-Kept (WasSet r) n (record s { flying = before ++ after }) d x (w.1, (Reach-Kept r).1) w.0
Reach-Kept {n} {here} (steps s _ r (waits _ t f e p)) =
    if_cases (λ (o : Pe × Outcome). Kept (WasSet r) o.0) (f.pe == here)
      (if (s.cells f.data_at).ready
        then (s, returns (s.cells f.data_at).value)
        else (suspend_on t f.data_at s, suspends))
      (s, aborts)
      (λ y.
        if_cases (λ (o : Pe × Outcome). Kept (WasSet r) o.0) (s.cells f.data_at).ready
          (s, returns (s.cells f.data_at).value) (suspend_on t f.data_at s, suspends)
          (λ z. Reach-Kept r) (λ z. suspend_on-Kept (WasSet r) s t f.data_at (Reach-Kept r)))
      (λ y. Reach-Kept r)
Reach-Kept {n} {here} (steps s _ r (resumes _ t d before after e p)) = Reach-Kept r
