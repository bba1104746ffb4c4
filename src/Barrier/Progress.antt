-- ===== src/Barrier/Progress.antt =====
-- The barrier of src/barrier.h does not get stuck.
use reconverse.Prelude.{
  ℕ, ◌+◌, ◌<◌, ◌≡◌, ◌≢◌, inl, inr, refl, sym, ap, ◌∙◌, ◌==◌, if_cases, arith, subst, false,
}
use reconverse.Barrier.{
  Phase, outside, loaded, last, clearing, spinning, State, update, access, Reach,
}
use reconverse.Barrier.Totals.{find_zero}
use reconverse.Barrier.Rounds.{Fit, held, held_le, ends, update_self, Reach-Inv}

kind : Phase → ℕ
kind outside = 0
kind (loaded m) = 1
kind (last m) = 2
kind (clearing m) = 3
kind (spinning m) = 4

module _ (n : ℕ) (s : State) (u : ℕ) where
  -- The next access of the thread changes its phase.
  abbrev pub Moves : Type 0
  Moves = (access n u (s.phase u) s).phase u ≢ s.phase u

  spins : (m : ℕ) → (m == s.step) ≡ false → (access n u (spinning m) s).phase u ≢ spinning m
  unfolding access kind
  spins m past =
      rw past (λ same. absurd (omega (arith, ap kind (sym (update_self s.phase u outside) ∙ same))))

  -- So it does unless the thread waits for the present step.
  moves_at :
      (p : Phase)
      → s.phase u ≡ p
      → ((m : ℕ) → p ≡ spinning m → (m == s.step) ≡ false)
      → (access n u p s).phase u ≢ p
  unfolding access kind
  moves_at outside e free same =
      absurd (omega (arith, ap kind (sym (update_self s.phase u (loaded s.step)) ∙ same)))
  moves_at (loaded m) e free same = absurd (
      if_cases (λ (p : Phase). update s.phase u p u ≡ loaded m → ⊥) ((s.waiting + 1) == n) (last m)
        (spinning m)
        (λ t k. absurd (omega (arith, ap kind (sym (update_self s.phase u (last m)) ∙ k))))
        (λ t k. absurd (omega (arith, ap kind (sym (update_self s.phase u (spinning m)) ∙ k))))
        same)
  moves_at (last m) e free same =
      absurd (omega (arith, ap kind (sym (update_self s.phase u (clearing m)) ∙ same)))
  moves_at (clearing m) e free same =
      absurd (omega (arith, ap kind (sym (update_self s.phase u (spinning m)) ∙ same)))
  moves_at (spinning m) e free same = spins m (free m refl) same

  held_zero : Fit (s.phase u) (s.left u) s.step → held (s.phase u) (s.left u) s.step ≡ 0 → Moves
  held_zero fit z = moves_at (s.phase u) refl past
    where
      past : (m : ℕ) → s.phase u ≡ spinning m → (m == s.step) ≡ false
      past m e =
          let f = subst (λ p. Fit p (s.left u) s.step) e fit in
          let h = sym (ap (λ p. held p (s.left u) s.step) e) ∙ z in ground (arith, f.0, h)

  ends_one : ends (s.phase u) ≡ 1 → Moves
  ends_one one = moves_at (s.phase u) refl past
    where
      past : (m : ℕ) → s.phase u ≡ spinning m → (m == s.step) ≡ false
      past m e = absurd (omega (arith, sym (ap ends e) ∙ one))

-- In every order of the accesses of n threads, for n above 0, there is a thread whose next access
-- takes it further: it comes to the barrier, is on its way through it, or finds its ticket passed.
pub some_Moves : (n : ℕ) (s : State) → 0 < n → Reach n s → (u : ℕ) × (u < n) × Moves n s u
some_Moves n s some_thread r =
    let inv = Reach-Inv n s some_thread r in
    elim inv.1 [
      | inl (no_end, counts, below) ↦
          let (u, lt, z) =
            find_zero n (λ v. held (s.phase v) (s.left v) s.step)
              (λ v. held_le (s.phase v) (s.left v) s.step) (omega (arith, counts, below)) in
          (u, lt, held_zero n s u (inv.0 u lt) z)
      | inr (w, lt, one, clear, others) ↦ (w, lt, ends_one n s w one)
    ]
