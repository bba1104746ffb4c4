-- ===== src/PrioQueue/Drain.antt =====
-- The reads and the removal of the front message, and whole histories of calls on a handle.
use reconverse.Prelude.{
  ◌≡◌, ◌≢◌, refl, sym, ap, ◌∙◌, Bool, true, false, Option, none, some, List, [], ◌∷◌, arith, ◌==◌,
  length, inl, inr, Bool-cases,
}
use reconverse.Prelude.Int.{ℤ, pos, eqb_ℤ→eq}
use reconverse.PrioQueue.Levels.{LevelMap, is_zero, find, modify}
use reconverse.PrioQueue.Order.{IsSorted}
use reconverse.PrioQueue.Counts.{IsValid}
use reconverse.PrioQueue.Merge.{
  merged, entries, first, places, place_of, merged-IsSorted, front_from-first, priority_from-first,
}
use reconverse.PrioQueue.Refine.{contents, size-contents}
use reconverse.PrioQueue.Pop.{
  Front, Taken, first-none, first-Front, take_from-Taken, find-merged, find-merged_zero,
}
use reconverse.PrioQueue.Spec.{Entry, rest, head_message, head_priority}
use reconverse.PrioQueue.{
  Queue, front, pop_front, level_at, take_from, front_from, dequeue, top_live, top_priority_live,
  llong_max,
}

abbrev ordered : Queue → LevelMap
ordered q = merged q.levels q.zero_level

ordered-IsSorted : (q : Queue) → IsValid q → IsSorted (ordered q)
ordered-IsSorted q v = merged-IsSorted q.levels q.zero_level v.sorted v.non_zero

empty-contents : (q : Queue) → IsValid q → q.size ≡ 0 → contents q ≡ []
empty-contents q v e = go (contents q) (size-contents q v)
  where
    go : (es : List Entry) → length es ≡ q.size → es ≡ []
    go [] h = refl
    go (x ∷ es) h = absurd (omega arith)

level_at-Front :
    (q : Queue) (k : ℤ)
    → IsValid q
    → (f : Front k (ordered q)) → front (level_at q (place_of k)) ≡ some f.message
unfolding level_at front
level_at-Front q k v f = elim (Bool-cases (is_zero k)) [
  | inl z ↦
      let e : k ≡ pos 0 = eqb_ℤ→eq k (pos 0) z in
      let g : find (pos 0) (ordered q) ≡ some (f.message ∷ f.behind) = rw (← e) f.found in
      rw z (ground (arith, g, find-merged_zero q.levels q.zero_level v.non_zero))
  | inr nz ↦ rw nz (ground (arith, f.found, find-merged k q.levels q.zero_level nz))
]

-- Everything that a client can see of the front of a queue, and what a pop leaves.
pub record Drains (q : Queue) : Type 0 where
  pub top_is : top_live q ≡ head_message (contents q)
  pub priority_is : top_priority_live q ≡ head_priority llong_max (contents q)
  pub valid : IsValid (dequeue q)
  pub leaves : contents (dequeue q) ≡ rest (contents q)

dequeue-Drains-empty : (q : Queue) → IsValid q → q.size ≡ 0 → Drains q
unfolding dequeue top_live top_priority_live
dequeue-Drains-empty q v e =
    let c = empty-contents q v e in
    record {
      top_is = ground (arith, c);
      priority_is = ground (arith, c);
      valid = ground (arith, v.sorted, v.non_zero);
      leaves = ground (arith, c);
    }

dequeue-Drains-none : (q : Queue) → IsValid q → first (ordered q) ≡ none → Drains q
dequeue-Drains-none q v e =
    dequeue-Drains-empty q v
      (omega (arith, size-contents q v, ap length (first-none (ordered q) e)))

dequeue-Drains-some :
    (q : Queue) (k : ℤ) → IsValid q → q.size ≢ 0 → first (ordered q) ≡ some k → Drains q
unfolding dequeue top_live top_priority_live
dequeue-Drains-some q k v ne e =
    let f : Front k (ordered q) = first-Front k (ordered q) (ordered-IsSorted q v) e in
    let t : Taken q (take_from q (place_of k)) (entries (modify k pop_front (ordered q))) =
      take_from-Taken q k v f in
    let fr : front_from q.levels q.zero_level ≡ some (place_of k) =
      front_from-first q.levels q.zero_level v.non_zero ∙ ap places e in
    let step : dequeue q ≡ take_from q (place_of k) = ground (arith, fr) in
    record {
      top_is = ground (arith, fr, f.leads, level_at-Front q k v f);
      priority_is = ground (arith, f.leads, priority_from-first q.levels q.zero_level, e);
      valid = rw step t.valid;
      leaves = rw step (t.leaves ∙ ap rest (sym f.leads));
    }

-- The queue that is popped keeps its invariant and loses exactly its first message; the message
-- and the priority that the two reads give are those of that message.
pub dequeue-Drains : (q : Queue) → IsValid q → Drains q
dequeue-Drains q v = go (q.size == 0) (first (ordered q)) refl refl
  where
    go : (b : Bool) (o : Option ℤ) → (q.size == 0) ≡ b → first (ordered q) ≡ o → Drains q
    go true o h e = dequeue-Drains-empty q v (ground arith)
    go false none h e = dequeue-Drains-none q v e
    go false (some k) h e = dequeue-Drains-some q k v (ground arith) e
