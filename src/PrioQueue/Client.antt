-- ===== src/PrioQueue/Client.antt =====
-- What a client of src/queueing.cpp relies on: a queue that is not empty gives a message.
use reconverse.Prelude.{ℕ, ◌≡◌, ◌∙◌, ap, refl, false, some, List, [], ◌∷◌, length, arith}
use reconverse.PrioQueue.{Queue, live, is_queue_empty, top, top_live}
use reconverse.PrioQueue.Counts.{IsValid}
use reconverse.PrioQueue.Spec.{Entry, head_message}
use reconverse.PrioQueue.Refine.{contents, size-contents}
use reconverse.PrioQueue.Drain.{dequeue-Drains}

pub top-live_some :
    (q : Queue) → IsValid q → is_queue_empty (live q) ≡ false → (m : ℕ) × (top (live q) ≡ some m)
unfolding is_queue_empty top
top-live_some q v e = go (contents q) refl
  where
    go : (es : List Entry) → contents q ≡ es → (m : ℕ) × (top_live q ≡ some m)
    go [] c = absurd (ground (arith, size-contents q v, ap length c))
    go ((p, m) ∷ es) c = (m, (dequeue-Drains q v).top_is ∙ ap head_message c)
