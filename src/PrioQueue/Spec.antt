-- ===== src/PrioQueue/Spec.antt =====
-- What the header of src/queueing.cpp promises: one sequence in the order in which messages come
-- out. A FIFO push goes behind the messages of its priority, a LIFO push ahead of them.
use reconverse.Prelude.{ℕ, Option, none, some, List, [], ◌∷◌, if◌then◌else◌}
use reconverse.Prelude.Int.{ℤ, ltb_ℤ}

abbrev pub Entry : Type 0
Entry = ℤ × ℕ

unfoldable pub insert_back : ℤ → ℕ → List Entry → List Entry
insert_back p m [] = (p, m) ∷ []
insert_back p m ((k, x) ∷ es) =
    if ltb_ℤ p k then (p, m) ∷ (k, x) ∷ es else (k, x) ∷ insert_back p m es

unfoldable pub insert_front : ℤ → ℕ → List Entry → List Entry
insert_front p m [] = (p, m) ∷ []
insert_front p m ((k, x) ∷ es) =
    if ltb_ℤ k p then (k, x) ∷ insert_front p m es else (p, m) ∷ (k, x) ∷ es

abbrev pub rest : List Entry → List Entry
rest [] = []
rest (e ∷ es) = es

abbrev pub head_message : List Entry → Option ℕ
head_message [] = none
head_message ((p, m) ∷ es) = some m

-- `LLONG_MAX` stands for the empty queue.
abbrev pub head_priority : ℤ → List Entry → ℤ
head_priority default [] = default
head_priority default ((p, m) ∷ es) = p
