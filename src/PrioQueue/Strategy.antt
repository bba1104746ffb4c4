-- ===== src/PrioQueue/Strategy.antt =====
-- CqsEnqueueGeneral of src/scheduler.cpp, the queueing strategies of include/converse.h on a queue of
-- src/queueing.cpp.
use reconverse.Prelude.{
  ℕ, ◌+◌, ◌-◌, ◌*◌, ◌^◌, ◌≡◌, refl, sym, subst, Bool, true, false, ◌||◌, Option, some, List, ltb,
  ◌==◌, if◌then◌else◌, if_cases, arith, get_or,
}
use reconverse.Prelude.Int.{ℤ, pos, negsuc}
use reconverse.PrioQueue.{Queue, Handle, live, enqueue, enqueue_front, push, push_front}
use reconverse.PrioQueue.Counts.{IsValid, enqueue-IsValid, enqueue_front-IsValid}
use reconverse.PrioQueue.Spec.{Entry, insert_back, insert_front}
use reconverse.PrioQueue.Refine.{contents, enqueue_refines, enqueue_front_refines}

-- CQS_QUEUEING_*
abbrev pub cqs_fifo : ℕ
cqs_fifo = 2

abbrev pub cqs_lifo : ℕ
cqs_lifo = 3

abbrev pub cqs_ififo : ℕ
cqs_ififo = 4

abbrev pub cqs_ilifo : ℕ
cqs_ilifo = 5

abbrev pub cqs_lfifo : ℕ
cqs_lfifo = 8

abbrev pub cqs_llifo : ℕ
cqs_llifo = 9

-- A w-bit number in two's complement
abbrev pub signed : ℕ → ℕ → ℤ
signed bits x = if ltb x (2 ^ (bits - 1)) then pos x else negsuc (2 ^ bits - 1 - x)

-- `(int)prioptr[0]`
abbrev pub int_priority : List ℕ → ℤ
int_priority words = signed 32 (get_or words 0 0)

-- `((long long*)prioptr)[0]`, on a little-endian machine
abbrev pub long_priority : List ℕ → ℤ
long_priority words = signed 64 (get_or words 0 0 + get_or words 1 0 * 2 ^ 32)

-- CqsEnqueueGeneral, with the words that `prioptr` points to; `none` is as in QueuePush.
pub enqueue_general : Handle → ℕ → ℕ → List ℕ → Option Handle
unfolding push push_front
enqueue_general q m strategy words =
    if strategy == cqs_fifo
    then push q m (pos 0)
    else (if strategy == cqs_lifo
        then push_front q m (pos 0)
        else (if strategy == cqs_ififo
            then push q m (int_priority words)
            else (if strategy == cqs_ilifo
                then push_front q m (int_priority words)
                else (if strategy == cqs_lfifo
                    then push q m (long_priority words)
                    else (if strategy == cqs_llifo
                        then push_front q m (long_priority words)
                        else push q m (pos 0))))))

-- What a strategy asks for: whether a message goes ahead of those of its priority, and its priority.
abbrev pub goes_first : ℕ → Bool
goes_first strategy = strategy == cqs_lifo || strategy == cqs_ilifo || strategy == cqs_llifo

abbrev pub priority_by : ℕ → List ℕ → ℤ
priority_by strategy words =
    if strategy == cqs_ififo || strategy == cqs_ilifo
    then int_priority words
    else (if strategy == cqs_lfifo || strategy == cqs_llifo then long_priority words else pos 0)

abbrev pub insert_by : ℕ → List ℕ → ℕ → List Entry → List Entry
insert_by strategy words m es =
    if goes_first strategy
    then insert_front (priority_by strategy words) m es
    else insert_back (priority_by strategy words) m es

-- A handle whose queue is valid and has these entries.
abbrev pub Has : List Entry → Option Handle → Type 0
Has es h = (r : Queue) × (h ≡ some (live r)) × IsValid r × (contents r ≡ es)

push-Has :
    (q : Queue) (m : ℕ) (p : ℤ) → IsValid q → Has (insert_back p m (contents q)) (push (live q) m p)
unfolding push
push-Has q m p v = (enqueue q m p, refl, enqueue-IsValid q m p v, enqueue_refines q m p v)

push_front-Has :
    (q : Queue) (m : ℕ) (p : ℤ)
    → IsValid q
    → Has (insert_front p m (contents q)) (push_front (live q) m p)
unfolding push_front
push_front-Has q m p v =
    (enqueue_front q m p, refl, enqueue_front-IsValid q m p v, enqueue_front_refines q m p v)

-- On a valid queue, a message is enqueued where its strategy says: at its priority, 0 for the
-- strategies without one and for those that are not supported, and ahead of the messages of that
-- priority for the LIFO strategies, else behind them; the queue stays valid.
pub enqueue_general_refines :
    (q : Queue) (m strategy : ℕ) (words : List ℕ)
    → IsValid q
    → Has (insert_by strategy words m (contents q)) (enqueue_general (live q) m strategy words)
unfolding enqueue_general
enqueue_general_refines q m strategy words v =
    if_cases Result (strategy == cqs_fifo) (push (live q) m (pos 0))
      (if strategy == cqs_lifo
        then push_front (live q) m (pos 0)
        else (if strategy == cqs_ififo
            then push (live q) m (int_priority words)
            else (if strategy == cqs_ilifo
                then push_front (live q) m (int_priority words)
                else (if strategy == cqs_lfifo
                    then push (live q) m (long_priority words)
                    else (if strategy == cqs_llifo
                        then push_front (live q) m (long_priority words)
                        else (push (live q) m (pos 0)))))))
      (λ p. at cqs_fifo p (push-Has q m (pos 0) v))
      (λ p0.
        if_cases Result (strategy == cqs_lifo) (push_front (live q) m (pos 0))
          (if strategy == cqs_ififo
            then push (live q) m (int_priority words)
            else (if strategy == cqs_ilifo
                then push_front (live q) m (int_priority words)
                else (if strategy == cqs_lfifo
                    then push (live q) m (long_priority words)
                    else (if strategy == cqs_llifo
                        then push_front (live q) m (long_priority words)
                        else (push (live q) m (pos 0))))))
          (λ p. at cqs_lifo p (push_front-Has q m (pos 0) v))
          (λ p1.
            if_cases Result (strategy == cqs_ififo) (push (live q) m (int_priority words))
              (if strategy == cqs_ilifo
                then push_front (live q) m (int_priority words)
                else (if strategy == cqs_lfifo
                    then push (live q) m (long_priority words)
                    else (if strategy == cqs_llifo
                        then push_front (live q) m (long_priority words)
                        else (push (live q) m (pos 0)))))
              (λ p. at cqs_ififo p (push-Has q m (int_priority words) v))
              (λ p2.
                if_cases Result (strategy == cqs_ilifo) (push_front (live q) m (int_priority words))
                  (if strategy == cqs_lfifo
                    then push (live q) m (long_priority words)
                    else (if strategy == cqs_llifo
                        then push_front (live q) m (long_priority words)
                        else (push (live q) m (pos 0))))
                  (λ p. at cqs_ilifo p (push_front-Has q m (int_priority words) v))
                  (λ p3.
                    if_cases Result (strategy == cqs_lfifo) (push (live q) m (long_priority words))
                      (if strategy == cqs_llifo
                        then push_front (live q) m (long_priority words)
                        else (push (live q) m (pos 0)))
                      (λ p. at cqs_lfifo p (push-Has q m (long_priority words) v))
                      (λ p4.
                        if_cases Result (strategy == cqs_llifo)
                          (push_front (live q) m (long_priority words)) (push (live q) m (pos 0))
                          (λ p. at cqs_llifo p (push_front-Has q m (long_priority words) v))
                          (λ p5. none_of p1 p2 p3 p4 p5))))))
  where
    Result : Option Handle → Type 0
    Result = Has (insert_by strategy words m (contents q))

    at :
        (s : ℕ) {h : Option Handle}
        → (strategy == s) ≡ true
        → Has (insert_by s words m (contents q)) h
        → Result h
    at s {h = h} p = subst (λ t. Has (insert_by t words m (contents q)) h) (sym same)
      where
        same : strategy ≡ s
        same = ground (arith, p)

    none_of :
        (strategy == cqs_lifo) ≡ false
        → (strategy == cqs_ififo) ≡ false
        → (strategy == cqs_ilifo) ≡ false
        → (strategy == cqs_lfifo) ≡ false
        → (strategy == cqs_llifo) ≡ false
        → Result (push (live q) m (pos 0))
    none_of p1 p2 p3 p4 p5 = rw p1 (rw p2 (rw p3 (rw p4 (rw p5 (push-Has q m (pos 0) v)))))
