-- ===== src/Futures.antt =====
-- Futures, src/futures.cpp: the cells of the futures of one PE, its threads, and the values under way
-- to it. Waiting threads are chained through the pointers of CthSetNext; CthAwaken puts a thread's
-- token into the queue of the PE, and CthSuspend runs others until the token is taken.
mod Chains
mod Values
mod Wakes
mod Tests
use reconverse.Prelude.{
  ℕ, zero, suc, ◌+◌, ◌<◌, ◌≡◌, Bool, true, false, Option, none, some, List, [], ◌∷◌, ◌++◌, ◌==◌,
  if◌then◌else◌,
}

-- CfutureCell: the value once set, ready, and the first waiting thread
pub record Cell : Type 0 where
  pub value : Option ℕ
  pub ready : Bool
  pub waiters : Option ℕ

-- Cfuture
pub record Future : Type 0 where
  pub pe : ℕ
  pub data_at : ℕ

-- Where a thread is: it runs, or it is inside CthSuspend in a CfutureWait for the cell, without or
-- with its token in the queue.
pub data Phase : Type 0 where
  running : Phase
  waiting : ℕ → Phase
  woken : ℕ → Phase

-- A PE: the cells, the next pointers of the threads, the tokens of awakened threads, and the values
-- that other PEs have sent, each with its cell.
pub record Pe : Type 0 where
  pub cells : ℕ → Cell
  pub next : ℕ → Option ℕ
  pub queue : List ℕ
  pub phase : ℕ → Phase
  pub flying : List (ℕ × ℕ)

abbrev pub update {ℓ} : {A : Type ℓ} → (ℕ → A) → ℕ → A → ℕ → A
update f i a j = if j == i then a else f j

-- CfutureCreate
unfoldable pub fresh_cell : Cell
fresh_cell = record { value = none; ready = false; waiters = none }

-- The loop of CfutureAwaken, with a unit of fuel for each thread: the threads that it awakens.
unfoldable pub chain_from : ℕ → (ℕ → Option ℕ) → Option ℕ → List ℕ
chain_from zero next t = []
chain_from (suc n) next none = []
chain_from (suc n) next (some t) = t ∷ chain_from n next (next t)

-- CthAwaken on a thread that waits
abbrev pub awakened : Phase → Phase
awakened running = running
awakened (waiting c) = woken c
awakened (woken c) = woken c

abbrev pub awaken_all : List ℕ → (ℕ → Phase) → ℕ → Phase
awaken_all [] phase = phase
awaken_all (t ∷ ts) phase = awaken_all ts (update phase t (awakened (phase t)))

-- CfutureAwaken, on a PE of n threads
unfoldable pub awaken : ℕ → ℕ → ℕ → Pe → Pe
unfolding chain_from
awaken n c v s =
    let ts = chain_from n s.next (s.cells c).waiters in
    record s {
      cells = update s.cells c (record { value = some v; ready = true; waiters = none });
      queue = s.queue ++ ts;
      phase = awaken_all ts s.phase;
    }

-- CfutureStoreBuffer on PE `me`; the PE of the future is `here`.
unfoldable pub store_buffer : ℕ → ℕ → ℕ → Future → ℕ → Pe → Pe
unfolding awaken
store_buffer n me here f v s =
    if here == me
    then awaken n f.data_at v s
    else record s { flying = s.flying ++ (f.data_at, v) ∷ [] }

-- What a call of CfutureWait comes to: a value, the suspension of the thread, or CmiAbort.
pub data Outcome : Type 0 where
  returns : Option ℕ → Outcome
  suspends : Outcome
  aborts : Outcome

-- The part of CfutureWait for a cell that is not ready: the thread comes first in the chain.
unfoldable pub suspend_on : ℕ → ℕ → Pe → Pe
suspend_on t c s = record s {
  next = update s.next t (s.cells c).waiters;
  cells = update s.cells c (record (s.cells c) { waiters = some t });
  phase = update s.phase t (waiting c);
}

-- CfutureWait by thread t on PE `me`
unfoldable pub wait : ℕ → ℕ → Future → Pe → Pe × Outcome
unfolding suspend_on
wait me t f s =
    if f.pe == me
    then (if (s.cells f.data_at).ready
        then (s, returns (s.cells f.data_at).value)
        else (suspend_on t f.data_at s, suspends))
    else (s, aborts)

-- The return of CfutureWait in a resumed thread, and its value.
unfoldable pub resume : ℕ → ℕ → List ℕ → Pe → Pe × Outcome
resume t c others s =
    (record s { queue = others; phase = update s.phase t running }, returns (s.cells c).value)

-- CfutureDestroy; `none` is CmiAbort.
unfoldable pub destroy : ℕ → Future → Pe → Option Pe
unfolding fresh_cell
destroy me f s =
    if f.pe == me
    then elim (s.cells f.data_at).waiters [
      | some t ↦ none
      | none ↦ some (record s { cells = update s.cells f.data_at fresh_cell })
    ]
    else none

unfoldable pub start : Pe
unfolding fresh_cell
start = record {
  cells = λ c. fresh_cell;
  next = λ t. none;
  queue = [];
  phase = λ t. running;
  flying = [];
}

-- One event on a PE `here` of n threads. Only running threads wait, and the scheduler takes a token.
pub data Step (n here : ℕ) : Pe → Pe → Type 0 where
  sets :
      (s : Pe) (me : ℕ) (f : Future) (v : ℕ)
      → f.pe ≡ here
      → Step n here s (store_buffer n me here f v s)
  arrives :
      (s : Pe) (c v : ℕ) (before after : List (ℕ × ℕ))
      → s.flying ≡ before ++ (c, v) ∷ after
      → Step n here s (awaken n c v (record s { flying = before ++ after }))
  waits :
      (s : Pe) (t : ℕ) (f : Future)
      → t < n
      → s.phase t ≡ running
      → Step n here s (wait here t f s).0
  resumes :
      (s : Pe) (t c : ℕ) (before after : List ℕ)
      → s.queue ≡ before ++ t ∷ after
      → s.phase t ≡ woken c
      → Step n here s (resume t c (before ++ after) s).0

pub data Reach (n here : ℕ) : Pe → Type 0 where
  starts : Reach n here start
  steps : (s t : Pe) → Reach n here s → Step n here s t → Reach n here t
