-- ===== src/ListSend.antt =====
-- The list sends of src/collectives.cpp: one fan-out message per destination process, which carries
-- the ranks behind its payload, and the handler that hands the payload to them. A buffer is its
-- header fields, the bytes of its payload behind the header, and the words of a trailer with the
-- place in the buffer where they stand. No message is shorter than its header.
mod Sorted
pub mod Process
pub mod Delivery
mod Tests
use reconverse.Prelude.{
  ℕ, zero, suc, ◌+◌, ◌-◌, ◌*◌, ◌/◌, ◌%◌, ◌^◌, Bool, true, false, ◌||◌, List, [], ◌∷◌, ◌++◌, map,
  length, get_elem?, Option, none, some, take, ltb, leb, ◌==◌, if◌then◌else◌,
}
use reconverse.Machine.{Machine, node_of, rank_of, node_first}

pub record Buffer : Type 0 where
  pub handler_id : ℕ
  pub message_size : ℕ
  pub dest_pe : ℕ
  pub payload : List ℕ
  pub trailer_at : ℕ
  pub trailer : List ℕ

-- A buffer under way to a PE.
abbrev pub Send : Type 0
Send = ℕ × Buffer

-- CmiFanoutTrailerOffset: the length, rounded up to a multiple of 8.
unfoldable pub trailer_offset : ℕ → ℕ
trailer_offset len = (len + 7) / 8 * 8

-- CmiFanoutTrailerFixed
abbrev pub trailer_fixed : ℕ
trailer_fixed = 2

-- CmiFanoutTotalSize, with words of 4 bytes
unfoldable pub total_size : ℕ → ℕ → ℕ
unfolding trailer_offset
total_size len nranks = trailer_offset len + (trailer_fixed + nranks) * 4

-- The first `len` bytes of a buffer, its header counted: `memcpy(copy, msg, len)`. A trailer behind
-- them is not copied.
abbrev pub copy_of : ℕ → ℕ → Buffer → Buffer
copy_of header_size len msg = record msg {
  payload = take (len - header_size) msg.payload;
  trailer_at = 0;
  trailer = [];
}

-- CmiSyncSend: a copy of `len` bytes, with the destination in its header.
abbrev pub sync_send : ℕ → ℕ → Buffer → ℕ → Send
sync_send header_size len msg pe = (pe, record (copy_of header_size len msg) { dest_pe = pe })

-- The loop `for (i...) CmiSyncSend(pes[i], len, msg)`
abbrev pub send_each : ℕ → ℕ → Buffer → List ℕ → List Send
send_each header_size len msg pes = map (sync_send header_size len msg) pes

-- Conversions to CmiUInt4, and of such a word to CmiInt2 where the number is not negative
abbrev pub to_word : ℕ → ℕ
to_word n = n % 2 ^ 32

abbrev pub to_handler : ℕ → ℕ
to_handler n = n % 2 ^ 16

-- std::stable_sort on a list of indices, by their key.
unfoldable pub insert_by : (ℕ → ℕ) → ℕ → List ℕ → List ℕ
insert_by key x [] = x ∷ []
insert_by key x (y ∷ ys) =
    let later = insert_by key x ys in if leb (key x) (key y) then x ∷ y ∷ ys else y ∷ later

unfoldable pub stable_sort : (ℕ → ℕ) → List ℕ → List ℕ
unfolding insert_by
stable_sort key [] = []
stable_sort key (x ∷ xs) = insert_by key x (stable_sort key xs)

-- `order[i] = i`, for `npes` indices from `i` on
abbrev pub indices : ℕ → ℕ → List ℕ
indices i zero = []
indices i (suc n) = i ∷ indices (suc i) n

-- `pes[i]`, inside the list
abbrev pub at : List ℕ → ℕ → ℕ
at [] i = 0
at (p ∷ pes) zero = p
at (p ∷ pes) (suc i) = at pes i

-- The scan `while (j < npes && CmiNodeOf(pes[order[j]]) == node) j++`: the indices before and after
-- the place where it stops.
unfoldable pub scan : (ℕ → ℕ) → ℕ → List ℕ → List ℕ × List ℕ
scan key node [] = ([], [])
scan key node (o ∷ order) =
    let (same, rest) = scan key node order in
    if key o == node then (o ∷ same, rest) else ([], o ∷ order)

module _ (m : Machine) (header_size fanout_handler : ℕ) where
  -- The fan-out message of CmiListSendToProcess: `len` bytes copied, and the trailer behind them.
  unfoldable pub fanout_message : List ℕ → ℕ → Buffer → Buffer
  unfolding trailer_offset
  fanout_message pes len msg = record (copy_of header_size len msg) {
    message_size = len;
    handler_id = fanout_handler;
    trailer_at = trailer_offset len;
    trailer = to_word (length pes) ∷ to_word msg.handler_id ∷ map (λ p. to_word (rank_of m p)) pes;
  }

  -- CmiListSendToProcess, to the PEs `pes` of one other process. The fan-out message is sent as it
  -- is, by CmiSyncSendAndFree.
  unfoldable pub list_send_to_process : List ℕ → ℕ → Buffer → List Send
  unfolding fanout_message
  list_send_to_process [] len msg = []
  list_send_to_process (first ∷ pes) len msg =
      if (length (first ∷ pes) == 1) || ltb len header_size
      then send_each header_size len msg (first ∷ pes)
      else (first, record (fanout_message (first ∷ pes) len msg) { dest_pe = first }) ∷ []

  -- The pushes of CmiFanoutHandler, with the payload's own handler put back: the copies of
  -- `messageSize` bytes, and at last the received buffer, each with the PE to whose queue it goes.
  abbrev pub serve_ranks : ℕ → Buffer → List ℕ → List Send
  serve_ranks base msg [] = []
  serve_ranks base msg (first ∷ ranks) =
      map
        (λ r. (base + r, record (copy_of header_size msg.message_size msg) { dest_pe = base + r }))
        ranks
      ++ (base + first, record msg { dest_pe = base + first }) ∷ []

  -- CmiFanoutHandler's reads of the trailer: list sends write a count, a handler and the ranks.
  abbrev pub read_trailer : ℕ → Buffer → List ℕ → List Send
  read_trailer base msg [] = []
  read_trailer base msg (nranks ∷ []) = []
  read_trailer base msg (nranks ∷ handler ∷ words) =
      serve_ranks base (record msg { handler_id = to_handler handler }) (take nranks words)

  -- The words at a place of the buffer: those of the trailer, if it stands there. What else a read
  -- would find is not modelled: it counts as no trailer.
  abbrev pub words_at : ℕ → Buffer → List ℕ
  words_at place msg = if place == msg.trailer_at then msg.trailer else []

  -- CmiFanoutHandler on `my_node`: the trailer is where `messageSize` says.
  unfoldable pub on_fanout : ℕ → Buffer → List Send
  unfolding trailer_offset
  on_fanout my_node msg =
      read_trailer (node_first m my_node) msg (words_at (trailer_offset msg.message_size) msg)

  -- The loop of CmiSyncListSend over the processes, with a unit of fuel for each.
  unfoldable pub process_loop : ℕ → ℕ → List ℕ → ℕ → Buffer → List ℕ → List Send
  unfolding list_send_to_process scan
  process_loop zero my_node pes len msg order = []
  process_loop (suc fuel) my_node pes len msg [] = []
  process_loop (suc fuel) my_node pes len msg (o ∷ order) =
      let node = node_of m (at pes o) in
      let (same, rest) = scan (λ i. node_of m (at pes i)) node order in
      let group = map (at pes) (o ∷ same) in
      let later = process_loop fuel my_node pes len msg rest in
      (if node == my_node
        then send_each header_size len msg group
        else list_send_to_process group len msg)
      ++ later

  -- CmiSyncListSend; `persistent` says whether a persistent handle array is installed.
  unfoldable pub sync_list_send : Bool → ℕ → List ℕ → ℕ → Buffer → List Send
  unfolding process_loop stable_sort
  sync_list_send persistent my_node [] len msg = []
  sync_list_send persistent my_node (pe ∷ others) len msg =
      let pes = pe ∷ others in
      if (length pes == 1) || (m.nodes == 1) || persistent
      then send_each header_size len msg pes
      else process_loop (length pes) my_node pes len msg
          (stable_sort (λ i. node_of m (at pes i)) (indices 0 (length pes)))

  -- Where a send ends: a fan-out message at the ranks that its handler serves.
  unfoldable pub arrivals : Send → List Send
  unfolding on_fanout
  arrivals (pe, msg) =
      if msg.handler_id == fanout_handler then on_fanout (node_of m pe) msg else (pe, msg) ∷ []
