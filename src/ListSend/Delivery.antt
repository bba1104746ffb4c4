-- ===== src/ListSend/Delivery.antt =====
-- Following every send of a list send of src/collectives.cpp to the handlers that it reaches.
use reconverse.Prelude.{
  ℕ, zero, suc, ◌+◌, ◌*◌, ◌%◌, ◌^◌, ◌<◌, ◌≤◌, ◌≡◌, ◌≢◌, refl, sym, ap, ◌∙◌, subst, Bool, ◌||◌, List,
  [], ◌∷◌, ◌++◌, map, map-append, length, ◌==◌, if◌then◌else◌, if_cases, arith,
}
use reconverse.Prelude.Count.{count}
use reconverse.Machine.{Machine, node_of, rank_of}
use reconverse.ListSend.{
  Buffer, Send, send_each, to_word, trailer_offset, total_size, stable_sort, indices, at, scan,
  fanout_message, list_send_to_process, process_loop, sync_list_send,
}
use reconverse.ListSend.Sorted.{
  count-stable_sort, length-stable_sort, length-indices, at-indices, AllKey-map, length-map,
  scan_lem,
}
use reconverse.ListSend.Process.{Delivers, Delivers-append, send_each-Delivers, to_process-Delivers}

module _ (m : Machine) (header_size fanout_handler : ℕ) (msg : Buffer) (len : ℕ)
    (some_pe : 0 < m.node_size) (small : m.node_size ≤ 2 ^ 32)
    (user : msg.handler_id ≢ fanout_handler) (valid : msg.handler_id < 2 ^ 15) where
  module _ (my_node : ℕ) (pes : List ℕ) where
    loop-Delivers :
        (fuel : ℕ) (order : List ℕ)
        → length order ≤ fuel
        → length order < 2 ^ 32
        → (Delivers m header_size fanout_handler msg len some_pe small user valid)
            (process_loop m header_size fanout_handler fuel my_node pes len msg order)
            (map (at pes) order)
    unfolding process_loop
    loop-Delivers zero [] enough short = (λ x. refl, tt)
    loop-Delivers zero (o ∷ order) enough short = absurd (omega arith)
    loop-Delivers (suc fuel) [] enough short = (λ x. refl, tt)
    loop-Delivers (suc fuel) (o ∷ order) enough short =
        let r = scan (λ i. node_of m (at pes i)) (node_of m (at pes o)) order in
        let l = scan_lem (λ i. node_of m (at pes i)) (node_of m (at pes o)) order in
        let group = map (at pes) (o ∷ r.0) in
        let sends = list_send_to_process m header_size fanout_handler group len msg in
        subst
          (λ qs.
            (Delivers m header_size fanout_handler msg len some_pe small user valid)
              ((if node_of m (at pes o) == my_node
                  then send_each header_size len msg group
                  else sends)
                ++ process_loop m header_size fanout_handler fuel my_node pes len msg r.1)
              (at pes o ∷ qs))
          (sym (map-append (at pes) r.0 r.1) ∙ ap (map (at pes)) l.0)
          ((Delivers-append m header_size fanout_handler msg len some_pe small user valid)
            (if node_of m (at pes o) == my_node then send_each header_size len msg group else sends)
            (process_loop m header_size fanout_handler fuel my_node pes len msg r.1) group
            (map (at pes) r.1)
            (if_cases
              (λ s.
                (Delivers m header_size fanout_handler msg len some_pe small user valid) s group)
              (node_of m (at pes o) == my_node) (send_each header_size len msg group) sends
              (λ p.
                (send_each-Delivers m header_size fanout_handler msg len some_pe small user valid)
                  group)
              (λ p.
                (to_process-Delivers m header_size fanout_handler msg len some_pe small user valid)
                  (at pes o) (map (at pes) r.0)
                  (AllKey-map (node_of m) (at pes) (node_of m (at pes o)) r.0 l.1)
                  (omega (arith, length-map (at pes) r.0, l.3))))
            (loop-Delivers fuel r.1 (omega (arith, l.2)) (omega (arith, l.2))))

  recount :
      (sends : List Send) (ps qs : List ℕ)
      → ((x : ℕ) → count x ps ≡ count x qs)
      → (Delivers m header_size fanout_handler msg len some_pe small user valid) sends ps
      → (Delivers m header_size fanout_handler msg len some_pe small user valid) sends qs
  recount sends ps qs e d = (λ x. d.0 x ∙ e x, d.1)

  -- Each PE gets as many copies of the message as it is listed times, wherever it is, however many
  -- destinations share its process, with or without persistent handles; and each copy comes with the
  -- handler of the message and exactly its payload up to the length that is given, and names its PE in
  -- the header. The handler of the message is not the fan-out handler, and ranks, counts and handlers
  -- fit their fields.
  pub sync_list_send-Delivers :
      (persistent : Bool) (my_node : ℕ) (pes : List ℕ)
      → length pes < 2 ^ 32
      → (Delivers m header_size fanout_handler msg len some_pe small user valid)
          (sync_list_send m header_size fanout_handler persistent my_node pes len msg)
          pes
  unfolding sync_list_send
  sync_list_send-Delivers persistent my_node [] short = (λ x. refl, tt)
  sync_list_send-Delivers persistent my_node (p ∷ others) short =
      if_cases
        (λ sends.
          (Delivers m header_size fanout_handler msg len some_pe small user valid) sends
            (p ∷ others))
        ((length (p ∷ others) == 1) || (m.nodes == 1) || persistent)
        (send_each header_size len msg (p ∷ others))
        (process_loop m header_size fanout_handler (length (p ∷ others)) my_node (p ∷ others) len
          msg order)
        (λ e.
          (send_each-Delivers m header_size fanout_handler msg len some_pe small user valid)
            (p ∷ others))
        (λ e.
          recount
            (process_loop m header_size fanout_handler (length (p ∷ others)) my_node (p ∷ others)
              len msg order)
            (map (at (p ∷ others)) order) (p ∷ others)
            (λ x.
              count-stable_sort x (at (p ∷ others)) key (indices 0 (length (p ∷ others)))
              ∙ ap (count x) (at-indices (p ∷ others)))
            (loop-Delivers my_node (p ∷ others) (length (p ∷ others)) order (omega (arith, size))
              (omega (arith, size))))
    where
      key : ℕ → ℕ
      key i = node_of m (at (p ∷ others) i)

      order : List ℕ
      order = stable_sort key (indices 0 (length (p ∷ others)))

      size : length order ≡ length (p ∷ others)
      size =
          length-stable_sort key (indices 0 (length (p ∷ others)))
          ∙ length-indices 0 (length (p ∷ others))

-- The trailer of a fan-out message begins behind the payload, at most 7 bytes later and aligned, and
-- its words end where the allocation of CmiFanoutTotalSize ends.
pub fanout_layout :
    (m : Machine) (header_size fanout_handler : ℕ) (pes : List ℕ) (len : ℕ) (msg : Buffer)
    → (len ≤ trailer_offset len)
      × (trailer_offset len < len + 8)
      × (trailer_offset len % 8 ≡ 0)
      × (trailer_offset len
            + 4 * length (fanout_message m header_size fanout_handler pes len msg).trailer
          ≡ total_size len (length pes))
unfolding fanout_message trailer_offset total_size
fanout_layout m header_size fanout_handler pes len msg = (
  omega arith,
  omega arith,
  omega arith,
  omega (arith, length-map (λ p. to_word (rank_of m p)) pes),
)
