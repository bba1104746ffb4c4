-- ===== src/ListSend/Process.antt =====
-- The sends to one process in src/collectives.cpp: what a fan-out message brings to its PEs.
use reconverse.Prelude.{
  ℕ, suc, ◌+◌, ◌^◌, ◌<◌, ◌≤◌, ◌≡◌, ◌≢◌, refl, sym, ap, subst, true, ◌||◌, List, [], ◌∷◌, ◌++◌, map,
  map-append, append-nil, append_assoc, length, zero, ◌-◌, take, ltb, ◌==◌, if_cases, arith,
}
use reconverse.Prelude.Count.{count, flat_map, count-append}
use reconverse.Machine.{Machine, node_of, rank_of, node_first, rank_of-lt, node_first-rank_of}
use reconverse.ListSend.{
  Buffer, Send, copy_of, trailer_offset, sync_send, send_each, to_word, to_handler, fanout_message,
  list_send_to_process, on_fanout, arrivals,
}
use reconverse.ListSend.Sorted.{AllKey}

-- The PEs of a list of arrivals.
abbrev pub pes_of : List Send → List ℕ
pes_of sends = map (λ s. s.0) sends

-- Each arrival has the handler of the message and, behind the header, exactly the bytes of the
-- message up to `len`, and the header names the PE that it arrives at.
abbrev pub AllCopies : ℕ → ℕ → Buffer → List Send → Type 0
AllCopies header_size len msg [] = Unit {0}
AllCopies header_size len msg ((pe, b) ∷ sends) =
    (b.dest_pe ≡ pe)
    × (b.handler_id ≡ msg.handler_id)
    × (b.payload ≡ take (len - header_size) msg.payload)
    × AllCopies header_size len msg sends

AllCopies-append :
    (header_size len : ℕ) (msg : Buffer) (xs ys : List Send)
    → AllCopies header_size len msg xs
    → AllCopies header_size len msg ys
    → AllCopies header_size len msg (xs ++ ys)
AllCopies-append header_size len msg [] ys a b = b
AllCopies-append header_size len msg ((pe, x) ∷ xs) ys a b =
    (a.0, a.1, a.2, AllCopies-append header_size len msg xs ys a.3 b)

flat_map-append :
    (f : Send → List Send) (xs ys : List Send)
    → flat_map f (xs ++ ys) ≡ flat_map f xs ++ flat_map f ys
flat_map-append f [] ys = refl
flat_map-append f (x ∷ xs) ys =
    rw (flat_map-append f xs ys) (sym (append_assoc (f x) (flat_map f xs) (flat_map f ys)))

take-take : (n : ℕ) (xs : List ℕ) → take n (take n xs) ≡ take n xs
take-take zero xs = refl
take-take (suc n) [] = refl
take-take (suc n) (x ∷ xs) = ap (λ l. x ∷ l) (take-take n xs)

take-all : (xs : List ℕ) → take (length xs) xs ≡ xs
take-all [] = refl
take-all (x ∷ xs) = ap (λ l. x ∷ l) (take-all xs)

module _ (m : Machine) (header_size fanout_handler : ℕ) (msg : Buffer) (len : ℕ)
    (some_pe : 0 < m.node_size) (small : m.node_size ≤ 2 ^ 32)
    (user : msg.handler_id ≢ fanout_handler) (valid : msg.handler_id < 2 ^ 15) where
  -- What is to be shown of a batch of sends to some PEs.
  abbrev pub Delivers : List Send → List ℕ → Type 0
  Delivers sends pes =
      ((x : ℕ)
        → count x (pes_of (flat_map (arrivals m header_size fanout_handler) sends)) ≡ count x pes)
      × AllCopies header_size len msg (flat_map (arrivals m header_size fanout_handler) sends)

  abbrev ends : Send → List Send
  ends = arrivals m header_size fanout_handler

  pub Delivers-append :
      (xs ys : List Send) (ps qs : List ℕ)
      → Delivers xs ps
      → Delivers ys qs
      → Delivers (xs ++ ys) (ps ++ qs)
  Delivers-append xs ys ps qs a b = rw (flat_map-append ends xs ys) (
    λ x. rw (map-append (λ (s : Send). s.0) (flat_map ends xs) (flat_map ends ys)) (
        omega (
          arith,
          a.0 x,
          b.0 x,
          count-append x ps qs,
          count-append x (pes_of (flat_map ends xs)) (pes_of (flat_map ends ys)),
        )),
    AllCopies-append header_size len msg (flat_map ends xs) (flat_map ends ys) a.1 b.1,
  )

  sync_send-ends :
      (p : ℕ) → ends (sync_send header_size len msg p) ≡ sync_send header_size len msg p ∷ []
  unfolding arrivals
  sync_send-ends p = ground arith

  pub send_each-Delivers : (pes : List ℕ) → Delivers (send_each header_size len msg pes) pes
  send_each-Delivers [] = (λ x. refl, tt)
  send_each-Delivers (p ∷ pes) =
      let ih = send_each-Delivers pes in
      rw (sync_send-ends p) (λ x. omega (arith, ih.0 x), (refl, refl, refl, ih.1))

  rank_back : (node p : ℕ) → node_of m p ≡ node → node_first m node + to_word (rank_of m p) ≡ p
  rank_back node p e =
      omega (arith, ap (node_first m) e, node_first-rank_of m p, rank_of-lt m p some_pe)

  -- The handler's copies of a received buffer.
  abbrev copies : ℕ → Buffer → List ℕ → List Send
  copies node b pes =
      map
        (λ r. (
          node_first m node + r,
          record (copy_of header_size b.message_size b) {
            handler_id = to_handler (to_word msg.handler_id);
            dest_pe = node_first m node + r;
          },
        ))
        (map (λ p. to_word (rank_of m p)) pes)

  copies_lem :
      (node : ℕ) (pes : List ℕ) (b : Buffer)
      → AllKey (node_of m) node pes
      → take (b.message_size - header_size) b.payload ≡ take (len - header_size) msg.payload
      → (pes_of (copies node b pes) ≡ pes) × AllCopies header_size len msg (copies node b pes)
  copies_lem node [] b a e = (refl, tt)
  copies_lem node (p ∷ pes) b a e =
      let ih = copies_lem node pes b a.1 e in
      (rw (rank_back node p a.0) (ap (λ l. p ∷ l) ih.0), (refl, omega arith, e, ih.1))

  to_word-small : (n : ℕ) → n < 2 ^ 32 → to_word n ≡ n
  to_word-small n h = omega arith

  take-words :
      (words : List ℕ) → length words < 2 ^ 32 → take (to_word (length words)) words ≡ words
  take-words words short = rw (to_word-small (length words) short) (take-all words)

  length-words : (pes : List ℕ) → length (map (λ p. to_word (rank_of m p)) pes) ≡ length pes
  length-words [] = refl
  length-words (p ∷ pes) = ap suc (length-words pes)

  own_rank : (first : ℕ) → node_first m (node_of m first) + to_word (rank_of m first) ≡ first
  own_rank first = rank_back (node_of m first) first refl

  -- The received fan-out message.
  abbrev received : ℕ → List ℕ → Buffer
  received first pes = record (fanout_message m header_size fanout_handler (first ∷ pes) len msg) {
    dest_pe = first;
  }

  -- What the first listed rank gets of it.
  abbrev last_copy : ℕ → List ℕ → Send
  last_copy first pes = (
    node_first m (node_of m first) + to_word (rank_of m first),
    record (received first pes) {
      handler_id = to_handler (to_word msg.handler_id);
      dest_pe = node_first m (node_of m first) + to_word (rank_of m first);
    },
  )

  fanout-ends :
      (first : ℕ) (pes : List ℕ)
      → length (first ∷ pes) < 2 ^ 32
      → ends (first, received first pes)
        ≡ copies (node_of m first) (received first pes) pes ++ last_copy first pes ∷ []
  unfolding arrivals fanout_message on_fanout
  fanout-ends first pes short = rw (same_handler, same_place, takes) refl
    where
      same_handler : (fanout_handler == fanout_handler) ≡ true
      same_handler = ground arith

      same_place : (trailer_offset len == trailer_offset len) ≡ true
      same_place = ground arith

      words : List ℕ
      words = map (λ p. to_word (rank_of m p)) (first ∷ pes)

      takes : take (to_word (suc (length pes))) words ≡ words
      takes =
          subst (λ n. take (to_word (suc n)) words ≡ words) (length-words pes)
            (take-words words (rw (length-words pes) short))

  fanout-Delivers :
      (first : ℕ) (pes : List ℕ)
      → AllKey (node_of m) (node_of m first) pes
      → length (first ∷ pes) < 2 ^ 32
      → Delivers ((first, received first pes) ∷ []) (first ∷ pes)
  unfolding fanout_message
  fanout-Delivers first pes a short =
      let c =
        copies_lem (node_of m first) pes (received first pes) a
          (take-take (len - header_size) msg.payload) in
      rw (fanout-ends first pes short) (
        rw
          (append-nil
            (copies (node_of m first) (received first pes) pes ++ last_copy first pes ∷ []))
          (
            λ x.
                rw
                  (
                    map-append (λ (s : Send). s.0)
                        (copies (node_of m first) (received first pes) pes)
                        (last_copy first pes ∷ []),
                    c.0,
                    own_rank first,
                  )
                  (omega (arith, count-append x pes (first ∷ []))),
            AllCopies-append header_size len msg (copies (node_of m first) (received first pes) pes)
                (last_copy first pes ∷ []) c.1 (refl, omega arith, refl, tt),
          ))

  pub to_process-Delivers :
      (first : ℕ) (pes : List ℕ)
      → AllKey (node_of m) (node_of m first) pes
      → length (first ∷ pes) < 2 ^ 32
      → Delivers
          (list_send_to_process m header_size fanout_handler (first ∷ pes) len msg)
          (first ∷ pes)
  unfolding list_send_to_process
  to_process-Delivers first pes a short =
      if_cases (λ sends. Delivers sends (first ∷ pes))
        ((length (first ∷ pes) == 1) || ltb len header_size)
        (send_each header_size len msg (first ∷ pes)) ((first, received first pes) ∷ [])
        (λ p. send_each-Delivers (first ∷ pes)) (λ p. fanout-Delivers first pes a short)
