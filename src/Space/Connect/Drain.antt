-- ===== src/Space/Connect/Drain.antt =====
-- The loops of src/tsd/tsd.c that empty a queue: those of ts_term_clear_requests and of
-- connect_token_next.
use synergy_wrapper.Base.{
  ◌⊎◌, inl, inr, Bool-cases, ℕ, zero, suc, ◌<◌, ◌≡◌, ◌≢◌, refl, sym, ap, ◌∙◌, List, [], ◌∷◌, ◌++◌,
  Bool, true, false, arith, ◌==◌, some, length, get_elem?, append_assoc, append-nil,
}
use synergy_wrapper.Ring.Node.{Token, route, word, text}
use synergy_wrapper.Space.Types.{Tuple, BlockingRequest}
use synergy_wrapper.Space.Zlistx.{Zlistx, remove_at}
use synergy_wrapper.Space.Element.{
  Element, Output, more, last, Result, returned, aborted, unfinished, success, Code, ts_term,
}
use synergy_wrapper.Space.Connect.{
  drain, clear_other, clear_queue, ts_term_clear_requests, connect_token_next, relay,
}

-- the answers to waiting requests, in their order
unfoldable pub answers : (Bool → Output) → List BlockingRequest → List Output
answers end [] = []
answers end (b ∷ bs) = more b.local (route b.clientid) ∷ end b.local ∷ answers end bs

Result-cases :
    {S : Type 0} (r : Result S)
    → (r ≡ aborted)
      ⊎ ((r ≡ unfinished) ⊎ ((s : S) × (out : List Output) × (c : Code) × (r ≡ returned s out c)))
Result-cases aborted = inl refl
Result-cases unfinished = inr (inl refl)
Result-cases (returned s out c) = inr (inr (s, out, c, refl))

length_zero : {A : Type 0} (xs : List A) → length xs ≡ 0 → xs ≡ []
length_zero [] h = refl
length_zero (x ∷ xs) h = absurd (omega arith)

module _ (tuples : Zlistx Tuple) (requests : Zlistx BlockingRequest) where
  drain_step :
      (fuel : ℕ) (end : Bool → Output) (q : requests.Queue) (out : List Output)
      (b : BlockingRequest) (bs : List BlockingRequest)
      → requests.items q ≡ b ∷ bs
      → drain tuples requests (suc fuel) end q out
        ≡ drain tuples requests fuel end
            (requests.detach q 0)
            (out ++ (more b.local (route b.clientid) ∷ end b.local ∷ []))
  unfolding drain
  drain_step fuel end q out b bs i =
      let s = requests.size_lem q ∙ ap length i in
      let m = requests.item_lem q 0 ∙ ap (λ l. get_elem? l 0) i in ground (arith, s, m)

  drain_empty :
      (fuel : ℕ) (end : Bool → Output) (q : requests.Queue) (out : List Output)
      → requests.items q ≡ []
      → drain tuples requests (suc fuel) end q out ≡ returned q out success
  unfolding drain
  drain_empty fuel end q out i = let s = requests.size_lem q ∙ ap length i in ground (arith, s)

  clear_queue_step :
      (fuel : ℕ) (q : tuples.Queue) (t : Tuple) (ts : List Tuple)
      → tuples.items q ≡ t ∷ ts
      → clear_queue tuples requests (suc fuel) q
        ≡ clear_queue tuples requests fuel (tuples.detach q 0)
  unfolding clear_queue
  clear_queue_step fuel q t ts i = let s = tuples.size_lem q ∙ ap length i in ground (arith, s)

  drain-items :
      (fuel : ℕ) (end : Bool → Output) (q : requests.Queue) (out : List Output)
      (bs : List BlockingRequest)
      → requests.items q ≡ bs
      → length bs < fuel
      → (p : requests.Queue) × (requests.items p ≡ [])
        × (drain tuples requests fuel end q out ≡ returned p (out ++ answers end bs) success)
  unfolding drain answers remove_at
  drain-items zero end q out bs i h = absurd (omega arith)
  drain-items (suc fuel) end q out [] i h =
      (q, i, drain_empty fuel end q out i ∙ ap (λ o. returned q o success) (sym (append-nil out)))
  drain-items (suc fuel) end q out (b ∷ bs) i h =
      let out' = out ++ (more b.local (route b.clientid) ∷ end b.local ∷ []) in
      let left = requests.items-detach q 0 ∙ ap (λ l. remove_at l 0) i in
      let (p, j, e) = drain-items fuel end (requests.detach q 0) out' bs left (omega (arith, h)) in
      (
        p,
        j,
        drain_step fuel end q out b bs i
            ∙ (e
                ∙ ap (λ o. returned p o success)
                    (append_assoc out (more b.local (route b.clientid) ∷ end b.local ∷ [])
                      (answers end bs))),
      )

  clear_queue-items :
      (fuel : ℕ) (q : tuples.Queue) (ts : List Tuple)
      → tuples.items q ≡ ts
      → length ts < fuel
      → (p : tuples.Queue) × (tuples.items p ≡ [])
        × (clear_queue tuples requests fuel q ≡ returned p [] success)
  unfolding clear_queue remove_at
  clear_queue-items zero q ts i h = absurd (omega arith)
  clear_queue-items (suc fuel) q [] i h = (q, i, rw (clear_queue, tuples.size_lem q, i) refl)
  clear_queue-items (suc fuel) q (t ∷ ts) i h =
      let left = tuples.items-detach q 0 ∙ ap (λ l. remove_at l 0) i in
      let (p, j, e) = clear_queue-items fuel (tuples.detach q 0) ts left (omega (arith, h)) in
      (p, j, clear_queue_step fuel q t ts i ∙ e)

  drain_zero :
      (end : Bool → Output) (q : requests.Queue) (out : List Output)
      → drain tuples requests 0 end q out ≢ aborted
  unfolding drain
  drain_zero end q out = ground arith

  drain_safe :
      (fuel : ℕ) (end : Bool → Output) (q : requests.Queue) (out : List Output)
      (bs : List BlockingRequest)
      → requests.items q ≡ bs
      → drain tuples requests fuel end q out ≢ aborted
  unfolding remove_at
  drain_safe zero end q out bs i = drain_zero end q out
  drain_safe (suc fuel) end q out [] i = rw (drain_empty fuel end q out i) (ground arith)
  drain_safe (suc fuel) end q out (b ∷ bs) i = rw (drain_step fuel end q out b bs i) (
      drain_safe fuel end (requests.detach q 0)
        (out ++ (more b.local (route b.clientid) ∷ end b.local ∷ [])) bs
        (requests.items-detach q 0 ∙ ap (λ l. remove_at l 0) i))

  clear_other_stuck :
      (fuel : ℕ) (q p : tuples.Queue)
      → (tuples.size q == 0) ≡ false
      → clear_other tuples requests fuel q p ≡ unfinished
  unfolding clear_other
  clear_other_stuck zero q p h = refl
  clear_other_stuck (suc fuel) q p h =
      rw (clear_other, h) (clear_other_stuck fuel q (tuples.detach p 0) h)

  clear_queue_safe : (fuel : ℕ) (q : tuples.Queue) → clear_queue tuples requests fuel q ≢ aborted
  unfolding clear_queue
  clear_queue_safe zero q = ground arith
  clear_queue_safe (suc fuel) q = ground (arith, clear_queue_safe fuel (tuples.detach q 0))

  keeps : (q : tuples.Queue) → tuples.items q ≢ [] → (tuples.size q == 0) ≡ false
  keeps q h = elim (Bool-cases (tuples.size q == 0)) [
    | inl e ↦
        absurd (h (length_zero (tuples.items q) (sym (tuples.size_lem q) ∙ ground (arith, e))))
    | inr e ↦ e
  ]

  clear_other_empty :
      (fuel : ℕ) (q p : tuples.Queue)
      → tuples.items q ≡ []
      → 0 < fuel
      → clear_other tuples requests fuel q p ≡ returned p [] success
  unfolding clear_other
  clear_other_empty zero q p h l = absurd (omega arith)
  clear_other_empty (suc fuel) q p h l =
      let s = tuples.size_lem q ∙ ap length h in ground (arith, s)

  term_lem :
      (fuel : ℕ) (space : Element tuples requests) (q r : requests.Queue) (p : tuples.Queue)
      (sent out : List Output)
      → drain tuples requests fuel (λ b. last b (word ts_term)) space.named_queue_requests []
        ≡ returned q sent success
      → drain tuples requests fuel (λ b. last b (word ts_term)) space.bcast_queue_requests sent
        ≡ returned r out success
      → clear_queue tuples requests fuel space.named_queue ≡ returned p [] success
      → clear_other tuples requests fuel space.bcast_queue p ≡ returned p [] success
      → ts_term_clear_requests tuples requests fuel space
        ≡ returned
            (record space { named_queue_requests = q; bcast_queue_requests = r; named_queue = p })
            out
            success
  unfolding ts_term_clear_requests
  term_lem fuel space q r p sent out e f g h = rw (ts_term_clear_requests, e, f, g, h) refl

  -- However long it runs, ts_term_clear_requests does not end in a space that keeps a broadcast tuple.
  pub term_unfinished :
      (fuel : ℕ) (space : Element tuples requests)
      → tuples.items space.bcast_queue ≢ []
      → ts_term_clear_requests tuples requests fuel space ≡ unfinished
  unfolding ts_term_clear_requests
  term_unfinished fuel space h =
      let end = λ (b : Bool). last b (word ts_term) in
      let named = space.named_queue_requests in
      let bcast = space.bcast_queue_requests in
      let stuck = λ (p : tuples.Queue).
        clear_other_stuck fuel space.bcast_queue p (keeps space.bcast_queue h) in
      elim (Result-cases (drain tuples requests fuel end named [])) [
        | inl e ↦ absurd (drain_safe fuel end named [] (requests.items named) refl e)
        | inr (inl e) ↦ rw (ts_term_clear_requests, e) refl
        | inr (inr (q, out, c, e)) ↦
            elim (Result-cases (drain tuples requests fuel end bcast out)) [
              | inl f ↦ absurd (drain_safe fuel end bcast out (requests.items bcast) refl f)
              | inr (inl f) ↦ rw (ts_term_clear_requests, e, f) refl
              | inr (inr (r, out', d, f)) ↦
                  elim (Result-cases (clear_queue tuples requests fuel space.named_queue)) [
                    | inl g ↦ absurd (clear_queue_safe fuel space.named_queue g)
                    | inr (inl g) ↦ rw (ts_term_clear_requests, e, f, g) refl
                    | inr (inr (p, o, c', g)) ↦ rw (ts_term_clear_requests, e, f, g, stuck p) refl
                  ]
            ]
      ]

  -- In a space that keeps no broadcast tuple, and with more fuel than each queue has items,
  -- ts_term_clear_requests answers every waiting request with TsTerm, the named ones first and each queue in
  -- its order, and leaves both queues of requests and the queue of tuples empty.
  pub term_answers :
      (fuel : ℕ) (space : Element tuples requests)
      → tuples.items space.bcast_queue ≡ []
      → length (requests.items space.named_queue_requests) < fuel
      → length (requests.items space.bcast_queue_requests) < fuel
      → length (tuples.items space.named_queue) < fuel
      → (after : Element tuples requests) × (ts_term_clear_requests tuples requests fuel space
          ≡ returned after
              (answers (λ b. last b (word ts_term)) (requests.items space.named_queue_requests)
                ++ answers (λ b. last b (word ts_term)) (requests.items space.bcast_queue_requests))
              success)
        × (requests.items after.named_queue_requests ≡ [])
        × (requests.items after.bcast_queue_requests ≡ [])
        × (tuples.items after.named_queue ≡ [])
  term_answers fuel space h l m n =
      let end = λ (b : Bool). last b (word ts_term) in
      let named = requests.items space.named_queue_requests in
      let bcast = requests.items space.bcast_queue_requests in
      let (q, i, e) = drain-items fuel end space.named_queue_requests [] named refl l in
      let (r, j, f) =
        drain-items fuel end space.bcast_queue_requests (answers end named) bcast refl m in
      let (p, k, g) =
        clear_queue-items fuel space.named_queue (tuples.items space.named_queue) refl n in
      (
        record space { named_queue_requests = q; bcast_queue_requests = r; named_queue = p },
        term_lem fuel space q r p (answers end named) (answers end named ++ answers end bcast) e f g
            (clear_other_empty fuel space.bcast_queue p h (omega arith)),
        i,
        j,
        k,
      )

  token_lem :
      (fuel : ℕ) (space : Element tuples requests) (tk : Token) (p : requests.Queue)
      (out : List Output)
      → space.is_activated ≡ false
      → space.is_requested ≡ true
      → drain tuples requests fuel (λ b. last b (text tk.buf2)) space.connect_requests []
        ≡ returned p out success
      → connect_token_next tuples requests fuel (some space) tk
        ≡ returned
            (some (record space {
              connect_requests = p;
              is_activated = true;
              direct_endpoint = tk.buf2;
            }))
            (out ++ relay tk)
            success
  unfolding connect_token_next
  token_lem fuel space tk p out a r e = ground (arith, a, r, e)

  -- A token that opens a space which clients asked for answers each client that waits with the token's
  -- endpoint, in their order, and then goes on or ends; no client is left waiting, the space is open and keeps
  -- the endpoint.
  pub connect_token_next_lem :
      (fuel : ℕ) (space : Element tuples requests) (tk : Token)
      → space.is_activated ≡ false
      → space.is_requested ≡ true
      → length (requests.items space.connect_requests) < fuel
      → (p : requests.Queue) × (requests.items p ≡ [])
        × (connect_token_next tuples requests fuel (some space) tk
            ≡ returned
                (some (record space {
                  connect_requests = p;
                  is_activated = true;
                  direct_endpoint = tk.buf2;
                }))
                (answers (λ b. last b (text tk.buf2)) (requests.items space.connect_requests)
                  ++ relay tk)
                success)
  unfolding connect_token_next
  connect_token_next_lem fuel space tk a r h =
      let end = λ (b : Bool). last b (text tk.buf2) in
      let (p, i, e) =
        drain-items fuel end space.connect_requests [] (requests.items space.connect_requests) refl
          h in
      (p, i, token_lem fuel space tk p (answers end (requests.items space.connect_requests)) a r e)
