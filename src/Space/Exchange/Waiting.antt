-- ===== src/Space/Exchange/Waiting.antt =====
-- Requests that wait for a tuple, and the TsPut or TsAdd that meets them (match_blocking_requests,
-- named_queue_read_handler and named_queue_write_handler of src/tsd/tsd.c).
use synergy_wrapper.Base.{
  suc, ◌≡◌, ◌≢◌, ◌⊎◌, inl, inr, refl, ap, ◌∙◌, List, [], ◌∷◌, ◌++◌, Bool, true, false, arith, Bytes,
  Option, none, some, All, Bool-cases,
}
use synergy_wrapper.Ring.Node.{route, word, text}
use synergy_wrapper.Space.Types.{
  Tuple, BlockingRequest, is_mode, mode_p2p, put, add, get_blocking, read_blocking, pop_blocking,
  peek_blocking,
}
use synergy_wrapper.Space.Compare.{
  same, crash, tplcmp, search_tuple, blckcmp_str, compare_keys, is_star,
}
use synergy_wrapper.Space.Compare.Symmetry.{compare_names_refl}
use synergy_wrapper.Space.Zlistx.{Zlistx}
use synergy_wrapper.Space.Element.{
  Daemon, Element, Output, more, last, shared, returned, aborted, Args, success, incomplete, ts_ack,
}
use synergy_wrapper.Space.Matching.{
  Ending, ended, crash_in_loop, no_end, ending_map, search_request, match_loop, answer, reply,
  crashes, consumes, read_response,
}
use synergy_wrapper.Space.Matching.Scan.{scan, scan_match, match_loop-scan}
use synergy_wrapper.Space.Store.{match_blocking_requests, put_tuple, named_queue_write_handler}
use synergy_wrapper.Space.Named.{named_queue_read_handler, read_named, not_found, request_of, enf}
use synergy_wrapper.Space.Named.Reads.{search_missing}
use synergy_wrapper.Space.Exchange.{Differs, ended-inverse}
use synergy_wrapper.Space.Exchange.PutGet.{put_of, handed_over, write_put, read_handler-local}

ending_crash :
    {Q P : Type 0} (f : Q → P) (e : Ending Q)
    → ending_map f [] e ≡ crash_in_loop
    → e ≡ crash_in_loop
ending_crash f (ended q n out c) h = absurd (ground arith)
ending_crash f crash_in_loop h = refl
ending_crash f no_end h = absurd (ground arith)

-- a request as named_queue_read_handler and named_queue_fetch_handler leave it
unfoldable pub IsQueued : BlockingRequest → Type 0
IsQueued b =
    ((b.command ≡ pop_blocking) ⊎ (b.command ≡ peek_blocking))
    ⊎ (((b.command ≡ get_blocking) ⊎ (b.command ≡ read_blocking)) × (b.extra ≡ 0) × (b.name ≢ none))

module _ (regex : Bytes → Bytes → Bool) where
  scan-second :
      (t : Tuple) (b c : BlockingRequest) (bs : List BlockingRequest) (sent : List Output)
      → blckcmp_str regex b (search_request t) ≡ same
      → blckcmp_str regex c (search_request t) ≡ same
      → consumes b ≡ true
      → answer t b ≡ reply sent
      → scan regex t true (b ∷ c ∷ bs)
        ≡ ended bs false (more b.local (route b.clientid) ∷ sent ++ []) success
  unfolding scan scan_match
  scan-second t b c bs sent e f k a = ground (arith, e, f, k, a)

  scan-one :
      (t : Tuple) (bs : List BlockingRequest) (b : BlockingRequest) (sent : List Output)
      → All (λ c. Differs (blckcmp_str regex c (search_request t))) bs
      → blckcmp_str regex b (search_request t) ≡ same
      → consumes b ≡ true
      → answer t b ≡ reply sent
      → scan regex t true (bs ++ (b ∷ []))
        ≡ ended bs false (more b.local (route b.clientid) ∷ sent ++ []) success
  unfolding scan scan_match
  scan-one t [] b sent d e k a = ground (arith, e, k, a)
  scan-one t (c ∷ bs) b sent (h, d) e k a = ground (arith, scan-one t bs b sent d e k a)

  answer-none :
      (t : Tuple) (b : BlockingRequest) → t.name ≡ none → IsQueued b → answer t b ≡ crashes
  unfolding answer read_response IsQueued
  answer-none t b n (inl (inl c)) = ground (arith, n, c)
  answer-none t b n (inl (inr c)) = ground (arith, n, c)
  answer-none t b n (inr (inl c, e, k)) = ground (arith, n, c)
  answer-none t b n (inr (inr c, e, k)) = ground (arith, n, c)

  compare_keys-none :
      (a : Option Bytes)
      → a ≢ none
      → (compare_keys regex a 0 none 0 ≡ same) ⊎ (compare_keys regex a 0 none 0 ≡ crash)
  unfolding compare_keys
  compare_keys-none none h = absurd (h refl)
  compare_keys-none (some a) h = elim (Bool-cases (is_star a)) [
    | inl e ↦ inl (rw (compare_keys, e) refl)
    | inr e ↦ inr (rw (compare_keys, e) refl)
  ]

  blckcmp_str-none :
      (t : Tuple) (b : BlockingRequest)
      → t.name ≡ none
      → IsQueued b
      → (blckcmp_str regex b (search_request t) ≡ same)
        ⊎ (blckcmp_str regex b (search_request t) ≡ crash)
  unfolding blckcmp_str search_request IsQueued
  blckcmp_str-none t b n (inl (inl c)) = inl (ground (arith, c))
  blckcmp_str-none t b n (inl (inr c)) = inl (ground (arith, c))
  blckcmp_str-none t b n (inr (inl c, e, k)) = ground (arith, c, e, n, compare_keys-none b.name k)
  blckcmp_str-none t b n (inr (inr c, e, k)) = ground (arith, c, e, n, compare_keys-none b.name k)

  scan-add :
      (t : Tuple) (b : BlockingRequest) (bs : List BlockingRequest)
      → t.name ≡ none
      → IsQueued b
      → scan regex t true (b ∷ bs) ≡ crash_in_loop
  unfolding scan scan_match
  scan-add t b bs n q = elim (blckcmp_str-none t b n q) [
    | inl e ↦ ground (arith, e, answer-none t b n q)
    | inr e ↦ ground (arith, e)
  ]

module _ (tuples : Zlistx Tuple) (requests : Zlistx BlockingRequest) (regex : Bytes → Bytes → Bool)
    (self : Daemon) (space : Element tuples requests) where
  consumed_lem :
      (t : Tuple) (p : requests.Queue) (out : List Output)
      → match_loop regex requests
          (suc (requests.size space.named_queue_requests))
          t
          true
          space.named_queue_requests
        ≡ ended p false out success
      → match_blocking_requests tuples requests regex self space t put
        ≡ returned (record space { named_queue_requests = p }) out success
  unfolding match_blocking_requests
  consumed_lem t p out e = ground (arith, e)

  -- match_blocking_requests where the pass over the requests consumes the tuple
  consumed :
      (t : Tuple) (bs : List BlockingRequest) (out : List Output)
      → scan regex t true (requests.items space.named_queue_requests) ≡ ended bs false out success
      → (p : requests.Queue) × (requests.items p ≡ bs)
        × (match_blocking_requests tuples requests regex self space t put
            ≡ returned (record space { named_queue_requests = p }) out success)
  consumed t bs out h =
      let q = space.named_queue_requests in
      let fuel = suc (requests.size q) in
      let (p, (i, e)) =
        ended-inverse requests.items (match_loop regex requests fuel t true q) bs false out success
          (match_loop-scan regex requests fuel t true q (omega (arith, requests.size_lem q)) ∙ h) in
      (p, i, consumed_lem t p out e)

  add_lem :
      (t : Tuple)
      → match_loop regex requests
          (suc (requests.size space.named_queue_requests))
          t
          true
          space.named_queue_requests
        ≡ crash_in_loop
      → match_blocking_requests tuples requests regex self space t add ≡ aborted
  unfolding match_blocking_requests
  add_lem t e = ground (arith, e)

  -- Where the first two waiting requests of a space match a tuple and the first takes it, a TsPut of the
  -- tuple answers the first alone: the second leaves the queue without an answer, the tuple is not stored.
  pub second_getter_lost :
      (t : Tuple) (b c : BlockingRequest) (bs : List BlockingRequest) (sent : List Output)
      → requests.items space.named_queue_requests ≡ b ∷ c ∷ bs
      → blckcmp_str regex b (search_request t) ≡ same
      → blckcmp_str regex c (search_request t) ≡ same
      → consumes b ≡ true
      → answer t b ≡ reply sent
      → (p : requests.Queue) × (requests.items p ≡ bs)
        × (match_blocking_requests tuples requests regex self space t put
            ≡ returned
                (record space { named_queue_requests = p })
                (more b.local (route b.clientid) ∷ sent ++ [])
                success)
  second_getter_lost t b c bs sent i e f k a =
      consumed t bs (more b.local (route b.clientid) ∷ sent ++ [])
        (ap (scan regex t true) i ∙ scan-second regex t b c bs sent e f k a)

  -- Where the first waiting request of a space is one that the read or the fetch handler left
  -- there, matching a tuple without a name for a TsAdd reads NULL.
  pub add_pending_crash :
      (t : Tuple) (b : BlockingRequest) (bs : List BlockingRequest)
      → requests.items space.named_queue_requests ≡ b ∷ bs
      → IsQueued b
      → t.name ≡ none
      → match_blocking_requests tuples requests regex self space t add ≡ aborted
  add_pending_crash t b bs i q n =
      let p = space.named_queue_requests in
      let fuel = suc (requests.size p) in
      add_lem t (
        ending_crash requests.items (match_loop regex requests fuel t true p) (
          match_loop-scan regex requests fuel t true p (omega (arith, requests.size_lem p))
          ∙ ap (scan regex t true) i
          ∙ scan-add regex t b bs n q))

  not_found-get :
      (r : Args) (name : Bytes)
      → r.action ≡ get_blocking
      → All (λ u. Differs (tplcmp regex u (search_tuple name))) (tuples.items space.named_queue)
      → read_named tuples requests regex space r name
        ≡ returned
            (record space {
              named_queue_requests =
                  requests.add_end space.named_queue_requests (request_of r (some name));
            })
            (enf r)
            incomplete
  unfolding read_named not_found
  not_found-get r name a d =
      let q = space.named_queue in
      let s = search_tuple name in
      rw
        (
          read_named,
          tuples.find_lem (tplcmp regex) q s,
          search_missing (tplcmp regex) s (tuples.items q) d,
        )
        (ground (arith, a))

module _ (tuples : Zlistx Tuple) (requests : Zlistx BlockingRequest) (regex : Bytes → Bytes → Bool)
    (self : Daemon) (space : Element tuples requests) (w r : Args) (name : Bytes) where
  answer_waiting :
      r.action ≡ get_blocking
      → r.is_local ≡ true
      → answer (put_of w name) (request_of r (some name))
        ≡ reply (
            more true (word ts_ack)
            ∷ last true (text name)
            ∷ shared (put_of w name).contents (put_of w name).len
            ∷ [])
  unfolding answer read_response put_of request_of
  answer_waiting a l = ground (arith, a, l)

  waiting_consumes : r.action ≡ get_blocking → consumes (request_of r (some name)) ≡ true
  unfolding consumes request_of
  waiting_consumes a = ground (arith, a)

  waiting_same :
      r.action ≡ get_blocking
      → blckcmp_str regex (request_of r (some name)) (search_request (put_of w name)) ≡ same
  unfolding blckcmp_str request_of search_request put_of compare_keys
  waiting_same a = ground (arith, a, compare_names_refl regex name)

  put_consumed :
      (s after : Element tuples requests) (out : List Output)
      → is_mode s.ts_mode mode_p2p ≡ false
      → match_blocking_requests tuples requests regex self s (put_of w name) put
        ≡ returned after out success
      → put_tuple tuples requests regex self s (put_of w name) ≡ returned after out success
  unfolding put_tuple
  put_consumed s after out m e = ground (arith, m, e)

  -- In a space that is not P2P, where no waiting request and no stored tuple matches a name, a local client
  -- that gets the name and waits is told that there is none; a TsPut of the name by a local client then
  -- sends it the tuple, and the waiting requests and the stored tuples are those before the two.
  pub get_blocking-put :
      r.action ≡ get_blocking
      → r.recv_name ≡ some name
      → r.is_local ≡ true
      → w.action ≡ put
      → w.recv_name ≡ some name
      → w.is_local ≡ true
      → is_mode space.ts_mode mode_p2p ≡ false
      → All
          (λ b. Differs (blckcmp_str regex b (search_request (put_of w name))))
          (requests.items space.named_queue_requests)
      → All (λ u. Differs (tplcmp regex u (search_tuple name))) (tuples.items space.named_queue)
      → (waiting after : Element tuples requests) × (named_queue_read_handler tuples requests regex
            space r
          ≡ returned waiting (enf r) incomplete)
        × (named_queue_write_handler tuples requests regex self waiting w
            ≡ returned after (handed_over r name (put_of w name)) success)
        × (tuples.items after.named_queue ≡ tuples.items space.named_queue)
        × (requests.items after.named_queue_requests ≡ requests.items space.named_queue_requests)
  unfolding request_of
  get_blocking-put ra rn rl wa wn wl m pending stored =
      let b = request_of r (some name) in
      let t = put_of w name in
      let bs = requests.items space.named_queue_requests in
      let sent = more true (word ts_ack) ∷ last true (text name) ∷ shared t.contents t.len ∷ [] in
      let waiting = record space {
        named_queue_requests = requests.add_end space.named_queue_requests b;
      } in
      let (p, i, e) =
        consumed tuples requests regex self waiting t bs (more b.local (route b.clientid) ∷ sent) (
          ap (scan regex t true) (requests.items-add_end space.named_queue_requests b)
          ∙ scan-one regex t bs b sent pending (waiting_same ra) (waiting_consumes ra)
              (answer_waiting ra rl)) in
      let after = record waiting { named_queue_requests = p } in
      (
        waiting,
        after,
        read_handler-local tuples requests regex self space w r name space rn rl
            ∙ not_found-get tuples requests regex self space r name ra stored,
        write_put tuples requests regex self space w r name waiting after (handed_over r name t) wa
            wn wl (put_consumed waiting after (handed_over r name t) m e),
        refl,
        i,
      )
