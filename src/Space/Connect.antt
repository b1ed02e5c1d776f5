-- ===== src/Space/Connect.antt =====
-- Opening and closing a space: ts_connect_handler, ts_connect_send_activate_signal,
-- ts_term_send_decomission_signal, ts_term_clear_requests, connect_token_next and term_token_next of
-- src/tsd/tsd.c, with the clean up of a TsTerm in handler.
pub mod Drain
pub mod Waking
use synergy_wrapper.Base.{
  ℕ, zero, suc, ◌+◌, List, [], ◌∷◌, ◌++◌, Bool, true, false, not, ◌||◌, ◌&&◌, Option, none, some,
  Bytes, length, if◌then◌else◌, ◌==◌, ltb, take, drop, arith,
}
use synergy_wrapper.Ring.Node.{Token, route, word, text}
use synergy_wrapper.Space.Types.{
  Tuple, BlockingRequest, Command, TsMode, mode_master, mode_worker, mode_p2p,
}
use synergy_wrapper.Space.Zlistx.{Zlistx}
use synergy_wrapper.Space.Element.{
  Daemon, Element, Output, more, last, pass, success, dilemma, Result, returned, aborted,
  unfinished, Args, ts_term, unlimited,
}
use synergy_wrapper.Space.Named.{request_of, reply_header}

-- TS_MODE_MASTER, TS_MODE_CLIENT, TS_MODE_BLOCK, TS_MODE_P2P and TS_MODE_ERR
abbrev pub ts_mode_master : ℕ
ts_mode_master = 0

abbrev pub ts_mode_client : ℕ
ts_mode_client = 1

abbrev pub ts_mode_block : ℕ
ts_mode_block = 2

abbrev pub ts_mode_p2p : ℕ
ts_mode_p2p = 3

abbrev pub ts_mode_err : ℕ
ts_mode_err = 4

-- the token that tells the ring of a space: id 0 when it opens, id 1 when it closes
unfoldable pub space_token : Daemon → Bytes → ℕ → Token
space_token self name id = record {
  id = id;
  ttl = unlimited;
  len1 = length name + 1;
  len2 = length self.endpoint + 1;
  buf1 = name;
  buf2 = self.endpoint;
}

-- `ttl > 0 || ttl == -1` for an int, as its 32 bits
unfoldable pub keeps_going : ℕ → Bool
keeps_going ttl = (not (ttl == 0) && ltb ttl 2147483648) || ttl == unlimited

-- the end of a token's handler: it goes on, or it is freed
abbrev pub relay : Token → List Output
relay tk = if keeps_going tk.ttl then pass tk ∷ [] else []

module _ (tuples : Zlistx Tuple) (requests : Zlistx BlockingRequest) where
  -- ts_connect_send_activate_signal
  unfoldable pub ts_connect_send_activate_signal :
      Daemon → Element tuples requests → Element tuples requests × List Output
  unfolding space_token
  ts_connect_send_activate_signal self space =
      if space.is_activated
      then (space, [])
      else (record space { is_activated = true }, pass (space_token self space.space_name 0) ∷ [])

  -- ts_term_send_decomission_signal
  unfoldable pub ts_term_send_decomission_signal :
      Daemon → Element tuples requests → Element tuples requests × List Output
  unfolding space_token
  ts_term_send_decomission_signal self space =
      if space.is_activated
      then (record space { is_activated = false }, pass (space_token self space.space_name 1) ∷ [])
      else (space, [])

  -- ts_connect_handler in a space of the mode TsModeMaster; it returns no value, here success
  unfoldable pub connect_master :
      Daemon → Element tuples requests → Args → Result (Element tuples requests)
  unfolding ts_connect_send_activate_signal
  connect_master self space args =
      let (open_space, sent) = ts_connect_send_activate_signal self space in
      let master = last args.is_local (word ts_mode_master) ∷ [] in
      if args.mode == ts_mode_master
      then returned (record open_space { direct_endpoint = self.endpoint; is_activated = true })
          (reply_header args ∷ sent ++ master) success
      else if args.mode == ts_mode_client
      then returned (record open_space { is_activated = true }) (reply_header args ∷ sent ++ master)
          success
      else returned space (reply_header args ∷ last args.is_local (word ts_mode_err) ∷ []) success

  -- ts_connect_handler in a space of the mode TsModeWorker; a client that waits leaves its mode as `extra`
  unfoldable pub connect_worker : Element tuples requests → Args → Result (Element tuples requests)
  unfolding request_of
  connect_worker space args =
      let left =
        requests.add_end space.connect_requests
          (record (request_of args none) { extra = args.mode }) in
      if not (args.mode == ts_mode_master) && not (args.mode == ts_mode_client)
      then returned space (reply_header args ∷ last args.is_local (word ts_mode_err) ∷ []) dilemma
      else if space.is_activated
      then returned space
          (reply_header args
            ∷ more args.is_local (word ts_mode_client)
            ∷ last args.is_local (text space.direct_endpoint)
            ∷ [])
          success
      else returned (record space { connect_requests = left })
          (reply_header args ∷ last args.is_local (word ts_mode_block) ∷ []) success

  -- ts_connect_handler in a space of the mode TsModeP2P
  unfoldable pub connect_p2p : Element tuples requests → Args → Result (Element tuples requests)
  connect_p2p space args =
      if args.mode == ts_mode_p2p
      then returned space (reply_header args ∷ last args.is_local (word ts_mode_p2p) ∷ []) success
      else returned space (reply_header args ∷ last args.is_local (word ts_mode_err) ∷ []) dilemma

  -- ts_connect_handler
  unfoldable pub ts_connect_handler :
      Daemon → Element tuples requests → Args → Result (Element tuples requests)
  unfolding connect_master connect_worker connect_p2p
  ts_connect_handler self space args =
      let requested = record space { is_requested = true } in
      elim space.ts_mode [
        | mode_master ↦ connect_master self requested args
        | mode_worker ↦ connect_worker requested args
        | mode_p2p ↦ connect_p2p requested args
      ]

  -- the answers to the requests of a queue, front first, until it is empty; `last` is the second part
  unfoldable pub drain : ℕ → (Bool → Output) → requests.Queue → List Output → Result requests.Queue
  drain zero end q out = unfinished
  drain (suc fuel) end q out =
      if requests.size q == 0 then returned q out success else elim (requests.item q 0) [
        | none ↦ aborted
        | some b ↦
            drain fuel end (requests.detach q 0)
              (out ++ (more b.local (route b.clientid) ∷ end b.local ∷ []))
      ]

  -- `while (zlistx_size(q)) tplfree_g(zlistx_detach(p, NULL));` on the queues q and p
  unfoldable pub clear_other : ℕ → tuples.Queue → tuples.Queue → Result tuples.Queue
  clear_other zero q p = unfinished
  clear_other (suc fuel) q p =
      if tuples.size q == 0 then returned p [] success else clear_other fuel q (tuples.detach p 0)

  -- the loop over named_queue, which is the case q = p
  unfoldable pub clear_queue : ℕ → tuples.Queue → Result tuples.Queue
  clear_queue zero q = unfinished
  clear_queue (suc fuel) q =
      if tuples.size q == 0 then returned q [] success else clear_queue fuel (tuples.detach q 0)

  -- ts_term_clear_requests; the last loop asks for the size of bcast_queue and detaches from named_queue
  unfoldable pub ts_term_clear_requests :
      ℕ → Element tuples requests → Result (Element tuples requests)
  unfolding drain clear_other clear_queue
  ts_term_clear_requests fuel space =
      let term = λ (b : Bool). last b (word ts_term) in
      elim (drain fuel term space.named_queue_requests []) [
        | aborted ↦ aborted
        | unfinished ↦ unfinished
        | returned named sent c ↦ elim (drain fuel term space.bcast_queue_requests sent) [
          | aborted ↦ aborted
          | unfinished ↦ unfinished
          | returned bcast out d ↦ elim (clear_queue fuel space.named_queue) [
            | aborted ↦ aborted
            | unfinished ↦ unfinished
            | returned p o e ↦ elim (clear_other fuel space.bcast_queue p) [
              | aborted ↦ aborted
              | unfinished ↦ unfinished
              | returned q o' e' ↦
                  returned
                    (record space {
                      named_queue_requests = named;
                      bcast_queue_requests = bcast;
                      named_queue = q;
                    })
                    out success
            ]
          ]
        ]
      ]

  -- connect_token_next, in the space that its name finds, or in none; buf2 is the token's len2 bytes, at most the
  -- 256 of direct_endpoint
  unfoldable pub connect_token_next :
      ℕ → Option (Element tuples requests) → Token → Result (Option (Element tuples requests))
  unfolding drain keeps_going
  connect_token_next fuel none tk = returned none (relay tk) success
  connect_token_next fuel (some space) tk =
      let opened = record space { is_activated = true; direct_endpoint = tk.buf2 } in
      if space.is_activated
      then returned (some space) [] success
      else if space.is_requested
      then elim (drain fuel (λ b. last b (text tk.buf2)) space.connect_requests []) [
        | aborted ↦ aborted
        | unfinished ↦ unfinished
        | returned q out c ↦
            returned (some (record opened { connect_requests = q })) (out ++ relay tk) success
      ]
      else returned (some opened) (relay tk) success

  -- term_token_next; `a || b && c` binds the && first
  unfoldable pub term_token_next :
      Option (Element tuples requests) → Token → Result (Option (Element tuples requests))
  term_token_next none tk = returned none [] success
  term_token_next (some space) tk =
      returned (some (record space { is_activated = false }))
        (if (not (tk.ttl == 0) && ltb tk.ttl 2147483648)
            || (tk.ttl == unlimited && space.is_activated)
          then pass tk ∷ []
          else [])
        success
