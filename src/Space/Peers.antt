-- ===== src/Space/Peers.antt =====
-- What tsd does with and as a remote daemon: tsd_as_client, tsd_accept_transmit, tsd_add_expect,
-- match_token_next and bcast_queue_write_handler of src/tsd/tsd.c.
use synergy_wrapper.Base.{
  ℕ, ◌+◌, List, [], ◌∷◌, ◌++◌, Bool, true, false, not, ◌||◌, ◌&&◌, Option, none, some, Bytes,
  length, get_or, drop, if◌then◌else◌, ◌==◌,
}
use synergy_wrapper.Ring.Node.{Token, word, dword, text, raw}
use synergy_wrapper.Space.Types.{Tuple, BlockingRequest, Command, is_command, bcast_write, put, add}
use synergy_wrapper.Space.Compare.{tplcmp, kcmp}
use synergy_wrapper.Space.Zlistx.{Zlistx, missing, crashed, found}
use synergy_wrapper.Space.Element.{
  Daemon, Element, Output, to_peer, success, dilemma, incomplete, serious, Result, returned,
  aborted, unfinished, Args,
}
use synergy_wrapper.Space.Store.{match_blocking_requests}
use synergy_wrapper.Space.Connect.{relay}

-- The string at the start of a buffer whose bytes behind the listed ones are zero.
unfoldable pub c_string : Bytes → Bytes
c_string [] = []
c_string (c ∷ s) = let rest = c_string s in if c == 0 then [] else c ∷ rest

-- The numbers of TsTransmit and TsRequest.
abbrev pub ts_transmit : ℕ
ts_transmit = 21

abbrev pub ts_request : ℕ
ts_request = 22

-- What the calls of these handlers yield besides those of Args: p2pm_recv_str of the endpoint, of the
-- tuple's identity and of the pattern, and whether zmq_connect succeeds.
pub record Calls : Type 0 where
  pub recv_endpoint : Option Bytes
  pub recv_identity : Option Bytes
  pub recv_pattern : Option Bytes
  pub is_connected : Bool

-- bcast_queue_write_handler. A local client's item is received, or a remote client's, whose bytes zmq_recv
-- writes over the pointer to them; the tuple that is added is then read from the code of recv.
unfoldable pub bcast_queue_write_handler : {S : Type 0} → S → Args → Result S
bcast_queue_write_handler space args = elim args.recv_name [
  | none ↦ returned space [] dilemma
  | some name ↦
      if args.is_local
      then elim args.recv_item_contents [
        | none ↦ returned space [] serious
        | some bytes ↦
            if not args.recv_item_ok || args.recv_item_len == 0
            then returned space [] serious
            else aborted
      ]
      else elim args.recv_len [
        | none ↦ returned space [] incomplete
        | some len ↦
            if len == 0
            then returned space [] incomplete
            else elim args.recv_bytes [ none ↦ returned space [] serious | some bytes ↦ aborted ]
      ]
]

module _ (tuples : Zlistx Tuple) (requests : Zlistx BlockingRequest) (patterns : Zlistx Bytes)
    (regex : Bytes → Bytes → Bool) (strtoul : Bytes → ℕ) where
  -- struct _tsd_element_s with the expectations
  pub record Space : Type 0 where
    pub element : Element tuples requests
    pub expect_queue : patterns.Queue

  -- match_tuple of tsd_as_client
  unfoldable pub identified : Bytes → Tuple
  identified identity =
      let anonymous = get_or identity 0 0 == b'A' in
      record {
        name = if anonymous then none else some (drop 1 identity);
        anon_id = if anonymous then strtoul (drop 1 identity) else 0;
        len = 0;
        contents = [];
      }

  -- the message of tsd_as_client
  unfoldable pub transmission : Bytes → Bytes → Tuple → List Output
  transmission space_name identity t =
      to_peer true (word (length space_name + 1))
      ∷ to_peer true (text space_name)
      ∷ to_peer true (word ts_transmit)
      ∷ to_peer true (text identity)
      ∷ to_peer true (dword t.len)
      ∷ to_peer false (raw t.contents)
      ∷ []

  -- tsd_as_client
  unfoldable pub tsd_as_client :
      Element tuples requests → Args → Calls → Result (Element tuples requests)
  unfolding identified transmission
  tsd_as_client space args calls = elim calls.recv_endpoint [
    | none ↦ returned space [] dilemma
    | some endpoint ↦ elim calls.recv_identity [
      | none ↦ returned space [] dilemma
      | some identity ↦
          let from_bcast = get_or identity 1 0 == b'B' in
          let queue = if from_bcast then space.bcast_queue else space.named_queue in
          if not calls.is_connected
          then returned space [] success
          else elim (tuples.find (tplcmp regex) queue (identified identity)) [
            | missing ↦ returned space [] success
            | crashed ↦ aborted
            | found i ↦ elim (tuples.item queue i) [
              | none ↦ aborted
              | some t ↦
                  returned
                    (if not (is_command args.action Command.take)
                      then space
                      else if from_bcast
                      then record space { bcast_queue = tuples.detach queue i }
                      else record space { named_queue = tuples.detach queue i })
                    (transmission space.space_name identity t) success
            ]
          ]
    ]
  ]

  -- match_blocking_requests with its result dropped
  unfoldable pub accept :
      Daemon → Element tuples requests → Tuple → Command → Result (Element tuples requests)
  accept self space t action =
      elim (match_blocking_requests tuples requests regex self space t action) [
        | returned s out c ↦ returned s out success
        | aborted ↦ aborted
        | unfinished ↦ unfinished
      ]

  -- tsd_accept_transmit behind its receives; a named tuple's identity is read once more after it is freed
  unfoldable pub accept_identity :
      Daemon → Element tuples requests → Bytes → ℕ → Bytes → Result (Element tuples requests)
  unfolding accept
  accept_identity self space identity len bytes =
      if get_or identity 0 0 == b'N'
      then accept self space
          (record { name = some (drop 1 identity); anon_id = 0; len = len; contents = bytes })
          (if self.junk == b'B' then bcast_write else put)
      else if get_or identity 0 0 == b'A'
      then accept self space
          (record { name = none; anon_id = strtoul (drop 1 identity); len = len; contents = bytes })
          add
      else returned space [] dilemma

  -- tsd_accept_transmit
  unfoldable pub tsd_accept_transmit :
      Daemon → Element tuples requests → Args → Calls → Result (Element tuples requests)
  unfolding accept_identity
  tsd_accept_transmit self space args calls =
      if args.is_local then aborted else elim calls.recv_identity [
        | none ↦ returned space [] dilemma
        | some identity ↦ elim args.recv_len [
          | none ↦ returned space [] dilemma
          | some len ↦ if len == 0 then returned space [] dilemma else elim args.recv_bytes [
            | none ↦ returned space [] dilemma
            | some bytes ↦ accept_identity self space identity len bytes
          ]
        ]
      ]

  -- tsd_add_expect; without a pattern an uninitialised pointer is stored
  unfoldable pub tsd_add_expect : Space → Calls → Option Space
  tsd_add_expect space calls = elim calls.recv_pattern [
    | none ↦ none
    | some pattern ↦
        some (record space { expect_queue = patterns.add_end space.expect_queue pattern })
  ]

  -- the request of match_token_next: two messages
  unfoldable pub request_tuple : Daemon → Bytes → Bytes → List Output
  request_tuple self namespace identity =
      to_peer true (word (length namespace))
      ∷ to_peer true (raw namespace)
      ∷ to_peer true (word ts_request)
      ∷ to_peer false (text self.endpoint)
      ∷ to_peer false (text identity)
      ∷ []

  -- match_token_next with the space that HashFind gives for a name, and whether zmq_connect succeeds
  unfoldable pub match_token_next :
      Daemon → (Bytes → Option Space) → Bool → Token → Option (List Output)
  unfolding c_string request_tuple
  match_token_next self hash_find is_connected token =
      let namespace = c_string token.buf1 in
      let identity = drop (length namespace + 1) token.buf1 in
      let who = get_or identity 0 0 in
      let end = relay token in
      if not (token.id == 2)
      then none
      else if not (who == b'N') && not (who == b'A')
      then some end
      else elim (hash_find namespace) [
        | none ↦ some end
        | some space ↦
            elim (patterns.find (kcmp regex) space.expect_queue (c_string (drop 1 identity))) [
              | missing ↦ some end
              | crashed ↦ none
              | found i ↦
                  if is_connected
                  then some (request_tuple self namespace (c_string identity) ++ end)
                  else some end
            ]
      ]
