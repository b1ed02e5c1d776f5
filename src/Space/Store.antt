-- ===== src/Space/Store.antt =====
-- match_blocking_requests, named_queue_write_handler and tsd_accept_transmit of src/tsd/tsd.c.

use synergy_wrapper.Base.{
  suc, ◌+◌, ◌-◌, List, [], ◌∷◌, ◌++◌, Bool, true, ◌||◌, Option, none, some, Bytes, length,
  if◌then◌else◌, ◌==◌,
}
use synergy_wrapper.Space.Types.{
  Tuple, BlockingRequest, Command, is_command, is_mode, mode_p2p, put, add, bcast_write,
}
use synergy_wrapper.Space.Zlistx.{Zlistx}
use synergy_wrapper.Space.Element.{
  Daemon, Element, Output, pass, success, dilemma, serious, Result, returned, aborted, unfinished,
  Args, bytes_or_none, named_token_str, anon_token_str, unlimited,
}
use synergy_wrapper.Space.Matching.{ended, crash_in_loop, no_end, match_loop}

-- the call of _generate_anon_tuple_token_str or of _generate_named_tuple_token_str, their assertions too
unfoldable pub token_name : Daemon → Bytes → Tuple → Command → Option Bytes
unfolding named_token_str anon_token_str
token_name self space t action =
    if is_command action add
    then if t.anon_id == 0 then none else some (anon_token_str self space t.anon_id)
    else elim t.name [ none ↦ none | some name ↦ some (named_token_str self space name) ]

module _ (tuples : Zlistx Tuple) (requests : Zlistx BlockingRequest) where
  -- a tuple at the end of the queue, for match_blocking_requests with need_append
  unfoldable pub append_tuple : Element tuples requests → Tuple → Command → Element tuples requests
  append_tuple space t action =
      if is_command action bcast_write
      then record space { bcast_queue = tuples.add_end space.bcast_queue t }
      else record space { named_queue = tuples.add_end space.named_queue t }

  -- the branch `need_append`, with the token of a P2P space; its len2 is set twice, its len1 never
  unfoldable pub store_tuple :
      Daemon
      → Element tuples requests
      → Tuple
      → Command
      → List Output
      → Result (Element tuples requests)
  unfolding append_tuple
  store_tuple self space t action out =
      if is_mode space.ts_mode mode_p2p
      then elim (token_name self space.space_name t action) [
        | none ↦ aborted
        | some name ↦
            returned (append_tuple space t action)
              (out
                ++ (pass (record {
                  id = 3;
                  ttl = self.replication_factor;
                  len1 = 0;
                  len2 = length self.endpoint + 1;
                  buf1 = name;
                  buf2 = self.endpoint;
                })
                    ∷ []))
              success
      ]
      else returned (append_tuple space t action) out success

  -- the queue of requests that match_blocking_requests works on
  abbrev pub op_queue : Element tuples requests → Command → requests.Queue
  op_queue space action =
      if is_command action bcast_write
      then space.bcast_queue_requests
      else space.named_queue_requests

  abbrev pub set_op_queue :
      Element tuples requests → Command → requests.Queue → Element tuples requests
  set_op_queue space action q =
      if is_command action bcast_write
      then record space { bcast_queue_requests = q }
      else record space { named_queue_requests = q }

  module _ (regex : Bytes → Bytes → Bool) where
    -- match_blocking_requests
    unfoldable pub match_blocking_requests :
        Daemon → Element tuples requests → Tuple → Command → Result (Element tuples requests)
    match_blocking_requests self space t action =
        if is_command action put || is_command action add || is_command action bcast_write
        then elim (match_loop regex requests (suc (requests.size (op_queue space action))) t true
            (op_queue space action)) [
              | ended q need out serious ↦ returned (set_op_queue space action q) out serious
              | ended q true out success ↦
                  store_tuple self (set_op_queue space action q) t action out
              | ended q need out c ↦ returned (set_op_queue space action q) out c
              | crash_in_loop ↦ aborted
              | no_end ↦ unfinished
            ]
        else returned space [] dilemma

    -- the case TsPut of named_queue_write_handler behind its receives; the result of the match is dropped
    unfoldable pub put_tuple :
        Daemon → Element tuples requests → Tuple → Result (Element tuples requests)
    put_tuple self space t =
        if is_mode space.ts_mode mode_p2p
        then elim (token_name self space.space_name t put) [
          | none ↦ aborted
          | some name ↦
              returned (record space { named_queue = tuples.add_end space.named_queue t })
                (pass (record {
                  id = 2;
                  ttl = unlimited;
                  len1 = length name;
                  len2 = length self.endpoint + 1;
                  buf1 = name;
                  buf2 = self.endpoint;
                })
                  ∷ [])
                success
        ]
        else elim (match_blocking_requests self space t put) [
          | returned s out c ↦ returned s out success
          | aborted ↦ aborted
          | unfinished ↦ unfinished
        ]

    -- the case TsAdd of named_queue_write_handler behind its receives, for a remote client; the length of
    -- buf2 is that of its tail. In a P2P space the source returns the count of the bytes received, here success.
    unfoldable pub add_remote :
        Daemon → Element tuples requests → Tuple → Result (Element tuples requests)
    add_remote self space t =
        if is_mode space.ts_mode mode_p2p
        then elim (token_name self space.space_name t add) [
          | none ↦ aborted
          | some name ↦
              returned space
                (pass (record {
                  id = 2;
                  ttl = unlimited;
                  len1 = length name;
                  len2 = length self.endpoint - 1;
                  buf1 = name;
                  buf2 = self.endpoint;
                })
                  ∷ [])
                success
        ]
        else match_blocking_requests self space t add

    -- named_queue_write_handler
    unfoldable pub named_queue_write_handler :
        Daemon → Element tuples requests → Args → Result (Element tuples requests)
    named_queue_write_handler self space args =
        if is_command args.action put
        then elim args.recv_name [
          | none ↦ returned space [] dilemma
          | some name ↦
              if args.is_local
              then put_tuple self space (record {
                name = some name;
                anon_id = 0;
                len = args.recv_item_len;
                contents = bytes_or_none args.recv_item_contents;
              })
              else elim args.recv_len [
                | none ↦ returned space [] dilemma
                | some len ↦
                    if len == 0
                    then returned space [] dilemma
                    else put_tuple self space (record {
                      name = some name;
                      anon_id = 0;
                      len = len;
                      contents = bytes_or_none args.recv_bytes;
                    })
              ]
        ]
        else if is_command args.action add
        then elim args.recv_id [
          | none ↦ returned space [] dilemma
          | some id ↦
              if id == 0
              then returned space [] dilemma
              else if args.is_local
              then elim args.recv_item_contents [
                | none ↦ returned space [] dilemma
                | some bytes ↦
                    if args.recv_item_ok
                    then match_blocking_requests self space
                        (record {
                          name = none;
                          anon_id = id;
                          len = args.recv_item_len;
                          contents = bytes;
                        })
                        add
                    else returned space [] dilemma
              ]
              else elim args.recv_bytes [
                | none ↦ returned space [] dilemma
                | some bytes ↦ add_remote self space (record {
                  name = none;
                  anon_id = id;
                  len = elim args.recv_len [ none ↦ 0 | some len ↦ len ];
                  contents = bytes;
                })
              ]
        ]
        else returned space [] serious
