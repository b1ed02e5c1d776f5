-- ===== src/Space/Named.antt =====
-- named_queue_read_handler, named_queue_fetch_handler and bcast_queue_read_handler of src/tsd/tsd.c.
pub mod Reads
pub mod Fetches
use synergy_wrapper.Base.{
  ℕ, List, [], ◌∷◌, ◌++◌, Bool, true, false, not, ◌||◌, ◌&&◌, Option, none, some, Bytes,
  if◌then◌else◌, ◌==◌, arith,
}
use synergy_wrapper.Ring.Node.{route, word}
use synergy_wrapper.Space.Types.{
  Tuple, BlockingRequest, Command, is_command, get_blocking, read_blocking, pop_blocking,
  peek_blocking, bcast_read_blocking, get, pop,
}
use synergy_wrapper.Space.Compare.{Order, same, below, above, crash, tplcmp, search_tuple}
use synergy_wrapper.Space.Zlistx.{Zlistx, Search, missing, crashed, found}
use synergy_wrapper.Space.Element.{
  Element, Output, more, last, success, dilemma, incomplete, Result, returned, aborted, unfinished,
  Args, ts_enf,
}
use synergy_wrapper.Space.Matching.{read_response, fetch_response, bcast_response}

-- the request that a handler leaves in a queue
unfoldable pub request_of : Args → Option Bytes → BlockingRequest
request_of args name = record {
  name = name;
  clientid = args.clientid_buffer;
  command = args.action;
  extra = 0;
  local = args.is_local;
}

-- the first part of an answer
abbrev pub reply_header : Args → Output
reply_header args = more args.is_local (route args.clientid_buffer)

abbrev pub enf : Args → List Output
enf args = reply_header args ∷ last args.is_local (word ts_enf) ∷ []

-- TsGet or TsGet_Blocking
abbrev pub is_get : Args → Bool
is_get args = is_command args.action get || is_command args.action get_blocking

-- TsPop or TsPop_Blocking
abbrev pub is_pop : Args → Bool
is_pop args = is_command args.action pop || is_command args.action pop_blocking

module _ (tuples : Zlistx Tuple) (requests : Zlistx BlockingRequest) where
  -- the label tpl_nf
  unfoldable pub not_found :
      Element tuples requests → Args → Bytes → Result (Element tuples requests)
  unfolding request_of
  not_found space args name =
      let left = requests.add_end space.named_queue_requests (request_of args (some name)) in
      if is_command args.action read_blocking || is_command args.action get_blocking
      then returned (record space { named_queue_requests = left }) (enf args) incomplete
      else returned space (enf args) incomplete

  -- a tuple that was found, behind the assertion
  unfoldable pub answer_read :
      Element tuples requests → Args → Tuple → Order → Result (Element tuples requests)
  unfolding read_response
  answer_read space args t same = elim (read_response args.is_local t) [
    | none ↦ aborted
    | some out ↦ returned space (reply_header args ∷ out) success
  ]
  answer_read space args t below = aborted
  answer_read space args t above = aborted
  answer_read space args t crash = aborted

  -- named_queue_fetch_handler on an empty queue
  unfoldable pub fetch_empty : Element tuples requests → Args → Result (Element tuples requests)
  unfolding request_of
  fetch_empty space args =
      let left = requests.add_end space.named_queue_requests (request_of args none) in
      if is_command args.action pop_blocking || is_command args.action peek_blocking
      then returned (record space { named_queue_requests = left }) (enf args) incomplete
      else returned space (enf args) incomplete

  -- named_queue_fetch_handler; the answer to a NULL item goes to the local socket
  unfoldable pub named_queue_fetch_handler :
      Element tuples requests → Args → Result (Element tuples requests)
  unfolding fetch_empty fetch_response
  named_queue_fetch_handler space args =
      let popped = record space { named_queue = tuples.detach space.named_queue 0 } in
      let left = requests.add_end space.named_queue_requests (request_of args none) in
      let out = reply_header args ∷ last true (word ts_enf) ∷ [] in
      let after = if is_pop args then popped else space in
      if tuples.size space.named_queue == 0
      then fetch_empty space args
      else elim (tuples.item space.named_queue 0) [
        | none ↦
            if is_command args.action pop_blocking || is_command args.action peek_blocking
            then returned (record after { named_queue_requests = left }) out incomplete
            else returned after out incomplete
        | some t ↦ elim (fetch_response args.is_local t) [
          | none ↦ aborted
          | some sent ↦ returned after (reply_header args ∷ sent) success
        ]
      ]

  module _ (regex : Bytes → Bytes → Bool) where
    -- named_queue_read_handler behind the check of the space
    unfoldable pub read_named :
        Element tuples requests → Args → Bytes → Result (Element tuples requests)
    unfolding search_tuple not_found answer_read
    read_named space args name =
        elim (tuples.find (tplcmp regex) space.named_queue (search_tuple name)) [
          | missing ↦ not_found space args name
          | crashed ↦ aborted
          | found i ↦
              let after =
                if is_get args
                then record space { named_queue = tuples.detach space.named_queue i }
                else space in
              elim (tuples.item space.named_queue i) [
                | none ↦ not_found after args name
                | some t ↦ answer_read after args t (tplcmp regex (search_tuple name) t)
              ]
        ]

    -- named_queue_read_handler
    unfoldable pub named_queue_read_handler :
        Element tuples requests → Args → Result (Element tuples requests)
    unfolding read_named
    named_queue_read_handler space args = elim args.recv_name [
      | none ↦ returned space [] dilemma
      | some name ↦
          if not args.is_local && not space.is_activated
          then returned space (enf args) dilemma
          else read_named space args name
    ]

    -- the part of bcast_queue_read_handler behind the check of the space
    unfoldable pub read_bcast :
        Element tuples requests → Args → Bytes → Option Tuple → Result (Element tuples requests)
    unfolding request_of bcast_response
    read_bcast space args name none =
        let left = requests.add_end space.bcast_queue_requests (request_of args (some name)) in
        if is_command args.action bcast_read_blocking
        then returned (record space { bcast_queue_requests = left }) (enf args) dilemma
        else returned space (enf args) dilemma
    read_bcast space args name (some t) = elim (bcast_response args.is_local t) [
      | none ↦ aborted
      | some out ↦ returned space (reply_header args ∷ out) success
    ]

    -- bcast_queue_read_handler; a handle that is NULL has the item NULL
    unfoldable pub bcast_queue_read_handler :
        Element tuples requests → Args → Result (Element tuples requests)
    unfolding search_tuple read_bcast
    bcast_queue_read_handler space args = elim args.recv_name [
      | none ↦ returned space (enf args) dilemma
      | some name ↦
          if space.is_activated
          then elim (tuples.find (tplcmp regex) space.bcast_queue (search_tuple name)) [
            | missing ↦ read_bcast space args name none
            | crashed ↦ aborted
            | found i ↦ read_bcast space args name (tuples.item space.bcast_queue i)
          ]
          else returned space (enf args) dilemma
    ]
