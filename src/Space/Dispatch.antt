-- ===== src/Space/Dispatch.antt =====
-- handler and token_handler of src/tsd/tsd.c, over the table of the spaces.
pub mod Refusals
pub mod Names
pub mod Frames
pub mod Later
pub mod Closing
pub mod Tokens
use synergy_wrapper.Base.{
  ℕ, zero, suc, ◌+◌, ◌-◌, ◌≡◌, ◌≢◌, List, [], ◌∷◌, ◌++◌, Bool, true, false, not, ◌||◌, ◌&&◌, Option,
  none, some, Bytes, length, take, get_or, if◌then◌else◌, ◌==◌, ltb,
}
use synergy_wrapper.Ring.Node.{Token, route, word}
use synergy_wrapper.Space.Types.{
  Tuple, BlockingRequest, Command, none_, get, put, add, read, pop, peek, connect, term, enf, ack,
  anon, bcast_write, bcast_read, get_blocking, read_blocking, bcast_read_blocking, pop_blocking,
  peek_blocking, expect, deposit, transmit, request, migrate, replicate, is_command,
}
use synergy_wrapper.Space.Zlistx.{Zlistx}
use synergy_wrapper.Space.Element.{
  Daemon, Element, Output, more, last, Code, success, serious, Result, returned, aborted,
  unfinished, Args, ts_enf,
}
use synergy_wrapper.Space.Store.{named_queue_write_handler}
use synergy_wrapper.Space.Named.{
  named_queue_read_handler, named_queue_fetch_handler, bcast_queue_read_handler,
}
use synergy_wrapper.Space.Connect.{
  ts_connect_handler, ts_term_send_decomission_signal, ts_term_clear_requests, connect_token_next,
  term_token_next,
}
use synergy_wrapper.Space.Peers.{
  Calls, Space, c_string, bcast_queue_write_handler, tsd_as_client, tsd_accept_transmit,
  tsd_add_expect, match_token_next,
}

-- The table of libchash that src/tsd/tsd.c looks names up in: HashFind, and a write through the
-- pointer that it gives.
pub record SpaceTable (S : Type 0) : Type 1 where
  pub Table : Type 0
  pub hash_find : Table → Bytes → Option S
  pub write : Table → Bytes → S → Table
  pub hash_find-write_same : (t : Table) (n : Bytes) (s : S) → hash_find (write t n s) n ≡ some s
  pub hash_find-write_other :
      (t : Table) (n m : Bytes) (s : S) → n ≢ m → hash_find (write t n s) m ≡ hash_find t m

-- The commands in the order of their numbers.
abbrev commands : List Command
commands =
    none_ ∷ get ∷ put ∷ add ∷ read ∷ pop ∷ peek ∷ connect ∷ term ∷ enf ∷ ack ∷ anon ∷ bcast_write
    ∷ bcast_read ∷ get_blocking ∷ read_blocking ∷ bcast_read_blocking ∷ pop_blocking ∷ peek_blocking
    ∷ expect ∷ deposit ∷ transmit ∷ request ∷ Command.take ∷ migrate ∷ replicate ∷ []

-- A number of no command is dispatched as TsNone.
unfoldable pub command_of : ℕ → Command
command_of n = get_or commands n none_

-- A message to handler: what its receives yield, `none` for a failure, and what those of the dispatched
-- function yield.
pub record Request : Type 0 where
  pub is_local : Bool
  pub recv_clientid : Option Bytes
  pub recv_buf_len : Option ℕ
  pub recv_namespace : Option Bytes
  pub recv_action : Option ℕ
  pub args : Args
  pub calls : Calls

-- What handler does: the table it leaves, what it sends, and its value, `none` where a_rt is never set. `broken`
-- is a read of NULL or past a buffer, or a failed assertion, `endless` a loop that still runs.
pub data Handled (T : Type 0) : Type 0 where
  handled : T → List Output → Option Code → Handled T
  broken endless : Handled T

-- the label handle_second_error
unfoldable pub refuse : {T : Type 0} → Bool → Bytes → T → Handled T
refuse is_local clientid table =
    handled table (more is_local (route clientid) ∷ last is_local (word ts_enf) ∷ [])
      (some Code.dilemma)

-- clientid_buffer up to its first zero; `none` where its 50 bytes hold none, and strlen reads on behind them
unfoldable pub clientid_of : Bytes → Option Bytes
clientid_of received =
    let s = c_string (take 50 received) in if ltb (length s) 50 then some s else none

-- namespace_buffer after its last byte is set to zero
unfoldable pub namespace_of : ℕ → Bytes → Bytes
namespace_of buf_len received = c_string (take (buf_len - 1) (take 50 received))

module _ (tuples : Zlistx Tuple) (requests : Zlistx BlockingRequest) (patterns : Zlistx Bytes)
    (regex : Bytes → Bytes → Bool) (strtoul : Bytes → ℕ) where
  -- a result of one of the functions that the switch calls, for the whole space
  unfoldable pub of_space :
      Space tuples requests patterns regex strtoul
      → Result (Element tuples requests)
      → Handled (Space tuples requests patterns regex strtoul)
  of_space space (returned e out c) = handled (record space { element = e }) out (some c)
  of_space space aborted = broken
  of_space space unfinished = endless

  -- the case TsTerm, behind ts_term_send_decomission_signal
  unfoldable pub clear_space :
      ℕ → Element tuples requests × List Output → Result (Element tuples requests)
  clear_space fuel (closing, sent) = elim (ts_term_clear_requests tuples requests fuel closing) [
    | returned e out c ↦ returned (record e { is_activated = false }) (sent ++ out) c
    | aborted ↦ aborted
    | unfinished ↦ unfinished
  ]

  -- the case TsTerm
  unfoldable pub terminate : Daemon → ℕ → Element tuples requests → Result (Element tuples requests)
  terminate self fuel space =
      clear_space fuel (ts_term_send_decomission_signal tuples requests self space)

  -- the value of a case that sets none is dropped
  unfoldable pub unset : {T : Type 0} → Handled T → Handled T
  unset (handled t out c) = handled t out none
  unset broken = broken
  unset endless = endless

  -- the switch of handler
  unfoldable pub switch :
      Daemon
      → ℕ
      → Space tuples requests patterns regex strtoul
      → Args
      → Calls
      → Handled (Space tuples requests patterns regex strtoul)
  switch self fuel space args calls =
      let of_element = of_space space in
      elim args.action [
        | none_ ↦ handled space [] (some serious)
        | enf ↦ handled space [] (some serious)
        | ack ↦ handled space [] (some serious)
        | anon ↦ handled space [] (some serious)
        | expect ↦ elim (tsd_add_expect tuples requests patterns regex strtoul space calls) [
          | none ↦ broken
          | some s ↦ handled s [] none
        ]
        | get_blocking ↦
            of_element (named_queue_read_handler tuples requests regex space.element args)
        | read_blocking ↦
            of_element (named_queue_read_handler tuples requests regex space.element args)
        | read ↦ of_element (named_queue_read_handler tuples requests regex space.element args)
        | get ↦ of_element (named_queue_read_handler tuples requests regex space.element args)
        | peek ↦ of_element (named_queue_fetch_handler tuples requests space.element args)
        | pop ↦ of_element (named_queue_fetch_handler tuples requests space.element args)
        | pop_blocking ↦ of_element (named_queue_fetch_handler tuples requests space.element args)
        | peek_blocking ↦ of_element (named_queue_fetch_handler tuples requests space.element args)
        | put ↦ of_element (named_queue_write_handler tuples requests regex self space.element args)
        | add ↦ of_element (named_queue_write_handler tuples requests regex self space.element args)
        | connect ↦ of_element (ts_connect_handler tuples requests self space.element args)
        | bcast_write ↦ of_element (bcast_queue_write_handler space.element args)
        | bcast_read ↦
            of_element (bcast_queue_read_handler tuples requests regex space.element args)
        | bcast_read_blocking ↦
            of_element (bcast_queue_read_handler tuples requests regex space.element args)
        | term ↦ unset (of_element (terminate self fuel space.element))
        | deposit ↦ handled space [] none
        | transmit ↦ of_element (
            tsd_accept_transmit tuples requests patterns regex strtoul self space.element args
              calls)
        | request ↦
            of_element
              (tsd_as_client tuples requests patterns regex strtoul space.element args calls)
        | Command.take ↦
            of_element
              (tsd_as_client tuples requests patterns regex strtoul space.element args calls)
        | migrate ↦ handled space [] none
        | replicate ↦ handled space [] none
      ]

  module _ (table : SpaceTable (Space tuples requests patterns regex strtoul)) where
    unfoldable pub stored :
        table.Table
        → Bytes
        → Handled (Space tuples requests patterns regex strtoul)
        → Handled table.Table
    stored spaces name (handled s out c) = handled (table.write spaces name s) out c
    stored spaces name broken = broken
    stored spaces name endless = endless

    -- handler behind the receive of the action
    unfoldable pub act :
        Daemon
        → ℕ
        → table.Table
        → Request
        → Bytes
        → Bytes
        → Space tuples requests patterns regex strtoul
        → ℕ
        → Handled table.Table
    act self fuel spaces req clientid name space action =
        if not (is_command (command_of action) connect) && not space.element.is_activated
        then refuse req.is_local clientid spaces
        else stored spaces name (
            switch self fuel space
              (record req.args {
                is_local = req.is_local;
                clientid_buffer = clientid;
                action = command_of action;
              })
              req.calls)

    -- handler
    unfoldable pub handler : Daemon → ℕ → table.Table → Request → Handled table.Table
    handler self fuel spaces req = elim req.recv_clientid [
      | none ↦ handled spaces [] (some Code.dilemma)
      | some received ↦ elim (clientid_of received) [
        | none ↦ broken
        | some clientid ↦ elim req.recv_buf_len [
          | none ↦ refuse req.is_local clientid spaces
          | some buf_len ↦
              if buf_len == 0 || ltb 50 buf_len
              then refuse req.is_local clientid spaces
              else elim req.recv_namespace [
                | none ↦ refuse req.is_local clientid spaces
                | some namespace ↦
                    let name = namespace_of buf_len namespace in
                    elim (table.hash_find spaces name) [
                      | none ↦ refuse req.is_local clientid spaces
                      | some space ↦ elim req.recv_action [
                        | none ↦ refuse req.is_local clientid spaces
                        | some action ↦ act self fuel spaces req clientid name space action
                      ]
                    ]
              ]
        ]
      ]
    ]

    unfoldable pub element_of :
        Option (Space tuples requests patterns regex strtoul) → Option (Element tuples requests)
    element_of none = none
    element_of (some s) = some s.element

    -- a token's handler gives the space back as it got it, or none
    unfoldable pub stored_element :
        table.Table
        → Bytes
        → Option (Space tuples requests patterns regex strtoul)
        → Result (Option (Element tuples requests))
        → Handled table.Table
    stored_element spaces name none (returned e out c) = handled spaces out (some c)
    stored_element spaces name (some s) (returned none out c) = handled spaces out (some c)
    stored_element spaces name (some s) (returned (some e) out c) =
        handled (table.write spaces name (record s { element = e })) out (some c)
    stored_element spaces name s aborted = broken
    stored_element spaces name s unfinished = endless

    -- token_handler, with whether zmq_connect succeeds; the assertion of deposit_token_next asks for the
    -- id 2, and search_token_next does nothing
    unfoldable pub token_handler : Daemon → ℕ → table.Table → Bool → Token → Handled table.Table
    unfolding stored_element element_of
    token_handler self fuel spaces is_connected token =
        let name = c_string token.buf1 in
        let found_space = table.hash_find spaces name in
        if token.id == 0
        then stored_element spaces name found_space
            (connect_token_next tuples requests fuel (element_of found_space) token)
        else if token.id == 1
        then stored_element spaces name found_space
            (term_token_next tuples requests (element_of found_space) token)
        else if token.id == 2
        then elim (match_token_next tuples requests patterns regex strtoul self
            (table.hash_find spaces) is_connected token) [
              | none ↦ broken
              | some out ↦ handled spaces out (some success)
            ]
        else if token.id == 3
        then broken
        else handled spaces [] (some success)
