-- ===== src/Ring/Loop/Successor.antt =====
-- _successor_socket_handler of src/p2pmd/p2pmd_server.c.
use synergy_wrapper.Base.{
  ℕ, ◌+◌, List, [], ◌∷◌, Bool, false, Option, none, some, if◌then◌else◌, leb, ltb, ◌==◌, ◌&&◌, ◌||◌,
  not, ◌++◌, get_or, set,
}
use synergy_wrapper.Ring.Types.{
  Bytes, member, no_xpv, trigger_stabilize, ping_and_stabilize_req, ping_and_stabilize_req1,
  ping_and_stabilize_req2, stabilize_failure, stabilize_ack, replicate_backwards,
  stabilize_find_head, Status, is_action, NodeInfo,
}
use synergy_wrapper.Ring.NodeInfo.{condense, copy_successor_list}
use synergy_wrapper.Ring.Node.{
  Node, Effect, more, last, connect, disconnect, successor_socket, word, dword, text, raw,
}
use synergy_wrapper.Ring.Reqtype
use synergy_wrapper.Ring.Reptype

-- What the calls on the successor's socket yield in one pass: whether it polls readable, the receives of the
-- loop that waits for a number (`none` is a failure), the attempts of the loop that filters out PONG_REP, then `r` and the list.
pub record SuccessorInput : Type 0 where
  pub readable : Bool
  pub receives : List (Option ℕ)
  pub attempts : List (Option ℕ)
  pub r : Option ℕ
  pub slots : Option (List Bytes)

abbrev ping : Effect
ping = last successor_socket (word Reqtype.ping_req)

-- `while (p2pm_recv_uint32(…, &s_recv, ZMQ_NOBLOCK) != P2PM_OP_SUCCESS);`, where `none` says that the
-- loop still runs when the receives end
unfoldable pub first_received : List (Option ℕ) → Option ℕ
first_received [] = none
first_received (none ∷ rest) = first_received rest
first_received (some v ∷ rest) = some v

-- `while (s_recv == P2PM_PONG_REP) p2pm_recv_uint32(…)`; a failed receive keeps `s_recv`, and
-- `none` says that the loop still runs when the attempts end
unfoldable pub filter_pongs : ℕ → List (Option ℕ) → Option ℕ
filter_pongs s_recv [] = if s_recv == Reptype.pong_rep then none else some s_recv
filter_pongs s_recv (none ∷ rest) =
    let again = filter_pongs s_recv rest in
    if s_recv == Reptype.pong_rep then again else some s_recv
filter_pongs s_recv (some v ∷ rest) =
    let again = filter_pongs v rest in if s_recv == Reptype.pong_rep then again else some s_recv

-- the label handle_recv_failure_in_ack
unfoldable pub ack_failed : Node → Node × List Effect
ack_failed self = (
  record self { successor_socket_expected_actions = stabilize_failure },
  last successor_socket (word Reqtype.stabilize_nsyn_req) ∷ [],
)

-- the case P2PM_XPV_STABILIZE_ACK behind the filter
unfoldable pub receive_ack : Node → ℕ → Option ℕ → Option (List Bytes) → Node × List Effect
receive_ack self s_recv r slots =
    if not (s_recv == Reptype.stabilize_ack) then ack_failed self else elim r [
      | none ↦ ack_failed self
      | some r ↦
          if ltb r 1 || ltb self.r_max r
          then ack_failed self
          else let self' = record self { node_list = record (self.node_list) { r = r } } in
            elim slots [
              | none ↦ ack_failed self'
              | some temp ↦ (
                record self' {
                  node_list = (copy_successor_list self'.node_list temp r).0;
                  server_triggered_actions = replicate_backwards;
                  successor_socket_expected_actions = no_xpv;
                  current_status = member;
                },
                last successor_socket (word Reqtype.stabilize_syn_req) ∷ [],
              )
            ]
    ]

-- the switch behind a readable socket and its first number; `none` is a pass that is still in the filter
unfoldable pub successor_switch : Node → SuccessorInput → ℕ → Option (Node × List Effect)
successor_switch self i first =
    if is_action self.successor_socket_expected_actions ping_and_stabilize_req
      || is_action self.successor_socket_expected_actions ping_and_stabilize_req1
      || is_action self.successor_socket_expected_actions ping_and_stabilize_req2
    then some (
        if first == Reptype.pong_rep
        then (
          record self { successor_socket_expected_actions = stabilize_ack },
          more successor_socket (word Reqtype.stabilize_req)
              ∷ last successor_socket (text self.endpoint)
              ∷ [],
        )
        else (record self { successor_socket_expected_actions = stabilize_failure }, ping ∷ []))
    else if is_action self.successor_socket_expected_actions stabilize_ack
    then elim (filter_pongs first i.attempts) [
      | none ↦ none
      | some s_recv ↦ some (receive_ack self s_recv i.r i.slots)
    ]
    else some (self, [])

-- the branch of a readable socket
unfoldable pub successor_readable : Node → SuccessorInput → Option (Node × List Effect)
unfolding first_received successor_switch
successor_readable self i = elim (first_received i.receives) [
  | none ↦ none
  | some first ↦ successor_switch self i first
]

-- the list of a node whose successor has failed: slot 1 moves to slot 0, and the list is condensed
unfoldable pub next_successor : NodeInfo → NodeInfo
next_successor n =
    let c =
      condense
        (record n { successor_list = set n.successor_list 0 (get_or n.successor_list 1 []) }) in
    record c { successor = get_or c.successor_list 0 [] }

-- the cases P2PM_XPV_PING_AND_STABILIZE_REQ2 and P2PM_XPV_STABILIZE_FAILURE of a timeout
unfoldable pub fail_over : Node → Node × List Effect
fail_over self = elim (get_or self.successor_list 1 []) [
  | c ∷ s ↦
      let n = next_successor self.node_list in
      (
        record self { node_list = n; successor_socket_expected_actions = ping_and_stabilize_req },
        disconnect successor_socket self.successor ∷ connect successor_socket n.successor ∷ [],
      )
  | [] ↦ (
    record self {
      server_triggered_actions = stabilize_find_head;
      current_status = Status.finding_head;
      successor_socket_expected_actions = no_xpv;
    },
    [],
  )
]

-- the switch behind a timeout; the first case falls through to the second
unfoldable pub successor_timeout : Node → Node × List Effect
successor_timeout self =
    if is_action self.successor_socket_expected_actions ping_and_stabilize_req
    then (
      record self { successor_socket_expected_actions = ping_and_stabilize_req2 },
      ping ∷ ping ∷ [],
    )
    else if is_action self.successor_socket_expected_actions ping_and_stabilize_req1
    then (record self { successor_socket_expected_actions = ping_and_stabilize_req2 }, ping ∷ [])
    else if is_action self.successor_socket_expected_actions ping_and_stabilize_req2
        || is_action self.successor_socket_expected_actions stabilize_failure
    then fail_over self
    else (self, [])

-- the branch for a stabilization that the server triggered
unfoldable pub start_stabilize : Node → ℕ → Node × List Effect
start_stabilize self now = (
  record self {
    last_stabilize_time = now;
    successor_lastpoll_time = now;
    successor_socket_expected_actions = ping_and_stabilize_req;
    server_triggered_actions = no_xpv;
  },
  ping ∷ [],
)

-- the four branches of the handler in front of the token; the clock is read once
unfoldable pub successor_event : Node → SuccessorInput → ℕ → Option (Node × List Effect)
successor_event self i now =
    let polled = record self { successor_lastpoll_time = now } in
    if i.readable
    then successor_readable polled i
    else if leb (self.successor_lastpoll_time + self.wait) now
          && not (is_action self.successor_socket_expected_actions no_xpv)
        || is_action self.successor_socket_expected_actions stabilize_failure
    then some (successor_timeout polled)
    else if is_action self.server_triggered_actions trigger_stabilize
    then some (start_stabilize self now)
    else if leb (self.successor_lastpoll_time + self.wait) now
    then some (polled, [])
    else some (self, [])

-- the token at the end of the handler, in the order that _TOKEN_handler receives it
unfoldable pub forward_token : Node → ℕ → Node × List Effect
forward_token self now =
    if self.send_has_token
    then (
      record self {
        successor_lastpoll_time = now;
        send_has_token = false;
        send_token = record (self.send_token) { id = 0; ttl = 0 };
      },
      more successor_socket (word Reqtype.token)
          ∷ more successor_socket (word self.send_token.id)
          ∷ more successor_socket (word self.send_token.ttl)
          ∷ more successor_socket (dword self.send_token.len1)
          ∷ more successor_socket (dword self.send_token.len2)
          ∷ more successor_socket (raw self.send_token.buf1)
          ∷ last successor_socket (raw self.send_token.buf2)
          ∷ [],
    )
    else (self, [])

-- _successor_socket_handler
unfoldable pub successor_socket_handler : Node → SuccessorInput → ℕ → Option (Node × List Effect)
successor_socket_handler self i now = elim (successor_event self i now) [
  | none ↦ none
  | some (self', done) ↦ let (self'', sent) = forward_token self' now in some (self'', done ++ sent)
]
