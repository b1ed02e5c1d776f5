-- ===== src/Ring/Loop/Predecessor.antt =====
-- _predecessor_socket_handler of src/p2pmd/p2pmd_server.c.
use synergy_wrapper.Base.{
  ℕ, zero, suc, ◌+◌, List, [], ◌∷◌, Bool, Option, none, some, if◌then◌else◌, ltb, ◌==◌, ◌&&◌, ◌||◌,
  not,
}
use synergy_wrapper.Ring.Types.{
  ExpectedAction, member, no_xpv, replicate_backwards, replicate_backwards_pinged, relay_backwards,
  relay_backwards_pinged, pred_rep_ping1, pred_rep_ping2, pred_rep_ping3, stabilize_find_head,
  stabilize_find_head_pinged, Status, is_action, is_status, success, failure,
}
use synergy_wrapper.Ring.Node.{Node, Effect, more, last, predecessor_socket, word, slots, Outcome}
use synergy_wrapper.Ring.Server.Joins.{form_one_ring, sent_slots}
use synergy_wrapper.Ring.Reqtype
use synergy_wrapper.Ring.Reptype

abbrev ping : Effect
ping = last predecessor_socket (word Reqtype.ping_req)

-- the SYNC_SLIST message
abbrev sync_slist : Node → ℕ → List Effect
sync_slist self ttl =
    more predecessor_socket (word Reqtype.sync_slist)
    ∷ more predecessor_socket (word ttl)
    ∷ more predecessor_socket (word self.r)
    ∷ last predecessor_socket (slots (sent_slots self))
    ∷ []

-- the switch on predecessor_triggered_actions behind a PONG_REP
unfoldable pub ponged : Node → Node × List Effect
ponged self =
    let idle = record self { predecessor_triggered_actions = no_xpv } in
    elim self.predecessor_triggered_actions [
      | ExpectedAction.stabilize_find_head_pinged ↦ (
        record idle {
          predecessor_socket_expected_actions = stabilize_find_head;
          current_status = Status.finding_head;
        },
        last predecessor_socket (word Reqtype.find_head) ∷ [],
      )
      | ExpectedAction.replicate_backwards_pinged ↦ (
        record idle { predecessor_socket_expected_actions = replicate_backwards },
        sync_slist self self.r_max,
      )
      | ExpectedAction.relay_backwards_pinged ↦ (
        record idle {
          server_triggered_actions = no_xpv;
          predecessor_socket_expected_actions = relay_backwards;
        },
        sync_slist self self.last_ttl,
      )
      | _ ↦ (record idle { predecessor_socket_expected_actions = no_xpv }, [])
    ]

-- the cases RELAY_BACKWARDS and REPLICATE_BACKWARDS, which an answer other than PONG_REP falls
-- through to
unfoldable pub acknowledged : Node → Node × List Effect
acknowledged self = (
  record self { predecessor_socket_expected_actions = no_xpv; server_triggered_actions = no_xpv },
  [],
)

-- the switch behind a readable socket
unfoldable pub predecessor_readable : Node → ℕ → Node × List Effect
predecessor_readable self buf = elim self.predecessor_socket_expected_actions [
  | ExpectedAction.pred_rep_ping1 ↦
      if buf == Reptype.pong_rep then ponged self else acknowledged self
  | ExpectedAction.pred_rep_ping2 ↦
      if buf == Reptype.pong_rep then ponged self else acknowledged self
  | ExpectedAction.pred_rep_ping3 ↦
      if buf == Reptype.pong_rep then ponged self else acknowledged self
  | ExpectedAction.relay_backwards ↦ acknowledged self
  | ExpectedAction.replicate_backwards ↦ acknowledged self
  | _ ↦ (self, [])
]

-- the cases PRED_REP_PING3 and PRED_FAILURE of a timeout
unfoldable pub predecessor_failed : Node → Outcome
predecessor_failed self =
    if is_status self.current_status member
    then (
      record self {
        server_triggered_actions = stabilize_find_head;
        predecessor_socket_expected_actions = no_xpv;
      },
      [],
      success,
    )
    else let (alone, formed) = form_one_ring (record self {
      predecessor_socket_expected_actions = no_xpv;
      server_triggered_actions = no_xpv;
      successor_socket_expected_actions = no_xpv;
      predecessor_triggered_actions = no_xpv;
    }) in
      (alone, formed, failure)

-- the branch for what the server triggered: a ping, and the action is remembered
unfoldable pub start_triggered : Node → ℕ → Outcome
start_triggered self now = (
  record self {
    predecessor_triggered_actions = (elim self.server_triggered_actions [
      | ExpectedAction.stabilize_find_head ↦ stabilize_find_head_pinged
      | ExpectedAction.replicate_backwards ↦ replicate_backwards_pinged
      | ExpectedAction.relay_backwards ↦ relay_backwards_pinged
      | _ ↦ self.predecessor_triggered_actions
    ]);
    server_triggered_actions = no_xpv;
    predecessor_socket_expected_actions = pred_rep_ping1;
    predecessor_lastpoll_time = now;
  },
  ping ∷ [],
  success,
)

-- the call of the handler inside the handler, whose result is dropped
unfoldable pub drop_result : Option Outcome → Option Outcome
drop_result none = none
drop_result (some (s, sent, r)) = some (s, sent, success)

-- the switch behind a timeout; `again` is the handler itself
unfoldable pub predecessor_timeout : (Node → Option Outcome) → Node → Option Outcome
unfolding drop_result
predecessor_timeout again self = elim self.predecessor_socket_expected_actions [
  | ExpectedAction.pred_rep_ping1 ↦
      some
        (record self { predecessor_socket_expected_actions = pred_rep_ping2 }, ping ∷ [], success)
  | ExpectedAction.pred_rep_ping2 ↦
      some
        (record self { predecessor_socket_expected_actions = pred_rep_ping3 }, ping ∷ [], success)
  | ExpectedAction.pred_rep_ping3 ↦ some (predecessor_failed self)
  | ExpectedAction.pred_failure ↦ some (predecessor_failed self)
  | ExpectedAction.relay_backwards ↦
      drop_result (again (record self { server_triggered_actions = relay_backwards }))
  | ExpectedAction.replicate_backwards ↦
      drop_result (again (record self { server_triggered_actions = replicate_backwards }))
  | _ ↦ some (self, [], success)
]

-- what the server has triggered for this socket
abbrev pub is_triggered : Node → Bool
is_triggered self =
    is_action self.server_triggered_actions stabilize_find_head
    || is_action self.server_triggered_actions replicate_backwards
    || is_action self.server_triggered_actions relay_backwards

-- One call of _predecessor_socket_handler, whose calls of itself are `again`. `readable` holds what
-- was received if the socket polls readable; `now` is the clock, which a call takes once for its test and its stamp.
unfoldable pub predecessor_pass : (Node → Option Outcome) → Node → Option ℕ → ℕ → Option Outcome
predecessor_pass again self readable now =
    let polled = record self { predecessor_lastpoll_time = now } in
    let late = ltb (self.predecessor_lastpoll_time + self.wait) now in
    let waits = not (is_action self.predecessor_socket_expected_actions no_xpv) in
    elim readable [
      | some buf ↦
          let (self', sent) = predecessor_readable polled buf in some (self', sent, success)
      | none ↦
          if late && waits
          then predecessor_timeout again polled
          else if late
          then some (polled, [], success)
          else if is_triggered self
          then some (start_triggered self now)
          else some (self, [], success)
    ]

-- _predecessor_socket_handler, where `clock n` is what the clock shows in the n-th call, from 0: each call inside a
-- call reads it again. `none` is a call that recurs more often than the fuel.
unfoldable pub predecessor_socket_handler : ℕ → Node → Option ℕ → (ℕ → ℕ) → Option Outcome
predecessor_socket_handler zero self readable clock = none
predecessor_socket_handler (suc fuel) self readable clock =
    predecessor_pass (λ s. predecessor_socket_handler fuel s readable (λ n. clock (suc n))) self
      readable (clock 0)
