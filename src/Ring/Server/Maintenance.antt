-- ===== src/Ring/Server/Maintenance.antt =====
-- The handlers of src/p2pmd/p2pmd_server.c that keep a formed ring: pings, stabilization, the
-- successor lists sent backwards, the repair of a broken ring, and tokens.
use synergy_wrapper.Base.{
  ℕ, ◌+◌, ◌-◌, ◌%◌, List, [], ◌∷◌, Bool, true, false, none, some, if◌then◌else◌, ltb, ◌==◌, ◌&&◌,
  ◌||◌, not, ◌++◌, set, replicate,
}
use synergy_wrapper.Ring.Types.{
  Bytes, success, failure, member, handling_stabilize, finding_tail, is_status, no_xpv,
  relay_backwards, u32_mod,
}
use synergy_wrapper.Ring.NodeInfo.{copy_successor_list}
use synergy_wrapper.Ring.Node.{
  Node, Effect, more, last, connect, disconnect, close, open_new, server, predecessor_socket,
  successor_socket, route, word, slots, Incoming, Outcome,
}
use synergy_wrapper.Ring.Server.Joins.{envelope, sent_slots, form_one_ring}
use synergy_wrapper.Ring.Reptype

-- _STABILIZE_NSYN_REQ_handler; the reply is the routing frame alone
unfoldable pub stabilize_nsyn_req_handler : Node → Incoming → Outcome
stabilize_nsyn_req_handler self i = (
  record self {
    node_list = record (self.node_list) { temp_predecessor = [] };
    current_status =
        if is_status self.current_status handling_stabilize then member else self.current_status;
  },
  last server (route self.clientid) ∷ [],
  success,
)

-- _PING_REQ_handler
unfoldable pub ping_req_handler : Node → Incoming → Outcome
ping_req_handler self i = (self, envelope self ∷ last server (word Reptype.pong_rep) ∷ [], success)

-- _STABILIZE_REQ_handler, for an address that fits temp_predecessor with its NUL, as in _JOIN_REQ_handler; the first
-- refusal goes out with no routing frame in front
unfoldable pub stabilize_req_handler : Node → Incoming → Outcome
stabilize_req_handler self i =
    if not (is_status self.current_status member)
      && not (is_status self.current_status handling_stabilize)
    then (self, last server (word Reptype.stabilize_nack) ∷ [], failure)
    else elim i.address [
      | none ↦ (
        record self { current_status = member },
        envelope self ∷ last server (word Reptype.stabilize_nack) ∷ [],
        failure,
      )
      | some a ↦ (
        record self {
          current_status = handling_stabilize;
          node_list = record (self.node_list) { temp_predecessor = a };
        },
        envelope self
            ∷ more server (word Reptype.stabilize_ack)
            ∷ more server (word self.r)
            ∷ last server (slots (sent_slots self))
            ∷ [],
        success,
      )
    ]

-- `streq` of czmq.h on the two predecessors
unfoldable pub same_bytes : Bytes → Bytes → Bool
same_bytes [] [] = true
same_bytes [] (y ∷ ys) = false
same_bytes (x ∷ xs) [] = false
same_bytes (x ∷ xs) (y ∷ ys) = x == y && same_bytes xs ys

-- _STABILIZE_SYN_REQ_handler
unfoldable pub stabilize_syn_req_handler : Node → Incoming → Outcome
stabilize_syn_req_handler self i =
    if not (is_status self.current_status handling_stabilize)
    then (
      record self { node_list = record (self.node_list) { temp_predecessor = [] } },
      [],
      failure,
    )
    else (
      record self {
        node_list = record (self.node_list) {
          predecessor = self.temp_predecessor;
          temp_predecessor = [];
        };
        server_triggered_actions = no_xpv;
        current_status = member;
      },
      (if same_bytes self.predecessor self.temp_predecessor
          then []
          else disconnect predecessor_socket self.predecessor
            ∷ connect predecessor_socket self.temp_predecessor
            ∷ []),
      success,
    )

-- `--ttl` on an unsigned
abbrev pub decrement : ℕ → ℕ
decrement ttl = (ttl + u32_mod - 1) % u32_mod

-- _SYNC_SLIST_handler; a message that is cut short leaves the reply's routing frame pending
unfoldable pub sync_slist_handler : Node → Incoming → Outcome
sync_slist_handler self i =
    let pending = envelope self ∷ [] in
    elim i.first [
      | none ↦ (self, pending, failure)
      | some ttl ↦ elim i.second [
        | none ↦ (self, pending, failure)
        | some nr ↦
            if nr == 0 || ltb self.r_max nr then (self, pending, failure) else elim i.slots [
              | none ↦ (self, pending, failure)
              | some buf ↦ (
                (if ltb 0 (decrement ttl)
                    then record self {
                      node_list = (copy_successor_list self.node_list buf nr).0;
                      last_ttl = decrement ttl;
                      server_triggered_actions = relay_backwards;
                    }
                    else self),
                envelope self ∷ last server (word Reptype.sync_slist_ack) ∷ [],
                success,
              )
            ]
      ]
    ]

-- the way out of _TAIL_FOUND_handler and _HEAD_FOUND_handler that forms a ring of one
abbrev pub give_up_search : Node → List Effect → Outcome
give_up_search self done =
    let (self', formed) = form_one_ring self in (self', done ++ formed, failure)

-- _TAIL_FOUND_handler; the socket that is opened anew is the successor's
unfoldable pub tail_found_handler : Node → Incoming → Outcome
unfolding form_one_ring
tail_found_handler self i = elim i.address [
  | none ↦ give_up_search self []
  | some a ↦
      let reopened = close predecessor_socket ∷ open_new successor_socket ∷ [] in
      if not (is_status self.current_status finding_tail)
      then give_up_search self reopened
      else if not i.connects
      then give_up_search self (reopened ++ connect predecessor_socket a ∷ [])
      else (
        record self { node_list = record (self.node_list) { predecessor = a } },
        reopened ++ connect predecessor_socket a ∷ [],
        success,
      )
]

-- _HEAD_FOUND_handler; the socket that is connected is the predecessor's, and the status that is
-- asked for is P2PM_FINDING_TAIL
unfoldable pub head_found_handler : Node → Incoming → Outcome
unfolding form_one_ring
head_found_handler self i = elim i.address [
  | none ↦ give_up_search self []
  | some a ↦
      let reopened = close successor_socket ∷ open_new successor_socket ∷ [] in
      if not (is_status self.current_status finding_tail)
      then give_up_search self reopened
      else if not i.connects
      then give_up_search self (reopened ++ connect predecessor_socket a ∷ [])
      else (
        record self {
          node_list = record (self.node_list) {
            successor = a;
            successor_list = set (replicate self.r_max []) 0 a;
          };
        },
        reopened ++ connect predecessor_socket a ∷ [],
        success,
      )
]

-- _TOKEN_handler
unfoldable pub token_handler : Node → Incoming → Outcome
token_handler self i = (record self { recv_token = i.token; recv_has_token = true }, [], success)
