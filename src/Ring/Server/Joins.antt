-- ===== src/Ring/Server/Joins.antt =====
-- The handlers of src/p2pmd/p2pmd_server.c for nodes that join, and p2pm_form_one_ring of
-- src/p2pmd/p2pmd_onering.c.
use synergy_wrapper.Base.{
  ℕ, ◌+◌, List, [], ◌∷◌, ◌++◌, none, some, if◌then◌else◌, leb, ◌==◌, ◌&&◌, not, take, set,
  replicate,
}
use synergy_wrapper.Ring.Types.{
  Bytes, Status, success, failure, need_one_ring, one_ring, member, handling_join, is_status,
  replicate_backwards, NodeInfo, max_id_len,
}
use synergy_wrapper.Ring.NodeInfo.{copy_successor_list, set_predecessor, set_successor}
use synergy_wrapper.Ring.Node.{
  Node, Effect, more, last, connect, disconnect, close, open_new, server, predecessor_socket,
  successor_socket, route, word, text, slots, Incoming, Outcome,
}
use synergy_wrapper.Ring.Reptype
use synergy_wrapper.Ring.Reqtype

-- the first part of a reply on the server socket
abbrev pub envelope : Node → Effect
envelope self = more server (route self.clientid)

-- what zmq_send(…, successor_list, r << P2PM_MAX_ID_LEN_SHFT, …) sends, also where r is above r_max
abbrev pub sent_slots : Node → List Bytes
sent_slots self = take self.r (self.successor_list ++ self.behind_list)

-- p2pm_form_one_ring
unfoldable pub form_one_ring : Node → Node × List Effect
form_one_ring self = (
  record self {
    node_list = record (self.node_list) {
      successor = self.endpoint;
      predecessor = self.endpoint;
      successor_list = set self.successor_list 0 self.endpoint;
    };
    current_status = one_ring;
  },
  close predecessor_socket
      ∷ close successor_socket
      ∷ open_new predecessor_socket
      ∷ open_new successor_socket
      ∷ [],
)

-- the answer of _GET_REQ_handler once the client's endpoint is stored
unfoldable pub answer_get : Node → Outcome
answer_get self =
    if is_status self.current_status one_ring
    then (
      self,
      envelope self ∷ last server (word Reptype.get_contacted_one_ring) ∷ [],
      need_one_ring,
    )
    else if is_status self.current_status member
    then (
      record self { current_status = handling_join },
      envelope self ∷ more server (word Reptype.get_ack) ∷ last server (text self.successor) ∷ [],
      success,
    )
    else (self, envelope self ∷ last server (word Reptype.get_nack) ∷ [], failure)

-- _GET_REQ_handler; P2PM_MAX_ID_LEN bytes are copied, whatever the string's length is
unfoldable pub get_req_handler : Node → Incoming → Outcome
unfolding answer_get
get_req_handler self i = elim i.address [
  | none ↦ (self, envelope self ∷ last server (word Reptype.get_nack) ∷ [], failure)
  | some a ↦
      answer_get
        (record self { node_list = record (self.node_list) { temp_successor = take max_id_len a } })
]

-- the answer of _JOIN_REQ_handler once the client's endpoint is stored
unfoldable pub answer_join : Node → Outcome
answer_join self =
    if is_status self.current_status one_ring
    then (
      self,
      envelope self ∷ last server (word Reptype.get_contacted_one_ring) ∷ [],
      need_one_ring,
    )
    else if is_status self.current_status member
    then (
      self,
      envelope self
          ∷ more server (word Reptype.join_ack1)
          ∷ more server (word self.r)
          ∷ last server (slots (sent_slots self))
          ∷ [],
      success,
    )
    else (self, envelope self ∷ last server (word Reptype.invalid_rep) ∷ [], failure)

-- _JOIN_REQ_handler, for an address that fits temp_predecessor with its NUL: the source copies a longer one past it
unfoldable pub join_req_handler : Node → Incoming → Outcome
unfolding answer_join
join_req_handler self i = elim i.address [
  | none ↦ (self, envelope self ∷ last server (word Reptype.invalid_rep) ∷ [], failure)
  | some a ↦
      answer_join (record self { node_list = record (self.node_list) { temp_predecessor = a } })
]

-- the list of _JOIN_CMT_handler after the client's endpoint has become the successor
unfoldable pub commit_list : NodeInfo → List Bytes → ℕ → NodeInfo
commit_list n buf r =
    (copy_successor_list
      (record n {
        successor = n.temp_successor;
        successor_list = set n.successor_list 0 n.temp_successor;
        temp_successor = [];
      })
      buf r).0

-- the part of _JOIN_CMT_handler behind its last receive
unfoldable pub commit_join : Node → List Bytes → ℕ → ℕ → Outcome
unfolding commit_list
commit_join self buf r now = (
  record self {
    node_list = commit_list self.node_list buf r;
    server_triggered_actions =
        if is_status self.current_status member
          && leb now (self.last_stabilize_time + self.stabilize_interval)
        then replicate_backwards
        else self.server_triggered_actions;
    current_status =
        if is_status self.current_status handling_join then member else self.current_status;
  },
  envelope self
      ∷ last server (word Reptype.join_ack2)
      ∷ disconnect successor_socket self.successor
      ∷ connect successor_socket self.temp_successor
      ∷ [],
  success,
)

-- _JOIN_CMT_handler; `r` is stored before the list is received
unfoldable pub join_cmt_handler : Node → Incoming → Outcome
unfolding commit_join
join_cmt_handler self i =
    let refused = envelope self ∷ last server (word Reptype.invalid_rep) ∷ [] in
    elim i.first [
      | none ↦ (self, refused, failure)
      | some r ↦
          if r == 0
          then (self, refused, failure)
          else let self' = record self { node_list = record (self.node_list) { r = r } } in
            elim i.slots [
              | none ↦ (self', refused, failure)
              | some buf ↦ commit_join self' buf r i.now
            ]
    ]

-- `current_status` of a handler that ends a join
abbrev pub joined : Node → Status
joined self = if is_status self.current_status handling_join then member else self.current_status

-- _JOIN_ABRT_handler
unfoldable pub join_abrt_handler : Node → Incoming → Outcome
join_abrt_handler self i = (
  record self {
    current_status = joined self;
    node_list = record (self.node_list) { temp_successor = [] };
  },
  [],
  success,
)

-- _PRED_JOIN_CMT_handler
unfoldable pub pred_join_cmt_handler : Node → Incoming → Outcome
pred_join_cmt_handler self i = (
  record self {
    node_list = record (self.node_list) {
      predecessor = self.temp_predecessor;
      temp_predecessor = [];
    };
    current_status = joined self;
  },
  disconnect predecessor_socket self.predecessor
      ∷ connect predecessor_socket self.temp_predecessor
      ∷ [],
  success,
)

-- _PRED_JOIN_ABRT_handler
unfoldable pub pred_join_abrt_handler : Node → Incoming → Outcome
pred_join_abrt_handler self i = (
  record self {
    node_list = record (self.node_list) { temp_predecessor = [] };
    current_status = joined self;
  },
  [],
  success,
)

-- the node of _ONE_RING_JOIN_REQ_handler once the client's endpoint is received
unfoldable pub adopt : Node → Bytes → Node
adopt self a =
    let n = (set_successor (set_predecessor self.node_list a).0 a).0 in
    record self {
      node_list = record n { successor_list = set (replicate n.r_max []) 0 n.successor };
      current_status = handling_join;
    }

-- _ONE_RING_JOIN_REQ_handler; a failure behind the first test leaves HANDLING_JOIN
unfoldable pub one_ring_join_req_handler : Node → Incoming → Outcome
unfolding adopt
one_ring_join_req_handler self i =
    let refused = envelope self ∷ last server (word Reptype.invalid_rep) ∷ [] in
    if not (is_status self.current_status one_ring)
    then (self, refused, failure)
    else elim i.address [
      | none ↦ (record self { current_status = handling_join }, refused, failure)
      | some a ↦
          let self' = adopt self a in
          let to_successor = connect successor_socket self'.successor in
          let to_predecessor = connect predecessor_socket self'.predecessor in
          if not i.connects
          then (
            self',
            envelope self ∷ to_successor ∷ last server (word Reptype.invalid_rep) ∷ [],
            failure,
          )
          else if not i.connects_again
          then (
            self',
            envelope self
                ∷ to_successor
                ∷ to_predecessor
                ∷ last server (word Reptype.invalid_rep)
                ∷ [],
            failure,
          )
          else (
            record self' { current_status = member },
            envelope self
                ∷ to_successor
                ∷ to_predecessor
                ∷ last server (word Reqtype.join_cmt)
                ∷ [],
            success,
          )
    ]
