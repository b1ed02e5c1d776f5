-- ===== src/Ring/Node.antt =====
-- struct _p2pm_s of src/p2pm_types.h, what a node does to its sockets, and what the calls of one
-- handler yield.
use synergy_wrapper.Base.{ℕ, Bool, List, Option}
use synergy_wrapper.Ring.Types.{Bytes, Status, ExpectedAction, Opcode, NodeInfo}

-- struct _t_token of src/p2pmd/p2pmd.h
pub record Token : Type 0 where
  pub id : ℕ
  pub ttl : ℕ  -- an int, as its 32 bits
  pub len1 : ℕ
  pub len2 : ℕ
  pub buf1 : Bytes
  pub buf2 : Bytes

pub record Node : Type 0 where
  pub node_list : NodeInfo
  pub open node_list use *
  pub behind_list : List Bytes  -- what memory holds behind node_list's successor_list
  pub endpoint : Bytes
  pub clientid : Bytes
  pub current_status : Status
  pub server_triggered_actions : ExpectedAction
  pub predecessor_triggered_actions : ExpectedAction
  pub successor_socket_expected_actions : ExpectedAction
  pub predecessor_socket_expected_actions : ExpectedAction
  pub last_stabilize_time : ℕ
  pub successor_lastpoll_time : ℕ
  pub predecessor_lastpoll_time : ℕ
  pub stabilize_interval : ℕ
  pub wait : ℕ
  pub last_ttl : ℕ
  pub send_token : Token
  pub send_has_token : Bool
  pub recv_token : Token
  pub recv_has_token : Bool

pub data Sock : Type 0 where
  server predecessor_socket successor_socket : Sock

-- One message part: the routing frame, a number in network order, a string with its length in
-- front, the slots of a successor list, or raw bytes.
pub data Part : Type 0 where
  route : Bytes → Part
  word : ℕ → Part
  dword : ℕ → Part
  text : Bytes → Part
  slots : List Bytes → Part
  raw : Bytes → Part

-- `more` is a part that ZMQ_SNDMORE follows up, `last` one that ends its message.
pub data Effect : Type 0 where
  more last : Sock → Part → Effect
  connect disconnect : Sock → Bytes → Effect
  close open_new : Sock → Effect

-- What the calls of a handler yield: p2pm_recv_str, the calls of p2pm_recv_uint32 in order, the
-- zmq_recv of a successor list (`none` is a failure), the calls of zmq_connect in order (`true` is
-- success), the clock, and the fields of a token after the receives of _TOKEN_handler.
pub record Incoming : Type 0 where
  pub address : Option Bytes
  pub first : Option ℕ
  pub second : Option ℕ
  pub slots : Option (List Bytes)
  pub connects : Bool
  pub connects_again : Bool
  pub now : ℕ
  pub token : Token

-- The node after a handler, what it did to the sockets, and its result.
abbrev pub Outcome : Type 0
Outcome = Node × List Effect × Opcode
