-- ===== src/Ring/Types.antt =====
-- src/p2pm_types.h and src/p2pm_common.h: the enumerations, the request and reply codes, the state of
-- a node, and what a node does to its sockets.
pub use synergy_wrapper.Base.{Bytes}
use synergy_wrapper.Base.{ℕ, ◌^◌, Bool, List, test}

-- P2PM_MAX_ID_LEN
abbrev pub max_id_len : ℕ
max_id_len = 256

abbrev pub u32_mod : ℕ
u32_mod = 2 ^ 32

-- enum _p2pm_status_e
pub data Status : Type 0 where
  alone one_ring joining member appendage : Status
  socket_live socket_dead socket_bounded_wait : Status
  finding_head finding_tail handling_join handling_stabilize busy : Status

pub Status-discrete : Discrete Status
Status-discrete = hlevel

-- enum _p2pm_expecting_action_e
pub data ExpectedAction : Type 0 where
  no_xpv join_cmt join_onering trigger_join trigger_stabilize : ExpectedAction
  ping_and_stabilize_req ping_and_stabilize_req1 ping_and_stabilize_req2 : ExpectedAction
  stabilize_failure stabilize_ack nxt_successor perform_join : ExpectedAction
  replicate_backwards replicate_backwards_pinged : ExpectedAction
  relay_backwards relay_backwards_pinged : ExpectedAction
  pred_rep_ping1 pred_rep_ping2 pred_rep_ping3 pred_failure : ExpectedAction
  stabilize_find_tail stabilize_relay_find_head stabilize_relay_find_tail : ExpectedAction
  stabilize_find_head stabilize_find_head_pinged : ExpectedAction

pub ExpectedAction-discrete : Discrete ExpectedAction
ExpectedAction-discrete = hlevel

-- enum _p2pm_opcodes_e
pub data Opcode : Type 0 where
  failure success tryagain timeout live dead todo invalid : Opcode
  finding_head finding_tail formed_one_ring list_unsynced need_one_ring : Opcode

-- `==` on the enumerations
abbrev pub is_status : Status → Status → Bool
is_status a b = test (Status-discrete a b)

abbrev pub is_action : ExpectedAction → ExpectedAction → Bool
is_action a b = test (ExpectedAction-discrete a b)

-- struct _p2pm_node_info_s. The successor list is its slots of P2PM_MAX_ID_LEN bytes.
pub record NodeInfo : Type 0 where
  pub successor_list : List Bytes
  pub predecessor : Bytes
  pub successor : Bytes
  pub temp_predecessor : Bytes
  pub temp_successor : Bytes
  pub r : ℕ
  pub r_max : ℕ
