-- ===== src/Space/Types.antt =====
-- The enumerations and structures of src/sng_common.h that the tuple space daemon keeps.
use synergy_wrapper.Base.{ℕ, Bool, Option, Bytes, test}

-- enum _tuple_commands
pub data Command : Type 0 where
  none_ get put add read pop peek connect term enf ack anon : Command
  bcast_write bcast_read get_blocking read_blocking bcast_read_blocking : Command
  pop_blocking peek_blocking expect deposit transmit request take migrate replicate : Command

pub Command-discrete : Discrete Command
Command-discrete = hlevel

abbrev pub is_command : Command → Command → Bool
is_command a b = test (Command-discrete a b)

-- ts_mode_t
pub data TsMode : Type 0 where
  mode_master mode_worker mode_p2p : TsMode

pub TsMode-discrete : Discrete TsMode
TsMode-discrete = hlevel

abbrev pub is_mode : TsMode → TsMode → Bool
is_mode a b = test (TsMode-discrete a b)

-- struct _tuple; `none` is a NULL name
pub record Tuple : Type 0 where
  pub name : Option Bytes
  pub anon_id : ℕ
  pub len : ℕ
  pub contents : Bytes

-- struct _blocking_request_s
pub record BlockingRequest : Type 0 where
  pub name : Option Bytes
  pub clientid : Bytes
  pub command : Command
  pub extra : ℕ
  pub local : Bool
