-- ===== src/Space/Dispatch/Refusals.antt =====
-- The requests that handler of src/tsd/tsd.c refuses.
use synergy_wrapper.Base.{
  ℕ, ◌≡◌, ◌≢◌, ◌<◌, Bool, false, Option, none, some, Bytes, test_no, refl, arith,
}
use synergy_wrapper.Space.Types.{Tuple, BlockingRequest, Command-discrete, connect}
use synergy_wrapper.Space.Zlistx.{Zlistx}
use synergy_wrapper.Space.Element.{Daemon}
use synergy_wrapper.Space.Peers.{Space}
use synergy_wrapper.Space.Dispatch.{
  SpaceTable, Request, handler, act, refuse, command_of, clientid_of, namespace_of,
}

module _ (tuples : Zlistx Tuple) (requests : Zlistx BlockingRequest) (patterns : Zlistx Bytes)
    (regex : Bytes → Bytes → Bool) (strtoul : Bytes → ℕ)
    (table : SpaceTable (Space tuples requests patterns regex strtoul)) where
  -- The space that a request names: a length from 1 to 50, the name received, and its entry.
  pub record Names (spaces : table.Table) (req : Request) : Type 0 where
    pub buf_len : ℕ
    pub received : Bytes
    pub entry : Option (Space tuples requests patterns regex strtoul)
    pub has_length : req.recv_buf_len ≡ some buf_len
    pub is_named : req.recv_namespace ≡ some received
    pub is_positive : 0 < buf_len
    pub is_short : buf_len < 51
    pub finds : table.hash_find spaces (namespace_of buf_len received) ≡ entry

  -- Why a request is refused.
  pub data Refused (spaces : table.Table) (req : Request) : Type 0 where
    no_length : req.recv_buf_len ≡ none → Refused spaces req
    empty_name : req.recv_buf_len ≡ some 0 → Refused spaces req
    long_name : (n : ℕ) → req.recv_buf_len ≡ some n → 50 < n → Refused spaces req
    no_name : req.recv_namespace ≡ none → Refused spaces req
    unknown_space : (n : Names spaces req) → n.entry ≡ none → Refused spaces req
    no_action : req.recv_action ≡ none → Refused spaces req
    closed :
        (n : Names spaces req) (s : Space tuples requests patterns regex strtoul) (a : ℕ)
        → n.entry ≡ some s
        → s.element.is_activated ≡ false
        → req.recv_action ≡ some a
        → command_of a ≢ connect
        → Refused spaces req

  act-Closed :
      (self : Daemon) (fuel : ℕ) (spaces : table.Table) (req : Request) (clientid name : Bytes)
      (s : Space tuples requests patterns regex strtoul) (a : ℕ)
      → s.element.is_activated ≡ false
      → command_of a ≢ connect
      → act tuples requests patterns regex strtoul table self fuel spaces req clientid name s a
        ≡ refuse req.is_local clientid spaces
  unfolding act
  act-Closed self fuel spaces req clientid name s a off ne =
      rw (test_no (Command-discrete (command_of a) connect) ne, off) refl

  -- A request with an id that handler can read is answered with TsEnf at that id, and the spaces stay as they are, if its length is
  -- missing, 0 or over 50, if its name or its action is missing, if no space has its name, or if its
  -- space is not activated and its action is not TsConnect.
  pub handler-Refused :
      (self : Daemon) (fuel : ℕ) (spaces : table.Table) (req : Request) (received clientid : Bytes)
      → req.recv_clientid ≡ some received
      → clientid_of received ≡ some clientid
      → Refused spaces req
      → handler tuples requests patterns regex strtoul table self fuel spaces req
        ≡ refuse req.is_local clientid spaces
  unfolding handler
  handler-Refused self fuel spaces req received clientid e d (no_length h) = ground (arith, e, d, h)
  handler-Refused self fuel spaces req received clientid e d (empty_name h) =
      ground (arith, e, d, h)
  handler-Refused self fuel spaces req received clientid e d (long_name n h lt) =
      ground (arith, e, d, h, lt)
  handler-Refused self fuel spaces req received clientid e d (no_name h) = ground (arith, e, d, h)
  handler-Refused self fuel spaces req received clientid e d (unknown_space n h) =
      ground (arith, e, d, h, n.finds, n.has_length, n.is_named)
  handler-Refused self fuel spaces req received clientid e d (no_action h) = ground (arith, e, d, h)
  handler-Refused self fuel spaces req received clientid e d (closed n s a h off k ne) = ground (
    arith,
    e,
    d,
    h,
    k,
    n.finds,
    n.has_length,
    n.is_named,
    n.is_positive,
    n.is_short,
    act-Closed self fuel spaces req clientid (namespace_of n.buf_len n.received) s a off ne,
  )

  -- The request that is dispatched.
  pub handler_acts :
      (self : Daemon) (fuel : ℕ) (spaces : table.Table) (req : Request) (received clientid : Bytes)
      (n : Names spaces req) (s : Space tuples requests patterns regex strtoul) (a : ℕ)
      → req.recv_clientid ≡ some received
      → clientid_of received ≡ some clientid
      → n.entry ≡ some s
      → req.recv_action ≡ some a
      → handler tuples requests patterns regex strtoul table self fuel spaces req
        ≡ act tuples requests patterns regex strtoul table self fuel spaces req clientid
            (namespace_of n.buf_len n.received)
            s
            a
  unfolding handler
  handler_acts self fuel spaces req received clientid n s a e d h k =
      ground (arith, e, d, h, k, n.finds, n.has_length, n.is_named, n.is_positive, n.is_short)
