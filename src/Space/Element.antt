-- ===== src/Space/Element.antt =====
-- struct _tsd_element_s and struct _tsd_s, what the daemon sends, and the tokens' names
-- (src/sng_common.h, src/tsd/tsd.c).
pub mod Tokens
use synergy_wrapper.Base.{
  ℕ, zero, suc, ◌+◌, ◌*◌, ◌/◌, ◌%◌, List, [], ◌∷◌, ◌++◌, Bool, true, false, Option, none, some,
  Bytes, set, length, replicate, if◌then◌else◌, arith,
}
use synergy_wrapper.Ring.Node.{Part, Token}
use synergy_wrapper.Space.Types.{Tuple, BlockingRequest, TsMode, Command}
use synergy_wrapper.Space.Zlistx.{Zlistx}

-- What the operations read of struct _tsd_s: sockets, logging and the table of the spaces are left out.
pub record Daemon : Type 0 where
  pub endpoint : Bytes
  pub replication_factor : ℕ
  pub junk : ℕ  -- the byte that malloc left

module _ (tuples : Zlistx Tuple) (requests : Zlistx BlockingRequest) where
  -- struct _tsd_element_s less the pipes, tsd_mode, the expectations and the copies, which no operation
  -- here reads. The endpoint is taken as the string in its buffer.
  pub record Element : Type 0 where
    pub space_name : Bytes
    pub direct_endpoint : Bytes
    pub named_queue : tuples.Queue
    pub bcast_queue : tuples.Queue
    pub named_queue_requests : requests.Queue
    pub bcast_queue_requests : requests.Queue
    pub connect_requests : requests.Queue
    pub ts_mode : TsMode
    pub is_activated : Bool
    pub is_requested : Bool

-- `shared` is send_item on the space's pipe, `pass` is send_generic_token, `to_peer` is a part on
-- peer_socket, with ZMQ_SNDMORE for `true`.
pub data Output : Type 0 where
  more last : Bool → Part → Output  -- on the local socket for `true`, the server socket for `false`
  shared : Bytes → ℕ → Output
  pass : Token → Output
  to_peer : Bool → Part → Output

-- The codes that a handler documents, 0, 1, 2 and -1.
pub data Code : Type 0 where
  success dilemma incomplete serious : Code

-- `memcpy(dest + i, s, n)`, of the whole of s
unfoldable pub memcpy : Bytes → ℕ → Bytes → Bytes
memcpy dest i [] = dest
memcpy dest i (c ∷ s) = memcpy (set dest i c) (suc i) s

-- the eight bytes of a size_t, the least one first
unfoldable pub little_endian : ℕ → ℕ → Bytes
little_endian zero n = []
little_endian (suc k) n = n % 256 ∷ little_endian k (n / 256)

-- _generate_named_tuple_token_str, with the `++` in front of len1
unfoldable pub named_token_str : Daemon → Bytes → Bytes → Bytes
unfolding memcpy
named_token_str self namespace name =
    let len1 = length namespace + 1 in
    let len2 = length name + 1 in
    let dest = memcpy (replicate (len1 + len2 + 1) self.junk) 0 (namespace ++ (0 ∷ [])) in
    memcpy (set dest (len1 + 1) b'N') (len1 + 1) (name ++ (0 ∷ []))

-- _generate_anon_tuple_token_str
unfoldable pub anon_token_str : Daemon → Bytes → ℕ → Bytes
unfolding memcpy little_endian
anon_token_str self namespace anon_id =
    let len = length namespace + 1 in
    let dest = memcpy (replicate (len + 8 + 1) self.junk) 0 (namespace ++ (0 ∷ [])) in
    memcpy (set dest (len + 1) b'A') (len + 1) (little_endian 8 anon_id)

-- a ttl of -1
abbrev pub unlimited : ℕ
unlimited = 4294967295

-- the numbers of TsTerm, TsEnf, TsAck and TsAnon
abbrev pub ts_term : ℕ
ts_term = 8

abbrev pub ts_enf : ℕ
ts_enf = 9

abbrev pub ts_ack : ℕ
ts_ack = 10

abbrev pub ts_anon : ℕ
ts_anon = 11

-- How a handler ends: it returns a code; it fails an assertion or does what C leaves undefined, as a read
-- through NULL; or it does not end.
pub data Result (S : Type 0) : Type 0 where
  returned : S → List Output → Code → Result S
  aborted unfinished : Result S

-- struct _tsd_handler_arg, and what the calls of one handler yield: p2pm_recv_str, p2pm_recv_uint32 (the
-- anonymous id), p2pm_recv_uint64 (the length), zmq_recv, recv_item (its result 0, the data, NULL as `none`,
-- and the length), and the mode of a TsConnect.
pub record Args : Type 0 where
  pub is_local : Bool
  pub clientid_buffer : Bytes
  pub action : Command
  pub recv_name : Option Bytes
  pub recv_id : Option ℕ
  pub recv_len : Option ℕ
  pub recv_bytes : Option Bytes
  pub recv_item_ok : Bool
  pub recv_item_contents : Option Bytes
  pub recv_item_len : ℕ
  pub mode : ℕ

abbrev pub bytes_or_none : Option Bytes → Bytes
bytes_or_none none = []
bytes_or_none (some s) = s
