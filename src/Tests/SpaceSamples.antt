-- ===== src/Tests/SpaceSamples.antt =====
-- Small spaces, and clients of them (src/tsd/tsd.c). The queues are lists; no name is an expression.
use synergy_wrapper.Base.{ℕ, suc, ◌≡◌, List, [], ◌∷◌, Bool, true, false, Bytes, none, some, arith}
use synergy_wrapper.Space.Types.{Tuple, BlockingRequest, Command, mode_worker}
use synergy_wrapper.Space.Zlistx.{Zlistx, list_zlistx}
use synergy_wrapper.Space.Element.{Daemon, Element, Args}

abbrev pub regex : Bytes → Bytes → Bool
regex p s = false

abbrev pub tuples : Zlistx Tuple
tuples = list_zlistx Tuple

abbrev pub requests : Zlistx BlockingRequest
requests = list_zlistx BlockingRequest

abbrev pub named : ℕ → Tuple
named c = record { name = some (c ∷ []); anon_id = 0; len = 1; contents = 1 ∷ [] }

abbrev pub waits : Command → ℕ → BlockingRequest
waits a c = record {
  name = some (97 ∷ []);
  clientid = c ∷ [];
  command = a;
  extra = 0;
  local = true;
}

-- its tuples, its broadcast tuples, its waiting requests and the clients that wait for it
abbrev pub element :
    List Tuple → List Tuple → List BlockingRequest → List BlockingRequest → Element tuples requests
element ts bs rs cs = record {
  space_name = 115 ∷ [];
  direct_endpoint = [];
  named_queue = ts;
  bcast_queue = bs;
  named_queue_requests = rs;
  bcast_queue_requests = [];
  connect_requests = cs;
  ts_mode = mode_worker;
  is_activated = false;
  is_requested = true;
}

abbrev pub daemon : Daemon
daemon = record { endpoint = 101 ∷ []; replication_factor = 3; junk = 0 }

-- a local client c that uses the name a
abbrev pub asks : Command → ℕ → Args
asks a c = record {
  is_local = true;
  clientid_buffer = c ∷ [];
  action = a;
  recv_name = some (97 ∷ []);
  recv_id = none;
  recv_len = none;
  recv_bytes = none;
  recv_item_ok = true;
  recv_item_contents = some (7 ∷ 8 ∷ []);
  recv_item_len = 2;
  mode = 1;
}

-- a byte of a text
pub nonzero : (n : ℕ) → ¬ (suc n ≡ 0)
nonzero n e = omega arith
