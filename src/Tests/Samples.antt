-- ===== src/Tests/Samples.antt =====
-- A node of three slots, and the inputs of its handlers (src/p2pmd).
use synergy_wrapper.Base.{
  ℕ, Bytes, Bool, true, false, List, [], ◌∷◌, Option, none, some, refl, arith,
}
use synergy_wrapper.Ring.Types.{Status, ExpectedAction, no_xpv, NodeInfo}
use synergy_wrapper.Ring.Node.{Token, Node, Incoming}
use synergy_wrapper.Ring.NodeInfo.Bounds.{IsWellFormed}
use synergy_wrapper.Ring.Loop.Successor.{SuccessorInput}
use synergy_wrapper.Ring.Loop.{Pass}

abbrev pub info : NodeInfo
info = record {
  successor_list = (98 ∷ []) ∷ (99 ∷ []) ∷ (100 ∷ []) ∷ [];
  predecessor = 112 ∷ [];
  successor = 98 ∷ [];
  temp_predecessor = [];
  temp_successor = [];
  r = 2;
  r_max = 3;
}

pub info-IsWellFormed : IsWellFormed info
info-IsWellFormed = record {
  slots = refl;
  some_slot = omega arith;
  addressable = ground arith;
  in_use = omega arith;
}

abbrev pub no_token : Token
no_token = record { id = 0; ttl = 0; len1 = 0; len2 = 0; buf1 = []; buf2 = [] }

-- its status, what it triggers, and what it expects of its successor and of its predecessor
abbrev pub node : Status → ExpectedAction → ExpectedAction → ExpectedAction → Node
node status triggered successor predecessor = record {
  node_list = info;
  endpoint = 101 ∷ [];
  clientid = 105 ∷ [];
  current_status = status;
  server_triggered_actions = triggered;
  predecessor_triggered_actions = no_xpv;
  successor_socket_expected_actions = successor;
  predecessor_socket_expected_actions = predecessor;
  last_stabilize_time = 0;
  successor_lastpoll_time = 0;
  predecessor_lastpoll_time = 0;
  stabilize_interval = 1000;
  wait = 10;
  behind_list = [];
  last_ttl = 2;
  send_token = no_token;
  send_has_token = false;
  recv_token = no_token;
  recv_has_token = false;
}

abbrev pub idle : Status → Node
idle status = node status no_xpv no_xpv no_xpv

-- an address, two numbers and a list
abbrev pub incoming : Option Bytes → Option ℕ → Option ℕ → Option (List Bytes) → Incoming
incoming a m n s = record {
  address = a;
  first = m;
  second = n;
  slots = s;
  connects = true;
  connects_again = true;
  now = 5;
  token = no_token;
}

abbrev pub sender : Bytes
sender = 97 ∷ []

abbrev pub received_list : List Bytes
received_list = (120 ∷ []) ∷ (121 ∷ []) ∷ (122 ∷ []) ∷ []

abbrev pub reads : Bool → ℕ → SuccessorInput
reads b n = record {
  readable = b;
  receives = some n ∷ [];
  attempts = [];
  r = some 2;
  slots = some received_list;
}

abbrev pub silence : ℕ → Pass
silence now = record {
  server = none;
  successor = reads false 0;
  predecessor = none;
  now = now;
  clock = λ n. now;
  inner_calls = 1;
}
