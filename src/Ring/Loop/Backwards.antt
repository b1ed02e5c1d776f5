-- ===== src/Ring/Loop/Backwards.antt =====
-- The successor list on its way backwards, and a predecessor that fails (src/p2pmd/p2pmd_server.c).
use synergy_wrapper.Base.{
  take, ℕ, ◌+◌, ◌≤◌, ◌<◌, ◌≡◌, ◌⊎◌, inl, inr, refl, [], ◌∷◌, none, some, arith, false, leb,
  if◌then◌else◌, length,
}
use synergy_wrapper.Ring.Types.{
  no_xpv, success, member, replicate_backwards, replicate_backwards_pinged, relay_backwards,
  relay_backwards_pinged, pred_rep_ping1, pred_rep_ping2, pred_rep_ping3, ExpectedAction,
}
use synergy_wrapper.Ring.NodeInfo.Bounds.{IsWellFormed}
use synergy_wrapper.Ring.Node.{Node, more, last, predecessor_socket, word, slots}
use synergy_wrapper.Ring.Server.Joins.{sent_slots}
use synergy_wrapper.Ring.Server.Handshake.{sent_slots_lem}
use synergy_wrapper.Ring.Reqtype
use synergy_wrapper.Ring.Reptype
use synergy_wrapper.Ring.Loop.Predecessor.{
  predecessor_pass, predecessor_timeout, predecessor_failed, predecessor_readable, ponged,
  acknowledged, start_triggered, predecessor_socket_handler,
}
use synergy_wrapper.Ring.Loop.Successor.{successor_socket_handler, successor_event, forward_token}
use synergy_wrapper.Ring.Loop.Stabilization.{IsSilent}
use synergy_wrapper.Ring.Loop.{Pass, serve, check_timer, finish_pass, loop_server}

-- the kinds of list that go backwards, with the TTL of each
abbrev pub Sends : Node → ExpectedAction → ℕ → Type 0
Sends self action ttl =
    ((action ≡ replicate_backwards) × (ttl ≡ self.r_max))
    ⊎ ((action ≡ relay_backwards) × (ttl ≡ self.last_ttl))

-- the states of the exchange: after the ping, after the list, and at its end
abbrev pinged : Node → ExpectedAction → ℕ → Node
pinged self action now = record self {
  predecessor_triggered_actions = action;
  server_triggered_actions = no_xpv;
  predecessor_socket_expected_actions = pred_rep_ping1;
  predecessor_lastpoll_time = now;
}

abbrev sent : Node → ExpectedAction → ℕ → Node
sent self action now = record self {
  predecessor_triggered_actions = no_xpv;
  predecessor_socket_expected_actions = action;
  predecessor_lastpoll_time = now;
}

abbrev done : Node → ℕ → Node
done self now = record self {
  predecessor_socket_expected_actions = no_xpv;
  predecessor_lastpoll_time = now;
}

-- The predecessor's handler of a well-formed node, asked to send the list backwards while it is neither late nor readable,
-- pings first; PONG_REP is answered by SYNC_SLIST with the TTL, which is `r_max` for a list of the
-- node's own and the stored one for a list that it relays, then `r` and as many entries, those in use; and
-- whatever is received next ends the exchange.
pub exchange_backwards :
    (self : Node) (action : ExpectedAction) (t1 t2 t3 : ℕ → ℕ) (ttl reply : ℕ)
    → IsWellFormed self.node_list
    → Sends self action ttl
    → self.server_triggered_actions ≡ action
    → t1 0 ≤ self.predecessor_lastpoll_time + self.wait
    → (a b c : Node) × (predecessor_socket_handler 2 self none t1
        ≡ some (a, last predecessor_socket (word Reqtype.ping_req) ∷ [], success))
      × (predecessor_socket_handler 2 a (some Reptype.pong_rep) t2
          ≡ some (
            b,
            more predecessor_socket (word Reqtype.sync_slist)
                ∷ more predecessor_socket (word ttl)
                ∷ more predecessor_socket (word self.r)
                ∷ last predecessor_socket (slots (sent_slots self))
                ∷ [],
            success,
          ))
      × (predecessor_socket_handler 2 b (some reply) t3 ≡ some (c, [], success))
      × (b.predecessor_socket_expected_actions ≡ action)
      × (c.predecessor_socket_expected_actions ≡ no_xpv)
      × (c.node_list ≡ self.node_list)
      × (sent_slots self ≡ take self.r self.successor_list)
      × (length (sent_slots self) ≡ self.r)
unfolding predecessor_socket_handler predecessor_pass start_triggered predecessor_readable ponged
    acknowledged
exchange_backwards self action t1 t2 t3 ttl reply w (inl (replicates, r_max)) e h = (
  pinged self replicate_backwards_pinged (t1 0),
  sent (pinged self replicate_backwards_pinged (t1 0)) replicate_backwards (t2 0),
  done (sent (pinged self replicate_backwards_pinged (t1 0)) replicate_backwards (t2 0)) (t3 0),
  ground arith,
  ground arith,
  ground arith,
  ground arith,
  refl,
  refl,
  (sent_slots_lem self w).0,
  (sent_slots_lem self w).1,
)
exchange_backwards self action t1 t2 t3 ttl reply w (inr (relays, last_ttl)) e h = (
  pinged self relay_backwards_pinged (t1 0),
  sent (pinged self relay_backwards_pinged (t1 0)) relay_backwards (t2 0),
  done (sent (pinged self relay_backwards_pinged (t1 0)) relay_backwards (t2 0)) (t3 0),
  ground arith,
  ground arith,
  ground arith,
  ground arith,
  refl,
  refl,
  (sent_slots_lem self w).0,
  (sent_slots_lem self w).1,
)

-- A predecessor that does not answer, after the first ping, gets two more, each after a time of
-- `wait`; when the third has run out, the node does what it does for a failed predecessor.
pub silent_predecessor :
    (self : Node) (t1 t2 t3 : ℕ → ℕ)
    → self.predecessor_socket_expected_actions ≡ pred_rep_ping1
    → self.predecessor_lastpoll_time + self.wait < t1 0
    → t1 0 + self.wait < t2 0
    → t2 0 + self.wait < t3 0
    → (a b : Node) × (predecessor_socket_handler 2 self none t1
        ≡ some (a, last predecessor_socket (word Reqtype.ping_req) ∷ [], success))
      × (predecessor_socket_handler 2 a none t2
          ≡ some (b, last predecessor_socket (word Reqtype.ping_req) ∷ [], success))
      × (predecessor_socket_handler 2 b none t3
          ≡ some (predecessor_failed (record b { predecessor_lastpoll_time = t3 0 })))
      × (b.predecessor_socket_expected_actions ≡ pred_rep_ping3)
unfolding predecessor_socket_handler predecessor_pass predecessor_timeout
silent_predecessor self t1 t2 t3 e h1 h2 h3 = (
  record self {
    predecessor_lastpoll_time = t1 0;
    predecessor_socket_expected_actions = pred_rep_ping2;
  },
  record self {
    predecessor_lastpoll_time = t2 0;
    predecessor_socket_expected_actions = pred_rep_ping3;
  },
  ground arith,
  ground arith,
  ground arith,
  refl,
)

-- The request for a head that a member makes when its predecessor has failed is reset at the end of the
-- same pass. A pass in which the last ping runs out, and nothing else happens, sends nothing and leaves
-- the node a member that expects nothing: the failure is forgotten.
pub find_head_forgotten :
    (self : Node) (p : Pass)
    → self.predecessor_socket_expected_actions ≡ pred_rep_ping3
    → self.current_status ≡ member
    → self.successor_socket_expected_actions ≡ no_xpv
    → self.server_triggered_actions ≡ no_xpv
    → self.send_has_token ≡ false
    → IsSilent p
    → self.predecessor_lastpoll_time + self.wait < p.clock 0
    → p.now ≤ self.last_stabilize_time + self.stabilize_interval
    → (after : Node) × (loop_server self p ≡ some (after, [], success))
      × (after.current_status ≡ member)
      × (after.predecessor_socket_expected_actions ≡ no_xpv)
      × (after.server_triggered_actions ≡ no_xpv)
      × (after.predecessor_triggered_actions ≡ self.predecessor_triggered_actions)
      × (after.node_list ≡ self.node_list)
unfolding loop_server serve check_timer finish_pass successor_socket_handler successor_event
    forward_token predecessor_socket_handler predecessor_pass predecessor_timeout predecessor_failed
find_head_forgotten self p e st es tr tk q late early = (
  record self {
    successor_lastpoll_time =
        if leb (self.successor_lastpoll_time + self.wait) p.now
        then p.now
        else self.successor_lastpoll_time;
    predecessor_lastpoll_time = p.clock 0;
    predecessor_socket_expected_actions = no_xpv;
  },
  ground arith,
  st,
  refl,
  tr,
  refl,
  refl,
)
