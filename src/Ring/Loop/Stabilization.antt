-- ===== src/Ring/Loop/Stabilization.antt =====
-- Stabilization from the side that asks, and what a silent or failing neighbour leads to
-- (src/p2pmd/p2pmd_server.c).
use synergy_wrapper.Base.{
  ℕ, ◌+◌, ◌-◌, ◌≤◌, ◌<◌, ◌≡◌, ◌≢◌, refl, List, [], ◌∷◌, Option, none, some, arith, set, get_or,
  length-set, get_or-set, false, true, ltb, leb, ◌&&◌, if◌then◌else◌, min, All, ◌∙◌,
}
use synergy_wrapper.Ring.Types.{
  Bytes, NodeInfo, no_xpv, success, member, handling_stabilize, Status, stabilize_ack,
  ping_and_stabilize_req, ping_and_stabilize_req2, stabilize_find_head, replicate_backwards,
  trigger_stabilize, max_id_len,
}
use synergy_wrapper.Ring.NodeInfo.{pstrlen, copy_successor_list}
use synergy_wrapper.Ring.NodeInfo.Copy.{copy_successor_list_lem}
use synergy_wrapper.Ring.NodeInfo.Condense.{condense_lem}
use synergy_wrapper.Ring.NodeInfo.Bounds.{IsWellFormed}
use synergy_wrapper.Ring.Node.{Node, more, last, connect, disconnect, successor_socket, word, text}
use synergy_wrapper.Ring.Reqtype
use synergy_wrapper.Ring.Reptype
use synergy_wrapper.Ring.Loop.Successor.{
  SuccessorInput, receive_ack, next_successor, fail_over, successor_event, successor_readable,
  successor_switch, first_received, successor_timeout, start_stabilize, filter_pongs,
  successor_socket_handler, forward_token,
}
use synergy_wrapper.Ring.Loop.Predecessor.{predecessor_socket_handler, predecessor_pass}
use synergy_wrapper.Ring.Loop.{Pass, serve, check_timer, finish_pass, loop_server, run}

-- The socket polls readable, and the first number that it yields is `v`.
abbrev pub Yields : SuccessorInput → ℕ → Type 0
Yields i v = (i.readable ≡ true) × (first_received i.receives ≡ some v)

filter_pongs_first :
    (v : ℕ) (attempts : List (Option ℕ)) → v ≢ Reptype.pong_rep → filter_pongs v attempts ≡ some v
unfolding filter_pongs
filter_pongs_first v [] h = ground arith
filter_pongs_first v (none ∷ rest) h = ground arith
filter_pongs_first v (some x ∷ rest) h = ground arith

-- A stabilization that the successor answers. The timer's pass sends PING_REQ; PONG_REP is answered by
-- STABILIZE_REQ with the node's endpoint; STABILIZE_ACK with a count in range and a list is answered by
-- STABILIZE_SYN_REQ. The node is then a member, its successor stays, the list is the received one
-- shifted in behind the successor, and the list is to be sent backwards.
pub stabilization_answered :
    (self : Node) (i j k : SuccessorInput) (t1 t2 t3 r n : ℕ) (temp : List Bytes)
    → IsWellFormed self.node_list
    → self.server_triggered_actions ≡ trigger_stabilize
    → self.successor_socket_expected_actions ≡ no_xpv
    → i.readable ≡ false
    → Yields j Reptype.pong_rep
    → Yields k Reptype.stabilize_ack
    → k.r ≡ some r
    → k.slots ≡ some temp
    → 0 < r
    → r ≤ self.r_max
    → pstrlen (get_or temp 0 []) ≤ max_id_len
    → (a b c : Node) × (successor_event self i t1
        ≡ some (a, last successor_socket (word Reqtype.ping_req) ∷ []))
      × (successor_event a j t2
          ≡ some (
            b,
            more successor_socket (word Reqtype.stabilize_req)
                ∷ last successor_socket (text self.endpoint)
                ∷ [],
          ))
      × (successor_event b k t3
          ≡ some (c, last successor_socket (word Reqtype.stabilize_syn_req) ∷ []))
      × (c.current_status ≡ member)
      × (c.successor ≡ self.successor)
      × (c.server_triggered_actions ≡ replicate_backwards)
      × (c.successor_socket_expected_actions ≡ no_xpv)
      × (c.last_stabilize_time ≡ t1)
      × (c.r ≡ min (r + 1) self.r_max)
      × (get_or c.successor_list n [] ≡ (
          if leb 1 n && ltb n (min (r + 1) self.r_max)
          then get_or temp (n - 1) []
          else get_or self.successor_list n []))
unfolding successor_event start_stabilize successor_readable successor_switch receive_ack
    copy_successor_list
stabilization_answered self i j k t1 t2 t3 r n temp w e x rd yj yk er es pos le fits =
    let a = record self {
      last_stabilize_time = t1;
      successor_lastpoll_time = t1;
      successor_socket_expected_actions = ping_and_stabilize_req;
      server_triggered_actions = no_xpv;
    } in
    let b = record a {
      successor_lastpoll_time = t2;
      successor_socket_expected_actions = stabilize_ack;
    } in
    let m = record (self.node_list) { r = r } in
    let c = record b {
      successor_lastpoll_time = t3;
      node_list = (copy_successor_list m temp r).0;
      server_triggered_actions = replicate_backwards;
      successor_socket_expected_actions = no_xpv;
      current_status = member;
    } in
    let list = copy_successor_list_lem m temp r n w.slots w.some_slot (omega arith) fits in
    let same : c.successor ≡ self.successor = ground arith in
    let first = filter_pongs_first Reptype.stabilize_ack k.attempts (omega arith) in
    (
      a,
      b,
      c,
      ground arith,
      ground arith,
      ground (arith, first),
      refl,
      same,
      refl,
      refl,
      refl,
      list.2,
      list.0,
    )

-- The list of a node that gives up its successor: with fewer than `r_max` entries in use, the second
-- entry becomes the first, the second is cleared, and the others stay where they are.
pub next_successor_lem :
    (n : NodeInfo) (k : ℕ)
    → IsWellFormed n
    → n.r < n.r_max
    → 1 < n.r_max
    → let m = next_successor n in
      (m.successor ≡ get_or n.successor_list 1 [])
      × (get_or m.successor_list k [] ≡ (
          if ltb k 1
          then get_or n.successor_list 1 []
          else if ltb k 2
          then []
          else get_or n.successor_list k []))
unfolding next_successor
next_successor_lem n k w lt two =
    let xs = set n.successor_list 0 (get_or n.successor_list 1 []) in
    ground (
      arith,
      condense_lem (record n { successor_list = xs }),
      length-set n.successor_list 0 (get_or n.successor_list 1 []),
      get_or-set n.successor_list 0 0 (get_or n.successor_list 1 []) [],
      get_or-set n.successor_list 0 k (get_or n.successor_list 1 []) [],
      get_or-set xs 1 0 [] [],
      get_or-set xs 1 k [] [],
      w.slots,
    )

-- A node whose successor fails twice in a row, with fewer than `r_max` entries in use, looks for a head
-- although entries from the third on are still there: the first failure goes to the second entry and
-- clears its slot, and the second failure finds that slot empty.
pub fail_over_twice :
    (self : Node) (k : ℕ)
    → IsWellFormed self.node_list
    → self.r < self.r_max
    → 1 < self.r_max
    → get_or self.successor_list 1 [] ≢ []
    → let once = fail_over self in
      let twice = fail_over once.0 in
      (once.1
        ≡ disconnect successor_socket self.successor
          ∷ connect successor_socket (get_or self.successor_list 1 [])
          ∷ [])
      × (once.0.successor ≡ get_or self.successor_list 1 [])
      × (once.0.current_status ≡ self.current_status)
      × (once.0.successor_socket_expected_actions ≡ ping_and_stabilize_req)
      × (twice.0.current_status ≡ Status.finding_head)
      × (twice.0.server_triggered_actions ≡ stabilize_find_head)
      × (get_or twice.0.successor_list (k + 2) [] ≡ get_or self.successor_list (k + 2) [])
unfolding fail_over
fail_over_twice self k w lt two ne = ground (
  arith,
  next_successor_lem self.node_list 1 w lt two,
  next_successor_lem self.node_list (k + 2) w lt two,
)

fail_over_lem :
    (self : Node)
    → IsWellFormed self.node_list
    → self.r < self.r_max
    → 1 < self.r_max
    → get_or self.successor_list 1 [] ≢ []
    → let (after, sent) = fail_over self in
      (sent
        ≡ disconnect successor_socket self.successor
          ∷ connect successor_socket (get_or self.successor_list 1 [])
          ∷ [])
      × (after.successor ≡ get_or self.successor_list 1 [])
      × (after.current_status ≡ self.current_status)
      × (after.successor_socket_expected_actions ≡ ping_and_stabilize_req)
      × (get_or after.successor_list 0 [] ≡ get_or self.successor_list 1 [])
unfolding fail_over
fail_over_lem self w lt two ne = ground (arith, next_successor_lem self.node_list 0 w lt two)

-- A successor that stays silent, at a node with a second entry in its list and fewer than `r_max` in use: the first
-- timeout sends two pings and expects the last of the three answers at once; the second timeout makes the second
-- entry the successor and the first entry, replaces the connection, and expects an answer from the start.
pub silent_successor :
    (self : Node) (i : SuccessorInput) (t1 t2 : ℕ)
    → IsWellFormed self.node_list
    → self.r < self.r_max
    → 1 < self.r_max
    → get_or self.successor_list 1 [] ≢ []
    → self.successor_socket_expected_actions ≡ ping_and_stabilize_req
    → i.readable ≡ false
    → self.successor_lastpoll_time + self.wait ≤ t1
    → t1 + self.wait ≤ t2
    → (a b : Node) × (successor_event self i t1
        ≡ some (
          a,
          last successor_socket (word Reqtype.ping_req)
              ∷ last successor_socket (word Reqtype.ping_req)
              ∷ [],
        ))
      × (a.successor_socket_expected_actions ≡ ping_and_stabilize_req2)
      × (successor_event a i t2
          ≡ some (
            b,
            disconnect successor_socket self.successor
                ∷ connect successor_socket (get_or self.successor_list 1 [])
                ∷ [],
          ))
      × (b.successor ≡ get_or self.successor_list 1 [])
      × (get_or b.successor_list 0 [] ≡ get_or self.successor_list 1 [])
      × (b.current_status ≡ self.current_status)
      × (b.successor_socket_expected_actions ≡ ping_and_stabilize_req)
unfolding successor_event successor_timeout
silent_successor self i t1 t2 w lt two ne e rd h k =
    let a = record self {
      successor_lastpoll_time = t1;
      successor_socket_expected_actions = ping_and_stabilize_req2;
    } in
    let late = record a { successor_lastpoll_time = t2 } in
    let (sent, same, status, expects, first) = fail_over_lem late w lt two ne in
    (a, (fail_over late).0, ground arith, refl, ground (arith, sent), same, first, status, expects)

-- A node that waits for STABILIZE_ACK, with nothing to do for its predecessor and no token to send.
pub record IsWaiting (self : Node) : Type 0 where
  pub expects : self.successor_socket_expected_actions ≡ stabilize_ack
  pub idle : self.predecessor_socket_expected_actions ≡ no_xpv
  pub status : self.current_status ≡ handling_stabilize
  pub untriggered : self.server_triggered_actions ≡ no_xpv
  pub no_token : self.send_has_token ≡ false

-- No socket polls readable.
abbrev pub IsSilent : Pass → Type 0
IsSilent p = (p.server ≡ none) × (p.successor.readable ≡ false) × (p.predecessor ≡ none)

-- What one silent pass leaves: the poll times move, and nothing else.
pub stabilize_ack_pass :
    (self : Node) (p : Pass)
    → IsWaiting self
    → IsSilent p
    → (after : Node) × (loop_server self p ≡ some (after, [], success))
      × IsWaiting after
      × (after.node_list ≡ self.node_list)
unfolding loop_server serve check_timer finish_pass successor_socket_handler successor_event
    successor_timeout forward_token predecessor_socket_handler predecessor_pass
stabilize_ack_pass self p w q = (
  record self {
    successor_lastpoll_time =
        if leb (self.successor_lastpoll_time + self.wait) p.now
        then p.now
        else self.successor_lastpoll_time;
    predecessor_lastpoll_time =
        if ltb (self.predecessor_lastpoll_time + self.wait) (p.clock 0)
        then p.clock 0
        else self.predecessor_lastpoll_time;
  },
  ground arith,
  record {
    expects = w.expects;
    idle = w.idle;
    status = w.status;
    untriggered = w.untriggered;
    no_token = w.no_token;
  },
  refl,
)

-- A node that waits for STABILIZE_ACK from a successor that has gone silent, with nothing triggered, nothing expected
-- from its predecessor and no token to send, waits for ever: after any number of passes in which no socket polls
-- readable, at whatever times, it still waits, and its neighbours and its list are the same.
pub stabilize_ack_stuck :
    (self : Node) (ps : List Pass)
    → IsWaiting self
    → All IsSilent ps
    → (after : Node) × (run self ps ≡ some after)
      × IsWaiting after
      × (after.node_list ≡ self.node_list)
unfolding run
stabilize_ack_stuck self [] w q = (self, refl, w, refl)
stabilize_ack_stuck self (p ∷ ps) w q =
    let (mid, step, v, same) = stabilize_ack_pass self p w q.0 in
    let (after, rest, u, kept) = stabilize_ack_stuck mid ps v q.1 in
    (after, rw (step, run) rest, u, kept ∙ same)
