-- ===== src/Tests/Timers.antt =====
-- Exchanges with the successor and the predecessor of a small node (src/p2pmd/p2pmd_server.c).
use synergy_wrapper.Base.{
  take, ℕ, ◌+◌, ◌*◌, inr, length, ◌≡◌, ◌≢◌, refl, inl, [], ◌∷◌, none, some, true, false, arith,
  get_or,
}
use synergy_wrapper.Ring.Types.{
  member, handling_stabilize, no_xpv, trigger_stabilize, ping_and_stabilize_req,
  ping_and_stabilize_req2, stabilize_ack, pred_rep_ping1, pred_rep_ping3, replicate_backwards,
  success,
}
use synergy_wrapper.Ring.Node.{
  Node, more, last, successor_socket, predecessor_socket, word, text, slots, connect, disconnect,
}
use synergy_wrapper.Ring.NodeInfo.Bounds.{IsWellFormed}
use synergy_wrapper.Ring.Reqtype
use synergy_wrapper.Ring.Reptype
use synergy_wrapper.Ring.Server.Joins.{sent_slots}
use synergy_wrapper.Ring.Loop.{loop_server, run}
use synergy_wrapper.Ring.Loop.Successor.{successor_event, first_received}
use synergy_wrapper.Ring.Loop.Predecessor.{predecessor_socket_handler, predecessor_failed}
use synergy_wrapper.Ring.Loop.Totality.{
  predecessor_socket_handler_returns, predecessor_socket_handler_endless,
}
use synergy_wrapper.Ring.Loop.Bounds.{loop_server-IsWellFormed}
use synergy_wrapper.Ring.Loop.Stabilization.{
  stabilization_answered, silent_successor, stabilize_ack_pass, stabilize_ack_stuck, IsWaiting,
}
use synergy_wrapper.Ring.Loop.Backwards.{
  exchange_backwards, silent_predecessor, find_head_forgotten,
}
use synergy_wrapper.Tests.Samples.{
  info, info-IsWellFormed, node, idle, received_list, reads, silence,
}

-- a clock that shows the same time, and one that moves by 11 from call to call
abbrev still : ℕ → ℕ → ℕ
still t n = t

abbrev slow : ℕ → ℕ
slow n = n * 11 + 11

predecessor_socket_handler_returns_example :
    predecessor_socket_handler 3 (node member no_xpv no_xpv replicate_backwards) none (still 40)
    ≢ none
predecessor_socket_handler_returns_example =
    predecessor_socket_handler_returns 1 (node member no_xpv no_xpv replicate_backwards) none
      (still 40) (omega arith)

predecessor_socket_handler_endless_example :
    predecessor_socket_handler 9 (node member no_xpv no_xpv replicate_backwards) none slow ≡ none
predecessor_socket_handler_endless_example =
    predecessor_socket_handler_endless 9 (node member no_xpv no_xpv replicate_backwards) slow
      replicate_backwards (inr refl) refl (omega arith) (λ n. omega arith)

abbrev waiting : Node
waiting = node handling_stabilize no_xpv stabilize_ack no_xpv

waiting-IsWaiting : IsWaiting waiting
waiting-IsWaiting = record {
  expects = refl;
  idle = refl;
  status = refl;
  untriggered = refl;
  no_token = refl;
}

abbrev paired : Node
paired = node member no_xpv ping_and_stabilize_req no_xpv

silent_successor_example :
    (a b : Node) × (successor_event paired (reads false 0) 10
      ≡ some (
        a,
        last successor_socket (word Reqtype.ping_req)
            ∷ last successor_socket (word Reqtype.ping_req)
            ∷ [],
      ))
    × (a.successor_socket_expected_actions ≡ ping_and_stabilize_req2)
    × (successor_event a (reads false 0) 20
        ≡ some (
          b,
          disconnect successor_socket (paired).successor
              ∷ connect successor_socket (get_or (paired).successor_list 1 [])
              ∷ [],
        ))
    × (b.successor ≡ get_or (paired).successor_list 1 [])
    × (get_or b.successor_list 0 [] ≡ get_or (paired).successor_list 1 [])
    × (b.current_status ≡ member)
    × (b.successor_socket_expected_actions ≡ ping_and_stabilize_req)
silent_successor_example =
    silent_successor paired (reads false 0) 10 20 info-IsWellFormed (omega arith) (omega arith)
      (λ e. ground (arith, e)) refl refl (omega arith) (omega arith)

stabilization_answered_example :
    (a b c : Node) × (successor_event
        (node member trigger_stabilize no_xpv no_xpv)
        (reads false 0)
        1
      ≡ some (a, last successor_socket (word Reqtype.ping_req) ∷ []))
    × (successor_event a (reads true Reptype.pong_rep) 2
        ≡ some (
          b,
          more successor_socket (word Reqtype.stabilize_req)
              ∷ last successor_socket (text (101 ∷ []))
              ∷ [],
        ))
    × (successor_event b (reads true Reptype.stabilize_ack) 3
        ≡ some (c, last successor_socket (word Reqtype.stabilize_syn_req) ∷ []))
    × (c.current_status ≡ member)
    × (c.successor ≡ 98 ∷ [])
    × (c.server_triggered_actions ≡ replicate_backwards)
    × (c.successor_socket_expected_actions ≡ no_xpv)
    × (c.last_stabilize_time ≡ 1)
    × (c.r ≡ 3)
    × (get_or c.successor_list 2 [] ≡ 121 ∷ [])
unfolding first_received
stabilization_answered_example =
    stabilization_answered (node member trigger_stabilize no_xpv no_xpv) (reads false 0)
      (reads true Reptype.pong_rep) (reads true Reptype.stabilize_ack) 1 2 3 2 2 received_list
      info-IsWellFormed refl refl refl (refl, refl) (refl, refl) refl refl (omega arith)
      (omega arith) (omega arith)

exchange_backwards_example :
    (a b c : Node) × (predecessor_socket_handler 2
        (node member replicate_backwards no_xpv no_xpv)
        none
        (still 4)
      ≡ some (a, last predecessor_socket (word Reqtype.ping_req) ∷ [], success))
    × (predecessor_socket_handler 2 a (some Reptype.pong_rep) (still 5)
        ≡ some (
          b,
          more predecessor_socket (word Reqtype.sync_slist)
              ∷ more predecessor_socket (word 3)
              ∷ more predecessor_socket (word 2)
              ∷ last predecessor_socket (slots (sent_slots (idle member)))
              ∷ [],
          success,
        ))
    × (predecessor_socket_handler 2 b (some 72) (still 6) ≡ some (c, [], success))
    × (b.predecessor_socket_expected_actions ≡ replicate_backwards)
    × (c.predecessor_socket_expected_actions ≡ no_xpv)
    × (c.node_list ≡ info)
    × (sent_slots (idle member) ≡ take 2 (idle member).successor_list)
    × (length (sent_slots (idle member)) ≡ 2)
exchange_backwards_example =
    exchange_backwards (node member replicate_backwards no_xpv no_xpv) replicate_backwards (still 4)
      (still 5) (still 6) 3 72 info-IsWellFormed (inl (refl, refl)) refl (omega arith)

silent_predecessor_example :
    (a b : Node) × (predecessor_socket_handler 2
        (node member no_xpv no_xpv pred_rep_ping1)
        none
        (still 11)
      ≡ some (a, last predecessor_socket (word Reqtype.ping_req) ∷ [], success))
    × (predecessor_socket_handler 2 a none (still 22)
        ≡ some (b, last predecessor_socket (word Reqtype.ping_req) ∷ [], success))
    × (predecessor_socket_handler 2 b none (still 33)
        ≡ some (predecessor_failed (record b { predecessor_lastpoll_time = 33 })))
    × (b.predecessor_socket_expected_actions ≡ pred_rep_ping3)
silent_predecessor_example =
    silent_predecessor (node member no_xpv no_xpv pred_rep_ping1) (still 11) (still 22) (still 33)
      refl (omega arith) (omega arith) (omega arith)

-- a pass of an idle node in which nothing happens
quiet_pass : (after : Node) × (loop_server waiting (silence 3) ≡ some (after, [], success))
quiet_pass =
    let (after, e, w, i) =
      stabilize_ack_pass waiting (silence 3) waiting-IsWaiting (refl, refl, refl) in
    (after, e)

loop_server-IsWellFormed_example : IsWellFormed quiet_pass.0.node_list
loop_server-IsWellFormed_example =
    loop_server-IsWellFormed waiting quiet_pass.0 (silence 3) [] success info-IsWellFormed
      (λ id i r e h. absurd (ground (arith, e))) quiet_pass.1

stabilize_ack_stuck_example :
    (after : Node) × (run waiting (silence 3 ∷ silence 40 ∷ []) ≡ some after)
    × IsWaiting after
    × (after.node_list ≡ info)
stabilize_ack_stuck_example =
    stabilize_ack_stuck waiting (silence 3 ∷ silence 40 ∷ []) waiting-IsWaiting
      ((refl, refl, refl), ((refl, refl, refl), tt))

find_head_forgotten_example :
    (after : Node) × (loop_server (node member no_xpv no_xpv pred_rep_ping3) (silence 30)
      ≡ some (after, [], success))
    × (after.current_status ≡ member)
    × (after.predecessor_socket_expected_actions ≡ no_xpv)
    × (after.server_triggered_actions ≡ no_xpv)
    × (after.predecessor_triggered_actions ≡ no_xpv)
    × (after.node_list ≡ info)
find_head_forgotten_example =
    find_head_forgotten (node member no_xpv no_xpv pred_rep_ping3) (silence 30) refl refl refl refl
      refl (refl, refl, refl) (omega arith) (omega arith)
