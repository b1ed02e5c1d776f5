-- ===== src/Ring/Loop/Bounds.antt =====
-- A pass of p2pm_loop_server (src/p2pmd/p2pmd_server.c) as a whole: it keeps the shape of
-- the successor list.
use synergy_wrapper.Base.{
  ℕ, ◌≤◌, ◌≡◌, ◌≢◌, ◌⊎◌, inl, inr, List, [], Option, none, some, arith, set, get_or, length-set,
  Option-cases, suc, zero,
}
use synergy_wrapper.Ring.Types.{Bytes, NodeInfo, relay_backwards, replicate_backwards, Opcode}
use synergy_wrapper.Ring.NodeInfo.Bounds.{IsWellFormed, condense-IsWellFormed, copy-IsWellFormed}
use synergy_wrapper.Ring.Node.{Node, Outcome, Effect, Incoming}
use synergy_wrapper.Ring.Reqtype
use synergy_wrapper.Ring.Reptype
use synergy_wrapper.Ring.Server.Joins.{form_one_ring}
use synergy_wrapper.Ring.Server.Bounds.{Announces, dispatch-IsWellFormed}
use synergy_wrapper.Ring.Loop.Predecessor.{
  predecessor_pass, predecessor_timeout, predecessor_failed, predecessor_readable, ponged,
  acknowledged, start_triggered, drop_result, predecessor_socket_handler,
}
use synergy_wrapper.Ring.Loop.Successor.{
  SuccessorInput, receive_ack, next_successor, fail_over, successor_event, successor_readable,
  successor_timeout, start_stabilize, forward_token, successor_socket_handler, filter_pongs,
  ack_failed, first_received, successor_switch,
}
use synergy_wrapper.Ring.Loop.Totality.{HasAnswer, filter_pongs_total}
use synergy_wrapper.Ring.Loop.{Pass, serve, check_timer, finish_pass, loop_server}

-- The successor's socket yields a number, and if that is PONG_REP another number in the end.
abbrev pub Answers : SuccessorInput → ℕ → Type 0
Answers i v = (first_received i.receives ≡ some v) × ((v ≢ Reptype.pong_rep) ⊎ HasAnswer i.attempts)

-- The successor's handler returns, whatever its state is, if its socket Answers.
pub successor_socket_handler_total :
    (self : Node) (i : SuccessorInput) (now first : ℕ)
    → Answers i first
    → successor_socket_handler self i now ≢ none
unfolding successor_socket_handler successor_event successor_readable successor_switch
successor_socket_handler_total self i now first (e, h) =
    let (v, f, ne) = filter_pongs_total first i.attempts h in ground (arith, e, f)

-- the shape of the list in the result of a handler
abbrev KeepsShape {ℓ} : {A : Type ℓ} → (A → NodeInfo) → Option A → Type 0
KeepsShape f none = Unit {0}
KeepsShape f (some a) = IsWellFormed (f a)

next_successor-IsWellFormed : (n : NodeInfo) → IsWellFormed n → IsWellFormed (next_successor n)
unfolding next_successor
next_successor-IsWellFormed n w =
    let m = record n { successor_list = set n.successor_list 0 (get_or n.successor_list 1 []) } in
    ground
      (arith, length-set n.successor_list 0 (get_or n.successor_list 1 []), condense-IsWellFormed m)

receive_ack-IsWellFormed :
    (self : Node) (s_recv : ℕ) (r : Option ℕ) (slots : Option (List Bytes))
    → IsWellFormed self.node_list
    → IsWellFormed (receive_ack self s_recv r slots).0.node_list
unfolding receive_ack ack_failed
receive_ack-IsWellFormed self s_recv none slots w = ground arith
receive_ack-IsWellFormed self s_recv (some r) none w = ground arith
receive_ack-IsWellFormed self s_recv (some r) (some temp) w =
    ground (arith, copy-IsWellFormed (record (self.node_list) { r = r }) temp r)

successor_switch-IsWellFormed :
    (self : Node) (i : SuccessorInput) (first : ℕ)
    → IsWellFormed self.node_list
    → KeepsShape (λ o. o.0.node_list) (successor_switch self i first)
unfolding successor_switch
successor_switch-IsWellFormed self i first w = elim (Option-cases (filter_pongs first i.attempts)) [
  | inl e ↦ ground arith
  | inr (v, e) ↦ ground (arith, receive_ack-IsWellFormed self v i.r i.slots w)
]

successor_readable-IsWellFormed :
    (self : Node) (i : SuccessorInput)
    → IsWellFormed self.node_list
    → KeepsShape (λ o. o.0.node_list) (successor_readable self i)
unfolding successor_readable
successor_readable-IsWellFormed self i w = elim (Option-cases (first_received i.receives)) [
  | inl e ↦ rw (e, successor_readable) tt
  | inr (v, e) ↦ rw (e, successor_readable) (successor_switch-IsWellFormed self i v w)
]

fail_over-IsWellFormed :
    (self : Node) → IsWellFormed self.node_list → IsWellFormed (fail_over self).0.node_list
unfolding fail_over
fail_over-IsWellFormed self w = ground (arith, next_successor-IsWellFormed self.node_list w)

successor_timeout-IsWellFormed :
    (self : Node) → IsWellFormed self.node_list → IsWellFormed (successor_timeout self).0.node_list
unfolding successor_timeout
successor_timeout-IsWellFormed self w = ground (arith, fail_over-IsWellFormed self w)

successor_socket_handler-IsWellFormed :
    (self : Node) (i : SuccessorInput) (now : ℕ)
    → IsWellFormed self.node_list
    → KeepsShape (λ o. o.0.node_list) (successor_socket_handler self i now)
unfolding successor_socket_handler successor_event start_stabilize forward_token
successor_socket_handler-IsWellFormed self i now w =
    let polled = record self { successor_lastpoll_time = now } in
    ground
      (arith, successor_readable-IsWellFormed polled i w, successor_timeout-IsWellFormed polled w)

predecessor_readable-node_list :
    (self : Node) (buf : ℕ) → (predecessor_readable self buf).0.node_list ≡ self.node_list
unfolding predecessor_readable ponged acknowledged
predecessor_readable-node_list self buf = ground arith

predecessor_failed-IsWellFormed :
    (self : Node) → IsWellFormed self.node_list → IsWellFormed (predecessor_failed self).0.node_list
unfolding predecessor_failed form_one_ring
predecessor_failed-IsWellFormed self w =
    ground (arith, length-set self.successor_list 0 self.endpoint)

predecessor_timeout-IsWellFormed :
    (again : Node → Option Outcome) (self : Node)
    → IsWellFormed self.node_list
    → ((s : Node) → IsWellFormed s.node_list → KeepsShape (λ o. o.0.node_list) (again s))
    → KeepsShape (λ o. o.0.node_list) (predecessor_timeout again self)
unfolding predecessor_timeout drop_result
predecessor_timeout-IsWellFormed again self w h = ground (
  arith,
  predecessor_failed-IsWellFormed self w,
  h (record self { server_triggered_actions = relay_backwards }) w,
  h (record self { server_triggered_actions = replicate_backwards }) w,
)

predecessor-IsWellFormed :
    (fuel : ℕ) (self : Node) (readable : Option ℕ) (clock : ℕ → ℕ)
    → IsWellFormed self.node_list
    → KeepsShape (λ o. o.0.node_list) (predecessor_socket_handler fuel self readable clock)
unfolding predecessor_socket_handler predecessor_pass start_triggered
predecessor-IsWellFormed zero self readable clock w = tt
predecessor-IsWellFormed (suc fuel) self (some buf) clock w =
    let polled = record self { predecessor_lastpoll_time = clock 0 } in
    rw (predecessor_readable-node_list polled buf) w
predecessor-IsWellFormed (suc fuel) self none clock w =
    let polled = record self { predecessor_lastpoll_time = clock 0 } in
    let later = λ (n : ℕ). clock (suc n) in
    let again = λ (s : Node). predecessor_socket_handler fuel s none later in
    ground (
      arith,
      predecessor_timeout-IsWellFormed again polled w
          (λ s v. predecessor-IsWellFormed fuel s none later v),
    )

finish_pass-IsWellFormed :
    (self : Node) (p : Pass)
    → IsWellFormed self.node_list
    → KeepsShape (λ o. o.0.node_list) (finish_pass self p)
unfolding finish_pass
finish_pass-IsWellFormed self p w =
    elim (Option-cases (successor_socket_handler self p.successor p.now)) [
      | inl e ↦ rw (e, finish_pass) tt
      | inr ((s, forward), e) ↦
          let v = successor_socket_handler-IsWellFormed self p.successor p.now w in
          rw (e, finish_pass)
            (ground (
              arith,
              predecessor-IsWellFormed (suc p.inner_calls) s p.predecessor p.clock (rw e at v),
            ))
    ]

check_timer-node_list : (self : Node) (now : ℕ) → (check_timer self now).node_list ≡ self.node_list
unfolding check_timer
check_timer-node_list self now = ground arith

serve-IsWellFormed :
    (self : Node) (p : Pass)
    → IsWellFormed self.node_list
    → ((id : Bytes) (i : Incoming) (r : ℕ)
        → p.server ≡ some (some (id, Reqtype.join_cmt, i))
        → Announces i r
        → r ≤ self.r_max)
    → KeepsShape (λ o. o.0.node_list) (serve self p.server)
unfolding serve
serve-IsWellFormed self p w h = elim (Option-cases p.server) [
  | inl e ↦ rw (e, serve) w
  | inr (none, e) ↦ rw (e, serve) tt
  | inr (some (id, code, i), e) ↦
      rw (e, serve)
        (dispatch-IsWellFormed code (record self { clientid = id }) i w
          (λ c r a. h id i r (ground arith) a))
]

-- A pass keeps the shape of the successor list, provided that a JOIN_CMT in it announces no more
-- entries than the node has slots.
pub loop_server-IsWellFormed :
    (self after : Node) (p : Pass) (sent : List Effect) (result : Opcode)
    → IsWellFormed self.node_list
    → ((id : Bytes) (i : Incoming) (r : ℕ)
        → p.server ≡ some (some (id, Reqtype.join_cmt, i))
        → Announces i r
        → r ≤ self.r_max)
    → loop_server self p ≡ some (after, sent, result)
    → IsWellFormed after.node_list
unfolding loop_server
loop_server-IsWellFormed self after p sent result w h run =
    elim (Option-cases (serve self p.server)) [
      | inl e ↦ ground arith
      | inr ((s, served), e) ↦
          let v = rw e at (serve-IsWellFormed self p w h) in
          let t = check_timer s p.now in
          ground (arith, finish_pass-IsWellFormed t p (rw (check_timer-node_list s p.now) v))
    ]
