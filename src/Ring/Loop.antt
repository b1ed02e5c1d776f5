-- ===== src/Ring/Loop.antt =====
-- p2pm_loop_server of src/p2pmd/p2pmd_server.c: one pass over the polled sockets.
pub mod Successor
pub mod Predecessor
pub mod Totality
pub mod Bounds
pub mod Stabilization
pub mod Backwards
use synergy_wrapper.Base.{
  ℕ, suc, ◌+◌, List, [], ◌∷◌, Bool, Option, none, some, if◌then◌else◌, ltb, ◌&&◌, ◌++◌,
}
use synergy_wrapper.Ring.Types.{
  Bytes, member, handling_stabilize, is_status, no_xpv, trigger_stabilize, Opcode, success,
  tryagain,
}
use synergy_wrapper.Ring.Node.{Node, Effect, Incoming, Outcome}
use synergy_wrapper.Ring.Server.{dispatch}
use Successor.{SuccessorInput, successor_socket_handler}
use Predecessor.{predecessor_socket_handler}

-- What the calls of one pass yield. `server` is `none` if the server's socket does not poll readable,
-- `some none` if the receive of the client's id fails, and else the id, the action and the rest. `clock` is what the
-- calls of the predecessor's handler read, and `inner_calls` how many of them are inside another at most.
pub record Pass : Type 0 where
  pub server : Option (Option (Bytes × ℕ × Incoming))
  pub successor : SuccessorInput
  pub predecessor : Option ℕ
  pub now : ℕ
  pub clock : ℕ → ℕ
  pub inner_calls : ℕ

-- the server's part of a pass; `none` is the return of P2PM_OP_TRYAGAIN
unfoldable pub serve : Node → Option (Option (Bytes × ℕ × Incoming)) → Option (Node × List Effect)
serve self input = elim input [
  | none ↦ some (self, [])
  | some request ↦ elim request [
    | none ↦ none
    | some (id, code, i) ↦
        let (self', done, result) = dispatch code (record self { clientid = id }) i in
        some (self', done)
  ]
]

-- the timer of stabilization
unfoldable pub check_timer : Node → ℕ → Node
check_timer self now =
    if is_status self.current_status member
      && ltb (self.last_stabilize_time + self.stabilize_interval) now
    then record self {
      server_triggered_actions = trigger_stabilize;
      current_status = handling_stabilize;
    }
    else self

-- the handlers of the two other sockets, and the reset at the end
unfoldable pub finish_pass : Node → Pass → Option (Node × List Effect)
finish_pass self p = elim (successor_socket_handler self p.successor p.now) [
  | none ↦ none
  | some (s, forward) ↦
      elim (predecessor_socket_handler (suc p.inner_calls) s p.predecessor p.clock) [
        | none ↦ none
        | some (t, backward, result) ↦
            some (record t { server_triggered_actions = no_xpv }, forward ++ backward)
      ]
]

-- p2pm_loop_server; `none` is a pass that never returns
unfoldable pub loop_server : Node → Pass → Option Outcome
loop_server self p = elim (serve self p.server) [
  | none ↦ some (self, [], tryagain)
  | some (s, served) ↦ elim (finish_pass (check_timer s p.now) p) [
    | none ↦ none
    | some (t, sent) ↦ some (t, served ++ sent, success)
  ]
]

-- the calls of p2pm_loop_server in the loop of p2pmd_actor, as long as they return
unfoldable pub run : Node → List Pass → Option Node
run self [] = some self
run self (p ∷ ps) = elim (loop_server self p) [
  | none ↦ none
  | some (after, sent, result) ↦ run after ps
]
