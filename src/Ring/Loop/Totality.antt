-- ===== src/Ring/Loop/Totality.antt =====
-- The loops inside one pass of src/p2pmd/p2pmd_server.c end.
use synergy_wrapper.Base.{
  ℕ, zero, suc, ◌+◌, ◌≤◌, ◌<◌, ◌≡◌, ◌≢◌, refl, List, [], ◌∷◌, Option, none, some, arith, Bool-cases,
  inl, inr, ◌⊎◌, ◌==◌,
}
use synergy_wrapper.Ring.Types.{ExpectedAction, relay_backwards, replicate_backwards}
use synergy_wrapper.Ring.Node.{Node, Outcome}
use synergy_wrapper.Ring.Reptype
use synergy_wrapper.Ring.Loop.Predecessor.{
  predecessor_pass, predecessor_timeout, predecessor_socket_handler, drop_result,
}
use synergy_wrapper.Ring.Loop.Successor.{filter_pongs}

-- One of the numbers received behind the first is no PONG_REP.
abbrev pub HasAnswer : List (Option ℕ) → Type 0
HasAnswer [] = ⊥
HasAnswer (none ∷ rest) = HasAnswer rest
HasAnswer (some v ∷ rest) = (v ≢ Reptype.pong_rep) ⊎ HasAnswer rest

-- The filter of PONG_REP ends as soon as another number is received, with a number that is none.
pub filter_pongs_total :
    (s_recv : ℕ) (attempts : List (Option ℕ))
    → (s_recv ≢ Reptype.pong_rep) ⊎ HasAnswer attempts
    → (v : ℕ) × (filter_pongs s_recv attempts ≡ some v) × (v ≢ Reptype.pong_rep)
unfolding filter_pongs
filter_pongs_total s [] h = (s, ground arith, ground arith)
filter_pongs_total s (none ∷ rest) h = elim (Bool-cases (s == Reptype.pong_rep)) [
  | inl e ↦ rw e (filter_pongs_total s rest (ground arith))
  | inr e ↦ rw e (s, refl, ground arith)
]
filter_pongs_total s (some v ∷ rest) h = elim (Bool-cases (s == Reptype.pong_rep)) [
  | inl e ↦ rw e (filter_pongs_total v rest (ground arith))
  | inr e ↦ rw e (s, refl, ground arith)
]

-- A call that is not late, or that waits for no list, makes no further call.
predecessor_pass_ends :
    (again : Node → Option Outcome) (self : Node) (now : ℕ)
    → now ≤ self.predecessor_lastpoll_time + self.wait
    → predecessor_pass again self none now ≢ none
unfolding predecessor_pass
predecessor_pass_ends again self now le = ground arith

-- the node that the handler calls itself on
abbrev retried : Node → ℕ → ExpectedAction → Node
retried self now action = record self {
  predecessor_lastpoll_time = now;
  server_triggered_actions = action;
}

-- The call inside the handler is made on the polled node, with the list triggered again.
predecessor_pass_congr :
    (f : Node → Option Outcome) (self : Node) (now : ℕ)
    → f (retried self now relay_backwards) ≢ none
    → f (retried self now replicate_backwards) ≢ none
    → predecessor_pass f self none now ≢ none
unfolding predecessor_pass predecessor_timeout drop_result
predecessor_pass_congr f self now h k = ground (arith, h, k)

-- The handler returns when one of the calls inside it reads the clock at most `wait` after the call that makes it:
-- if the n-th of them does, counted from 0, then n + 2 calls of fuel are enough, whatever the socket yields.
pub predecessor_socket_handler_returns :
    (n : ℕ) (self : Node) (readable : Option ℕ) (clock : ℕ → ℕ)
    → clock (suc n) ≤ clock n + self.wait
    → predecessor_socket_handler (suc (suc n)) self readable clock ≢ none
unfolding predecessor_socket_handler
predecessor_socket_handler_returns n self (some buf) clock h =
    unfold predecessor_pass in ground arith
predecessor_socket_handler_returns zero self none clock h =
    let late = λ (s : Node) (e : s.predecessor_lastpoll_time ≡ clock 0) (w : s.wait ≡ self.wait).
      predecessor_pass_ends (λ _. none) s (clock 1) (omega (arith, h, e, w)) in
    predecessor_pass_congr (λ s. predecessor_pass (λ _. none) s none (clock 1)) self (clock 0)
      (late (retried self (clock 0) relay_backwards) refl refl)
      (late (retried self (clock 0) replicate_backwards) refl refl)
predecessor_socket_handler_returns (suc n) self none clock h =
    let rest = λ (s : Node) (w : s.wait ≡ self.wait).
      predecessor_socket_handler_returns n s none (λ m. clock (suc m)) (omega (arith, h, w)) in
    predecessor_pass_congr
      (λ s. predecessor_socket_handler (suc (suc n)) s none (λ m. clock (suc m))) self (clock 0)
      (rest (retried self (clock 0) relay_backwards) refl)
      (rest (retried self (clock 0) replicate_backwards) refl)

retries :
    (again : Node → Option Outcome) (self : Node) (now : ℕ) (action : ExpectedAction)
    → (action ≡ relay_backwards) ⊎ (action ≡ replicate_backwards)
    → self.predecessor_socket_expected_actions ≡ action
    → self.predecessor_lastpoll_time + self.wait < now
    → again (retried self now action) ≡ none
    → predecessor_pass again self none now ≡ none
unfolding predecessor_pass predecessor_timeout drop_result
retries again self now action (inl a) e h r = ground (arith, a, e, h, r)
retries again self now action (inr a) e h r = ground (arith, a, e, h, r)

-- While the node waits for the answer to a list that it has sent backwards, and nothing arrives, the handler does not
-- return if each of its calls reads the clock more than `wait` after the one before: no fuel is enough.
pub predecessor_socket_handler_endless :
    (fuel : ℕ) (self : Node) (clock : ℕ → ℕ) (action : ExpectedAction)
    → (action ≡ relay_backwards) ⊎ (action ≡ replicate_backwards)
    → self.predecessor_socket_expected_actions ≡ action
    → self.predecessor_lastpoll_time + self.wait < clock 0
    → ((n : ℕ) → clock n + self.wait < clock (suc n))
    → predecessor_socket_handler fuel self none clock ≡ none
unfolding predecessor_socket_handler
predecessor_socket_handler_endless zero self clock action a e h k = refl
predecessor_socket_handler_endless (suc fuel) self clock action a e h k =
    retries (λ s. predecessor_socket_handler fuel s none (λ n. clock (suc n))) self (clock 0) action
      a e h
      (predecessor_socket_handler_endless fuel (retried self (clock 0) action) (λ n. clock (suc n))
        action a e (k 0) (λ n. k (suc n)))
