-- ===== src/Space/Dispatch/Closing.antt =====
-- A TsTerm at handler of src/tsd/tsd.c, and the requests after it.
use synergy_wrapper.Base.{
  ℕ, ◌≡◌, ◌<◌, refl, ap, ◌∙◌, List, [], ◌∷◌, ◌++◌, Bool, true, false, none, some, Bytes, length,
  All, subst, arith,
}
use synergy_wrapper.Space.Types.{Tuple, BlockingRequest, term}
use synergy_wrapper.Space.Zlistx.{Zlistx}
use synergy_wrapper.Space.Element.{Daemon, Element, Output, last, pass, success, returned}
use synergy_wrapper.Ring.Node.{word}
use synergy_wrapper.Space.Element.{ts_term}
use synergy_wrapper.Space.Connect.{
  ts_term_send_decomission_signal, ts_term_clear_requests, space_token,
}
use synergy_wrapper.Space.Connect.Drain.{answers, term_answers}
use synergy_wrapper.Space.Peers.{Space}
use synergy_wrapper.Space.Dispatch.{
  SpaceTable, Request, handled, stored, of_space, unset, switch, terminate, clear_space, act,
  handler, refuse, clientid_of, namespace_of, command_of,
}
use synergy_wrapper.Space.Dispatch.Refusals.{Names, handler_acts}
use synergy_wrapper.Space.Dispatch.Names.{IsText}
use synergy_wrapper.Space.Dispatch.Later.{
  clientid_of-text, Asks, Spares, left_by, Reaches, closed-Refuses, Reaches-keeps,
}

module _ (tuples : Zlistx Tuple) (requests : Zlistx BlockingRequest) (patterns : Zlistx Bytes)
    (regex : Bytes → Bytes → Bool) (strtoul : Bytes → ℕ)
    (table : SpaceTable (Space tuples requests patterns regex strtoul)) where
  decommission_lem :
      (self : Daemon) (space : Element tuples requests)
      → space.is_activated ≡ true
      → ts_term_send_decomission_signal tuples requests self space
        ≡ (record space { is_activated = false }, pass (space_token self space.space_name 1) ∷ [])
  unfolding ts_term_send_decomission_signal
  decommission_lem self space on = ground (arith, on)

  clear_lem :
      (fuel : ℕ) (space after : Element tuples requests) (sent out : List Output)
      → ts_term_clear_requests tuples requests fuel space ≡ returned after out success
      → clear_space tuples requests patterns regex strtoul fuel (space, sent)
        ≡ returned (record after { is_activated = false }) (sent ++ out) success
  unfolding clear_space
  clear_lem fuel space after sent out e = rw (clear_space, e) refl

  terminate_lem :
      (self : Daemon) (fuel : ℕ) (space after : Element tuples requests) (out : List Output)
      → space.is_activated ≡ true
      → ts_term_clear_requests tuples requests fuel (record space { is_activated = false })
        ≡ returned after out success
      → terminate tuples requests patterns regex strtoul self fuel space
        ≡ returned
            (record after { is_activated = false })
            (pass (space_token self space.space_name 1) ∷ out)
            success
  unfolding terminate
  terminate_lem self fuel space after out on e =
      ap (clear_space tuples requests patterns regex strtoul fuel) (decommission_lem self space on)
      ∙ clear_lem fuel (record space { is_activated = false }) after
          (pass (space_token self space.space_name 1) ∷ []) out e

  act-Term :
      (self : Daemon) (fuel : ℕ) (spaces : table.Table) (req : Request) (clientid name : Bytes)
      (s : Space tuples requests patterns regex strtoul) (a : ℕ) (after : Element tuples requests)
      (out : List Output)
      → command_of a ≡ term
      → s.element.is_activated ≡ true
      → terminate tuples requests patterns regex strtoul self fuel s.element
        ≡ returned after out success
      → act tuples requests patterns regex strtoul table self fuel spaces req clientid name s a
        ≡ handled (table.write spaces name (record s { element = after })) out none
  unfolding act switch of_space unset stored
  act-Term self fuel spaces req clientid name s a after out k on e = ground (arith, k, on, e)

  handler_closes :
      (self : Daemon) (fuel : ℕ) (spaces : table.Table) (req : Request) (received clientid : Bytes)
      (n : Names tuples requests patterns regex strtoul table spaces req)
      (s : Space tuples requests patterns regex strtoul) (a : ℕ)
      → req.recv_clientid ≡ some received
      → clientid_of received ≡ some clientid
      → n.entry ≡ some s
      → req.recv_action ≡ some a
      → command_of a ≡ term
      → s.element.is_activated ≡ true
      → tuples.items s.element.bcast_queue ≡ []
      → length (requests.items s.element.named_queue_requests) < fuel
      → length (requests.items s.element.bcast_queue_requests) < fuel
      → length (tuples.items s.element.named_queue) < fuel
      → (t : table.Table) × (after : Space tuples requests patterns regex strtoul) × (handler tuples
            requests patterns regex strtoul table self fuel spaces req
          ≡ handled t
              (pass (space_token self s.element.space_name 1)
                  ∷ answers
                      (λ b. last b (word ts_term))
                      (requests.items s.element.named_queue_requests)
                ++ answers
                    (λ b. last b (word ts_term))
                    (requests.items s.element.bcast_queue_requests))
              none)
        × (table.hash_find t (namespace_of n.buf_len n.received) ≡ some after)
        × (after.element.is_activated ≡ false)
  handler_closes self fuel spaces req received clientid n s a e d f g k on none_kept l m o =
      let name = namespace_of n.buf_len n.received in
      let (after, cleared, named_empty, bcast_empty, tuples_empty) =
        term_answers tuples requests fuel (record s.element { is_activated = false }) none_kept l m
          o in
      let s' = record s { element = record after { is_activated = false } } in
      (
        table.write spaces name s',
        s',
        handler_acts tuples requests patterns regex strtoul table self fuel spaces req received
              clientid n s a e d f g
            ∙ act-Term self fuel spaces req clientid name s a
                (record after { is_activated = false }) _ k on
                (terminate_lem self fuel s.element after _ on cleared),
        table.hash_find-write_same spaces name s',
        refl,
      )

  -- A TsTerm from a client whose id is a text of at most 49 bytes, to a space that is activated and keeps no
  -- broadcast tuple, and with more fuel than each of its queues has items: handler tells the ring and answers
  -- every waiting request with TsTerm. And when further requests have been handled, each of which is for another
  -- space or is no TsConnect, a request for the space that is no TsConnect, from a client whose id is such
  -- a text, gets TsEnf at that id, and changes nothing.
  pub handler-Closes :
      (self : Daemon) (fuel : ℕ) (spaces after : table.Table) (req next : Request)
      (others : List Request) (clientid other : Bytes)
      (n : Names tuples requests patterns regex strtoul table spaces req)
      (s : Space tuples requests patterns regex strtoul) (a : ℕ)
      → req.recv_clientid ≡ some clientid
      → IsText clientid
      → length clientid < 50
      → n.entry ≡ some s
      → req.recv_action ≡ some a
      → command_of a ≡ term
      → s.element.is_activated ≡ true
      → tuples.items s.element.bcast_queue ≡ []
      → length (requests.items s.element.named_queue_requests) < fuel
      → length (requests.items s.element.bcast_queue_requests) < fuel
      → length (tuples.items s.element.named_queue) < fuel
      → Reaches tuples requests patterns regex strtoul table self fuel
          (left_by spaces
            (handler tuples requests patterns regex strtoul table self fuel spaces req))
          others
          after
      → All (Spares (namespace_of n.buf_len n.received)) others
      → Asks (namespace_of n.buf_len n.received) next
      → next.recv_clientid ≡ some other
      → IsText other
      → length other < 50
      → (t : table.Table) × (handler tuples requests patterns regex strtoul table self fuel spaces
            req
          ≡ handled t
              (pass (space_token self s.element.space_name 1)
                  ∷ answers
                      (λ l. last l (word ts_term))
                      (requests.items s.element.named_queue_requests)
                ++ answers
                    (λ l. last l (word ts_term))
                    (requests.items s.element.bcast_queue_requests))
              none)
        × (handler tuples requests patterns regex strtoul table self fuel after next
            ≡ refuse next.is_local other after)
  handler-Closes self fuel spaces after req next others clientid other n s a e h lt f g k on
        none_kept l m o run spared q i ho lo =
      let name = namespace_of n.buf_len n.received in
      let (t, closed_space, sent, entry, off) =
        handler_closes self fuel spaces req clientid clientid n s a e
          (clientid_of-text clientid h lt) f g k on none_kept l m o in
      let from = λ (v : table.Table).
        Reaches tuples requests patterns regex strtoul table self fuel v others after in
      (
        t,
        sent,
        closed-Refuses tuples requests patterns regex strtoul table self fuel after next name other
            other closed_space
            (Reaches-keeps tuples requests patterns regex strtoul table self fuel others t after
              name closed_space (subst from (ap (left_by spaces) sent) run) spared entry off)
            off q i (clientid_of-text other ho lo),
      )
