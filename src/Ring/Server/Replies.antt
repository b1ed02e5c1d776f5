-- ===== src/Ring/Server/Replies.antt =====
-- The replies of src/p2pmd/p2pmd_server.c as messages of a ROUTER socket: the client's id in front,
-- and an end to every message.
use synergy_wrapper.Base.{ℕ, ◌≡◌, ◌≢◌, ◌⊎◌, List, [], ◌∷◌, Bool, true, false, arith, not}
use synergy_wrapper.Ring.Types.{success, failure, member, handling_stabilize}
use synergy_wrapper.Ring.Node.{
  Node, Incoming, Effect, more, last, connect, disconnect, close, open_new, server,
  predecessor_socket, successor_socket, route, word, Outcome,
}
use synergy_wrapper.Ring.Server.Joins.{
  get_req_handler, join_req_handler, join_cmt_handler, join_abrt_handler, pred_join_cmt_handler,
  pred_join_abrt_handler, one_ring_join_req_handler, form_one_ring, envelope,
}
use synergy_wrapper.Ring.Server.Maintenance.{
  stabilize_nsyn_req_handler, ping_req_handler, stabilize_req_handler, stabilize_syn_req_handler,
  sync_slist_handler, tail_found_handler, head_found_handler, token_handler,
}
use synergy_wrapper.Ring.Server.{
  Request, get_req, stabilize_req, sync_slist, handle, request_of, dispatch,
}
use synergy_wrapper.Ring.Reqtype
use synergy_wrapper.Ring.Reptype

-- Whether the parts sent on the server's socket are whole messages, each with a routing frame in
-- front; the first argument tells whether a message is open.
abbrev pub is_routed : Bool → List Effect → Bool
is_routed opened [] = not opened
is_routed false (more server (route id) ∷ es) = is_routed true es
is_routed true (more server p ∷ es) = is_routed true es
is_routed false (last server (route id) ∷ es) = is_routed false es
is_routed true (last server p ∷ es) = is_routed false es
is_routed opened (more predecessor_socket p ∷ es) = is_routed opened es
is_routed opened (more successor_socket p ∷ es) = is_routed opened es
is_routed opened (last predecessor_socket p ∷ es) = is_routed opened es
is_routed opened (last successor_socket p ∷ es) = is_routed opened es
is_routed opened (connect s a ∷ es) = is_routed opened es
is_routed opened (disconnect s a ∷ es) = is_routed opened es
is_routed opened (close s ∷ es) = is_routed opened es
is_routed opened (open_new s ∷ es) = is_routed opened es
is_routed _ _ = false

-- A request that succeeds, and a request that fails other than STABILIZE_REQ and SYNC_SLIST
abbrev pub RepliesWhole : Request → Outcome → Type 0
RepliesWhole q o = (o.2 ≡ success) ⊎ ((q ≢ stabilize_req) × (q ≢ sync_slist))

handle-is_routed :
    (q : Request) (self : Node) (i : Incoming)
    → RepliesWhole q (handle q self i)
    → is_routed false (handle q self i).1 ≡ true
unfolding handle get_req_handler join_req_handler join_cmt_handler join_abrt_handler
    pred_join_cmt_handler pred_join_abrt_handler one_ring_join_req_handler
    stabilize_nsyn_req_handler ping_req_handler stabilize_req_handler stabilize_syn_req_handler
    sync_slist_handler tail_found_handler head_found_handler token_handler form_one_ring
handle-is_routed get_req self i h = ground arith
handle-is_routed _ self i h = ground arith

-- Every request that succeeds, and every request that fails other than STABILIZE_REQ and SYNC_SLIST,
-- sends whole messages on the server's socket or none, each with a routing frame in front.
pub dispatch-is_routed :
    (code : ℕ) (self : Node) (i : Incoming)
    → RepliesWhole (request_of code) (dispatch code self i)
    → is_routed false (dispatch code self i).1 ≡ true
unfolding dispatch
dispatch-is_routed code self i h = handle-is_routed (request_of code) self i h

-- A node that is neither a member nor in a stabilization answers STABILIZE_REQ with a message that has
-- no routing frame, so it does not reach the client.
pub stabilize_req_unrouted :
    (self : Node) (i : Incoming)
    → self.current_status ≢ member
    → self.current_status ≢ handling_stabilize
    → ((dispatch Reqtype.stabilize_req self i).1 ≡ last server (word Reptype.stabilize_nack) ∷ [])
      × (is_routed false (dispatch Reqtype.stabilize_req self i).1 ≡ false)
unfolding dispatch stabilize_req_handler
stabilize_req_unrouted self i h k = ground arith

-- A SYNC_SLIST that fails changes nothing and leaves the message that it began open on the socket.
pub sync_slist_pending :
    (self : Node) (i : Incoming)
    → (dispatch Reqtype.sync_slist self i).2 ≡ failure
    → ((dispatch Reqtype.sync_slist self i).0 ≡ self)
      × ((dispatch Reqtype.sync_slist self i).1 ≡ envelope self ∷ [])
      × (is_routed false (dispatch Reqtype.sync_slist self i).1 ≡ false)
unfolding dispatch sync_slist_handler
sync_slist_pending self i h = ground arith
