-- ===== src/Ring/Server.antt =====
-- src/p2pmd/p2pmd_server.c: the requests on the server socket. The handlers are in the children, and
-- `dispatch` is the switch of p2pm_loop_server.
pub mod Joins
pub mod Maintenance
pub mod Bounds
pub mod Handshake
pub mod Replies
pub mod Stabilize
use synergy_wrapper.Base.{ℕ, List, [], Bool, if◌then◌else◌, ◌==◌}
use synergy_wrapper.Ring.Types.{success}
use synergy_wrapper.Ring.Node.{Node, Incoming, Outcome}
use synergy_wrapper.Ring.Reqtype
use Joins.{
  get_req_handler, join_req_handler, join_cmt_handler, join_abrt_handler, pred_join_cmt_handler,
  pred_join_abrt_handler, one_ring_join_req_handler,
}
use Maintenance.{
  stabilize_nsyn_req_handler, ping_req_handler, stabilize_req_handler, stabilize_syn_req_handler,
  sync_slist_handler, tail_found_handler, head_found_handler, token_handler,
}

-- A request of the switch of p2pm_loop_server.
pub data Request : Type 0 where
  get_req join_req join_cmt stabilize_nsyn_req join_abrt pred_join_cmt pred_join_abrt : Request
  ping_req stabilize_req stabilize_syn_req sync_slist one_ring_join_req : Request
  tail_found head_found token find_head find_tail : Request
  other : Request

-- the case that the number in `ubuf` selects
unfoldable pub request_of : ℕ → Request
request_of c =
    if c == Reqtype.get_req
    then get_req
    else if c == Reqtype.join_req
    then join_req
    else if c == Reqtype.join_cmt
    then join_cmt
    else if c == Reqtype.stabilize_nsyn_req
    then stabilize_nsyn_req
    else if c == Reqtype.join_abrt
    then join_abrt
    else if c == Reqtype.pred_join_cmt
    then pred_join_cmt
    else if c == Reqtype.pred_join_abrt
    then pred_join_abrt
    else if c == Reqtype.ping_req
    then ping_req
    else if c == Reqtype.stabilize_req
    then stabilize_req
    else if c == Reqtype.stabilize_syn_req
    then stabilize_syn_req
    else if c == Reqtype.sync_slist
    then sync_slist
    else if c == Reqtype.one_ring_join_req
    then one_ring_join_req
    else if c == Reqtype.tail_found
    then tail_found
    else if c == Reqtype.head_found
    then head_found
    else if c == Reqtype.token
    then token
    else if c == Reqtype.find_head
    then find_head
    else if c == Reqtype.find_tail
    then find_tail
    else other

-- what the case does; FIND_HEAD, FIND_TAIL and unknown requests are only logged
unfoldable pub handle : Request → Node → Incoming → Outcome
handle get_req self i = get_req_handler self i
handle join_req self i = join_req_handler self i
handle join_cmt self i = join_cmt_handler self i
handle stabilize_nsyn_req self i = stabilize_nsyn_req_handler self i
handle join_abrt self i = join_abrt_handler self i
handle pred_join_cmt self i = pred_join_cmt_handler self i
handle pred_join_abrt self i = pred_join_abrt_handler self i
handle ping_req self i = ping_req_handler self i
handle stabilize_req self i = stabilize_req_handler self i
handle stabilize_syn_req self i = stabilize_syn_req_handler self i
handle sync_slist self i = sync_slist_handler self i
handle one_ring_join_req self i = one_ring_join_req_handler self i
handle tail_found self i = tail_found_handler self i
handle head_found self i = head_found_handler self i
handle token self i = token_handler self i
handle find_head self i = (self, [], success)
handle find_tail self i = (self, [], success)
handle other self i = (self, [], success)

unfoldable pub dispatch : ℕ → Node → Incoming → Outcome
unfolding request_of handle
dispatch code self i = handle (request_of code) self i
