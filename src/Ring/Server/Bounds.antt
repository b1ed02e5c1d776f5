-- ===== src/Ring/Server/Bounds.antt =====
-- The requests of src/p2pmd/p2pmd_server.c keep the shape of the successor list.
use synergy_wrapper.Base.{
  ℕ, ◌+◌, ◌≤◌, ◌<◌, ◌≡◌, refl, List, [], none, some, arith, replicate, length-set, length-replicate,
  Option-cases, inl, inr,
}
use synergy_wrapper.Ring.Types.{Bytes, u32_mod, NodeInfo, failure}
use synergy_wrapper.Ring.NodeInfo.{set_successor, set_predecessor}
use synergy_wrapper.Ring.NodeInfo.Bounds.{IsWellFormed, copy-IsWellFormed}
use synergy_wrapper.Ring.Node.{Node, Incoming}
use synergy_wrapper.Ring.Server.Joins.{
  get_req_handler, join_req_handler, join_cmt_handler, join_abrt_handler, pred_join_cmt_handler,
  commit_list, adopt, pred_join_abrt_handler, one_ring_join_req_handler, form_one_ring,
}
use synergy_wrapper.Ring.Server.Maintenance.{
  stabilize_nsyn_req_handler, ping_req_handler, stabilize_req_handler, stabilize_syn_req_handler,
  sync_slist_handler, tail_found_handler, head_found_handler, token_handler,
}
use synergy_wrapper.Ring.Server.{
  Request, join_cmt, sync_slist, one_ring_join_req, tail_found, head_found, handle, request_of,
  dispatch,
}
use synergy_wrapper.Ring.Reqtype

pub form_one_ring-IsWellFormed :
    (self : Node) → IsWellFormed self.node_list → IsWellFormed (form_one_ring self).0.node_list
unfolding form_one_ring
form_one_ring-IsWellFormed self w = ground (arith, length-set self.successor_list 0 self.endpoint)

commit_list-IsWellFormed :
    (n : NodeInfo) (buf : List Bytes) (r : ℕ)
    → IsWellFormed n
    → r + 1 < u32_mod
    → IsWellFormed (commit_list n buf r)
unfolding commit_list
commit_list-IsWellFormed n buf r w small =
    copy-IsWellFormed _ buf r (ground (arith, length-set n.successor_list 0 n.temp_successor)) small

-- the number of entries that a JOIN_CMT announces
abbrev pub Announces : Incoming → ℕ → Type 0
Announces i r = i.first ≡ some r

join_cmt-IsWellFormed :
    (self : Node) (i : Incoming)
    → IsWellFormed self.node_list
    → ((r : ℕ) → Announces i r → r ≤ self.r_max)
    → IsWellFormed (join_cmt_handler self i).0.node_list
unfolding join_cmt_handler
join_cmt-IsWellFormed self i w h = elim (Option-cases i.first) [
  | inl e ↦ ground arith
  | inr (r, e) ↦ elim (Option-cases i.slots) [
    | inl e' ↦ ground (arith, h r e)
    | inr (buf, e') ↦
        let n = record (self.node_list) { r = r } in
        ground (arith, h r e, commit_list-IsWellFormed n buf r)
  ]
]

-- Of the sender's count and list only what fits is copied.
sync_slist-IsWellFormed :
    (self : Node) (i : Incoming)
    → IsWellFormed self.node_list
    → IsWellFormed (sync_slist_handler self i).0.node_list
unfolding sync_slist_handler
sync_slist-IsWellFormed self i w = elim (Option-cases i.second) [
  | inl e ↦ ground arith
  | inr (nr, e) ↦ elim (Option-cases i.slots) [
    | inl e' ↦ ground arith
    | inr (buf, e') ↦ ground (arith, copy-IsWellFormed self.node_list buf nr w)
  ]
]

adopt-IsWellFormed :
    (self : Node) (a : Bytes) → IsWellFormed self.node_list → IsWellFormed (adopt self a).node_list
unfolding adopt set_successor set_predecessor
adopt-IsWellFormed self a w =
    let n = (set_successor (set_predecessor self.node_list a).0 a).0 in
    ground (
      arith,
      length-replicate {A = Bytes} n.r_max [],
      length-set (replicate n.r_max []) 0 n.successor,
    )

one_ring_join_req-IsWellFormed :
    (self : Node) (i : Incoming)
    → IsWellFormed self.node_list
    → IsWellFormed (one_ring_join_req_handler self i).0.node_list
unfolding one_ring_join_req_handler
one_ring_join_req-IsWellFormed self i w = elim (Option-cases i.address) [
  | inl e ↦ ground arith
  | inr (a, e) ↦ ground (arith, adopt-IsWellFormed self a w)
]

tail_found-IsWellFormed :
    (self : Node) (i : Incoming)
    → IsWellFormed self.node_list
    → IsWellFormed (tail_found_handler self i).0.node_list
unfolding tail_found_handler
tail_found-IsWellFormed self i w = ground (arith, form_one_ring-IsWellFormed self w)

head_found-IsWellFormed :
    (self : Node) (i : Incoming)
    → IsWellFormed self.node_list
    → IsWellFormed (head_found_handler self i).0.node_list
unfolding head_found_handler
head_found-IsWellFormed self i w = elim (Option-cases i.address) [
  | inl e ↦ ground (arith, form_one_ring-IsWellFormed self w)
  | inr (a, e) ↦ ground (
    arith,
    form_one_ring-IsWellFormed self w,
    length-replicate {A = Bytes} self.r_max [],
    length-set (replicate self.r_max []) 0 a,
  )
]

request_of-join_cmt : (code : ℕ) → request_of code ≡ join_cmt → code ≡ Reqtype.join_cmt
unfolding request_of
request_of-join_cmt code e = ground arith

handle-IsWellFormed :
    (q : Request) (self : Node) (i : Incoming)
    → IsWellFormed self.node_list
    → (q ≡ join_cmt → (r : ℕ) → Announces i r → r ≤ self.r_max)
    → IsWellFormed (handle q self i).0.node_list
unfolding handle get_req_handler join_req_handler join_abrt_handler pred_join_cmt_handler
    pred_join_abrt_handler stabilize_nsyn_req_handler ping_req_handler stabilize_req_handler
    stabilize_syn_req_handler token_handler
handle-IsWellFormed join_cmt self i w h = join_cmt-IsWellFormed self i w (h refl)
handle-IsWellFormed sync_slist self i w h = sync_slist-IsWellFormed self i w
handle-IsWellFormed one_ring_join_req self i w h = one_ring_join_req-IsWellFormed self i w
handle-IsWellFormed tail_found self i w h = tail_found-IsWellFormed self i w
handle-IsWellFormed head_found self i w h = head_found-IsWellFormed self i w
handle-IsWellFormed _ self i w h = ground arith

-- Every request keeps the shape of the successor list, its length and the bound on `r`, provided
-- that a JOIN_CMT announces no more entries than the node has slots.
pub dispatch-IsWellFormed :
    (code : ℕ) (self : Node) (i : Incoming)
    → IsWellFormed self.node_list
    → (code ≡ Reqtype.join_cmt → (r : ℕ) → Announces i r → r ≤ self.r_max)
    → IsWellFormed (dispatch code self i).0.node_list
unfolding dispatch
dispatch-IsWellFormed code self i w h =
    handle-IsWellFormed (request_of code) self i w (λ e. h (request_of-join_cmt code e))

-- A JOIN_CMT whose list does not arrive is refused, but its count stays, whatever it is: with a
-- count above `r_max` the node is no longer well-formed.
pub join_cmt_unchecked :
    (self : Node) (i : Incoming) (r : ℕ)
    → Announces i r
    → i.slots ≡ none
    → self.r_max < r
    → ((dispatch Reqtype.join_cmt self i).2 ≡ failure)
      × ((dispatch Reqtype.join_cmt self i).0.r ≡ r)
      × ¬ IsWellFormed (dispatch Reqtype.join_cmt self i).0.node_list
unfolding dispatch join_cmt_handler
join_cmt_unchecked self i r e e' h = (ground arith, ground arith, λ w. ground (arith, w.in_use))
