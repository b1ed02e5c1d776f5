-- ===== src/Tests/Ring.antt =====
-- Requests and passes of small nodes (src/p2p_node_info.c, src/p2pmd/p2pmd_server.c).
use synergy_wrapper.Base.{◌≡◌, refl, inr, [], ◌∷◌, none, some, true, false, arith, get_or, length}
use synergy_wrapper.Ring.Types.{member, failure}
use synergy_wrapper.Ring.NodeInfo.{condense, copy_successor_list}
use synergy_wrapper.Ring.NodeInfo.Condense.{condense_lem}
use synergy_wrapper.Ring.NodeInfo.Copy.{copy_successor_list_lem}
use synergy_wrapper.Ring.NodeInfo.Bounds.{IsWellFormed}
use synergy_wrapper.Ring.Reqtype
use synergy_wrapper.Ring.Server.{dispatch, request_of}
use synergy_wrapper.Ring.Server.Bounds.{dispatch-IsWellFormed, join_cmt_unchecked}
use synergy_wrapper.Ring.Server.Handshake.{get_req-join_cmt, join_req-pred_join_cmt}
use synergy_wrapper.Ring.Server.Replies.{is_routed, dispatch-is_routed}
use synergy_wrapper.Ring.Server.Stabilize.{stabilize_req-syn_req, sync_slist_relays}
use synergy_wrapper.Tests.Samples.{info, info-IsWellFormed, idle, incoming, sender, received_list}

condense_lem_example :
    condense info ≡ record info { successor_list = (98 ∷ []) ∷ [] ∷ (100 ∷ []) ∷ [] }
condense_lem_example = condense_lem info refl

copy_successor_list_lem_example :
    (get_or (copy_successor_list info received_list 2).0.successor_list 2 [] ≡ 121 ∷ [])
    × (length (copy_successor_list info received_list 2).0.successor_list ≡ 3)
    × ((copy_successor_list info received_list 2).0.r ≡ 3)
copy_successor_list_lem_example =
    copy_successor_list_lem info received_list 2 2 refl (omega arith) (omega arith) (omega arith)

dispatch-IsWellFormed_example :
    IsWellFormed
      (dispatch Reqtype.sync_slist
        (idle member)
        (incoming none (some 2) (some 2) (some received_list))).0.node_list
dispatch-IsWellFormed_example =
    dispatch-IsWellFormed Reqtype.sync_slist (idle member)
      (incoming none (some 2) (some 2) (some received_list)) info-IsWellFormed
      (λ e. absurd (omega (arith, e)))

join_cmt_unchecked_example :
    ((dispatch Reqtype.join_cmt (idle member) (incoming none (some 9) none none)).2 ≡ failure)
    × ((dispatch Reqtype.join_cmt (idle member) (incoming none (some 9) none none)).0.r ≡ 9)
    × ¬ IsWellFormed
        (dispatch Reqtype.join_cmt (idle member) (incoming none (some 9) none none)).0.node_list
join_cmt_unchecked_example =
    join_cmt_unchecked (idle member) (incoming none (some 9) none none) 9 refl refl (omega arith)

get_req-join_cmt_example :
    (dispatch Reqtype.join_cmt
      (dispatch Reqtype.get_req (idle member) (incoming (some sender) none none none)).0
      (incoming none (some 2) none (some received_list))).0.successor
    ≡ sender
get_req-join_cmt_example =
    (get_req-join_cmt (idle member) (incoming (some sender) none none none)
      (incoming none (some 2) none (some received_list)) sender 2 received_list 1 info-IsWellFormed
      refl refl refl refl (omega arith) (omega arith) (omega arith) (omega arith)).2

join_req-pred_join_cmt_example :
    (dispatch Reqtype.pred_join_cmt
      (dispatch Reqtype.join_req (idle member) (incoming (some sender) none none none)).0
      (incoming none none none none)).0.predecessor
    ≡ sender
join_req-pred_join_cmt_example =
    (join_req-pred_join_cmt (idle member) (incoming (some sender) none none none)
      (incoming none none none none) sender info-IsWellFormed refl refl (omega arith)).3

dispatch-is_routed_example :
    is_routed false
      (dispatch Reqtype.get_req (idle member) (incoming (some sender) none none none)).1
    ≡ true
unfolding request_of
dispatch-is_routed_example =
    dispatch-is_routed Reqtype.get_req (idle member) (incoming (some sender) none none none)
      (inr (ground arith, ground arith))

stabilize_req-syn_req_example :
    (dispatch Reqtype.stabilize_syn_req
      (dispatch Reqtype.stabilize_req (idle member) (incoming (some sender) none none none)).0
      (incoming none none none none)).0.predecessor
    ≡ sender
stabilize_req-syn_req_example =
    (stabilize_req-syn_req (idle member) (incoming (some sender) none none none)
      (incoming none none none none) sender info-IsWellFormed refl refl (omega arith)).5

sync_slist_relays_example :
    (dispatch Reqtype.sync_slist
      (idle member)
      (incoming none (some 2) (some 2) (some received_list))).0.last_ttl
    ≡ 1
sync_slist_relays_example =
    (sync_slist_relays (idle member) (incoming none (some 2) (some 2) (some received_list)) 2 2 1
      received_list info-IsWellFormed refl refl refl (omega arith) (omega arith) (omega arith)
      (omega arith)).1
