-- ===== src/Ring/Server/Handshake.antt =====
-- How a node joins, seen from its future neighbours (src/p2pmd/p2pmd_server.c): GET_REQ and JOIN_CMT
-- at its predecessor, JOIN_REQ and PRED_JOIN_CMT at its successor.
use synergy_wrapper.Base.{
  ℕ, ◌+◌, ◌-◌, ◌≤◌, ◌<◌, ◌≡◌, List, [], ◌∷◌, some, arith, length, set, get_or, length-set,
  get_or-set, take, take-all, length-take, ◌++◌, zero, suc, refl, ap, ◌∙◌, ltb, if◌then◌else◌, min,
}
use synergy_wrapper.Ring.Types.{
  Bytes, u32_mod, max_id_len, NodeInfo, failure, member, handling_join,
}
use synergy_wrapper.Ring.NodeInfo.{pstrlen, copy_successor_list}
use synergy_wrapper.Ring.NodeInfo.Copy.{copy_successor_list_lem}
use synergy_wrapper.Ring.NodeInfo.Bounds.{IsWellFormed}
use synergy_wrapper.Ring.Node.{
  Node, Incoming, connect, disconnect, predecessor_socket, successor_socket, more, last, server,
  word, slots,
}
use synergy_wrapper.Ring.Server.Joins.{
  join_abrt_handler, pred_join_abrt_handler, get_req_handler, join_req_handler, join_cmt_handler,
  pred_join_cmt_handler, commit_list, envelope, sent_slots,
}
use synergy_wrapper.Ring.Server.{dispatch}
use synergy_wrapper.Ring.Reqtype
use synergy_wrapper.Ring.Reptype

take-front : (n : ℕ) (xs ys : List Bytes) → n ≤ length xs → take n (xs ++ ys) ≡ take n xs
take-front zero xs ys h = refl
take-front (suc n) [] ys h = absurd (omega arith)
take-front (suc n) (x ∷ xs) ys h = ap (λ u. x ∷ u) (take-front n xs ys (omega arith))

-- A well-formed node sends the slots in use, and as many as it announces.
pub sent_slots_lem :
    (self : Node)
    → IsWellFormed self.node_list
    → (sent_slots self ≡ take self.r self.successor_list) × (length (sent_slots self) ≡ self.r)
sent_slots_lem self w =
    let front =
      take-front self.r self.successor_list self.behind_list (omega (arith, w.slots, w.in_use)) in
    (
      front,
      ap length front ∙ length-take self.r self.successor_list (omega (arith, w.slots, w.in_use)),
    )

-- The list that a JOIN_CMT leaves: the new successor in front, then the received entries.
commit_list_lem :
    (n : NodeInfo) (buf : List Bytes) (r k : ℕ)
    → length n.successor_list ≡ n.r_max
    → 0 < n.r_max
    → r + 1 < u32_mod
    → pstrlen (get_or buf 0 []) ≤ max_id_len
    → let c = commit_list n buf r in
      (c.successor ≡ n.temp_successor)
      × (c.predecessor ≡ n.predecessor)
      × (c.r ≡ min (r + 1) n.r_max)
      × (get_or c.successor_list k [] ≡ (
          if ltb k 1
          then n.temp_successor
          else if ltb k (min (r + 1) n.r_max)
          then get_or buf (k - 1) []
          else get_or n.successor_list k []))
unfolding commit_list copy_successor_list
commit_list_lem n buf r k len pos small fits =
    let m = record n {
      successor = n.temp_successor;
      successor_list = set n.successor_list 0 n.temp_successor;
      temp_successor = [];
    } in
    ground (
      arith,
      copy_successor_list_lem m buf r k,
      length-set n.successor_list 0 n.temp_successor,
      get_or-set n.successor_list 0 k n.temp_successor [],
    )

-- A member that answers GET_REQ from `a`, an address that fits a slot, and then receives JOIN_CMT with `r` entries, is a member
-- again, whose successor and first entry are `a` and whose entries from the second on are the
-- received ones, as many as fit. It replaces its connection, and it does not ask for its own list
-- to be sent backwards, since it handles a join at that moment.
pub get_req-join_cmt :
    (self : Node) (i j : Incoming) (a : Bytes) (r : ℕ) (buf : List Bytes) (k : ℕ)
    → IsWellFormed self.node_list
    → self.current_status ≡ member
    → i.address ≡ some a
    → j.first ≡ some r
    → j.slots ≡ some buf
    → 0 < r
    → r + 1 < u32_mod
    → pstrlen (get_or buf 0 []) ≤ max_id_len
    → pstrlen a ≤ max_id_len
    → let mid = dispatch Reqtype.get_req self i in
      let end = dispatch Reqtype.join_cmt mid.0 j in
      (mid.0.current_status ≡ handling_join)
      × (end.0.current_status ≡ member)
      × (end.0.successor ≡ a)
      × (end.0.predecessor ≡ self.predecessor)
      × (end.0.r ≡ min (r + 1) self.r_max)
      × (get_or end.0.successor_list k [] ≡ (
          if ltb k 1
          then a
          else if ltb k (min (r + 1) self.r_max)
          then get_or buf (k - 1) []
          else get_or self.successor_list k []))
      × (end.1
          ≡ envelope self
            ∷ last server (word Reptype.join_ack2)
            ∷ disconnect successor_socket self.successor
            ∷ connect successor_socket a
            ∷ [])
      × (end.0.server_triggered_actions ≡ self.server_triggered_actions)
unfolding dispatch get_req_handler join_cmt_handler
get_req-join_cmt self i j a r buf k w e e1 e2 e3 pos small fits short =
    let n = record (self.node_list) { temp_successor = take max_id_len a; r = r } in
    ground (
      arith,
      take-all max_id_len a (omega (arith, short)),
      commit_list_lem n buf r k w.slots w.some_slot small fits,
    )

-- A well-formed member that answers JOIN_REQ from `a`, an address that fits a slot, sends it `r` and as many entries, those in use, and PRED_JOIN_CMT then
-- makes `a` its predecessor, with its connection replaced. Its own successors stay.
pub join_req-pred_join_cmt :
    (self : Node) (i j : Incoming) (a : Bytes)
    → IsWellFormed self.node_list
    → self.current_status ≡ member
    → i.address ≡ some a
    → pstrlen a ≤ max_id_len
    → let mid = dispatch Reqtype.join_req self i in
      let end = dispatch Reqtype.pred_join_cmt mid.0 j in
      (mid.1
        ≡ envelope self
          ∷ more server (word Reptype.join_ack1)
          ∷ more server (word self.r)
          ∷ last server (slots (sent_slots self))
          ∷ [])
      × (sent_slots self ≡ take self.r self.successor_list)
      × (length (sent_slots self) ≡ self.r)
      × (end.0.predecessor ≡ a)
      × (end.0.current_status ≡ member)
      × (end.0.successor ≡ self.successor)
      × (end.0.successor_list ≡ self.successor_list)
      × (end.1 ≡ disconnect predecessor_socket self.predecessor ∷ connect predecessor_socket a ∷ [])
unfolding dispatch join_req_handler pred_join_cmt_handler
join_req-pred_join_cmt self i j a w e e1 short = ground (arith, sent_slots_lem self w)

-- A node that handles a join refuses GET_REQ and JOIN_REQ, and its status stays, as do its
-- successor at the former and its predecessor at the latter; JOIN_ABRT, PRED_JOIN_CMT and
-- PRED_JOIN_ABRT make it a member.
pub handling_join_refuses :
    (self : Node) (i : Incoming)
    → self.current_status ≡ handling_join
    → ((dispatch Reqtype.get_req self i).2 ≡ failure)
      × ((dispatch Reqtype.join_req self i).2 ≡ failure)
      × ((dispatch Reqtype.get_req self i).0.current_status ≡ handling_join)
      × ((dispatch Reqtype.join_req self i).0.current_status ≡ handling_join)
      × ((dispatch Reqtype.get_req self i).0.successor ≡ self.successor)
      × ((dispatch Reqtype.join_req self i).0.predecessor ≡ self.predecessor)
      × ((dispatch Reqtype.join_abrt self i).0.current_status ≡ member)
      × ((dispatch Reqtype.pred_join_cmt self i).0.current_status ≡ member)
      × ((dispatch Reqtype.pred_join_abrt self i).0.current_status ≡ member)
unfolding dispatch get_req_handler join_req_handler pred_join_cmt_handler join_abrt_handler
    pred_join_abrt_handler
handling_join_refuses self i e = ground arith
