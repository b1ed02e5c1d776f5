-- ===== src/Ring/Server/Stabilize.antt =====
-- Stabilization and the repair of a ring, at the node that is asked (src/p2pmd/p2pmd_server.c).
use synergy_wrapper.Base.{
  take, length, ℕ, ◌+◌, ◌-◌, ◌≤◌, ◌<◌, ◌≡◌, ◌≢◌, refl, List, [], ◌∷◌, true, some, arith, set,
  get_or, ltb, leb, if◌then◌else◌, min, ◌&&◌, not, replicate, ◌==◌,
}
use synergy_wrapper.Ring.Types.{
  Bytes, u32_mod, max_id_len, failure, success, member, handling_join, one_ring, handling_stabilize,
  finding_tail, relay_backwards,
}
use synergy_wrapper.Ring.NodeInfo.{pstrlen, copy_successor_list, set_successor, set_predecessor}
use synergy_wrapper.Ring.NodeInfo.Copy.{copy_successor_list_lem}
use synergy_wrapper.Ring.NodeInfo.Bounds.{IsWellFormed}
use synergy_wrapper.Ring.Node.{
  Node, Incoming, connect, predecessor_socket, successor_socket, more, last, server, word, slots,
}
use synergy_wrapper.Ring.Server.Joins.{
  envelope, sent_slots, form_one_ring, one_ring_join_req_handler, get_req_handler, adopt,
}
use synergy_wrapper.Ring.Server.Maintenance.{
  stabilize_req_handler, stabilize_syn_req_handler, stabilize_nsyn_req_handler, sync_slist_handler,
  tail_found_handler, head_found_handler, same_bytes,
}
use synergy_wrapper.Ring.Server.Handshake.{sent_slots_lem}
use synergy_wrapper.Ring.Server.{dispatch}
use synergy_wrapper.Ring.Reqtype
use synergy_wrapper.Ring.Reptype

same_bytes-eq : (a b : Bytes) → same_bytes a b ≡ true → a ≡ b
unfolding same_bytes
same_bytes-eq [] [] h = refl
same_bytes-eq [] (y ∷ ys) h = ground arith
same_bytes-eq (x ∷ xs) [] h = ground arith
same_bytes-eq (x ∷ xs) (y ∷ ys) h = ground (arith, same_bytes-eq xs ys)

-- A well-formed member that gets STABILIZE_REQ from `a`, an address that fits a slot, sends `r` and as many entries of its list, and waits in HANDLING_STABILIZE;
-- STABILIZE_SYN_REQ then makes `a` its predecessor and it a member again, while
-- STABILIZE_NSYN_REQ makes it a member and keeps its predecessor. Its successors stay.
pub stabilize_req-syn_req :
    (self : Node) (i j : Incoming) (a : Bytes)
    → IsWellFormed self.node_list
    → self.current_status ≡ member
    → i.address ≡ some a
    → pstrlen a ≤ max_id_len
    → let mid = dispatch Reqtype.stabilize_req self i in
      let syn = dispatch Reqtype.stabilize_syn_req mid.0 j in
      let nsyn = dispatch Reqtype.stabilize_nsyn_req mid.0 j in
      (mid.0.current_status ≡ handling_stabilize)
      × (mid.1
          ≡ envelope self
            ∷ more server (word Reptype.stabilize_ack)
            ∷ more server (word self.r)
            ∷ last server (slots (sent_slots self))
            ∷ [])
      × (sent_slots self ≡ take self.r self.successor_list)
      × (length (sent_slots self) ≡ self.r)
      × (syn.0.current_status ≡ member)
      × (syn.0.predecessor ≡ a)
      × (syn.0.successor_list ≡ self.successor_list)
      × (nsyn.0.current_status ≡ member)
      × (nsyn.0.predecessor ≡ self.predecessor)
      × (nsyn.0.successor_list ≡ self.successor_list)
unfolding dispatch stabilize_req_handler stabilize_syn_req_handler stabilize_nsyn_req_handler
stabilize_req-syn_req self i j a w e e1 short = ground (arith, sent_slots_lem self w)

-- A SYNC_SLIST with a TTL above 1 and a list that arrives shifts the list in behind the successor,
-- and the node relays it with a TTL that is one less; at TTL 1 the node keeps its list and relays
-- nothing. At TTL 0 the decrement wraps, and the message goes on with the largest TTL there is.
pub sync_slist_relays :
    (self : Node) (i : Incoming) (ttl nr k : ℕ) (buf : List Bytes)
    → IsWellFormed self.node_list
    → i.first ≡ some ttl
    → i.second ≡ some nr
    → i.slots ≡ some buf
    → ttl < u32_mod
    → 0 < nr
    → nr ≤ self.r_max
    → pstrlen (get_or buf 0 []) ≤ max_id_len
    → let end = (dispatch Reqtype.sync_slist self i).0 in
      (end.server_triggered_actions
        ≡ (if ttl == 1 then self.server_triggered_actions else relay_backwards))
      × (end.last_ttl
          ≡ (if ttl == 1 then self.last_ttl else if ttl == 0 then u32_mod - 1 else ttl - 1))
      × (end.r ≡ (if ttl == 1 then self.r else min (nr + 1) self.r_max))
      × (get_or end.successor_list k [] ≡ (
          if not (ttl == 1) && leb 1 k && ltb k (min (nr + 1) self.r_max)
          then get_or buf (k - 1) []
          else get_or self.successor_list k []))
      × (end.successor ≡ self.successor)
      × (end.predecessor ≡ self.predecessor)
unfolding dispatch sync_slist_handler copy_successor_list
sync_slist_relays self i ttl nr k buf w e e1 e2 lt pos le fits =
    ground (
      arith,
      copy_successor_list_lem self.node_list buf nr k w.slots w.some_slot (omega arith) fits,
    )

-- A ring of one that gets ONE_RING_JOIN_REQ from `a`, whose endpoint fits, and can connect to it both
-- ways has `a` as its successor, its predecessor and its only list entry, and is a member.
pub one_ring_join_req_success :
    (self : Node) (i : Incoming) (a : Bytes)
    → self.current_status ≡ one_ring
    → i.address ≡ some a
    → pstrlen a ≤ max_id_len
    → i.connects ≡ true
    → i.connects_again ≡ true
    → let end = dispatch Reqtype.one_ring_join_req self i in
      (end.2 ≡ success)
      × (end.0.current_status ≡ member)
      × (end.0.successor ≡ a)
      × (end.0.predecessor ≡ a)
      × (end.0.successor_list ≡ set (replicate self.r_max []) 0 a)
      × (end.1
          ≡ envelope self
            ∷ connect successor_socket a
            ∷ connect predecessor_socket a
            ∷ last server (word Reqtype.join_cmt)
            ∷ [])
unfolding dispatch one_ring_join_req_handler adopt set_successor set_predecessor
one_ring_join_req_success self i a e e1 fits c c' = ground arith

-- A ring of one whose ONE_RING_JOIN_REQ fails is left in HANDLING_JOIN, where it refuses every further
-- ONE_RING_JOIN_REQ and GET_REQ.
pub one_ring_join_req_stuck :
    (self : Node) (i j : Incoming)
    → self.current_status ≡ one_ring
    → (dispatch Reqtype.one_ring_join_req self i).2 ≡ failure
    → let after = (dispatch Reqtype.one_ring_join_req self i).0 in
      (after.current_status ≡ handling_join)
      × ((dispatch Reqtype.one_ring_join_req after j).2 ≡ failure)
      × ((dispatch Reqtype.one_ring_join_req after j).0 ≡ after)
      × ((dispatch Reqtype.get_req after j).2 ≡ failure)
unfolding dispatch one_ring_join_req_handler get_req_handler adopt
one_ring_join_req_stuck self i j e h = ground arith

-- HEAD_FOUND and TAIL_FOUND form a ring of one at every node whose status is not FINDING_TAIL, so also
-- at a node that looks for a head.
pub found_without_search :
    (self : Node) (i : Incoming)
    → self.current_status ≢ finding_tail
    → let head = dispatch Reqtype.head_found self i in
      let tail = dispatch Reqtype.tail_found self i in
      (head.2 ≡ failure)
      × (head.0 ≡ (form_one_ring self).0)
      × (tail.2 ≡ failure)
      × (tail.0 ≡ (form_one_ring self).0)
unfolding dispatch head_found_handler tail_found_handler
found_without_search self i h = ground arith
