-- ===== src/Ring/NodeInfo/Bounds.antt =====
-- The shape of the successor list of src/p2pm_node_info.c, which every operation on it keeps.
use synergy_wrapper.Base.{ℕ, ◌+◌, ◌-◌, ◌≤◌, ◌<◌, ◌^◌, ◌≡◌, List, [], arith, length, length-set}
use synergy_wrapper.Ring.Types.{Bytes, u32_mod, NodeInfo}
use synergy_wrapper.Ring.NodeInfo.{condense, copy_successor_list}
use synergy_wrapper.Ring.NodeInfo.Condense.{condense_lem}
use synergy_wrapper.Ring.NodeInfo.Copy.{length-copy_loop}

-- `r_max` slots, few enough that `r_max << P2PM_MAX_ID_LEN_SHFT` fits an unsigned, and at most that
-- many of them in use.
pub record IsWellFormed (n : NodeInfo) : Type 0 where
  pub slots : length n.successor_list ≡ n.r_max
  pub some_slot : 0 < n.r_max
  pub addressable : n.r_max < 2 ^ 24
  pub in_use : n.r ≤ n.r_max

pub condense-IsWellFormed : (n : NodeInfo) → IsWellFormed n → IsWellFormed (condense n)
condense-IsWellFormed n w = ground (arith, condense_lem n w.slots, length-set n.successor_list 1 [])

pub copy-IsWellFormed :
    (n : NodeInfo) (source : List Bytes) (n_r : ℕ)
    → IsWellFormed n
    → n_r + 1 < u32_mod
    → IsWellFormed (copy_successor_list n source n_r).0
unfolding copy_successor_list
copy-IsWellFormed n source n_r w small = ground (
  arith,
  length-copy_loop (n.r_max - 1) 1 source n.successor_list,
  length-copy_loop n_r 1 source n.successor_list,
)
