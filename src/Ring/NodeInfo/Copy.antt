-- ===== src/Ring/NodeInfo/Copy.antt =====
-- What p2pm_ni_copy_successor_list of src/p2pm_node_info.c leaves in the list.
use synergy_wrapper.Base.{
  ℕ, zero, suc, ◌+◌, ◌-◌, ◌≤◌, ◌<◌, ◌≡◌, refl, List, [], if◌then◌else◌, ltb, leb, length, get_or,
  set, arith, length-set, get_or-set, ◌∙◌, ◌&&◌, min,
}
use synergy_wrapper.Ring.Types.{Bytes, max_id_len, u32_mod, NodeInfo}
use synergy_wrapper.Ring.NodeInfo.{pstrlen, copy_loop, copy_successor_list}

pub length-copy_loop :
    (n i : ℕ) (source slots : List Bytes) → length (copy_loop n i source slots) ≡ length slots
unfolding copy_loop
length-copy_loop zero i source slots = refl
length-copy_loop (suc n) i source slots = length-copy_loop n (i + 1) source _ ∙ length-set slots i _

-- The slots from `i` to `i + n` take the source's, shifted by one; the others stay.
copy_loop_lem :
    (n i : ℕ) (source slots : List Bytes) (j : ℕ)
    → i + n ≤ length slots
    → get_or (copy_loop n i source slots) j []
      ≡ (if leb i j && ltb j (i + n) then get_or source (j - 1) [] else get_or slots j [])
unfolding copy_loop
copy_loop_lem zero i source slots j h = ground arith
copy_loop_lem (suc n) i source slots j h =
    let v = get_or source (i - 1) [] in
    ground (
      arith,
      copy_loop_lem n (i + 1) source (set slots i v) j,
      get_or-set slots i j v [],
      length-set slots i v,
    )

-- With a list of `r_max` slots and a source whose first string fits: slot 0 stays, slot `j` takes
-- the source's slot `j - 1` as long as `j` is at most `n_r` and inside the list, and the other
-- slots stay; `r` becomes the smaller of `n_r + 1` and `r_max`.
pub copy_successor_list_lem :
    (self : NodeInfo) (source : List Bytes) (n_r j : ℕ)
    → length self.successor_list ≡ self.r_max
    → 0 < self.r_max
    → n_r + 1 < u32_mod
    → pstrlen (get_or source 0 []) ≤ max_id_len
    → let after = (copy_successor_list self source n_r).0 in
      (get_or after.successor_list j [] ≡ (
        if leb 1 j && ltb j (min (n_r + 1) self.r_max)
        then get_or source (j - 1) []
        else get_or self.successor_list j []))
      × (length after.successor_list ≡ self.r_max)
      × (after.r ≡ min (n_r + 1) self.r_max)
unfolding copy_successor_list
copy_successor_list_lem self source n_r j h pos small fits = ground (
  arith,
  copy_loop_lem (self.r_max - 1) 1 source self.successor_list j,
  copy_loop_lem n_r 1 source self.successor_list j,
  length-copy_loop (self.r_max - 1) 1 source self.successor_list,
  length-copy_loop n_r 1 source self.successor_list,
)
