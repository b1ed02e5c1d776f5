-- ===== src/Ring/NodeInfo.antt =====
-- src/p2pm_node_info.c: the successor list and the operations on it.
pub mod Condense
pub mod Copy
pub mod Bounds
use synergy_wrapper.Base.{
  ℕ, zero, suc, ◌+◌, ◌-◌, ◌*◌, ◌%◌, List, [], ◌∷◌, Bool, true, false, ◌++◌, if◌then◌else◌, ltb, leb,
  ◌==◌, length, get_or, set, replicate,
}
use synergy_wrapper.Ring.Types.{
  Bytes, max_id_len, u32_mod, Opcode, failure, success, invalid, NodeInfo,
}

-- PSTRLEN
abbrev pub pstrlen : Bytes → ℕ
pstrlen s = length s + 1

-- p2pm_ni_create. The three buffers that it only allocates hold what the allocator left there.
unfoldable pub create : ℕ → Bytes → Bytes → NodeInfo
create r_max join_addr junk = record {
  successor_list = replicate r_max [];
  predecessor = join_addr;
  successor = junk;
  temp_predecessor = junk;
  temp_successor = junk;
  r = 0;
  r_max = r_max;
}

-- the variables of the loop, `eptr` counted in slots
pub record Scan : Type 0 where
  pub eptr : ℕ
  pub ok : Bool
  pub slots : List Bytes

-- One round: the test is on `ptr` itself, and the slot that is copied to is cleared at once.
unfoldable pub condense_step : ℕ → Scan → Scan
condense_step ptr s =
    if ptr == 0
    then record s { eptr = ptr; ok = true }
    else if s.ok
    then record s { ok = false; slots = set (set s.slots ptr (get_or s.slots s.eptr [])) ptr [] }
    else s

-- `ptr` runs over the slots; the first argument counts the rounds left.
unfoldable pub condense_loop : ℕ → ℕ → Scan → Scan
condense_loop zero ptr s = s
condense_loop (suc n) ptr s = condense_loop n (ptr + 1) (condense_step ptr s)

-- _p2pm_ni_condense_successor_list
unfoldable pub condense : NodeInfo → NodeInfo
unfolding condense_step condense_loop
condense self = if leb self.r_max self.r then self else record self {
  successor_list =
      (condense_loop self.r_max 0
        (record { eptr = 0; ok = false; slots = self.successor_list })).slots;
}

-- the index of the first slot that begins with '\0', or the number of slots
unfoldable pub find_empty : List Bytes → ℕ
find_empty [] = 0
find_empty ([] ∷ xs) = 0
find_empty ((c ∷ s) ∷ xs) = suc (find_empty xs)

-- p2pm_ni_add_successor
unfoldable pub add_successor : NodeInfo → Bytes → NodeInfo × Opcode
add_successor self successor =
    if ltb max_id_len (pstrlen successor)
    then (self, invalid)
    else let c = condense self in
      let i = find_empty c.successor_list in
      if i == c.r_max
      then (c, failure)
      else if i == 0
      then (
        record c { successor = successor; successor_list = set c.successor_list 0 successor },
        success,
      )
      else (record c { successor_list = set c.successor_list i successor }, success)

-- p2pm_ni_reset_r_max. What `realloc` adds is not cleared: `junk` is what it holds.
unfoldable pub reset_r_max : NodeInfo → ℕ → Bool → Bytes → NodeInfo × Opcode
reset_r_max self r_max allocated junk =
    if ltb r_max self.r_max
    then (self, invalid)
    else if allocated
    then (
      record self {
        successor_list = self.successor_list ++ replicate (r_max - self.r_max) junk;
        r_max = r_max;
      },
      success,
    )
    else (self, failure)

-- p2pm_ni_remove_successor
unfoldable pub remove_successor : NodeInfo → ℕ → NodeInfo × Opcode
remove_successor self i =
    if leb self.r_max i
    then (self, invalid)
    else (condense (record self { successor_list = set self.successor_list i [] }), success)

-- p2pm_ni_set_successor
unfoldable pub set_successor : NodeInfo → Bytes → NodeInfo × Opcode
set_successor self s =
    if ltb max_id_len (pstrlen s)
    then (self, invalid)
    else (record self { successor = s; successor_list = set self.successor_list 0 s }, success)

-- p2pm_ni_set_predecessor
unfoldable pub set_predecessor : NodeInfo → Bytes → NodeInfo × Opcode
set_predecessor self s =
    if ltb max_id_len (pstrlen s)
    then (self, failure)
    else (record self { predecessor = s }, success)

-- the loop of p2pm_ni_copy_successor_list, with the rounds left and the slot written next
unfoldable pub copy_loop : ℕ → ℕ → List Bytes → List Bytes → List Bytes
copy_loop zero i source slots = slots
copy_loop (suc n) i source slots =
    copy_loop n (i + 1) source (set slots i (get_or source (i - 1) []))

-- p2pm_ni_copy_successor_list; `n_r + 1` is an unsigned sum
unfoldable pub copy_successor_list : NodeInfo → List Bytes → ℕ → NodeInfo × Opcode
copy_successor_list self source n_r =
    if ltb max_id_len (pstrlen (get_or source 0 []))
    then (self, invalid)
    else if ltb self.r_max ((n_r + 1) % u32_mod)
    then (
      record self {
        successor_list = copy_loop (self.r_max - 1) 1 source self.successor_list;
        r = self.r_max;
      },
      success,
    )
    else (
      record self {
        successor_list = copy_loop ((n_r + 1) % u32_mod - 1) 1 source self.successor_list;
        r = (n_r + 1) % u32_mod;
      },
      success,
    )

-- the loop of p2pm_ni_move_successor_list
unfoldable pub move_loop : ℕ → ℕ → List Bytes → List Bytes → List Bytes
move_loop zero i source slots = slots
move_loop (suc n) i source slots = move_loop n (i + 1) source (set slots i (get_or source i []))

-- p2pm_ni_move_successor_list
unfoldable pub move_successor_list : NodeInfo → List Bytes → ℕ → NodeInfo × Opcode
move_successor_list self source n_r =
    let cleared = replicate self.r_max [] in
    if ltb max_id_len (pstrlen (get_or source 0 []))
    then (record self { successor_list = cleared }, invalid)
    else if ltb self.r_max ((n_r + 1) % u32_mod)
    then (
      condense (record self {
        successor_list = move_loop (self.r_max - 1) 0 source cleared;
        r = self.r_max;
      }),
      success,
    )
    else (
      condense (record self { successor_list = move_loop n_r 0 source cleared; r = n_r }),
      success,
    )

-- p2pm_ni_successor_list_next: byte offsets, in unsigned arithmetic
unfoldable pub successor_list_next : NodeInfo → ℕ → ℕ
successor_list_next self previous =
    if leb (self.r * max_id_len % u32_mod) ((previous + max_id_len) % u32_mod)
    then 0
    else (previous + max_id_len) % u32_mod
