-- ===== src/Config/Ring.antt =====
-- The section p2pmd of sng_parse_config (src/parser/sng_parser.c).
use synergy_wrapper.Base.{
  ℕ, List, [], ◌∷◌, Bool, true, false, not, ◌&&◌, Option, none, some, Bytes, length, replicate, ltb,
  ◌==◌, if◌then◌else◌,
}
use synergy_wrapper.Ring.Server.Maintenance.{same_bytes}
use synergy_wrapper.Config.{
  Value, utf8, int32, array, other, Parse, parsed, failure, exits, bvget, bvset, all_set,
}

-- The keys of the section, and any other.
pub data Key : Type 0 where
  mode endpoint r r_max successor_list predecessor unknown : Key

-- P2PM_MAX_ID_LEN
abbrev pub max_id_len : ℕ
max_id_len = 256

-- What the section sets in sng_cfg_t; a pointer that is not set is `none`. The numbers start as what the
-- caller's memory held.
pub record Section : Type 0 where
  pub bv : List Bool
  pub member : Bool  -- p2pmd_mode is P2PM_NODE_MEMBER
  pub endpoint_string : Option Bytes
  pub r_value : ℕ
  pub r_max_value : ℕ
  pub r_list : ℕ
  pub successors : Option (List Bytes)
  pub predecessor_string : Option Bytes

-- `bv = 0`, with r, r_max and _r_list of the caller's memory
abbrev pub blank : ℕ → ℕ → ℕ → Section
blank r0 r_max0 r_list0 = record {
  bv = replicate 6 false;
  member = false;
  endpoint_string = none;
  r_value = r0;
  r_max_value = r_max0;
  r_list = r_list0;
  successors = none;
  predecessor_string = none;
}

abbrev pub member_text : Bytes
member_text = b'm' ∷ b'e' ∷ b'm' ∷ b'b' ∷ b'e' ∷ b'r' ∷ []

abbrev pub standalone_text : Bytes
standalone_text = b's' ∷ b't' ∷ b'a' ∷ b'n' ∷ b'd' ∷ b'a' ∷ b'l' ∷ b'o' ∷ b'n' ∷ b'e' ∷ []

-- one more slot, if the string has at most P2PM_MAX_ID_LEN bytes
unfoldable pub add_slot : Bytes → Option (List Bytes) → Option (List Bytes)
add_slot s none = none
add_slot s (some l) = if ltb max_id_len (length s) then none else some (s ∷ l)

-- the slots of the list, if all its elements are such strings
unfoldable pub slots_of : List (Option Bytes) → Option (List Bytes)
unfolding add_slot
slots_of [] = some []
slots_of (none ∷ es) = none
slots_of (some s ∷ es) = add_slot s (slots_of es)

-- `set more than once`, or the bit x is set
unfoldable pub once : ℕ → Section → Parse Section
once x s = if bvget s.bv x then failure else parsed (record s { bv = bvset s.bv x })

-- the list behind the walks over it
unfoldable pub store_list : Section → ℕ → Option (List Bytes) → Parse Section
unfolding once
store_list s n none = failure
store_list s n (some l) = once 4 (record s { r_list = n; successors = some l })

-- the mode's string
unfoldable pub store_mode : Section → Bytes → Parse Section
unfolding once
store_mode s v =
    if same_bytes v member_text
    then once 0 (record s { member = true })
    else if same_bytes v standalone_text
    then once 0 (record s { member = false })
    else failure

-- one field of the section
unfoldable pub field : Section → Key → Value → Parse Section
unfolding once slots_of store_list store_mode
field s mode (utf8 v) = store_mode s v
field s mode (int32 n) = failure
field s mode (array es) = failure
field s mode other = failure
field s endpoint (utf8 v) = once 1 (record s { endpoint_string = some v })
field s endpoint (int32 n) = failure
field s endpoint (array es) = failure
field s endpoint other = failure
field s r (utf8 v) = failure
field s r (int32 n) =
    if s.r_list == n then once 2 (record s { r_value = n; bv = bvset s.bv 4 }) else failure
field s r (array es) = failure
field s r other = failure
field s r_max (utf8 v) = failure
field s r_max (int32 n) = once 3 (record s { r_max_value = n })
field s r_max (array es) = failure
field s r_max other = failure
field s successor_list (utf8 v) = failure
field s successor_list (int32 n) = failure
field s successor_list (array es) =
    if bvget s.bv 2 && not (length es == s.r_value)
    then failure
    else store_list s (length es) (slots_of es)
field s successor_list other = failure
field s predecessor (utf8 v) =
    if ltb max_id_len (length v) then failure else once 5 (record s { predecessor_string = some v })
field s predecessor (int32 n) = failure
field s predecessor (array es) = failure
field s predecessor other = failure
field s unknown v = exits

-- the loop over the fields
unfoldable pub fields : Section → List (Key × Value) → Parse Section
unfolding field
fields s [] = parsed s
fields s ((k, v) ∷ rest) = elim (field s k v) [
  | parsed s' ↦ fields s' rest
  | failure ↦ failure
  | exits ↦ exits
]

-- the section, with the test against magic0; `none` where it is missing or no document
unfoldable pub parse_p2pmd : Section → Option (List (Key × Value)) → Parse Section
unfolding fields all_set
parse_p2pmd s none = failure
parse_p2pmd s (some fs) = elim (fields s fs) [
  | parsed s' ↦ if all_set s'.bv then parsed s' else exits
  | failure ↦ failure
  | exits ↦ exits
]
