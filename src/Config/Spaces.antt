-- ===== src/Config/Spaces.antt =====
-- The section spaces of sng_parse_config (src/parser/sng_parser.c).
use synergy_wrapper.Base.{
  ℕ, zero, suc, List, [], ◌∷◌, Bool, true, false, Option, none, some, Bytes, length, replicate, ltb,
  ◌==◌, if◌then◌else◌,
}
use synergy_wrapper.Ring.Server.Maintenance.{same_bytes}
use synergy_wrapper.Space.Types.{TsMode, mode_master, mode_worker, mode_p2p}
use synergy_wrapper.Config.{
  Value, utf8, int32, array, other, Parse, parsed, failure, exits, bvget, bvset, all_set,
}
use synergy_wrapper.Config.Ring.{max_id_len}

-- The keys of a space, and any other.
pub data Key : Type 0 where
  name id mode tsd_mode unknown : Key

-- struct _sng_namespace_s, with the bytes that are copied into its buffers
pub record Namespace : Type 0 where
  pub name_string : Bytes
  pub direct_endpoint : Bytes
  pub id_value : ℕ
  pub ts_mode : TsMode
  pub is_direct : Bool  -- tsd_mode is TsdModeDirect

-- a space under way, with the bit vector
pub record Draft : Type 0 where
  pub bv : List Bool
  pub space : Namespace

abbrev pub texts_master : Bytes
texts_master = b'm' ∷ b'a' ∷ b's' ∷ b't' ∷ b'e' ∷ b'r' ∷ []

abbrev pub texts_worker : Bytes
texts_worker = b'w' ∷ b'o' ∷ b'r' ∷ b'k' ∷ b'e' ∷ b'r' ∷ []

abbrev pub texts_p2p : Bytes
texts_p2p = b'p' ∷ b'2' ∷ b'p' ∷ []

abbrev pub texts_token : Bytes
texts_token = b't' ∷ b'o' ∷ b'k' ∷ b'e' ∷ b'n' ∷ []

abbrev pub texts_direct : Bytes
texts_direct = b'd' ∷ b'i' ∷ b'r' ∷ b'e' ∷ b'c' ∷ b't' ∷ []

-- `set more than once`, or the bit x is set
unfoldable pub mark : ℕ → Draft → Parse Draft
mark x d = if bvget d.bv x then failure else parsed (record d { bv = bvset d.bv x })

-- `expect`: 'x', 'a' and 'd'
pub data Expect : Type 0 where
  nothing any_token direct : Expect

-- the element of tsd_mode at cnt, with the space and what is expected
unfoldable pub tsd_mode_step : ℕ → Expect → Namespace → Option Bytes → Option (Expect × Namespace)
tsd_mode_step zero e s none = none
tsd_mode_step zero e s (some t) =
    if same_bytes t texts_token
    then some (any_token, record s { is_direct = false })
    else if same_bytes t texts_direct
    then some (direct, record s { is_direct = true })
    else none
tsd_mode_step (suc zero) direct s none = some (direct, record s { direct_endpoint = [] })
tsd_mode_step (suc zero) direct s (some t) =
    if ltb max_id_len (length t) then none else some (direct, record s { direct_endpoint = t })
tsd_mode_step (suc zero) nothing s t = none
tsd_mode_step (suc zero) any_token s t = none
tsd_mode_step (suc (suc n)) e s t = none

-- the test of the counts behind the loop over tsd_mode
unfoldable pub is_counted : ℕ → Expect → Bool
is_counted cnt nothing = false
is_counted cnt any_token = cnt == 1
is_counted cnt direct = cnt == 2

-- the loop over tsd_mode
unfoldable pub tsd_mode_loop : ℕ → Expect → Namespace → List (Option Bytes) → Option Namespace
unfolding is_counted tsd_mode_step
tsd_mode_loop cnt e s [] = if is_counted cnt e then some s else none
tsd_mode_loop cnt e s (t ∷ ts) = elim (tsd_mode_step cnt e s t) [
  | none ↦ none
  | some (e', s') ↦ tsd_mode_loop (suc cnt) e' s' ts
]

unfoldable pub store_tsd_mode : Draft → Option Namespace → Parse Draft
unfolding mark
store_tsd_mode d none = failure
store_tsd_mode d (some s) = mark 3 (record d { space = s })

-- the mode's string
unfoldable pub ts_mode_of : Bytes → Option TsMode
ts_mode_of v =
    if same_bytes v texts_master
    then some mode_master
    else if same_bytes v texts_worker
    then some mode_worker
    else if same_bytes v texts_p2p
    then some mode_p2p
    else none

unfoldable pub store_ts_mode : Draft → Option TsMode → Parse Draft
unfolding mark
store_ts_mode d none = failure
store_ts_mode d (some m) = mark 2 (record d { space = record d.space { ts_mode = m } })

-- one field of a space
unfoldable pub space_field : Draft → Key → Value → Parse Draft
unfolding mark store_tsd_mode tsd_mode_loop ts_mode_of store_ts_mode
space_field d name (utf8 v) =
    if ltb 25 (length v)
    then failure
    else mark 0 (record d { space = record d.space { name_string = v } })
space_field d name (int32 n) = failure
space_field d name (array es) = failure
space_field d name other = failure
space_field d id (utf8 v) = failure
space_field d id (int32 n) = mark 1 (record d { space = record d.space { id_value = n } })
space_field d id (array es) = failure
space_field d id other = failure
space_field d mode (utf8 v) = store_ts_mode d (ts_mode_of v)
space_field d mode (int32 n) = failure
space_field d mode (array es) = failure
space_field d mode other = failure
space_field d tsd_mode (utf8 v) = failure
space_field d tsd_mode (int32 n) = failure
space_field d tsd_mode (array es) = store_tsd_mode d (tsd_mode_loop 0 nothing d.space es)
space_field d tsd_mode other = failure
space_field d unknown v = failure

-- the loop over the fields of a space
unfoldable pub space_fields : Draft → List (Key × Value) → Parse Draft
unfolding space_field
space_fields d [] = parsed d
space_fields d ((k, v) ∷ rest) = elim (space_field d k v) [
  | parsed d' ↦ space_fields d' rest
  | failure ↦ failure
  | exits ↦ exits
]

-- an element of spaces, with the test against magic1; `none` is no document, `blank` what malloc left
unfoldable pub parse_space : Namespace → Option (List (Key × Value)) → Parse Namespace
unfolding space_fields all_set
parse_space blank none = failure
parse_space blank (some fs) =
    elim (space_fields (record { bv = replicate 4 false; space = blank }) fs) [
      | parsed d ↦ if all_set d.bv then parsed d.space else exits
      | failure ↦ failure
      | exits ↦ exits
    ]

-- the loop over spaces; `blank n` is what malloc left in the entry n
unfoldable pub parse_spaces :
    (ℕ → Namespace) → List (Option (List (Key × Value))) → Parse (List Namespace)
unfolding parse_space
parse_spaces blank [] = parsed []
parse_spaces blank (e ∷ es) = elim (parse_space (blank 0) e) [
  | parsed s ↦ elim (parse_spaces (λ n. blank (suc n)) es) [
    | parsed l ↦ parsed (s ∷ l)
    | failure ↦ failure
    | exits ↦ exits
  ]
  | failure ↦ failure
  | exits ↦ exits
]
