-- ===== src/Config.antt =====
-- The configuration file: sng_parse_config of src/parser/sng_parser.c. The JSON is read by libbson, whose
-- iterators are taken as lists.
pub mod Ring
pub mod Fields
pub mod Accepted
pub mod Order
pub mod Spaces
pub mod Endpoint
pub mod Tsd
pub mod Sequence
pub mod Lengths
pub mod File
use synergy_wrapper.Base.{ℕ, List, [], ◌∷◌, Bool, true, false, Bytes, Option, get_or, set}

-- What an iterator holds: a string, an int32 as its 32 bits, an array with its strings (`none` for an element
-- of another type), or a value of another type.
pub data Value : Type 0 where
  utf8 : Bytes → Value
  int32 : ℕ → Value
  array : List (Option Bytes) → Value
  other : Value

-- How the parser goes on: with what it has read, by returning P2PM_OP_FAILURE, or by exit(1).
pub data Parse (S : Type 0) : Type 0 where
  parsed : S → Parse S
  failure exits : Parse S

-- the bits of the bit vector, `true` for 1
unfoldable pub bvget : List Bool → ℕ → Bool
bvget b x = get_or b x false

unfoldable pub bvset : List Bool → ℕ → List Bool
bvset b x = set b x true

unfoldable pub all_set : List Bool → Bool
all_set [] = true
all_set (true ∷ b) = all_set b
all_set (false ∷ b) = false
