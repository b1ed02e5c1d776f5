-- ===== src/Config/Tsd.antt =====
-- The section tsd of sng_parse_config (src/parser/sng_parser.c).
use synergy_wrapper.Base.{ℕ, List, [], ◌∷◌, Bool, Option, none, some, Bytes, if◌then◌else◌, test}
use synergy_wrapper.Config.{Value, Parse, parsed, failure}

-- The keys of the section, and any other.
pub data Key : Type 0 where
  endpoint ipc replication_factor unknown : Key

pub Key-discrete : Discrete Key
Key-discrete = hlevel

-- streq of two keys
unfoldable pub is_key : Key → Key → Bool
is_key k l = test (Key-discrete k l)

-- bson_iter_find: the value of the first element with the key k, and the elements behind it; it starts where the
-- iterator stands
unfoldable pub find : Key → List (Key × Value) → Option (Value × List (Key × Value))
unfolding is_key
find k [] = none
find k ((l, v) ∷ fs) = let rest = find k fs in if is_key k l then some (v, fs) else rest

-- the strings and the number that the section sets; `none` is NULL
pub record Tsd : Type 0 where
  pub tsd_endpoint : Option Bytes
  pub tsd_ipc_endpoint : Option Bytes
  pub tsd_rep_factor : ℕ

module _ (dup_utf8 : Value → Option Bytes) (as_int32 : Value → ℕ) where
  -- the field replication_factor and the end
  unfoldable pub read_factor :
      Option Bytes → Option Bytes → Option (Value × List (Key × Value)) → Parse Tsd
  read_factor e i none = failure
  read_factor e i (some (v, fs)) =
      parsed (record { tsd_endpoint = e; tsd_ipc_endpoint = i; tsd_rep_factor = as_int32 v })

  -- the field ipc and on
  unfoldable pub read_ipc : Option Bytes → Option (Value × List (Key × Value)) → Parse Tsd
  unfolding read_factor find
  read_ipc e none = failure
  read_ipc e (some (v, fs)) = read_factor e (dup_utf8 v) (find replication_factor fs)

  -- the field endpoint and on
  unfoldable pub read_endpoint : Option (Value × List (Key × Value)) → Parse Tsd
  unfolding read_ipc find
  read_endpoint none = failure
  read_endpoint (some (v, fs)) = read_ipc (dup_utf8 v) (find ipc fs)

  -- the section, `none` if there is no document tsd
  unfoldable pub parse_tsd : Option (List (Key × Value)) → Parse Tsd
  unfolding read_endpoint find
  parse_tsd none = failure
  parse_tsd (some fs) = read_endpoint (find endpoint fs)
