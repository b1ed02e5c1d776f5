-- ===== src/Tests/Tsd.antt =====
-- The section tsd of a configuration (src/parser/sng_parser.c).
use synergy_wrapper.Base.{ℕ, ◌≡◌, [], ◌∷◌, Option, none, some, Bytes, arith}
use synergy_wrapper.Config.{Value, utf8, int32, array, other, parsed}
use synergy_wrapper.Config.Tsd.{endpoint, ipc, replication_factor, unknown, parse_tsd}
use synergy_wrapper.Config.Sequence.{parse_tsd-in_order}

-- what libbson gives for a string and a number, with NULL and 0 for other values
abbrev pub dup_utf8 : Value → Option Bytes
dup_utf8 (utf8 v) = some v
dup_utf8 (int32 n) = none
dup_utf8 (array es) = none
dup_utf8 other = none

abbrev pub as_int32 : Value → ℕ
as_int32 (utf8 v) = 0
as_int32 (int32 n) = n
as_int32 (array es) = 0
as_int32 other = 0

parse_tsd-in_order_example :
    parse_tsd dup_utf8 as_int32 (
      some (
        (unknown, other)
        ∷ (endpoint, utf8 (101 ∷ []))
        ∷ (ipc, utf8 (105 ∷ []))
        ∷ (replication_factor, int32 3)
        ∷ []))
    ≡ parsed (record {
      tsd_endpoint = some (101 ∷ []);
      tsd_ipc_endpoint = some (105 ∷ []);
      tsd_rep_factor = 3;
    })
parse_tsd-in_order_example =
    parse_tsd-in_order dup_utf8 as_int32 ((unknown, other) ∷ []) [] [] [] (utf8 (101 ∷ []))
      (utf8 (105 ∷ [])) (int32 3) ((λ e. ground (arith, e)), tt) tt tt
