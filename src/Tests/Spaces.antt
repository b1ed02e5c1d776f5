-- ===== src/Tests/Spaces.antt =====
-- The section spaces of a configuration (src/parser/sng_parser.c).
use synergy_wrapper.Base.{ℕ, ◌≡◌, refl, List, [], ◌∷◌, true, false, some}
use synergy_wrapper.Ring.Server.Maintenance.{same_bytes}
use synergy_wrapper.Space.Types.{mode_master}
use synergy_wrapper.Config.{Value, utf8, int32, array, parsed, bvget, bvset, all_set}
use synergy_wrapper.Config.Spaces.{
  Key, Namespace, mark, is_counted, tsd_mode_step, tsd_mode_loop, store_tsd_mode, store_ts_mode,
  ts_mode_of, space_field, space_fields, parse_space, parse_spaces, texts_master, texts_direct,
}

abbrev pub left_over : ℕ → Namespace
left_over n = record {
  name_string = 1 ∷ n ∷ [];
  direct_endpoint = [];
  id_value = n;
  ts_mode = mode_master;
  is_direct = false;
}

-- a direct space
abbrev pub direct_space : List (Key × Value)
direct_space =
    (Key.name, utf8 (120 ∷ []))
    ∷ (Key.id, int32 3)
    ∷ (Key.tsd_mode, array (some texts_direct ∷ some (101 ∷ []) ∷ []))
    ∷ (Key.mode, utf8 texts_master)
    ∷ []

abbrev pub read_space : Namespace
read_space = record {
  name_string = 120 ∷ [];
  direct_endpoint = 101 ∷ [];
  id_value = 3;
  ts_mode = mode_master;
  is_direct = true;
}

pub spaces_read : parse_spaces left_over (some direct_space ∷ []) ≡ parsed (read_space ∷ [])
unfolding parse_spaces parse_space space_fields space_field ts_mode_of store_ts_mode store_tsd_mode
    tsd_mode_loop tsd_mode_step is_counted mark bvget bvset all_set same_bytes
spaces_read = refl
