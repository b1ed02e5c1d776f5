-- ===== src/Tests/Config.antt =====
-- A section p2pmd of a configuration (src/parser/sng_parser.c).
use synergy_wrapper.Base.{◌≡◌, ◌≢◌, refl, List, [], ◌∷◌, true, some, replicate}
use synergy_wrapper.Ring.Server.Maintenance.{same_bytes}
use synergy_wrapper.Config.{Value, utf8, int32, array, parsed, bvget, bvset, all_set}
use synergy_wrapper.Config.Ring.{
  Key, Section, blank, member_text, add_slot, slots_of, once, store_list, store_mode, field, fields,
  parse_p2pmd,
}
use synergy_wrapper.Config.Order.{list_behind_r_refused}

-- a section with one successor, which stands before r
abbrev pub section : List (Key × Value)
section =
    (Key.mode, utf8 member_text)
    ∷ (Key.endpoint, utf8 (101 ∷ []))
    ∷ (Key.successor_list, array (some (97 ∷ []) ∷ []))
    ∷ (Key.r, int32 1)
    ∷ (Key.r_max, int32 4)
    ∷ (Key.predecessor, utf8 (98 ∷ []))
    ∷ []

abbrev pub read_section : Section
read_section = record {
  bv = replicate 6 true;
  member = true;
  endpoint_string = some (101 ∷ []);
  r_value = 1;
  r_max_value = 4;
  r_list = 1;
  successors = some ((97 ∷ []) ∷ []);
  predecessor_string = some (98 ∷ []);
}

pub section_read : parse_p2pmd (blank 9 9 9) (some section) ≡ parsed read_section
unfolding parse_p2pmd fields field store_mode store_list slots_of add_slot once bvget bvset all_set
    same_bytes
section_read = refl

list_behind_r_refused_example :
    parse_p2pmd
      (blank 1 1 1)
      (some ((Key.r, int32 1) ∷ (Key.successor_list, array (some (97 ∷ []) ∷ [])) ∷ []))
    ≢ parsed read_section
list_behind_r_refused_example =
    list_behind_r_refused 1 1 1 [] [] [] (int32 1) (array (some (97 ∷ []) ∷ [])) read_section
