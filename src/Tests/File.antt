-- ===== src/Tests/File.antt =====
-- A configuration file with one space (src/parser/sng_parser.c).
use synergy_wrapper.Base.{◌≡◌, ◌⊎◌, List, [], ◌∷◌, Option, none, some, All, length}
use synergy_wrapper.Config.{Value, utf8, int32, parsed}
use synergy_wrapper.Config.Tsd.{Key, Tsd, endpoint, ipc, replication_factor, parse_tsd}
use synergy_wrapper.Config.Sequence.{parse_tsd-in_order}
use synergy_wrapper.Config.Spaces
use synergy_wrapper.Config.Spaces.{Namespace, parse_spaces}
use synergy_wrapper.Config.Fields.{AreShort, IsShort}
use synergy_wrapper.Config.Lengths.{Fits}
use synergy_wrapper.Config.File.{
  Document, Memory, Settings, spaces_of, sng_parse_config, sections_accepted, sng_parse_config-Fits,
}
use synergy_wrapper.Tests.Config.{section, read_section, section_read}
use synergy_wrapper.Tests.Tsd.{dup_utf8, as_int32}
use synergy_wrapper.Tests.Spaces.{left_over, direct_space, read_space, spaces_read}

abbrev memory : Memory
memory = record {
  r_before = 9;
  r_max_before = 9;
  r_list_before = 9;
  spaces_before = [];
  entries = left_over;
}

abbrev tsd_fields : List (Key × Value)
tsd_fields =
    (endpoint, utf8 (101 ∷ [])) ∷ (ipc, utf8 (105 ∷ [])) ∷ (replication_factor, int32 3) ∷ []

abbrev file : Document
file = record {
  p2pmd = some section;
  tsd = some tsd_fields;
  spaces = some (some direct_space ∷ []);
}

abbrev read_tsd : Tsd
read_tsd = record {
  tsd_endpoint = some (101 ∷ []);
  tsd_ipc_endpoint = some (105 ∷ []);
  tsd_rep_factor = 3;
}

abbrev settings : Settings
settings = record { section = read_section; tsd_section = read_tsd; namespaces = read_space ∷ [] }

tsd_read : parse_tsd dup_utf8 as_int32 (some tsd_fields) ≡ parsed read_tsd
tsd_read =
    parse_tsd-in_order dup_utf8 as_int32 [] [] [] [] (utf8 (101 ∷ [])) (utf8 (105 ∷ [])) (int32 3)
      tt tt tt

list_read : spaces_of memory file.spaces ≡ parsed (read_space ∷ [])
unfolding spaces_of
list_read = spaces_read

file_read : sng_parse_config dup_utf8 as_int32 memory (some file) ≡ parsed settings
file_read =
    sections_accepted dup_utf8 as_int32 memory file read_section read_tsd (read_space ∷ [])
      section_read tsd_read list_read

sng_parse_config-Fits_example :
    (AreShort (some ((97 ∷ []) ∷ [])) 1 × IsShort (some (98 ∷ [])))
    × (((file.spaces ≡ none) × (settings.namespaces ≡ []))
        ⊎ ((es : List (Option (List (Spaces.Key × Value)))) × (file.spaces ≡ some es)
            × (length settings.namespaces ≡ length es)
            × All Fits settings.namespaces))
sng_parse_config-Fits_example =
    sng_parse_config-Fits dup_utf8 as_int32 memory file settings file_read
