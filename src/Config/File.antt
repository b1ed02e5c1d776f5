-- ===== src/Config/File.antt =====
-- sng_parse_config as a whole (src/parser/sng_parser.c).
use synergy_wrapper.Base.{
  ℕ, ◌≡◌, ◌⊎◌, inl, inr, refl, ap, ◌∙◌, List, Option, none, some, Bytes, All, length, arith,
}
use synergy_wrapper.Config.{Value, Parse, parsed, failure, exits}
use synergy_wrapper.Config.Ring.{Section, blank, parse_p2pmd}
use synergy_wrapper.Config.Ring
use synergy_wrapper.Config.Tsd.{Tsd, parse_tsd}
use synergy_wrapper.Config.Tsd
use synergy_wrapper.Config.Spaces.{Namespace, parse_spaces}
use synergy_wrapper.Config.Spaces
use synergy_wrapper.Config.Fields.{AreShort, IsShort}
use synergy_wrapper.Config.Accepted.{parse_p2pmd-Fits}
use synergy_wrapper.Config.Endpoint.{parsed-injective, refused, parse_cases}
use synergy_wrapper.Config.Lengths.{Fits, parse_spaces-Fits}

-- The sections of the file; `none` is a section that is missing or of another type.
pub record Document : Type 0 where
  pub p2pmd : Option (List (Ring.Key × Value))
  pub tsd : Option (List (Tsd.Key × Value))
  pub spaces : Option (List (Option (List (Spaces.Key × Value))))

-- What memory holds before: the caller's numbers, its spaces, and the entries that malloc gives.
pub record Memory : Type 0 where
  pub r_before : ℕ
  pub r_max_before : ℕ
  pub r_list_before : ℕ
  pub spaces_before : List Namespace
  pub entries : ℕ → Namespace

-- sng_cfg_t as the parser leaves it
pub record Settings : Type 0 where
  pub section : Section
  pub tsd_section : Tsd
  pub namespaces : List Namespace

-- the section spaces, whose absence is only logged
unfoldable pub spaces_of :
    Memory → Option (List (Option (List (Spaces.Key × Value)))) → Parse (List Namespace)
unfolding parse_spaces
spaces_of m none = parsed m.spaces_before
spaces_of m (some es) = parse_spaces m.entries es

module _ (dup_utf8 : Value → Option Bytes) (as_int32 : Value → ℕ) where
  -- the three sections in their order
  unfoldable pub parse_sections : Memory → Document → Parse Settings
  unfolding parse_p2pmd parse_tsd spaces_of
  parse_sections m d =
      elim (parse_p2pmd (blank m.r_before m.r_max_before m.r_list_before) d.p2pmd) [
        | parsed s ↦ elim (parse_tsd dup_utf8 as_int32 d.tsd) [
          | parsed t ↦ elim (spaces_of m d.spaces) [
            | parsed l ↦ parsed (record { section = s; tsd_section = t; namespaces = l })
            | failure ↦ failure
            | exits ↦ exits
          ]
          | failure ↦ failure
          | exits ↦ exits
        ]
        | failure ↦ failure
        | exits ↦ exits
      ]

  -- `none` is a file that libbson cannot read
  unfoldable pub sng_parse_config : Memory → Option Document → Parse Settings
  unfolding parse_sections
  sng_parse_config m none = exits
  sng_parse_config m (some d) = parse_sections m d

  sections_parsed :
      (m : Memory) (d : Document) (c : Settings)
      → parse_sections m d ≡ parsed c
      → (parse_p2pmd (blank m.r_before m.r_max_before m.r_list_before) d.p2pmd ≡ parsed c.section)
        × (parse_tsd dup_utf8 as_int32 d.tsd ≡ parsed c.tsd_section)
        × (spaces_of m d.spaces ≡ parsed c.namespaces)
  unfolding parse_sections
  sections_parsed m d c e =
      elim (parse_cases (parse_p2pmd (blank m.r_before m.r_max_before m.r_list_before) d.p2pmd)) [
        | inl (s, f) ↦ elim (parse_cases (parse_tsd dup_utf8 as_int32 d.tsd)) [
          | inl (t, g) ↦ elim (parse_cases (spaces_of m d.spaces)) [
            | inl (l, h) ↦
                let same =
                  parsed-injective {s = record { section = s; tsd_section = t; namespaces = l }}
                    {t = c} (ground (arith, e, f, g, h)) in
                (
                  f ∙ ap (λ (u : Settings). parsed u.section) same,
                  g ∙ ap (λ (u : Settings). parsed u.tsd_section) same,
                  h ∙ ap (λ (u : Settings). parsed u.namespaces) same,
                )
            | inr (inl h) ↦ absurd (refused {s = c} (inl (ground (arith, e, f, g, h))))
            | inr (inr h) ↦ absurd (refused {s = c} (inr (ground (arith, e, f, g, h))))
          ]
          | inr (inl g) ↦ absurd (refused {s = c} (inl (ground (arith, e, f, g))))
          | inr (inr g) ↦ absurd (refused {s = c} (inr (ground (arith, e, f, g))))
        ]
        | inr (inl f) ↦ absurd (refused {s = c} (inl (ground (arith, e, f))))
        | inr (inr f) ↦ absurd (refused {s = c} (inr (ground (arith, e, f))))
      ]

  pub sections_accepted :
      (m : Memory) (d : Document) (s : Section) (t : Tsd) (l : List Namespace)
      → parse_p2pmd (blank m.r_before m.r_max_before m.r_list_before) d.p2pmd ≡ parsed s
      → parse_tsd dup_utf8 as_int32 d.tsd ≡ parsed t
      → spaces_of m d.spaces ≡ parsed l
      → sng_parse_config m (some d)
        ≡ parsed (record { section = s; tsd_section = t; namespaces = l })
  unfolding sng_parse_config parse_sections
  sections_accepted m d s t l f g h = ground (arith, f, g, h)

  section-Fits :
      (m : Memory) (o : Option (List (Ring.Key × Value))) (s : Section)
      → parse_p2pmd (blank m.r_before m.r_max_before m.r_list_before) o ≡ parsed s
      → AreShort s.successors s.r_value × IsShort s.predecessor_string
  unfolding parse_p2pmd
  section-Fits m none s e = absurd (refused {s = s} (inl e))
  section-Fits m (some fs) s e = parse_p2pmd-Fits m.r_before m.r_max_before m.r_list_before fs s e

  namespaces-Fits :
      (m : Memory) (o : Option (List (Option (List (Spaces.Key × Value))))) (l : List Namespace)
      → spaces_of m o ≡ parsed l
      → ((o ≡ none) × (l ≡ m.spaces_before))
        ⊎ ((es : List (Option (List (Spaces.Key × Value)))) × (o ≡ some es)
            × (length l ≡ length es)
            × All Fits l)
  unfolding spaces_of
  namespaces-Fits m none l e = inl (refl, parsed-injective (ground (arith, e)))
  namespaces-Fits m (some es) l e =
      let (n, fits) = parse_spaces-Fits m.entries es l e in inr (es, refl, n, fits)

  -- If sng_parse_config accepts a file, whatever memory held before, then r is the number of entries of the
  -- successor list if one is given, each entry and the predecessor have at most P2PM_MAX_ID_LEN bytes, and
  -- either the file has no array spaces and the caller's spaces are left as they were, or there is one
  -- space for each element of the array, each with a name of at most 25 bytes and, if it is direct, with an
  -- endpoint of at most P2PM_MAX_ID_LEN.
  pub sng_parse_config-Fits :
      (m : Memory) (d : Document) (c : Settings)
      → sng_parse_config m (some d) ≡ parsed c
      → (AreShort c.section.successors c.section.r_value × IsShort c.section.predecessor_string)
        × (((d.spaces ≡ none) × (c.namespaces ≡ m.spaces_before))
            ⊎ ((es : List (Option (List (Spaces.Key × Value)))) × (d.spaces ≡ some es)
                × (length c.namespaces ≡ length es)
                × All Fits c.namespaces))
  unfolding sng_parse_config
  sng_parse_config-Fits m d c e =
      let (p, t, l) = sections_parsed m d c e in
      (section-Fits m d.p2pmd c.section p, namespaces-Fits m d.spaces c.namespaces l)
