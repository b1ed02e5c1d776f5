-- ===== src/Config/Lengths.antt =====
-- The buffers of a space that sng_parse_config accepts (src/parser/sng_parser.c).
use synergy_wrapper.Base.{
  ℕ, suc, ltb, ◌≡◌, ◌≢◌, ◌≤◌, ◌<◌, refl, sym, ap, ◌∙◌, ◌⊎◌, inl, inr, subst, List, [], ◌∷◌, Bool,
  true, false, Option, none, some, Bytes, length, All, Bool-cases, Option-cases, arith, replicate,
}
use synergy_wrapper.Space.Types.{TsMode}
use synergy_wrapper.Config.{Value, utf8, int32, array, other, parsed, bvget, bvset, all_set}
use synergy_wrapper.Config.Fields.{bvget-bvset, length-bvset}
use synergy_wrapper.Config.Accepted.{every_bit}
use synergy_wrapper.Config.Spaces.{
  Key, Namespace, Draft, mark, nothing, tsd_mode_loop, store_tsd_mode, store_ts_mode, ts_mode_of,
  space_field, space_fields, parse_space, parse_spaces,
}
use synergy_wrapper.Config.Endpoint.{
  parsed-injective, refused, parse_cases, EndpointFits, tsd_mode_loop-Fits,
}

abbrev pub Fits : Namespace → Type 0
Fits s = (length s.name_string ≤ 25) × EndpointFits s

-- The invariant of the loop over the fields of a space.
record FitsSoFar (d : Draft) : Type 0 where
  named : (bvget d.bv 0 ≡ false) ⊎ (length d.space.name_string ≤ 25)
  addressed : (bvget d.bv 3 ≡ false) ⊎ EndpointFits d.space
  four : length d.bv ≡ 4

mark_lem :
    (x : ℕ) (d t : Draft)
    → mark x d ≡ parsed t
    → (bvget d.bv x ≡ false) × (record d { bv = bvset d.bv x } ≡ t)
unfolding mark
mark_lem x d t e = elim (Bool-cases (bvget d.bv x)) [
  | inl on ↦ absurd (refused {s = t} (inl (ground (arith, e, on))))
  | inr off ↦ (off, parsed-injective (ground (arith, e, off)))
]

-- A bit other than x is as it was, and the bit x is set.
other_bit :
    (b : List Bool) (x y : ℕ)
    → x < length b
    → x ≢ y
    → bvget b y ≡ false
    → bvget (bvset b x) y ≡ false
other_bit b x y lt ne h = ground (arith, bvget-bvset b x y lt, h)

name-FitsSoFar :
    (d t : Draft) (v : Bytes)
    → space_field d Key.name (utf8 v) ≡ parsed t
    → FitsSoFar d
    → FitsSoFar t
unfolding space_field
name-FitsSoFar d t v e i = elim (Bool-cases (ltb 25 (length v))) [
  | inl long ↦ absurd (refused {s = t} (inl (ground (arith, e, long))))
  | inr short ↦
      let (off, f) =
        mark_lem 0 (record d { space = record d.space { name_string = v } }) t
          (ground (arith, e, short)) in
      subst FitsSoFar f (record {
        named = inr (ground (arith, short));
        addressed = elim i.addressed [
          | inl h ↦ inl (other_bit d.bv 0 3 (omega (arith, i.four)) (omega arith) h)
          | inr h ↦ inr h
        ];
        four = length-bvset d.bv 0 ∙ i.four;
      })
]

-- A field that keeps the name and the endpoint.
kept-FitsSoFar :
    (x : ℕ) (d t : Draft) → x < 4 → x ≢ 0 → x ≢ 3 → mark x d ≡ parsed t → FitsSoFar d → FitsSoFar t
kept-FitsSoFar x d t lt n0 n3 e i =
    let (off, f) = mark_lem x d t e in
    subst FitsSoFar f (record {
      named = elim i.named [
        | inl h ↦ inl (other_bit d.bv x 0 (omega (arith, i.four, lt)) n0 h)
        | inr h ↦ inr h
      ];
      addressed = elim i.addressed [
        | inl h ↦ inl (other_bit d.bv x 3 (omega (arith, i.four, lt)) n3 h)
        | inr h ↦ inr h
      ];
      four = length-bvset d.bv x ∙ i.four;
    })

tsd_mode-FitsSoFar :
    (d t : Draft) (es : List (Option Bytes))
    → store_tsd_mode d (tsd_mode_loop 0 nothing d.space es) ≡ parsed t
    → FitsSoFar d
    → FitsSoFar t
unfolding store_tsd_mode
tsd_mode-FitsSoFar d t es e i = elim (Option-cases (tsd_mode_loop 0 nothing d.space es)) [
  | inl none_left ↦ absurd (refused {s = t} (inl (ground (arith, e, none_left))))
  | inr (s, l) ↦
      let (same_name, fits) = tsd_mode_loop-Fits d.space s es l in
      let (off, f) = mark_lem 3 (record d { space = s }) t (ground (arith, e, l)) in
      subst FitsSoFar f (record {
        named = elim i.named [
          | inl h ↦ inl (other_bit d.bv 3 0 (omega (arith, i.four)) (omega arith) h)
          | inr h ↦ inr (subst (λ n. length n ≤ 25) (sym same_name) h)
        ];
        addressed = inr fits;
        four = length-bvset d.bv 3 ∙ i.four;
      })
]

mode-FitsSoFar :
    (d t : Draft) (o : Option TsMode) → store_ts_mode d o ≡ parsed t → FitsSoFar d → FitsSoFar t
unfolding store_ts_mode
mode-FitsSoFar d t none e i = absurd (refused {s = t} (inl e))
mode-FitsSoFar d t (some m) e i =
    kept-FitsSoFar 2 (record d { space = record d.space { ts_mode = m } }) t (omega arith)
      (omega arith) (omega arith) e
      (record { named = i.named; addressed = i.addressed; four = i.four })

field-FitsSoFar :
    (d t : Draft) (k : Key) (v : Value) → space_field d k v ≡ parsed t → FitsSoFar d → FitsSoFar t
unfolding space_field
field-FitsSoFar d t Key.name (utf8 v) e i = name-FitsSoFar d t v e i
field-FitsSoFar d t Key.name (int32 n) e i = absurd (refused {s = t} (inl e))
field-FitsSoFar d t Key.name (array es) e i = absurd (refused {s = t} (inl e))
field-FitsSoFar d t Key.name other e i = absurd (refused {s = t} (inl e))
field-FitsSoFar d t Key.id (utf8 v) e i = absurd (refused {s = t} (inl e))
field-FitsSoFar d t Key.id (int32 n) e i =
    kept-FitsSoFar 1 (record d { space = record d.space { id_value = n } }) t (omega arith)
      (omega arith) (omega arith) e
      (record { named = i.named; addressed = i.addressed; four = i.four })
field-FitsSoFar d t Key.id (array es) e i = absurd (refused {s = t} (inl e))
field-FitsSoFar d t Key.id other e i = absurd (refused {s = t} (inl e))
field-FitsSoFar d t Key.mode (utf8 v) e i = mode-FitsSoFar d t (ts_mode_of v) e i
field-FitsSoFar d t Key.mode (int32 n) e i = absurd (refused {s = t} (inl e))
field-FitsSoFar d t Key.mode (array es) e i = absurd (refused {s = t} (inl e))
field-FitsSoFar d t Key.mode other e i = absurd (refused {s = t} (inl e))
field-FitsSoFar d t Key.tsd_mode (utf8 v) e i = absurd (refused {s = t} (inl e))
field-FitsSoFar d t Key.tsd_mode (int32 n) e i = absurd (refused {s = t} (inl e))
field-FitsSoFar d t Key.tsd_mode (array es) e i = tsd_mode-FitsSoFar d t es e i
field-FitsSoFar d t Key.tsd_mode other e i = absurd (refused {s = t} (inl e))
field-FitsSoFar d t Key.unknown v e i = absurd (refused {s = t} (inl e))

fields-FitsSoFar :
    (fs : List (Key × Value)) (d t : Draft)
    → space_fields d fs ≡ parsed t
    → FitsSoFar d
    → FitsSoFar t
unfolding space_fields
fields-FitsSoFar [] d t e i = subst FitsSoFar (parsed-injective e) i
fields-FitsSoFar ((k, v) ∷ fs) d t e i = elim (parse_cases (space_field d k v)) [
  | inl (u, f) ↦ fields-FitsSoFar fs u t (ground (arith, e, f)) (field-FitsSoFar d u k v f i)
  | inr (inl f) ↦ absurd (refused {s = t} (inl (ground (arith, e, f))))
  | inr (inr f) ↦ absurd (refused {s = t} (inr (ground (arith, e, f))))
]

FitsSoFar-Fits : (d : Draft) → FitsSoFar d → all_set d.bv ≡ true → Fits d.space
FitsSoFar-Fits d i on =
    let get = λ (x : ℕ) (lt : x < 4). every_bit d.bv x on (omega (arith, i.four, lt)) in
    (
      elim i.named [ inl off ↦ absurd (ground (arith, get 0 (omega arith), off)) | inr h ↦ h ],
      elim i.addressed [ inl off ↦ absurd (ground (arith, get 3 (omega arith), off)) | inr h ↦ h ],
    )

abbrev start : Namespace → Draft
start blank = record { bv = replicate 4 false; space = blank }

start-FitsSoFar : (blank : Namespace) → FitsSoFar (start blank)
unfolding bvget
start-FitsSoFar blank = record { named = inl refl; addressed = inl refl; four = refl }

parse_space-Fits :
    (blank s : Namespace) (o : Option (List (Key × Value)))
    → parse_space blank o ≡ parsed s
    → Fits s
unfolding parse_space
parse_space-Fits blank s none e = absurd (refused {s = s} (inl e))
parse_space-Fits blank s (some fs) e = elim (parse_cases (space_fields (start blank) fs)) [
  | inl (d, f) ↦ elim (Bool-cases (all_set d.bv)) [
    | inl on ↦
        subst Fits (parsed-injective {s = d.space} {t = s} (ground (arith, e, f, on)))
          (FitsSoFar-Fits d (fields-FitsSoFar fs (start blank) d f (start-FitsSoFar blank)) on)
    | inr off ↦ absurd (refused {s = s} (inr (ground (arith, e, f, off))))
  ]
  | inr (inl f) ↦ absurd (refused {s = s} (inl (ground (arith, e, f))))
  | inr (inr f) ↦ absurd (refused {s = s} (inr (ground (arith, e, f))))
]

-- If sng_parse_config accepts the section spaces, whatever malloc left in the entries, it makes one entry for each
-- element, each with a name of at most 25 bytes, which leaves room in its 30, and an endpoint of at most
-- P2PM_MAX_ID_LEN bytes if the space is direct.
pub parse_spaces-Fits :
    (blank : ℕ → Namespace) (es : List (Option (List (Key × Value)))) (l : List Namespace)
    → parse_spaces blank es ≡ parsed l
    → (length l ≡ length es) × All Fits l
unfolding parse_spaces
parse_spaces-Fits blank [] l e =
    subst (λ k. (length k ≡ 0) × All Fits k) (parsed-injective e) (refl, tt)
parse_spaces-Fits blank (o ∷ es) l e = elim (parse_cases (parse_space (blank 0) o)) [
  | inl (s, f) ↦ elim (parse_cases (parse_spaces (λ n. blank (suc n)) es)) [
    | inl (k, g) ↦
        let (n, fits) = parse_spaces-Fits (λ n. blank (suc n)) es k g in
        subst (λ r. (length r ≡ length (o ∷ es)) × All Fits r)
          (parsed-injective {s = s ∷ k} {t = l} (ground (arith, e, f, g)))
          (ap suc n, (parse_space-Fits (blank 0) s o f, fits))
    | inr (inl g) ↦ absurd (refused {s = l} (inl (ground (arith, e, f, g))))
    | inr (inr g) ↦ absurd (refused {s = l} (inr (ground (arith, e, f, g))))
  ]
  | inr (inl f) ↦ absurd (refused {s = l} (inl (ground (arith, e, f))))
  | inr (inr f) ↦ absurd (refused {s = l} (inr (ground (arith, e, f))))
]
