-- ===== src/Config/Accepted.antt =====
-- What a section p2pmd holds that sng_parse_config accepts (src/parser/sng_parser.c).
use synergy_wrapper.Base.{
  ℕ, zero, suc, ◌≡◌, ◌<◌, refl, sym, inl, inr, List, [], ◌∷◌, Bool, true, false, some, length,
  subst, Bool-cases, arith,
}
use synergy_wrapper.Config.{Value, parsed, bvget, all_set}
use synergy_wrapper.Config.Fields.{
  AreShort, IsShort, IsSound, parsed-injective, Parse-cases, failed, fields-IsSound,
}
use synergy_wrapper.Config.Ring.{Key, Section, blank, fields, parse_p2pmd}

pub blank-IsSound : (r0 r_max0 r_list0 : ℕ) → IsSound (blank r0 r_max0 r_list0)
unfolding AreShort IsShort bvget
blank-IsSound r0 r_max0 r_list0 = record {
  lists = tt;
  previous = tt;
  agrees = inl refl;
  six = refl;
}

pub every_bit : (b : List Bool) (x : ℕ) → all_set b ≡ true → x < length b → bvget b x ≡ true
unfolding all_set bvget
every_bit [] x h lt = absurd (omega arith)
every_bit (false ∷ b) x h lt = absurd (ground (arith, h))
every_bit (true ∷ b) zero h lt = refl
every_bit (true ∷ b) (suc x) h lt = every_bit b x h (omega arith)

accepted_lem :
    (s u : Section) (fs : List (Key × Value))
    → fields s fs ≡ parsed u
    → (t : Section) → parse_p2pmd s (some fs) ≡ parsed t
    → (all_set u.bv ≡ true) × (u ≡ t)
unfolding parse_p2pmd
accepted_lem s u fs f t e = elim (Bool-cases (all_set u.bv)) [
  | inl on ↦ (on, parsed-injective (ground (arith, e, f, on)))
  | inr off ↦ absurd (failed {t = t} (inr (ground (arith, e, f, off))))
]

pub fields_parsed :
    (s t : Section) (fs : List (Key × Value))
    → parse_p2pmd s (some fs) ≡ parsed t
    → (u : Section) × (fields s fs ≡ parsed u)
unfolding parse_p2pmd
fields_parsed s t fs e = elim (Parse-cases (fields s fs)) [
  | inl (u, f) ↦ (u, f)
  | inr (inl f) ↦ absurd (failed {t = t} (inl (ground (arith, e, f))))
  | inr (inr f) ↦ absurd (failed {t = t} (inr (ground (arith, e, f))))
]

Fits : Section → Type 0
Fits s = AreShort s.successors s.r_value × IsShort s.predecessor_string

IsSound-Fits : (s : Section) → IsSound s → all_set s.bv ≡ true → Fits s
unfolding Fits
IsSound-Fits s i on =
    let r_set = every_bit s.bv 2 on (omega (arith, i.six)) in
    elim i.agrees [
      | inl off ↦ absurd (ground (arith, r_set, off))
      | inr (a, b) ↦ (subst (AreShort s.successors) (sym a) i.lists, i.previous)
    ]

-- In a section p2pmd that is accepted, whatever the caller's memory held, r is the number of entries of the
-- successor list if one is given, and each entry and the predecessor have at most P2PM_MAX_ID_LEN bytes.
pub parse_p2pmd-Fits :
    (r0 r_max0 r_list0 : ℕ) (fs : List (Key × Value)) (s : Section)
    → parse_p2pmd (blank r0 r_max0 r_list0) (some fs) ≡ parsed s
    → AreShort s.successors s.r_value × IsShort s.predecessor_string
unfolding Fits
parse_p2pmd-Fits r0 r_max0 r_list0 fs s e =
    let (u, f) = fields_parsed (blank r0 r_max0 r_list0) s fs e in
    let (on, same_section) = accepted_lem (blank r0 r_max0 r_list0) u fs f s e in
    subst Fits same_section (
      IsSound-Fits u
        (fields-IsSound fs (blank r0 r_max0 r_list0) u f (blank-IsSound r0 r_max0 r_list0)) on)
