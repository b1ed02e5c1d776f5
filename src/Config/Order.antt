-- ===== src/Config/Order.antt =====
-- A successor list behind the field r, in sng_parse_config (src/parser/sng_parser.c).
use synergy_wrapper.Base.{
  ℕ, zero, suc, ltb, ◌≡◌, ◌≢◌, refl, inl, inr, subst, List, [], ◌∷◌, ◌++◌, Bool, true, false,
  Option, none, some, Bytes, length, ◌==◌, if◌then◌else◌, Bool-cases, arith,
}
use synergy_wrapper.Ring.Server.Maintenance.{same_bytes}
use synergy_wrapper.Config.{Value, utf8, int32, array, other, parsed, failure, bvget, bvset}
use synergy_wrapper.Config.Ring.{
  Key, Section, blank, max_id_len, member_text, once, store_list, store_mode, slots_of, field,
  fields, parse_p2pmd,
}
use synergy_wrapper.Config.Fields.{
  IsSound, Parse-cases, failed, guard_lem, otherwise_lem, once_lem, bvget-bvset, field-IsSound,
}
use synergy_wrapper.Config.Accepted.{blank-IsSound, fields_parsed}

-- A bit that is set stays set.
bvset-keeps : (b : List Bool) (x y : ℕ) → bvget b y ≡ true → bvget (bvset b x) y ≡ true
unfolding bvget bvset
bvset-keeps [] x y h = h
bvset-keeps (c ∷ b) zero zero h = refl
bvset-keeps (c ∷ b) zero (suc y) h = h
bvset-keeps (c ∷ b) (suc x) zero h = h
bvset-keeps (c ∷ b) (suc x) (suc y) h = bvset-keeps b x y h

once-keeps :
    (x : ℕ) (s t : Section) → once x s ≡ parsed t → bvget s.bv 4 ≡ true → bvget t.bv 4 ≡ true
once-keeps x s t e h =
    subst (λ u. bvget u.bv 4 ≡ true) (once_lem x s t e).1 (bvset-keeps s.bv x 4 h)

r-keeps :
    (s t : Section) (n : ℕ)
    → (if s.r_list == n then once 2 (record s { r_value = n; bv = bvset s.bv 4 }) else failure)
      ≡ parsed t
    → bvget s.bv 4 ≡ true
    → bvget t.bv 4 ≡ true
r-keeps s t n e h =
    once-keeps 2 (record s { r_value = n; bv = bvset s.bv 4 }) t (guard_lem (s.r_list == n) _ t e).1
      (bvset-keeps s.bv 4 4 h)

mode-keeps :
    (s t : Section) (v : Bytes)
    → store_mode s v ≡ parsed t
    → bvget s.bv 4 ≡ true
    → bvget t.bv 4 ≡ true
unfolding store_mode
mode-keeps s t v e h = elim (Bool-cases (same_bytes v member_text)) [
  | inl m ↦ once-keeps 0 (record s { member = true }) t (ground (arith, e, m)) h
  | inr m ↦ once-keeps 0 (record s { member = false }) t (ground (arith, e, m)) h
]

store_list_refused :
    (s t : Section) (n : ℕ) (o : Option (List Bytes))
    → bvget s.bv 4 ≡ true
    → store_list s n o ≢ parsed t
unfolding store_list
store_list_refused s t n none h e = failed (inl e)
store_list_refused s t n (some l) h e =
    ground (arith, h, (once_lem 4 (record s { r_list = n; successors = some l }) t e).0)

list_refused :
    (s t : Section) (v : Value) → bvget s.bv 4 ≡ true → field s Key.successor_list v ≢ parsed t
unfolding field
list_refused s t (utf8 v) h e = failed (inl e)
list_refused s t (int32 n) h e = failed (inl e)
list_refused s t other h e = failed (inl e)
list_refused s t (array es) h e =
    store_list_refused s t (length es) (slots_of es) h (otherwise_lem _ _ t e).1

field-keeps :
    (s t : Section) (k : Key) (v : Value)
    → field s k v ≡ parsed t
    → bvget s.bv 4 ≡ true
    → bvget t.bv 4 ≡ true
unfolding field
field-keeps s t Key.mode (utf8 v) e h = mode-keeps s t v e h
field-keeps s t Key.mode (int32 n) e h = absurd (failed (inl e))
field-keeps s t Key.mode (array es) e h = absurd (failed (inl e))
field-keeps s t Key.mode other e h = absurd (failed (inl e))
field-keeps s t Key.endpoint (utf8 v) e h =
    once-keeps 1 (record s { endpoint_string = some v }) t e h
field-keeps s t Key.endpoint (int32 n) e h = absurd (failed (inl e))
field-keeps s t Key.endpoint (array es) e h = absurd (failed (inl e))
field-keeps s t Key.endpoint other e h = absurd (failed (inl e))
field-keeps s t Key.r (utf8 v) e h = absurd (failed (inl e))
field-keeps s t Key.r (int32 n) e h = r-keeps s t n e h
field-keeps s t Key.r (array es) e h = absurd (failed (inl e))
field-keeps s t Key.r other e h = absurd (failed (inl e))
field-keeps s t Key.r_max (utf8 v) e h = absurd (failed (inl e))
field-keeps s t Key.r_max (int32 n) e h = once-keeps 3 (record s { r_max_value = n }) t e h
field-keeps s t Key.r_max (array es) e h = absurd (failed (inl e))
field-keeps s t Key.r_max other e h = absurd (failed (inl e))
field-keeps s t Key.successor_list (utf8 v) e h = absurd (failed (inl e))
field-keeps s t Key.successor_list (int32 n) e h = absurd (failed (inl e))
field-keeps s t Key.successor_list (array es) e h = absurd (list_refused s t (array es) h e)
field-keeps s t Key.successor_list other e h = absurd (failed (inl e))
field-keeps s t Key.predecessor (utf8 v) e h =
    once-keeps 5 (record s { predecessor_string = some v }) t
      (otherwise_lem (ltb max_id_len (length v)) _ t e).1 h
field-keeps s t Key.predecessor (int32 n) e h = absurd (failed (inl e))
field-keeps s t Key.predecessor (array es) e h = absurd (failed (inl e))
field-keeps s t Key.predecessor other e h = absurd (failed (inl e))
field-keeps s t Key.unknown v e h = absurd (failed (inr e))

r_sets : (s t : Section) (v : Value) → field s Key.r v ≡ parsed t → IsSound s → bvget t.bv 4 ≡ true
unfolding field
r_sets s t (utf8 v) e i = absurd (failed (inl e))
r_sets s t (array es) e i = absurd (failed (inl e))
r_sets s t other e i = absurd (failed (inl e))
r_sets s t (int32 n) e i =
    once-keeps 2 (record s { r_value = n; bv = bvset s.bv 4 }) t (guard_lem (s.r_list == n) _ t e).1
      (ground (arith, bvget-bvset s.bv 4 4 (omega (arith, i.six))))

-- What the loop has read before the rest of the fields.
first_field :
    (s t : Section) (k : Key) (v : Value) (fs : List (Key × Value))
    → fields s ((k, v) ∷ fs) ≡ parsed t
    → (u : Section) × (field s k v ≡ parsed u) × (fields u fs ≡ parsed t)
unfolding fields
first_field s t k v fs e = elim (Parse-cases (field s k v)) [
  | inl (u, f) ↦ (u, f, ground (arith, e, f))
  | inr (inl f) ↦ absurd (failed {t = t} (inl (ground (arith, e, f))))
  | inr (inr f) ↦ absurd (failed {t = t} (inr (ground (arith, e, f))))
]

list_behind :
    (mid rest : List (Key × Value)) (s t : Section) (w : Value)
    → bvget s.bv 4 ≡ true
    → fields s (mid ++ ((Key.successor_list, w) ∷ rest)) ≢ parsed t
list_behind [] rest s t w h e =
    let (u, f, g) = first_field s t Key.successor_list w rest e in list_refused s u w h f
list_behind ((k, v) ∷ mid) rest s t w h e =
    let (u, f, g) = first_field s t k v (mid ++ ((Key.successor_list, w) ∷ rest)) e in
    list_behind mid rest u t w (field-keeps s u k v f h) g

r_then_list :
    (before mid rest : List (Key × Value)) (s t : Section) (v w : Value)
    → IsSound s
    → fields s (before ++ ((Key.r, v) ∷ (mid ++ ((Key.successor_list, w) ∷ rest)))) ≢ parsed t
r_then_list [] mid rest s t v w i e =
    let (u, f, g) = first_field s t Key.r v (mid ++ ((Key.successor_list, w) ∷ rest)) e in
    list_behind mid rest u t w (r_sets s u v f i) g
r_then_list ((k, x) ∷ before) mid rest s t v w i e =
    let (u, f, g) =
      first_field s t k x (before ++ ((Key.r, v) ∷ (mid ++ ((Key.successor_list, w) ∷ rest)))) e in
    r_then_list before mid rest u t v w (field-IsSound s u k x f i) g

-- A section p2pmd in which the successor list stands somewhere behind the field r is never accepted, whatever
-- the values of the two and the other fields are.
pub list_behind_r_refused :
    (r0 r_max0 r_list0 : ℕ) (before mid rest : List (Key × Value)) (v w : Value) (s : Section)
    → parse_p2pmd
        (blank r0 r_max0 r_list0)
        (some (before ++ ((Key.r, v) ∷ (mid ++ ((Key.successor_list, w) ∷ rest)))))
      ≢ parsed s
list_behind_r_refused r0 r_max0 r_list0 before mid rest v w s e =
    let (u, f) = fields_parsed (blank r0 r_max0 r_list0) s _ e in
    r_then_list before mid rest (blank r0 r_max0 r_list0) u v w (blank-IsSound r0 r_max0 r_list0) f
