-- ===== src/Config/Fields.antt =====
-- What each field of a section p2pmd keeps, in sng_parse_config (src/parser/sng_parser.c).
use synergy_wrapper.Base.{
  ℕ, suc, ltb, ◌≡◌, ◌≤◌, ◌<◌, refl, ◌∙◌, ◌⊎◌, inl, inr, List, [], ◌∷◌, Bool, true, false, not, ◌&&◌,
  Option, none, some, Bytes, length, All, get_or-set, length-set, subst, ◌≢◌, if◌then◌else◌, ◌==◌,
  Bool-cases, arith,
}
use synergy_wrapper.Ring.Server.Maintenance.{same_bytes}
use synergy_wrapper.Config.{
  Value, utf8, array, int32, other, Parse, parsed, failure, exits, bvget, bvset,
}
use synergy_wrapper.Config.Ring.{
  Key, Section, max_id_len, slots_of, add_slot, store_list, store_mode, member_text, once, field,
  fields,
}

pub parsed-injective : {s t : Section} → parsed s ≡ parsed t → s ≡ t
parsed-injective e = cc

pub Parse-cases :
    {S : Type 0} (p : Parse S) → ((s : S) × (p ≡ parsed s)) ⊎ ((p ≡ failure) ⊎ (p ≡ exits))
Parse-cases (parsed s) = inl (s, refl)
Parse-cases failure = inr (inl refl)
Parse-cases exits = inr (inr refl)

-- A list of n strings of at most P2PM_MAX_ID_LEN bytes, and such a string, if it is set.
unfoldable pub AreShort : Option (List Bytes) → ℕ → Type 0
AreShort none n = Unit
AreShort (some l) n = All (λ s. length s ≤ max_id_len) l × (length l ≡ n)

unfoldable pub IsShort : Option Bytes → Type 0
IsShort none = Unit
IsShort (some s) = length s ≤ max_id_len

-- The invariant of the loop.
pub record IsSound (s : Section) : Type 0 where
  pub lists : AreShort s.successors s.r_list
  pub previous : IsShort s.predecessor_string
  pub agrees : (bvget s.bv 2 ≡ false) ⊎ ((s.r_value ≡ s.r_list) × (bvget s.bv 4 ≡ true))
  pub six : length s.bv ≡ 6

add_slot-AreShort :
    (s : Bytes) (o : Option (List Bytes)) (n : ℕ) → AreShort o n → AreShort (add_slot s o) (suc n)
unfolding AreShort add_slot
add_slot-AreShort s none n h = tt
add_slot-AreShort s (some l) n (h, k) = elim (Bool-cases (ltb max_id_len (length s))) [
  | inl long ↦ rw long tt
  | inr short ↦ rw short ((ground arith, h), omega arith)
]

slots_of-AreShort : (es : List (Option Bytes)) → AreShort (slots_of es) (length es)
unfolding slots_of AreShort
slots_of-AreShort [] = (tt, refl)
slots_of-AreShort (none ∷ es) = tt
slots_of-AreShort (some s ∷ es) =
    add_slot-AreShort s (slots_of es) (length es) (slots_of-AreShort es)

pub once_lem :
    (x : ℕ) (s t : Section)
    → once x s ≡ parsed t
    → (bvget s.bv x ≡ false) × (record s { bv = bvset s.bv x } ≡ t)
unfolding once
once_lem x s t e = elim (Bool-cases (bvget s.bv x)) [
  | inl set_already ↦ absurd (ground (arith, e, set_already))
  | inr fresh ↦ (fresh, ground (arith, e, fresh))
]

pub bvget-bvset :
    (b : List Bool) (x y : ℕ)
    → x < length b
    → bvget (bvset b x) y ≡ (if x == y then true else bvget b y)
unfolding bvget bvset
bvget-bvset b x y h = get_or-set b x y true false h

pub length-bvset : (b : List Bool) (x : ℕ) → length (bvset b x) ≡ length b
unfolding bvset
length-bvset b x = length-set b x true

-- A field other than r and the list.
once-IsSound : (x : ℕ) (s t : Section) → x < 6 → x ≢ 2 → once x s ≡ parsed t → IsSound s → IsSound t
once-IsSound x s t lt ne e i =
    let (fresh, same_section) = once_lem x s t e in
    let get = λ (y : ℕ). bvget-bvset s.bv x y (omega (arith, i.six)) in
    subst IsSound same_section (record {
      lists = i.lists;
      previous = i.previous;
      agrees = elim i.agrees [
        | inl off ↦ inl (ground (arith, get 2, off))
        | inr (a, on) ↦ inr (a, ground (arith, get 4, on))
      ];
      six = length-bvset s.bv x ∙ i.six;
    })

pub failed : {t : Section} → (failure ≡ parsed t) ⊎ (exits ≡ parsed t) → ⊥
failed (inl e) = ground (arith, e)
failed (inr e) = ground (arith, e)

pub guard_lem :
    (b : Bool) (p : Parse Section) (t : Section)
    → (if b then p else failure) ≡ parsed t
    → (b ≡ true) × (p ≡ parsed t)
guard_lem true p t e = (refl, e)
guard_lem false p t e = absurd (failed (inl e))

pub otherwise_lem :
    (b : Bool) (p : Parse Section) (t : Section)
    → (if b then failure else p) ≡ parsed t
    → (b ≡ false) × (p ≡ parsed t)
otherwise_lem true p t e = absurd (failed (inl e))
otherwise_lem false p t e = (refl, e)

-- The field r: the bit of the list is set with it.
r-IsSound :
    (s t : Section) (n : ℕ)
    → (if s.r_list == n then once 2 (record s { r_value = n; bv = bvset s.bv 4 }) else failure)
      ≡ parsed t
    → IsSound s
    → IsSound t
r-IsSound s t n e i =
    let (same_length, f) = guard_lem (s.r_list == n) _ t e in
    let (fresh, same_section) = once_lem 2 (record s { r_value = n; bv = bvset s.bv 4 }) t f in
    let l = length-bvset s.bv 4 ∙ i.six in
    subst IsSound same_section (record {
      lists = i.lists;
      previous = i.previous;
      agrees = inr (
        ground (arith, same_length),
        ground (
          arith,
          bvget-bvset (bvset s.bv 4) 2 4 (omega (arith, l)),
          bvget-bvset s.bv 4 4 (omega (arith, i.six)),
        ),
      );
      six = length-bvset (bvset s.bv 4) 2 ∙ l;
    })

store_list-IsSound :
    (s t : Section) (n : ℕ) (o : Option (List Bytes))
    → AreShort o n
    → store_list s n o ≡ parsed t
    → IsSound s
    → IsSound t
unfolding store_list
store_list-IsSound s t n none h e i = absurd (failed (inl e))
store_list-IsSound s t n (some l) h e i =
    let (fresh, same_section) = once_lem 4 (record s { r_list = n; successors = some l }) t e in
    subst IsSound same_section (record {
      lists = h;
      previous = i.previous;
      agrees = elim i.agrees [
        | inl off ↦ inl (ground (arith, bvget-bvset s.bv 4 2 (omega (arith, i.six)), off))
        | inr (a, on) ↦ absurd (ground (arith, fresh, on))
      ];
      six = length-bvset s.bv 4 ∙ i.six;
    })

list-IsSound :
    (s t : Section) (es : List (Option Bytes))
    → (if bvget s.bv 2 && not (length es == s.r_value)
        then failure
        else store_list s (length es) (slots_of es))
      ≡ parsed t
    → IsSound s
    → IsSound t
list-IsSound s t es e i =
    store_list-IsSound s t (length es) (slots_of es) (slots_of-AreShort es)
      (otherwise_lem _ _ t e).1 i

mode-IsSound : (s t : Section) (v : Bytes) → store_mode s v ≡ parsed t → IsSound s → IsSound t
unfolding store_mode
mode-IsSound s t v e i = elim (Bool-cases (same_bytes v member_text)) [
  | inl m ↦
      once-IsSound 0 (record s { member = true }) t (omega arith) (omega arith)
        (ground (arith, e, m))
        (record { lists = i.lists; previous = i.previous; agrees = i.agrees; six = i.six })
  | inr m ↦
      once-IsSound 0 (record s { member = false }) t (omega arith) (omega arith)
        (ground (arith, e, m))
        (record { lists = i.lists; previous = i.previous; agrees = i.agrees; six = i.six })
]

predecessor-IsSound :
    (s t : Section) (v : Bytes)
    → (if ltb max_id_len (length v)
        then failure
        else once 5 (record s { predecessor_string = some v }))
      ≡ parsed t
    → IsSound s
    → IsSound t
unfolding IsShort
predecessor-IsSound s t v e i =
    let (short, f) = otherwise_lem (ltb max_id_len (length v)) _ t e in
    once-IsSound 5 (record s { predecessor_string = some v }) t (omega arith) (omega arith) f
      (record { lists = i.lists; previous = ground (arith, short); agrees = i.agrees; six = i.six })

pub field-IsSound :
    (s t : Section) (k : Key) (v : Value) → field s k v ≡ parsed t → IsSound s → IsSound t
unfolding field
field-IsSound s t Key.mode (utf8 v) e i = mode-IsSound s t v e i
field-IsSound s t Key.mode (int32 n) e i = absurd (failed (inl e))
field-IsSound s t Key.mode (array es) e i = absurd (failed (inl e))
field-IsSound s t Key.mode other e i = absurd (failed (inl e))
field-IsSound s t Key.endpoint (utf8 v) e i =
    once-IsSound 1 (record s { endpoint_string = some v }) t (omega arith) (omega arith) e
      (record { lists = i.lists; previous = i.previous; agrees = i.agrees; six = i.six })
field-IsSound s t Key.endpoint (int32 n) e i = absurd (failed (inl e))
field-IsSound s t Key.endpoint (array es) e i = absurd (failed (inl e))
field-IsSound s t Key.endpoint other e i = absurd (failed (inl e))
field-IsSound s t Key.r (utf8 v) e i = absurd (failed (inl e))
field-IsSound s t Key.r (int32 n) e i = r-IsSound s t n e i
field-IsSound s t Key.r (array es) e i = absurd (failed (inl e))
field-IsSound s t Key.r other e i = absurd (failed (inl e))
field-IsSound s t Key.r_max (utf8 v) e i = absurd (failed (inl e))
field-IsSound s t Key.r_max (int32 n) e i =
    once-IsSound 3 (record s { r_max_value = n }) t (omega arith) (omega arith) e
      (record { lists = i.lists; previous = i.previous; agrees = i.agrees; six = i.six })
field-IsSound s t Key.r_max (array es) e i = absurd (failed (inl e))
field-IsSound s t Key.r_max other e i = absurd (failed (inl e))
field-IsSound s t Key.successor_list (utf8 v) e i = absurd (failed (inl e))
field-IsSound s t Key.successor_list (int32 n) e i = absurd (failed (inl e))
field-IsSound s t Key.successor_list (array es) e i = list-IsSound s t es e i
field-IsSound s t Key.successor_list other e i = absurd (failed (inl e))
field-IsSound s t Key.predecessor (utf8 v) e i = predecessor-IsSound s t v e i
field-IsSound s t Key.predecessor (int32 n) e i = absurd (failed (inl e))
field-IsSound s t Key.predecessor (array es) e i = absurd (failed (inl e))
field-IsSound s t Key.predecessor other e i = absurd (failed (inl e))
field-IsSound s t Key.unknown v e i = absurd (failed (inr e))

pub fields-IsSound :
    (fs : List (Key × Value)) (s t : Section) → fields s fs ≡ parsed t → IsSound s → IsSound t
unfolding fields
fields-IsSound [] s t e i = subst IsSound (parsed-injective e) i
fields-IsSound ((k, v) ∷ fs) s t e i = elim (Parse-cases (field s k v)) [
  | inl (s', f) ↦ fields-IsSound fs s' t (ground (arith, e, f)) (field-IsSound s s' k v f i)
  | inr (inl f) ↦ absurd (failed {t = t} (inl (ground (arith, e, f))))
  | inr (inr f) ↦ absurd (failed {t = t} (inr (ground (arith, e, f))))
]
