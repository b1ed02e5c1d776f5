-- ===== src/Config/Endpoint.antt =====
-- The field tsd_mode of a space (src/parser/sng_parser.c).
use synergy_wrapper.Base.{
  ltb, ◌≡◌, ◌≤◌, refl, sym, ap, ◌⊎◌, inl, inr, List, [], ◌∷◌, true, false, Option, none, some,
  Bytes, length, Bool-cases, arith,
}
use synergy_wrapper.Ring.Server.Maintenance.{same_bytes}
use synergy_wrapper.Config.{Parse, parsed, failure, exits}
use synergy_wrapper.Config.Ring.{max_id_len}
use synergy_wrapper.Config.Spaces.{
  Namespace, is_counted, nothing, any_token, direct, tsd_mode_step, tsd_mode_loop, texts_token,
  texts_direct,
}

pub parsed-injective : {S : Type 0} {s t : S} → parsed s ≡ parsed t → s ≡ t
parsed-injective e = ground (arith, e)

pub refused : {S : Type 0} {s : S} → (failure ≡ parsed s) ⊎ (exits ≡ parsed s) → ⊥
refused (inl e) = ground (arith, e)
refused (inr e) = ground (arith, e)

pub parse_cases :
    {S : Type 0} → (p : Parse S) → ((s : S) × (p ≡ parsed s)) ⊎ (p ≡ failure) ⊎ (p ≡ exits)
parse_cases (parsed s) = inl (s, refl)
parse_cases failure = inr (inl refl)
parse_cases exits = inr (inr refl)

abbrev pub EndpointFits : Namespace → Type 0
EndpointFits s = (s.is_direct ≡ false) ⊎ (length s.direct_endpoint ≤ max_id_len)

-- The element after the first, for a direct space.
second_element :
    (s t : Namespace) (o : Option Bytes) (es : List (Option Bytes))
    → tsd_mode_loop 1 direct s (o ∷ es) ≡ some t
    → (t.name_string ≡ s.name_string) × (length t.direct_endpoint ≤ max_id_len)
unfolding tsd_mode_loop tsd_mode_step is_counted
second_element s t none [] e = ground (arith, e)
second_element s t none (p ∷ es) e = absurd (ground (arith, e))
second_element s t (some v) [] e = elim (Bool-cases (ltb max_id_len (length v))) [
  | inl l ↦ absurd (ground (arith, e, l))
  | inr l ↦ ground (arith, e, l)
]
second_element s t (some v) (p ∷ es) e = elim (Bool-cases (ltb max_id_len (length v))) [
  | inl l ↦ absurd (ground (arith, e, l))
  | inr l ↦ absurd (ground (arith, e, l))
]

after_direct :
    (s t : Namespace) (es : List (Option Bytes))
    → tsd_mode_loop 1 direct s es ≡ some t
    → (t.name_string ≡ s.name_string) × (length t.direct_endpoint ≤ max_id_len)
unfolding tsd_mode_loop is_counted
after_direct s t [] e = absurd (ground (arith, e))
after_direct s t (o ∷ es) e = second_element s t o es e

after_token :
    (s t : Namespace) (es : List (Option Bytes)) → tsd_mode_loop 1 any_token s es ≡ some t → s ≡ t
unfolding tsd_mode_loop is_counted tsd_mode_step
after_token s t [] e = ground (arith, e)
after_token s t (o ∷ es) e = absurd (ground (arith, e))

-- What the loop over tsd_mode gives.
pub tsd_mode_loop-Fits :
    (s t : Namespace) (es : List (Option Bytes))
    → tsd_mode_loop 0 nothing s es ≡ some t
    → (t.name_string ≡ s.name_string)
      × ((t.is_direct ≡ false) ⊎ (length t.direct_endpoint ≤ max_id_len))
unfolding tsd_mode_loop tsd_mode_step is_counted
tsd_mode_loop-Fits s t [] e = absurd (ground (arith, e))
tsd_mode_loop-Fits s t (none ∷ es) e = absurd (ground (arith, e))
tsd_mode_loop-Fits s t (some v ∷ es) e = elim (Bool-cases (same_bytes v texts_token)) [
  | inl y ↦
      let f = after_token (record s { is_direct = false }) t es (ground (arith, e, y)) in
      (sym (ap (λ u. u.name_string) f), inl (sym (ap (λ u. u.is_direct) f)))
  | inr n ↦ elim (Bool-cases (same_bytes v texts_direct)) [
    | inl y ↦
        let (p, q) = after_direct (record s { is_direct = true }) t es (ground (arith, e, n, y)) in
        (p, inr q)
    | inr m ↦ absurd (ground (arith, e, n, m))
  ]
]
