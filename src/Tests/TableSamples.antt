-- ===== src/Tests/TableSamples.antt =====
-- A table of spaces as a function of their names (src/tsd/tsd.c).
use synergy_wrapper.Base.{
  ℕ, ◌≡◌, ◌≢◌, refl, [], ◌∷◌, true, false, ◌==◌, Option, none, some, Bytes, if◌then◌else◌,
  Bool-cases, inl, inr, arith,
}
use synergy_wrapper.Ring.Server.Maintenance.{same_bytes}
use synergy_wrapper.Client.Transport.{same_bytes_refl}
use synergy_wrapper.Space.Zlistx.{Zlistx, list_zlistx}
use synergy_wrapper.Space.Peers.{Space}
use synergy_wrapper.Space.Dispatch.{SpaceTable}
use synergy_wrapper.Tests.SpaceSamples.{tuples, requests, regex, element}

same_bytes-true : (s t : Bytes) → same_bytes s t ≡ true → s ≡ t
unfolding same_bytes
same_bytes-true [] [] e = refl
same_bytes-true [] (d ∷ t) e = absurd (ground (arith, e))
same_bytes-true (c ∷ s) [] e = absurd (ground (arith, e))
same_bytes-true (c ∷ s) (d ∷ t) e = elim (Bool-cases (c == d)) [
  | inl h ↦ ground (arith, h, e, same_bytes-true s t (ground (arith, h, e)))
  | inr h ↦ absurd (ground (arith, h, e))
]

pub same_bytes-false : (s t : Bytes) → s ≢ t → same_bytes s t ≡ false
same_bytes-false s t h = elim (Bool-cases (same_bytes s t)) [
  | inl e ↦ absurd (h (same_bytes-true s t e))
  | inr e ↦ e
]

abbrev pub patterns : Zlistx Bytes
patterns = list_zlistx Bytes

abbrev pub strtoul : Bytes → ℕ
strtoul s = 0

abbrev pub Entry : Type 0
Entry = Space tuples requests patterns regex strtoul

abbrev pub table : SpaceTable Entry
table = record {
  Table = Bytes → Option Entry;
  hash_find = λ t n. t n;
  write = λ t n s m. if same_bytes n m then some s else t m;
  hash_find-write_same = λ t n s. rw (same_bytes_refl n) refl;
  hash_find-write_other = λ t n m s h. rw (same_bytes-false n m h) refl;
}

-- an open space of the mode worker without tuples and requests
abbrev pub entry : Entry
entry = record { element = record (element [] [] [] []) { is_activated = true }; expect_queue = [] }

-- the table in which every name is that of one such space, and that in which none is
abbrev pub spaces : Bytes → Option Entry
spaces n = some entry

abbrev pub no_spaces : Bytes → Option Entry
no_spaces n = none
