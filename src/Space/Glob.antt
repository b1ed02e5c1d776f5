-- ===== src/Space/Glob.antt =====
-- `_match` of src/tuple_utils.h: patterns with `?` and `*`.
use synergy_wrapper.Base.{
  ℕ, ◌≡◌, ◌≢◌, refl, [], ◌∷◌, Bool, true, false, ◌&&◌, ◌||◌, arith, if◌then◌else◌, ◌==◌, Bytes, All,
  Bool-cases, ℕ_discrete, ◌∙◌, sym, inl, inr, ◌↔◌,
}

-- the do loop of the case `*`: the rest of the pattern at every suffix of the name, the empty one too
unfoldable pub try_suffixes : (Bytes → Bool) → Bytes → Bool
try_suffixes f [] = f []
try_suffixes f (n ∷ ns) = f (n ∷ ns) || try_suffixes f ns

-- `_match`; `true` stands for its result 0. A character that is the same in both is passed over first,
-- also where the pattern's is `*`.
unfoldable pub matches : Bytes → Bytes → Bool
unfolding try_suffixes
matches [] [] = true
matches [] (n ∷ ns) = false
matches (e ∷ es) [] = e == b'*' && matches es []
matches (e ∷ es) (n ∷ ns) =
    let same = matches es ns in
    let rest = try_suffixes (matches es) (n ∷ ns) in
    if e == n then same else if e == b'?' then same else if e == b'*' then rest else false

-- What a pattern means: `?` stands for one character, `*` for any text, any other character for itself.
pub data Matches : Bytes → Bytes → Type 0 where
  done : Matches [] []
  same : {c d : ℕ} {es ns : Bytes} → c ≡ d → Matches es ns → Matches (c ∷ es) (d ∷ ns)
  one : {c d : ℕ} {es ns : Bytes} → c ≡ b'?' → Matches es ns → Matches (c ∷ es) (d ∷ ns)
  star_end : {c : ℕ} {es ns : Bytes} → c ≡ b'*' → Matches es ns → Matches (c ∷ es) ns
  star_more : {c d : ℕ} {es ns : Bytes} → c ≡ b'*' → Matches (c ∷ es) ns → Matches (c ∷ es) (d ∷ ns)

try_suffixes-Matches :
    (c : ℕ) (es ns : Bytes)
    → c ≡ b'*'
    → ((ms : Bytes) → matches es ms ≡ true → Matches es ms)
    → try_suffixes (matches es) ns ≡ true
    → Matches (c ∷ es) ns
unfolding try_suffixes
try_suffixes-Matches c es [] e h t = star_end e (h [] t)
try_suffixes-Matches c es (n ∷ ns) e h t = elim (Bool-cases (matches es (n ∷ ns))) [
  | inl m ↦ star_end e (h (n ∷ ns) m)
  | inr m ↦ star_more e (try_suffixes-Matches c es ns e h (ground (arith, m, t)))
]

-- Whatever `_match` accepts is an instance of the pattern.
pub matches-Matches : (es ns : Bytes) → matches es ns ≡ true → Matches es ns
unfolding matches
matches-Matches [] [] h = done
matches-Matches [] (n ∷ ns) h = ground arith
matches-Matches (e ∷ es) [] h = star_end (ground arith) (matches-Matches es [] (ground arith))
matches-Matches (e ∷ es) (n ∷ ns) h = elim (ℕ_discrete e n) [
  | yes p ↦ same p (matches-Matches es ns (ground arith))
  | no p ↦ elim (ℕ_discrete e b'?') [
    | yes q ↦ one q (matches-Matches es ns (ground arith))
    | no q ↦ elim (ℕ_discrete e b'*') [
      | yes r ↦ try_suffixes-Matches e es (n ∷ ns) r (matches-Matches es) (ground arith)
      | no r ↦ absurd (ground arith)
    ]
  ]
]

-- A name without `*`.
abbrev pub HasNoStar : Bytes → Type 0
HasNoStar = All (λ n. n ≢ b'*')

-- Where the name has no `*`, a `*` of the pattern is read as such.
star_iff :
    (c : ℕ) (es ns : Bytes)
    → c ≡ b'*'
    → HasNoStar ns
    → matches (c ∷ es) ns ≡ try_suffixes (matches es) ns
unfolding matches
star_iff c es [] e h = ground arith
star_iff c es (n ∷ ns) e h = ground arith

try_suffixes_whole : (f : Bytes → Bool) (ns : Bytes) → f ns ≡ true → try_suffixes f ns ≡ true
unfolding try_suffixes
try_suffixes_whole f [] h = h
try_suffixes_whole f (n ∷ ns) h = ground arith

try_suffixes_later :
    (f : Bytes → Bool) (n : ℕ) (ns : Bytes)
    → try_suffixes f ns ≡ true
    → try_suffixes f (n ∷ ns) ≡ true
unfolding try_suffixes
try_suffixes_later f n ns h = ground arith

Matches-matches : {es ns : Bytes} → Matches es ns → HasNoStar ns → matches es ns ≡ true
unfolding matches
Matches-matches done h = refl
Matches-matches (same e m) h = ground (arith, Matches-matches m h.1)
Matches-matches (one e m) h = ground (arith, Matches-matches m h.1)
Matches-matches (star_end {c} {es} {ns} e m) h =
    star_iff c es ns e h ∙ try_suffixes_whole (matches es) ns (Matches-matches m h)
Matches-matches (star_more {c} {d} {es} {ns} e m) h =
    star_iff c es (d ∷ ns) e h
    ∙ try_suffixes_later (matches es) d ns (sym (star_iff c es ns e h.1) ∙ Matches-matches m h.1)

star_any : (ns : Bytes) → Matches (b'*' ∷ []) ns
star_any [] = star_end refl done
star_any (n ∷ ns) = star_more refl (star_any ns)

-- On names without `*`, `_match` accepts exactly the instances of the pattern.
pub matches_iff : (es ns : Bytes) → HasNoStar ns → (matches es ns ≡ true) ↔ Matches es ns
matches_iff es ns h = (matches-Matches es ns, λ m. Matches-matches m h)

-- A `*` of the name uses the pattern's `*` up: the pattern `*` stands for every text, and `_match`
-- refuses it for each text of two characters or more that begins with `*`.
pub star_refused :
    (n : ℕ) (ns : Bytes)
    → Matches (b'*' ∷ []) (b'*' ∷ n ∷ ns) × (matches (b'*' ∷ []) (b'*' ∷ n ∷ ns) ≡ false)
unfolding matches
star_refused n ns = (star_more refl (star_any (n ∷ ns)), refl)
