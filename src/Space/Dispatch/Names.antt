-- ===== src/Space/Dispatch/Names.antt =====
-- The names under which spaces are asked for: between the daemons of src/tsd/tsd.c, and from a token that
-- a write sends to its answer.
use synergy_wrapper.Base.{
  ℕ, zero, suc, ◌+◌, ◌-◌, ◌≡◌, ◌≢◌, ◌≤◌, ◌<◌, refl, ap, sym, ◌∙◌, [], ◌∷◌, ◌++◌, Bool, Option, some,
  Bytes, take, drop, length, take-all, length-append, append_assoc, get_or, All, arith,
}
use synergy_wrapper.Ring.Node.{Token}
use synergy_wrapper.Space.Types.{Tuple, BlockingRequest}
use synergy_wrapper.Space.Zlistx.{Zlistx}
use synergy_wrapper.Space.Element.{Daemon, named_token_str}
use synergy_wrapper.Space.Element.Tokens.{named_token_str_lem}
use synergy_wrapper.Space.Connect.{relay}
use synergy_wrapper.Space.Peers.{Space, c_string, match_token_next}
use synergy_wrapper.Space.Dispatch.{namespace_of}

-- A text of a C string.
abbrev pub IsText : Bytes → Type 0
IsText s = All (λ c. c ≢ 0) s

c_string-append : (s t : Bytes) → IsText s → c_string (s ++ (0 ∷ t)) ≡ s
unfolding c_string
c_string-append [] t h = refl
c_string-append (c ∷ s) t (h, k) = ground (arith, h, c_string-append s t k)

pub c_string-text : (s : Bytes) → IsText s → c_string s ≡ s
unfolding c_string
c_string-text [] h = refl
c_string-text (c ∷ s) (h, k) = ground (arith, h, c_string-text s k)

take-append : (s t : Bytes) → take (length s) (s ++ t) ≡ s
take-append [] t = refl
take-append (c ∷ s) t = ap (λ u. c ∷ u) (take-append s t)

-- The name of a space that a daemon sends with its NUL, with its length and 1, is the name that handler
-- looks up, for a name of at most 49 bytes.
pub namespace_of-sent :
    (s : Bytes) → IsText s → length s < 50 → namespace_of (length s + 1) (s ++ (0 ∷ [])) ≡ s
unfolding namespace_of
namespace_of-sent s h lt =
    let all = take-all 50 (s ++ (0 ∷ [])) (omega (arith, length-append s (0 ∷ []))) in
    ap (λ t. c_string (take (length s + 1 - 1) t)) all
    ∙ ap (λ n. c_string (take n (s ++ (0 ∷ [])))) {y = length s} (omega arith)
    ∙ ap c_string (take-append s (0 ∷ []))
    ∙ c_string-text s h

IsText-take : (n : ℕ) (s : Bytes) → IsText s → IsText (take n s)
IsText-take zero s h = tt
IsText-take (suc n) [] h = tt
IsText-take (suc n) (c ∷ s) (h, k) = (h, IsText-take n s k)

-- The name of a space that match_token_next sends, with its length and without its NUL, is looked up by
-- handler without its last byte, for a name of at most 50 bytes.
pub namespace_of-requested :
    (s : Bytes) → IsText s → length s ≤ 50 → namespace_of (length s) s ≡ take (length s - 1) s
unfolding namespace_of
namespace_of-requested s h le =
    ap (λ t. c_string (take (length s - 1) t)) (take-all 50 s le)
    ∙ c_string-text (take (length s - 1) s) (IsText-take (length s - 1) s h)

drop-append : (s t : Bytes) (n : ℕ) → n ≡ length s → drop n (s ++ t) ≡ t
drop-append [] t zero e = refl
drop-append [] t (suc n) e = absurd (omega arith)
drop-append (c ∷ s) t zero e = absurd (omega arith)
drop-append (c ∷ s) t (suc n) e = drop-append s t n (omega arith)

-- the byte that match_token_next reads as the tag
tag_lem :
    (writer : Daemon) (namespace name buf : Bytes)
    → IsText namespace
    → buf ≡ named_token_str writer namespace name
    → get_or (drop (length (c_string buf) + 1) buf) 0 0 ≡ writer.junk
tag_lem writer namespace name buf h b =
    let end = writer.junk ∷ (name ++ (0 ∷ [])) in
    let parts = b ∙ named_token_str_lem writer namespace name in
    let text =
      ap c_string (parts ∙ append_assoc namespace (0 ∷ []) end) ∙ c_string-append namespace end h in
    ap (λ s. get_or (drop (length s + 1) buf) 0 0) text
    ∙ ap (λ s. get_or (drop (length namespace + 1) s) 0 0) parts
    ∙ ap (λ s. get_or s 0 0)
        (drop-append (namespace ++ (0 ∷ [])) end (length namespace + 1)
          (omega (arith, length-append namespace (0 ∷ []))))

module _ (tuples : Zlistx Tuple) (requests : Zlistx BlockingRequest) (patterns : Zlistx Bytes)
    (regex : Bytes → Bytes → Bool) (strtoul : Bytes → ℕ) where
  untagged :
      (self : Daemon) (hash_find : Bytes → Option (Space tuples requests patterns regex strtoul))
      (is_connected : Bool) (token : Token)
      → token.id ≡ 2
      → get_or (drop (length (c_string token.buf1) + 1) token.buf1) 0 0 ≢ b'N'
      → get_or (drop (length (c_string token.buf1) + 1) token.buf1) 0 0 ≢ b'A'
      → match_token_next tuples requests patterns regex strtoul self hash_find is_connected token
        ≡ some (relay token)
  unfolding match_token_next
  untagged self hash_find is_connected token i n a = ground arith

  -- Whatever the spaces expect, match_token_next asks nobody for the tuple whose token a write in a P2P
  -- space has sent, but only passes the token on, if the byte that malloc left in it is neither 'N' nor 'A'.
  pub match_token_next-named_token_str :
      (self writer : Daemon)
      (hash_find : Bytes → Option (Space tuples requests patterns regex strtoul))
      (is_connected : Bool) (token : Token) (namespace name : Bytes)
      → IsText namespace
      → token.id ≡ 2
      → token.buf1 ≡ named_token_str writer namespace name
      → writer.junk ≢ b'N'
      → writer.junk ≢ b'A'
      → match_token_next tuples requests patterns regex strtoul self hash_find is_connected token
        ≡ some (relay token)
  match_token_next-named_token_str self writer hash_find is_connected token namespace name h i b n
        a =
      untagged self hash_find is_connected token i
        (λ e. n (sym (tag_lem writer namespace name token.buf1 h b) ∙ e))
        (λ e. a (sym (tag_lem writer namespace name token.buf1 h b) ∙ e))
