-- ===== src/Space/Element/Tokens.antt =====
-- The bytes of a tuple's name in a token (_generate_named_tuple_token_str of src/tsd/tsd.c).
use synergy_wrapper.Base.{
  ℕ, zero, suc, ◌+◌, ◌≡◌, refl, sym, ap, ◌∙◌, [], ◌∷◌, ◌++◌, Bytes, set, length, replicate, arith,
  length-append, length-replicate, append_assoc, append-nil,
}
use synergy_wrapper.Space.Element.{Daemon, memcpy, named_token_str}

set_lem :
    (front : Bytes) (b : ℕ) (rest : Bytes) (i c : ℕ)
    → i ≡ length front
    → set (front ++ (b ∷ rest)) i c ≡ front ++ (c ∷ rest)
set_lem [] b rest zero c e = refl
set_lem [] b rest (suc i) c e = absurd (omega arith)
set_lem (x ∷ front) b rest zero c e = absurd (omega arith)
set_lem (x ∷ front) b rest (suc i) c e = ap (λ l. x ∷ l) (set_lem front b rest i c (omega arith))

replicate-add : (m n k : ℕ) (j : ℕ) → k ≡ m + n → replicate k j ≡ replicate m j ++ replicate n j
replicate-add zero n k j e = ap (λ l. replicate l j) (omega arith)
replicate-add (suc m) n zero j e = absurd (omega arith)
replicate-add (suc m) n (suc k) j e = ap (λ l. j ∷ l) (replicate-add m n k j (omega arith))

-- n bytes at i are overwritten
memcpy_lem :
    (front back : Bytes) (i : ℕ) (s : Bytes) (rest : Bytes)
    → i ≡ length front
    → length back ≡ length s
    → memcpy (front ++ (back ++ rest)) i s ≡ front ++ (s ++ rest)
unfolding memcpy
memcpy_lem front [] i [] rest e h = refl
memcpy_lem front (b ∷ back) i [] rest e h = absurd (omega arith)
memcpy_lem front [] i (c ∷ s) rest e h = absurd (omega arith)
memcpy_lem front (b ∷ back) i (c ∷ s) rest e h =
    ap (λ d. memcpy d (suc i) s)
      (set_lem front b (back ++ rest) i c e ∙ sym (append_assoc front (c ∷ []) (back ++ rest)))
    ∙ memcpy_lem (front ++ (c ∷ [])) back (suc i) s rest
        (omega (arith, e, length-append front (c ∷ []))) (omega (arith, h))
    ∙ append_assoc front (c ∷ []) (s ++ rest)

module _ (self : Daemon) (namespace name : Bytes) where
  dest_lem :
      memcpy
        (replicate (length namespace + 1 + (length name + 1) + 1) self.junk)
        0
        (namespace ++ (0 ∷ []))
      ≡ (namespace ++ (0 ∷ [])) ++ (self.junk ∷ self.junk ∷ replicate (length name) self.junk)
  dest_lem =
      ap (λ d. memcpy d 0 (namespace ++ (0 ∷ [])))
        (replicate-add (length namespace + 1) (suc (suc (length name)))
          (length namespace + 1 + (length name + 1) + 1) self.junk (omega arith))
      ∙ memcpy_lem [] (replicate (length namespace + 1) self.junk) 0 (namespace ++ (0 ∷ []))
          (self.junk ∷ self.junk ∷ replicate (length name) self.junk) refl
          (omega (
            arith,
            length-replicate (length namespace + 1) self.junk,
            length-append namespace (0 ∷ []),
          ))

  the_length : length namespace + 1 + 1 ≡ length ((namespace ++ (0 ∷ [])) ++ (self.junk ∷ []))
  the_length = omega (
    arith,
    length-append (namespace ++ (0 ∷ [])) (self.junk ∷ []),
    length-append namespace (0 ∷ []),
  )

  -- The name of a tuple in a token is its space's name, a NUL, the byte that malloc left there, and the
  -- tuple's name with its NUL: the tag 'N' is overwritten, and nothing is written past the end.
  pub named_token_str_lem :
      named_token_str self namespace name
      ≡ (namespace ++ (0 ∷ [])) ++ (self.junk ∷ (name ++ (0 ∷ [])))
  unfolding named_token_str
  named_token_str_lem =
      let ns = namespace ++ (0 ∷ []) in
      let i = length namespace + 1 + 1 in
      let s = name ++ (0 ∷ []) in
      let back = self.junk ∷ replicate (length name) self.junk in
      let at = the_length in
      ap (λ d. memcpy (set d i b'N') i s) (dest_lem ∙ sym (append_assoc ns (self.junk ∷ []) back))
      ∙ ap (λ d. memcpy d i s)
          (set_lem (ns ++ (self.junk ∷ [])) self.junk (replicate (length name) self.junk) i b'N' at)
      ∙ ap (λ d. memcpy ((ns ++ (self.junk ∷ [])) ++ d) i s)
          (sym (append-nil (b'N' ∷ replicate (length name) self.junk)))
      ∙ memcpy_lem (ns ++ (self.junk ∷ [])) (b'N' ∷ replicate (length name) self.junk) i s [] at
          (omega (arith, length-replicate (length name) self.junk, length-append name (0 ∷ [])))
      ∙ ap (λ d. (ns ++ (self.junk ∷ [])) ++ d) (append-nil s)
      ∙ append_assoc ns (self.junk ∷ []) s
