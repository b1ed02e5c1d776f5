-- ===== src/Space/Compare/Symmetry.antt =====
-- What the comparators of src/tuple_utils.h promise: a name is the same as itself, and the order of two
-- tuples does not matter for being the same.
use synergy_wrapper.Base.{
  ℕ, ◌≡◌, ◌≢◌, ◌⊎◌, inl, inr, refl, [], ◌∷◌, Bool, true, false, arith, Bytes, Option, none, some,
}
use synergy_wrapper.Space.Types.{Tuple}
use synergy_wrapper.Space.Compare.{
  same, crash, strcmp, tplicmp, as_order, compare_names, compare_keys, tplcmp, search_tuple,
}

strcmp_refl : (a : Bytes) → strcmp a a ≡ same
unfolding strcmp
strcmp_refl [] = refl
strcmp_refl (x ∷ a) = ground (arith, strcmp_refl a)

strcmp-sym : (a b : Bytes) → strcmp a b ≡ same → strcmp b a ≡ same
unfolding strcmp
strcmp-sym [] [] h = refl
strcmp-sym [] (y ∷ b) h = ground arith
strcmp-sym (x ∷ a) [] h = ground arith
strcmp-sym (x ∷ a) (y ∷ b) h = ground (arith, strcmp-sym a b)

strcmp-crash : (a b : Bytes) → strcmp a b ≢ crash
unfolding strcmp
strcmp-crash [] [] = ground arith
strcmp-crash [] (y ∷ b) = ground arith
strcmp-crash (x ∷ a) [] = ground arith
strcmp-crash (x ∷ a) (y ∷ b) = ground (arith, strcmp-crash a b)

-- a tuple that the daemon can compare: it has a name or a number
unfoldable pub IsKeyed : Tuple → Type 0
IsKeyed t = (t.name ≢ none) ⊎ (t.anon_id ≢ 0)

module _ (regex : Bytes → Bytes → Bool) where
  pub compare_names_refl : (a : Bytes) → compare_names regex a a ≡ same
  unfolding compare_names
  compare_names_refl a = ground (arith, strcmp_refl a)

  compare_names-sym :
      (a b : Bytes) → compare_names regex a b ≡ same → compare_names regex b a ≡ same
  unfolding compare_names
  compare_names-sym a b h = ground (arith, strcmp-sym a b)

  as_order-crash : (b : Bool) → as_order b ≢ crash
  as_order-crash true = ground arith
  as_order-crash false = ground arith

  compare_names-crash : (a b : Bytes) → compare_names regex a b ≢ crash
  unfolding compare_names
  compare_names-crash a b = ground (arith, strcmp-crash a b)

  compare_keys-sym :
      (a b : Option Bytes) (i j : ℕ)
      → (b ≢ none) ⊎ (j ≢ 0)
      → compare_keys regex a i b j ≡ same
      → compare_keys regex b j a i ≡ same
  unfolding compare_keys tplicmp
  compare_keys-sym none none i j k h = ground arith
  compare_keys-sym none (some b) i j k h = ground arith
  compare_keys-sym (some a) none i j (inl k) h = absurd (k refl)
  compare_keys-sym (some a) none i j (inr k) h = ground arith
  compare_keys-sym (some a) (some b) i j k h = compare_names-sym a b h

  -- Where tplcmp calls a tuple the same as one that has a name or a number, it does so with the two
  -- exchanged.
  pub tplcmp_symmetric :
      (t u : Tuple) → IsKeyed u → tplcmp regex t u ≡ same → tplcmp regex u t ≡ same
  unfolding tplcmp IsKeyed
  tplcmp_symmetric t u k h = compare_keys-sym t.name u.name t.anon_id u.anon_id k h

  compare_keys-name :
      (k : Option Bytes) (i : ℕ) (name : Bytes)
      → compare_keys regex k i (some name) 0 ≡ same
      → k ≢ none
  unfolding compare_keys tplicmp
  compare_keys-name none i name h = ground arith
  compare_keys-name (some a) i name h = ground arith

  compare_keys-crash :
      (k : Option Bytes) (i : ℕ) (name : Bytes)
      → (k ≢ none) ⊎ (i ≢ 0)
      → compare_keys regex k i (some name) 0 ≢ crash
  unfolding compare_keys compare_names tplicmp
  compare_keys-crash none i name (inl h) = absurd (h refl)
  compare_keys-crash none i name (inr h) = ground arith
  compare_keys-crash (some a) i name h = compare_names-crash a name

  -- A search by name does not read a NULL name in a tuple that has a name or a number.
  pub tplcmp-crash :
      (t : Tuple) (name : Bytes) → IsKeyed t → tplcmp regex t (search_tuple name) ≢ crash
  unfolding tplcmp IsKeyed search_tuple
  tplcmp-crash t name h = compare_keys-crash t.name t.anon_id name h

  -- A tuple that a search by name finds has a name.
  pub tplcmp-name :
      (t : Tuple) (name : Bytes) → tplcmp regex t (search_tuple name) ≡ same → t.name ≢ none
  unfolding tplcmp search_tuple
  tplcmp-name t name h = compare_keys-name t.name t.anon_id name h
