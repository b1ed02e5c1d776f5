-- ===== src/Space/Named/Reads.antt =====
-- What a client that reads a name gets from named_queue_read_handler.
use synergy_wrapper.Base.{
  ℕ, zero, suc, ◌≡◌, ◌≢◌, ◌⊎◌, inl, inr, refl, ap, List, [], ◌∷◌, ◌++◌, Bool, arith, if◌then◌else◌,
  Bytes, none, some, All, length, get_elem?, Option-cases,
}
use synergy_wrapper.Space.Types.{Tuple, BlockingRequest}
use synergy_wrapper.Space.Compare.{Order, same, below, above, crash, tplcmp, search_tuple}
use synergy_wrapper.Space.Compare.Symmetry.{tplcmp_symmetric, IsKeyed, tplcmp-crash, tplcmp-name}
use synergy_wrapper.Space.Zlistx.{Zlistx, Search, missing, crashed, found, search, look, remove_at}
use synergy_wrapper.Space.Element.{Element, aborted, Args}
use synergy_wrapper.Space.Matching.{read_response}
use synergy_wrapper.Space.Cases.{Search-cases}
use synergy_wrapper.Space.Named.{
  is_get, answer_read, read_named, named_queue_read_handler, not_found,
}

look-zero : (o : Order) (s : Search) → look o s ≡ found 0 → o ≡ same
look-zero same s h = refl
look-zero crash s h = ground arith
look-zero below missing h = ground arith
look-zero below crashed h = ground arith
look-zero below (found j) h = ground arith
look-zero above missing h = ground arith
look-zero above crashed h = ground arith
look-zero above (found j) h = ground arith

look-suc : (o : Order) (s : Search) (i : ℕ) → look o s ≡ found (suc i) → s ≡ found i
look-suc same s i h = ground arith
look-suc crash s i h = ground arith
look-suc below missing i h = ground arith
look-suc below crashed i h = ground arith
look-suc below (found j) i h = ground arith
look-suc above missing i h = ground arith
look-suc above crashed i h = ground arith
look-suc above (found j) i h = ground arith

module _ {A : Type 0} (c : A → A → Order) (x : A) where
  -- a search that finds a place finds there an item that is the same
  search_found :
      (xs : List A) (i : ℕ)
      → search c xs x ≡ found i
      → (a : A) × ((get_elem? xs i ≡ some a) × (c a x ≡ same))
  unfolding search
  search_found [] i h = absurd (ground arith)
  search_found (y ∷ xs) zero h = (y, (refl, look-zero (c y x) (search c xs x) h))
  search_found (y ∷ xs) (suc i) h = search_found xs i (look-suc (c y x) (search c xs x) i h)

  -- the search passes over every item of a list in front
  pub search_last :
      (xs : List A) (y : A)
      → All (λ a. (c a x ≡ below) ⊎ (c a x ≡ above)) xs
      → c y x ≡ same
      → search c (xs ++ (y ∷ [])) x ≡ found (length xs)
  unfolding search
  search_last [] y a e = ground arith
  search_last (u ∷ xs) y (h, a) e = ground (arith, search_last xs y a e)

  pub search_missing :
      (xs : List A) → All (λ a. (c a x ≡ below) ⊎ (c a x ≡ above)) xs → search c xs x ≡ missing
  unfolding search
  search_missing [] a = ground arith
  search_missing (u ∷ xs) (h, a) = ground (arith, search_missing xs a)

  search_safe : (xs : List A) → All (λ a. c a x ≢ crash) xs → search c xs x ≢ crashed
  unfolding search
  search_safe [] s = ground arith
  search_safe (y ∷ xs) (h, s) = ground (arith, search_safe xs s)

module _ {A : Type 0} where
  pub get_elem-last : (xs : List A) (y : A) → get_elem? (xs ++ (y ∷ [])) (length xs) ≡ some y
  get_elem-last [] y = refl
  get_elem-last (x ∷ xs) y = get_elem-last xs y

  pub remove_at-last : (xs : List A) (y : A) → remove_at (xs ++ (y ∷ [])) (length xs) ≡ xs
  unfolding remove_at
  remove_at-last [] y = refl
  remove_at-last (x ∷ xs) y = ap (λ l. x ∷ l) (remove_at-last xs y)

search_tuple-IsKeyed : (name : Bytes) → IsKeyed (search_tuple name)
unfolding IsKeyed search_tuple
search_tuple-IsKeyed name = inl (ground arith)

module _ (tuples : Zlistx Tuple) (requests : Zlistx BlockingRequest)
    (regex : Bytes → Bytes → Bool) where
  keyed_safe :
      (ts : List Tuple) (name : Bytes)
      → All IsKeyed ts
      → All (λ t. tplcmp regex t (search_tuple name) ≢ crash) ts
  keyed_safe [] name k = tt
  keyed_safe (t ∷ ts) name (k, l) = (tplcmp-crash regex t name k, keyed_safe ts name l)

  answer_read_returns :
      (space : Element tuples requests) (args : Args) (t : Tuple) (o : Order)
      → o ≡ same
      → t.name ≢ none
      → answer_read tuples requests space args t o ≢ aborted
  unfolding answer_read read_response
  answer_read_returns space args t same e k = elim (Option-cases t.name) [
    | inl f ↦ absurd (k f)
    | inr (name, f) ↦ ground (arith, f)
  ]
  answer_read_returns space args t below e k = ground arith
  answer_read_returns space args t above e k = ground arith
  answer_read_returns space args t crash e k = ground arith

  not_found_returns :
      (space : Element tuples requests) (args : Args) (name : Bytes)
      → not_found tuples requests space args name ≢ aborted
  unfolding not_found
  not_found_returns space args name = ground arith

  read_named_returns :
      (space : Element tuples requests) (args : Args) (name : Bytes)
      → All IsKeyed (tuples.items space.named_queue)
      → read_named tuples requests regex space args name ≢ aborted
  unfolding read_named
  read_named_returns space args name k =
      let c = tplcmp regex in
      let s = search_tuple name in
      let ts = tuples.items space.named_queue in
      elim (Search-cases (search c ts s)) [
        | inl e ↦
            rw (read_named, tuples.find_lem c space.named_queue s, e)
              (not_found_returns space args name)
        | inr (inl e) ↦ absurd (search_safe c s ts (keyed_safe ts name k) e)
        | inr (inr (i, e)) ↦
            let (t, (f, g)) = search_found c s ts i e in
            rw
              (
                read_named,
                tuples.find_lem c space.named_queue s,
                e,
                tuples.item_lem space.named_queue i,
                f,
              )
              (answer_read_returns
                (if is_get args
                  then record space { named_queue = tuples.detach space.named_queue i }
                  else space)
                args t (c s t) (tplcmp_symmetric regex t s (search_tuple-IsKeyed name) g)
                (tplcmp-name regex t name g))
      ]

  -- A read handler returns: on a space whose stored tuples have a name or a number it does not read NULL,
  -- and the assertion that the tuple found is the same as the one searched holds.
  pub named_queue_read_handler_returns :
      (space : Element tuples requests) (args : Args)
      → All IsKeyed (tuples.items space.named_queue)
      → named_queue_read_handler tuples requests regex space args ≢ aborted
  unfolding named_queue_read_handler
  named_queue_read_handler_returns space args k = elim (Option-cases args.recv_name) [
    | inl e ↦ ground (arith, e)
    | inr (name, e) ↦ ground (arith, e, read_named_returns space args name k)
  ]
