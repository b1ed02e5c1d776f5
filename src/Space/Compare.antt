-- ===== src/Space/Compare.antt =====
-- The comparators of src/tuple_utils.h. A comparator that reads a NULL name crashes.
pub mod Symmetry
use synergy_wrapper.Base.{
  ℕ, ◌≡◌, ◌≢◌, refl, List, [], ◌∷◌, Bool, true, false, not, ◌&&◌, ◌||◌, arith, if◌then◌else◌, ◌==◌,
  ltb, Bytes, Option, none, some,
}
use synergy_wrapper.Space.Glob.{matches}
use synergy_wrapper.Space.Types.{Tuple, BlockingRequest, Command, is_command}

-- The result of a comparator: 0, a negative or a positive number, or a read through NULL.
pub data Order : Type 0 where
  same below above crash : Order

-- strcmp, on the bytes of two strings
unfoldable pub strcmp : Bytes → Bytes → Order
strcmp [] [] = same
strcmp [] (y ∷ ys) = below
strcmp (x ∷ xs) [] = above
strcmp (x ∷ xs) (y ∷ ys) =
    let rest = strcmp xs ys in if x == y then rest else if ltb x y then below else above

-- tplicmp
unfoldable pub tplicmp : ℕ → ℕ → Order
tplicmp a b = if ltb a b then below else if ltb b a then above else same

-- `streq(name, "*")`
unfoldable pub is_star : Bytes → Bool
is_star [] = false
is_star (c ∷ []) = c == b'*'
is_star (c ∷ d ∷ s) = false

-- `name[0] == c`, for a `c` that is not '\0', and `name + 1`
unfoldable pub starts : ℕ → Bytes → Bool
starts c [] = false
starts c (d ∷ s) = d == c

unfoldable pub rest_of : Bytes → Bytes
rest_of [] = []
rest_of (c ∷ s) = s

-- The results 0 and 1 of `_match` and of tplregex.
abbrev pub as_order : Bool → Order
as_order true = same
as_order false = above

-- the tuple that a search of the queues by name takes
unfoldable pub search_tuple : Bytes → Tuple
search_tuple name = record { name = some name; anon_id = 0; len = 0; contents = [] }

-- What the code takes from regcomp and regexec: whether the expression compiles and matches a name.
module _ (regex : Bytes → Bytes → Bool) where
  -- tplcmp on two names that are no NULL, behind its first test
  unfoldable pub compare_names : Bytes → Bytes → Order
  unfolding strcmp is_star starts rest_of
  compare_names a b =
      if is_star a || is_star b
      then same
      else if starts b':' a && not (starts b':' b)
      then as_order (regex (rest_of a) b)
      else if not (starts b':' a) && starts b':' b
      then as_order (regex (rest_of b) a)
      else if starts b'!' b && not (starts b'!' a)
      then as_order (matches (rest_of b) a)
      else if starts b'!' a && not (starts b'!' b)
      then as_order (matches (rest_of a) b)
      else strcmp a b

  -- a name and an id, of tplcmp's two tuples
  unfoldable pub compare_keys : Option Bytes → ℕ → Option Bytes → ℕ → Order
  unfolding tplicmp compare_names
  compare_keys none i none j = if not (i == 0) || not (j == 0) then tplicmp i j else crash
  compare_keys none i (some b) j = if not (i == 0) then tplicmp i j else crash
  compare_keys (some a) i none j =
      if not (j == 0) then tplicmp i j else if is_star a then same else crash
  compare_keys (some a) i (some b) j = compare_names a b

  -- tplcmp
  unfoldable pub tplcmp : Tuple → Tuple → Order
  unfolding compare_keys
  tplcmp t u = compare_keys t.name t.anon_id u.name u.anon_id

  -- kcmp
  unfoldable pub kcmp : Bytes → Bytes → Order
  unfolding compare_keys
  kcmp a b = compare_keys (some a) 0 (some b) 0

  -- blckcmp_str: both ids are the first request's
  unfoldable pub blckcmp_str : BlockingRequest → BlockingRequest → Order
  unfolding compare_keys
  blckcmp_str b c =
      if is_command b.command Command.pop_blocking || is_command b.command Command.peek_blocking
      then same
      else compare_keys b.name b.extra c.name b.extra
