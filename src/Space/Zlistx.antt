-- ===== src/Space/Zlistx.antt =====
-- The queues of CZMQ that src/tsd/tsd.c calls: what their documentation states, as an interface. A
-- handle is the place of its item.
use synergy_wrapper.Base.{ℕ, zero, suc, ◌≡◌, refl, List, [], ◌∷◌, ◌++◌, Option, length, get_elem?}
use synergy_wrapper.Space.Compare.{Order, same, below, above, crash}

pub data Search : Type 0 where
  missing crashed : Search
  found : ℕ → Search

abbrev pub later : Search → Search
later missing = missing
later crashed = crashed
later (found i) = found (suc i)

abbrev pub look : Order → Search → Search
look same rest = found 0
look crash rest = crashed
look below rest = later rest
look above rest = later rest

module _ {A : Type 0} where
  -- From the first item on, with the item as the comparator's first argument.
  unfoldable pub search : (A → A → Order) → List A → A → Search
  search c [] x = missing
  search c (y ∷ ys) x = look (c y x) (search c ys x)

  unfoldable pub remove_at : List A → ℕ → List A
  remove_at [] i = []
  remove_at (y ∷ ys) zero = ys
  remove_at (y ∷ ys) (suc i) = y ∷ remove_at ys i

-- zlistx_add_end, zlistx_find, zlistx_handle_item and zlistx_detach; zlistx_first and a detach of NULL
-- take the place 0.
pub record Zlistx (A : Type 0) : Type 1 where
  pub Queue : Type 0
  pub items : Queue → List A
  pub add_end : Queue → A → Queue
  pub find : (A → A → Order) → Queue → A → Search
  pub item : Queue → ℕ → Option A
  pub detach : Queue → ℕ → Queue
  pub size : Queue → ℕ
  pub items-add_end : (q : Queue) (a : A) → items (add_end q a) ≡ items q ++ (a ∷ [])
  pub find_lem : (c : A → A → Order) (q : Queue) (a : A) → find c q a ≡ search c (items q) a
  pub item_lem : (q : Queue) (i : ℕ) → item q i ≡ get_elem? (items q) i
  pub items-detach : (q : Queue) (i : ℕ) → items (detach q i) ≡ remove_at (items q) i
  pub size_lem : (q : Queue) → size q ≡ length (items q)

-- Queues that are lists.
abbrev pub list_zlistx : (A : Type 0) → Zlistx A
list_zlistx A = record {
  Queue = List A;
  items = λ q. q;
  add_end = λ q a. q ++ (a ∷ []);
  find = λ c q a. search c q a;
  item = λ q i. get_elem? q i;
  detach = λ q i. remove_at q i;
  size = λ q. length q;
  items-add_end = λ q a. refl;
  find_lem = λ c q a. refl;
  item_lem = λ q i. refl;
  items-detach = λ q i. refl;
  size_lem = λ q. refl;
}
