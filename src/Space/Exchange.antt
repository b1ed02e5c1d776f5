-- ===== src/Space/Exchange.antt =====
-- Writers and readers of one space: named_queue_write_handler, match_blocking_requests and
-- named_queue_read_handler of src/tsd/tsd.c one after the other.
pub mod PutGet
pub mod Waiting
use synergy_wrapper.Base.{
  ℕ, zero, suc, ◌+◌, ◌<◌, ◌≡◌, ◌≢◌, ◌⊎◌, inl, inr, refl, sym, ap, ◌∙◌, List, [], ◌∷◌, ◌++◌, Bool,
  true, false, not, ◌&&◌, ◌||◌, arith, if◌then◌else◌, Bytes, Option, none, some, All, length,
  get_elem?,
}
use synergy_wrapper.Ring.Node.{route, word, text}
use synergy_wrapper.Space.Types.{Tuple, BlockingRequest, is_mode, mode_p2p, put, get, read}
use synergy_wrapper.Space.Compare.{
  Order, same, below, above, tplcmp, search_tuple, compare_keys, blckcmp_str,
}
use synergy_wrapper.Space.Compare.Symmetry.{compare_names_refl}
use synergy_wrapper.Space.Zlistx.{Zlistx, search, found, remove_at}
use synergy_wrapper.Space.Element.{
  Daemon, Element, Output, more, last, shared, Result, returned, Args, Code, success, bytes_or_none,
  ts_ack,
}
use synergy_wrapper.Space.Matching.{
  Ending, ended, crash_in_loop, no_end, ending_map, search_request, match_loop, read_response,
}
use synergy_wrapper.Space.Matching.Scan.{scan, match_loop-scan}
use synergy_wrapper.Space.Store.{
  match_blocking_requests, store_tuple, append_tuple, put_tuple, named_queue_write_handler,
}
use synergy_wrapper.Space.Named.{
  is_get, reply_header, answer_read, read_named, named_queue_read_handler,
}
use synergy_wrapper.Space.Named.Reads.{search_last, get_elem-last, remove_at-last}

pub ended-inverse :
    {Q P : Type 0} (f : Q → P) (e : Ending Q) (p : P) (n : Bool) (out : List Output) (c : Code)
    → ending_map f [] e ≡ ended p n out c
    → (q : Q) × ((f q ≡ p) × (e ≡ ended q n out c))
ended-inverse f (ended q m o d) p n out c h = (q, (ground arith, ground arith))
ended-inverse f crash_in_loop p n out c h = absurd (ground arith)
ended-inverse f no_end p n out c h = absurd (ground arith)

-- a result of a comparator that is not 0
abbrev pub Differs : Order → Type 0
Differs o = (o ≡ below) ⊎ (o ≡ above)

module _ (regex : Bytes → Bytes → Bool) where
  pub scan-Differs :
      (t : Tuple) (bs : List BlockingRequest)
      → All (λ b. Differs (blckcmp_str regex b (search_request t))) bs
      → scan regex t true bs ≡ ended bs true [] success
  unfolding scan
  scan-Differs t [] a = refl
  scan-Differs t (b ∷ bs) (h, a) = ground (arith, scan-Differs t bs a)

  module _ (tuples : Zlistx Tuple) (requests : Zlistx BlockingRequest) where
    -- the loop passes over requests that do not match
    pub match_loop-Differs :
        (fuel : ℕ) (t : Tuple) (q : requests.Queue)
        → length (requests.items q) < fuel
        → All (λ b. Differs (blckcmp_str regex b (search_request t))) (requests.items q)
        → (p : requests.Queue) × ((requests.items p ≡ requests.items q)
            × (match_loop regex requests fuel t true q ≡ ended p true [] success))
    match_loop-Differs fuel t q h a =
        ended-inverse requests.items (match_loop regex requests fuel t true q) (requests.items q)
          true [] success
          (match_loop-scan regex requests fuel t true q h ∙ scan-Differs t (requests.items q) a)

    -- the tuple stored by a match_blocking_requests that matches nothing, and the requests as they were
    abbrev pub Stores : Element tuples requests → Tuple → Element tuples requests → Type 0
    Stores space t after =
        (p : requests.Queue) × ((requests.items p ≡ requests.items space.named_queue_requests)
          × (after ≡ record space {
            named_queue_requests = p;
            named_queue = tuples.add_end space.named_queue t;
          }))

    pub put_tuple_lem :
        (self : Daemon) (space : Element tuples requests) (t : Tuple) (p : requests.Queue)
        → is_mode space.ts_mode mode_p2p ≡ false
        → match_loop regex requests
            (suc (requests.size space.named_queue_requests))
            t
            true
            space.named_queue_requests
          ≡ ended p true [] success
        → put_tuple tuples requests regex self space t
          ≡ returned
              (record space {
                named_queue_requests = p;
                named_queue = tuples.add_end space.named_queue t;
              })
              []
              success
    unfolding put_tuple match_blocking_requests store_tuple append_tuple
    put_tuple_lem self space t p m e = ground (arith, m, e)

    pub put_tuple-Differs :
        (self : Daemon) (space : Element tuples requests) (t : Tuple)
        → is_mode space.ts_mode mode_p2p ≡ false
        → All
            (λ b. Differs (blckcmp_str regex b (search_request t)))
            (requests.items space.named_queue_requests)
        → (after : Element tuples requests) × (Stores space t after
            × (put_tuple tuples requests regex self space t ≡ returned after [] success))
    put_tuple-Differs self space t m a =
        let q = space.named_queue_requests in
        let (p, (f, e)) =
          match_loop-Differs (suc (requests.size q)) t q (omega (arith, requests.size_lem q)) a in
        (
          record space {
            named_queue_requests = p;
            named_queue = tuples.add_end space.named_queue t;
          },
          ((p, (f, refl)), put_tuple_lem self space t p m e),
        )

    pub tplcmp-search :
        (t : Tuple) (name : Bytes) → t.name ≡ some name → tplcmp regex t (search_tuple name) ≡ same
    unfolding tplcmp search_tuple compare_keys
    tplcmp-search t name e = rw (e) (compare_names_refl regex name)

    pub search-tplcmp :
        (t : Tuple) (name : Bytes) → t.name ≡ some name → tplcmp regex (search_tuple name) t ≡ same
    unfolding tplcmp search_tuple compare_keys
    search-tplcmp t name e = rw (e) (compare_names_refl regex name)

    -- a read of a name that the last tuple alone has
    pub read_named-last :
        (space : Element tuples requests) (r : Args) (name : Bytes) (xs : List Tuple) (t : Tuple)
        → tuples.items space.named_queue ≡ xs ++ (t ∷ [])
        → All (λ u. Differs (tplcmp regex u (search_tuple name))) xs
        → t.name ≡ some name
        → read_named tuples requests regex space r name
          ≡ answer_read tuples requests
              (if is_get r
                then record space { named_queue = tuples.detach space.named_queue (length xs) }
                else space)
              r
              t
              same
    unfolding read_named
    read_named-last space r name xs t e a n =
        let c = tplcmp regex in
        let s = search_tuple name in
        let q = space.named_queue in
        let found_last =
          ap (λ l. search c l s) e ∙ search_last c s xs t a (tplcmp-search t name n) in
        let item_last = ap (λ l. get_elem? l (length xs)) e ∙ get_elem-last xs t in
        rw
          (
            read_named,
            tuples.find_lem c q s,
            found_last,
            tuples.item_lem q (length xs),
            item_last,
            search-tplcmp t name n,
          )
          refl
