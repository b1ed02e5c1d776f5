-- ===== src/Space/Matching/Scan.antt =====
-- The loop of match_blocking_requests against one pass over the requests.
use synergy_wrapper.Base.{
  get_elem?, ◌≢◌, ◌⊎◌, ℕ, zero, suc, ◌<◌, ◌≡◌, refl, sym, ap, ◌∙◌, List, [], ◌∷◌, ◌++◌, Bool, true,
  false, not, ◌&&◌, Bytes, length, arith, inl, inr, Option-cases, append_assoc, append-nil,
}
use synergy_wrapper.Ring.Node.{route}
use synergy_wrapper.Space.Types.{Tuple, BlockingRequest}
use synergy_wrapper.Space.Compare.{same, below, above, crash, blckcmp_str}
use synergy_wrapper.Space.Zlistx.{Zlistx, list_zlistx, search, remove_at, Search, look, later}
use synergy_wrapper.Space.Cases.{Order-cases, Search-cases}
use synergy_wrapper.Space.Element.{Output, more, success, serious}
use synergy_wrapper.Space.Matching.{
  Ending, ended, crash_in_loop, no_end, ending_map, reply, failed, crashes, Answer, answer,
  consumes, search_request, serve_match, match_loop, match_found,
}

ending_map-ending_map :
    {P Q R : Type 0} (f : Q → R) (g : P → Q) (xs ys : List Output) (e : Ending P)
    → ending_map f xs (ending_map g ys e) ≡ ending_map (λ p. f (g p)) (xs ++ ys) e
ending_map-ending_map f g xs ys (ended q n rest c) =
    ap (λ o. ended (f (g q)) n o c) (sym (append_assoc xs ys rest))
ending_map-ending_map f g xs ys crash_in_loop = refl
ending_map-ending_map f g xs ys no_end = refl

ending_map-id : {Q : Type 0} (e : Ending Q) → ending_map (λ q. q) [] e ≡ e
ending_map-id (ended q n rest c) = refl
ending_map-id crash_in_loop = refl
ending_map-id no_end = refl

Answer-cases :
    (a : Answer) → (a ≡ failed) ⊎ ((a ≡ crashes) ⊎ ((sent : List Output) × (a ≡ reply sent)))
Answer-cases failed = inl refl
Answer-cases crashes = inr (inl refl)
Answer-cases (reply sent) = inr (inr (sent, refl))

module _ (regex : Bytes → Bytes → Bool) where
  -- A request that matches, with what the pass does behind it: it is answered and leaves; once the
  -- tuple is consumed it leaves with no answer, and the pass ends.
  unfoldable pub scan_match :
      Tuple
      → Bool
      → BlockingRequest
      → List BlockingRequest
      → Ending (List BlockingRequest)
      → Ending (List BlockingRequest)
  unfolding answer consumes
  scan_match t false b bs rest = ended bs false [] success
  scan_match t true b bs rest =
      let out = more b.local (route b.clientid) ∷ [] in
      elim (answer t b) [
        | reply sent ↦ ending_map (λ q. q) (out ++ sent) rest
        | failed ↦ ended bs (not (consumes b)) out serious
        | crashes ↦ crash_in_loop
      ]

  -- One pass over the requests, from the first; a request that does not match stays.
  unfoldable pub scan : Tuple → Bool → List BlockingRequest → Ending (List BlockingRequest)
  unfolding scan_match search_request
  scan t need [] = ended [] need [] success
  scan t need (b ∷ bs) =
      let rest = scan t (need && not (consumes b)) bs in
      let skipped = ending_map (λ q. b ∷ q) [] (scan t need bs) in
      elim (blckcmp_str regex b (search_request t)) [
        | same ↦ scan_match t need b bs rest
        | crash ↦ crash_in_loop
        | below ↦ skipped
        | above ↦ skipped
      ]

  serve_match-map :
      (P Q : Zlistx BlockingRequest) (m : P.Queue → Q.Queue) (t : Tuple) (b : BlockingRequest)
      (f : Bool → Ending P.Queue) (g : Bool → Ending Q.Queue) (need : Bool) (q : P.Queue)
      → ((n : Bool) → ending_map m [] (f n) ≡ g n)
      → ending_map m [] (serve_match regex P t b f need q) ≡ serve_match regex Q t b g need (m q)
  unfolding serve_match
  serve_match-map P Q m t b f g need q h =
      let n = need && not (consumes b) in
      let out = more b.local (route b.clientid) ∷ [] in
      elim (Answer-cases (answer t b)) [
        | inl e ↦ rw (e, serve_match) refl
        | inr (inl e) ↦ rw (e, serve_match) refl
        | inr (inr (sent, e)) ↦
            rw (e, serve_match)
              (ending_map-ending_map m (λ q. q) [] (out ++ sent) (f n)
                ∙ sym (
                    ending_map-ending_map (λ q. q) m (out ++ sent) [] (f n)
                    ∙ ap (λ o. ending_map m o (f n)) (append-nil (out ++ sent)))
                ∙ ap (ending_map (λ q. q) (out ++ sent)) (h n))
      ]

  module _ (requests : Zlistx BlockingRequest) where
    match_found-items :
        (t : Tuple) (f : requests.Queue → Bool → Ending requests.Queue)
        (g : List BlockingRequest → Bool → Ending (List BlockingRequest)) (need : Bool)
        (q : requests.Queue) (i : ℕ)
        → ((n : Bool)
            → ending_map requests.items [] (f (requests.detach q i) n)
              ≡ g (requests.items (requests.detach q i)) n)
        → ending_map requests.items [] (match_found regex requests t f need q i)
          ≡ match_found regex (list_zlistx BlockingRequest) t g need (requests.items q) i
    unfolding match_found
    match_found-items t f g false q i h = rw (match_found, requests.items-detach q i) refl
    match_found-items t f g true q i h = elim (Option-cases (get_elem? (requests.items q) i)) [
      | inl e ↦ rw (match_found, requests.item_lem q i, e) refl
      | inr (b, e) ↦
          rw (match_found, requests.item_lem q i, e)
            (serve_match-map requests (list_zlistx BlockingRequest) requests.items t b
                (f (requests.detach q i)) (g (requests.items (requests.detach q i))) true
                (requests.detach q i) h
              ∙ ap (λ l. serve_match regex (list_zlistx BlockingRequest) t b (g l) true l)
                  (requests.items-detach q i))
    ]

    match_loop-items :
        (fuel : ℕ) (t : Tuple) (need : Bool) (q : requests.Queue)
        → ending_map requests.items [] (match_loop regex requests fuel t need q)
          ≡ match_loop regex (list_zlistx BlockingRequest) fuel t need (requests.items q)
    unfolding match_loop
    match_loop-items zero t need q = refl
    match_loop-items (suc fuel) t need q =
        let c = blckcmp_str regex in
        let s = search_request t in
        elim (Search-cases (search c (requests.items q) s)) [
          | inl e ↦ rw (match_loop, requests.find_lem c q s, e) refl
          | inr (inl e) ↦ rw (match_loop, requests.find_lem c q s, e) refl
          | inr (inr (i, e)) ↦
              rw (match_loop, requests.find_lem c q s, e)
                (match_found-items t (λ p n. match_loop regex requests fuel t n p)
                  (λ p n. match_loop regex (list_zlistx BlockingRequest) fuel t n p) need q i
                  (λ n. match_loop-items fuel t n (requests.detach q i)))
        ]

  later-match_found :
      (t : Tuple) (f g : List BlockingRequest → Bool → Ending (List BlockingRequest)) (need : Bool)
      (b : BlockingRequest) (bs : List BlockingRequest) (i : ℕ)
      → ((q : List BlockingRequest) (n : Bool) → ending_map (λ q. b ∷ q) [] (f q n) ≡ g (b ∷ q) n)
      → ending_map (λ q. b ∷ q) [] (match_found regex (list_zlistx BlockingRequest) t f need bs i)
        ≡ match_found regex (list_zlistx BlockingRequest) t g need (b ∷ bs) (suc i)
  unfolding match_found remove_at
  later-match_found t f g false b bs i h = refl
  later-match_found t f g true b bs i h = elim (Option-cases (get_elem? bs i)) [
    | inl e ↦ rw (match_found, e) refl
    | inr (c, e) ↦
        rw (match_found, e)
          (serve_match-map (list_zlistx BlockingRequest) (list_zlistx BlockingRequest) (λ q. b ∷ q)
            t c (f (remove_at bs i)) (g (b ∷ remove_at bs i)) true (remove_at bs i)
            (h (remove_at bs i)))
  ]

  later-match_loop :
      (fuel : ℕ) (t : Tuple) (need : Bool) (b : BlockingRequest) (bs : List BlockingRequest)
      → ((s : Search) → look (blckcmp_str regex b (search_request t)) s ≡ later s)
      → match_loop regex (list_zlistx BlockingRequest) fuel t need (b ∷ bs)
        ≡ ending_map (λ q. b ∷ q) [] (match_loop regex (list_zlistx BlockingRequest) fuel t need bs)
  unfolding match_loop search remove_at serve_match search_request
  later-match_loop zero t need b bs h = refl
  later-match_loop (suc fuel) t need b bs h =
      let c = blckcmp_str regex in
      let s = search_request t in
      let f = λ (q : List BlockingRequest) (n : Bool).
        match_loop regex (list_zlistx BlockingRequest) fuel t n q in
      elim (Search-cases (search c bs s)) [
        | inl e ↦ rw (match_loop, h (search c bs s), e) refl
        | inr (inl e) ↦ rw (match_loop, h (search c bs s), e) refl
        | inr (inr (i, e)) ↦
            rw (match_loop, h (search c bs s), e)
              (sym (
                later-match_found t f f need b bs i (λ q n. sym (later-match_loop fuel t n b q h))))
      ]

  -- the requests behind a match, and how the match is answered
  match_found-scan :
      (fuel : ℕ) (t : Tuple) (need : Bool) (b : BlockingRequest) (bs : List BlockingRequest)
      → match_loop regex (list_zlistx BlockingRequest) fuel t (need && not (consumes b)) bs
        ≡ scan t (need && not (consumes b)) bs
      → match_found regex
          (list_zlistx BlockingRequest)
          t
          (λ q n. match_loop regex (list_zlistx BlockingRequest) fuel t n q)
          need
          (b ∷ bs)
          0
        ≡ scan_match t need b bs (scan t (need && not (consumes b)) bs)
  unfolding match_found scan_match remove_at serve_match
  match_found-scan fuel t false b bs h = refl
  match_found-scan fuel t true b bs h = elim (Answer-cases (answer t b)) [
    | inl e ↦ rw (e, serve_match, scan_match) refl
    | inr (inl e) ↦ rw (e, serve_match, scan_match) refl
    | inr (inr (sent, e)) ↦
        rw (e, serve_match, scan_match)
          (ap (ending_map (λ q. q) ((more b.local (route b.clientid) ∷ []) ++ sent)) h)
  ]

  -- the loop on a list, with more fuel than requests
  list_loop-scan :
      (fuel : ℕ) (t : Tuple) (need : Bool) (bs : List BlockingRequest)
      → length bs < fuel
      → match_loop regex (list_zlistx BlockingRequest) fuel t need bs ≡ scan t need bs
  unfolding match_loop match_found scan search remove_at serve_match
  list_loop-scan zero t need bs h = absurd (omega arith)
  list_loop-scan (suc fuel) t need [] h = refl
  list_loop-scan (suc fuel) t need (b ∷ bs) h =
      let skip = λ (f : (s : Search) → look (blckcmp_str regex b (search_request t)) s ≡ later s).
        later-match_loop (suc fuel) t need b bs f
        ∙ ap (ending_map (λ q. b ∷ q) []) (list_loop-scan (suc fuel) t need bs (omega arith)) in
      elim (Order-cases (blckcmp_str regex b (search_request t))) [
        | inl (inl e) ↦ skip (λ s. rw e refl) ∙ rw (scan, e) refl
        | inl (inr e) ↦ skip (λ s. rw e refl) ∙ rw (scan, e) refl
        | inr (inl e) ↦ rw (match_loop, scan, e) refl
        | inr (inr e) ↦
            rw (match_loop, scan, e)
              (match_found-scan fuel t need b bs
                (list_loop-scan fuel t (need && not (consumes b)) bs (omega arith)))
      ]

  -- With more fuel than requests, the loop of match_blocking_requests does on any implementation
  -- of its queue what one pass over the queue's requests does: the same requests are left, the
  -- same is sent, the tuple is or is not to be stored, and it fails or crashes alike.
  pub match_loop-scan :
      (requests : Zlistx BlockingRequest) (fuel : ℕ) (t : Tuple) (need : Bool) (q : requests.Queue)
      → length (requests.items q) < fuel
      → ending_map requests.items [] (match_loop regex requests fuel t need q)
        ≡ scan t need (requests.items q)
  match_loop-scan requests fuel t need q h =
      match_loop-items requests fuel t need q ∙ list_loop-scan fuel t need (requests.items q) h

  ending_map_ends :
      {Q P : Type 0} (f : Q → P) (out : List Output) (e : Ending Q)
      → e ≢ no_end
      → ending_map f out e ≢ no_end
  ending_map_ends f out (ended q n rest c) h = ground arith
  ending_map_ends f out crash_in_loop h = ground arith
  ending_map_ends f out no_end h = absurd (h refl)

  scan_match_ends :
      (t : Tuple) (need : Bool) (b : BlockingRequest) (bs : List BlockingRequest)
      (rest : Ending (List BlockingRequest))
      → rest ≢ no_end
      → scan_match t need b bs rest ≢ no_end
  unfolding scan_match
  scan_match_ends t need b bs rest h = ground (
    arith,
    ending_map_ends (λ (q : List BlockingRequest). q) ((more b.local (route b.clientid)) ∷ []) rest
        h,
  )

  scan_ends : (t : Tuple) (need : Bool) (bs : List BlockingRequest) → scan t need bs ≢ no_end
  unfolding scan
  scan_ends t need [] = λ e. absurd (ground (arith, e))
  scan_ends t need (b ∷ bs) = ground (
    arith,
    scan_match_ends t need b bs (scan t (need && not (consumes b)) bs)
        (scan_ends t (need && not (consumes b)) bs),
    ending_map_ends (λ q. b ∷ q) [] (scan t need bs) (scan_ends t need bs),
  )

  -- With more fuel than requests the loop of match_blocking_requests comes to an end.
  pub match_loop_total :
      (requests : Zlistx BlockingRequest) (fuel : ℕ) (t : Tuple) (need : Bool) (q : requests.Queue)
      → length (requests.items q) < fuel
      → match_loop regex requests fuel t need q ≢ no_end
  match_loop_total requests fuel t need q h = λ e.
      scan_ends t need (requests.items q)
        (sym (match_loop-scan requests fuel t need q h) ∙ ap (ending_map requests.items []) e)
