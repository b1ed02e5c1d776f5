-- ===== src/Tests/Space.antt =====
-- Clients of a small space (src/tuple_utils.h, src/tsd/tsd.c). The queues are lists; no name is an
-- expression.
use synergy_wrapper.Base.{◌≡◌, ◌≢◌, ◌↔◌, refl, inl, inr, List, [], ◌∷◌, true, arith}
use synergy_wrapper.Ring.Node.{route, word, text, Token}
use synergy_wrapper.Tests.SpaceSamples.{
  regex, tuples, requests, named, waits, element, daemon, asks,
}
use synergy_wrapper.Space.Types.{
  BlockingRequest, put, get, get_blocking, pop_blocking, read_blocking,
}
use synergy_wrapper.Space.Glob.{matches, Matches, matches_iff}
use synergy_wrapper.Space.Compare.{
  same, tplcmp, blckcmp_str, compare_keys, compare_names, strcmp, search_tuple,
}
use synergy_wrapper.Space.Compare.Symmetry.{IsKeyed, tplcmp_symmetric}
use synergy_wrapper.Space.Element.{
  Element, more, last, shared, returned, aborted, success, incomplete, ts_ack,
}
use synergy_wrapper.Space.Matching.{
  search_request, match_loop, ending_map, answer, reply, consumes, read_response,
}
use synergy_wrapper.Space.Matching.Scan.{scan, match_loop-scan}
use synergy_wrapper.Space.Store.{match_blocking_requests, named_queue_write_handler}
use synergy_wrapper.Space.Named.{named_queue_read_handler, enf}
use synergy_wrapper.Space.Named.Reads.{named_queue_read_handler_returns}
use synergy_wrapper.Space.Exchange.{Differs}
use synergy_wrapper.Space.Exchange.PutGet.{put_of, handed_over}
use synergy_wrapper.Space.Exchange.Waiting.{get_blocking-put, second_getter_lost, IsQueued}

b-Differs : Differs (tplcmp regex (named 98) (search_tuple (97 ∷ [])))
unfolding tplcmp search_tuple
b-Differs = inr refl

named_same : blckcmp_str regex (waits get_blocking 1) (search_request (named 97)) ≡ same
unfolding blckcmp_str search_request compare_keys compare_names strcmp
named_same = ground arith

second_same : blckcmp_str regex (waits read_blocking 2) (search_request (named 97)) ≡ same
unfolding blckcmp_str search_request compare_keys compare_names strcmp
second_same = ground arith

get_consumes : consumes (waits get_blocking 1) ≡ true
unfolding consumes
get_consumes = ground arith

get_answer :
    answer (named 97) (waits get_blocking 1)
    ≡ reply (more true (word ts_ack) ∷ last true (text (97 ∷ [])) ∷ shared (1 ∷ []) 1 ∷ [])
unfolding answer read_response
get_answer = ground arith

pop-IsQueued : IsQueued (waits pop_blocking 1)
unfolding IsQueued
pop-IsQueued = inl (inl refl)

b-IsKeyed : IsKeyed (named 98)
unfolding IsKeyed
b-IsKeyed = inl (ground arith)

matches_iff_example :
    (matches (97 ∷ 42 ∷ []) (97 ∷ 98 ∷ 99 ∷ []) ≡ true) ↔ Matches (97 ∷ 42 ∷ []) (97 ∷ 98 ∷ 99 ∷ [])
matches_iff_example =
    matches_iff (97 ∷ 42 ∷ []) (97 ∷ 98 ∷ 99 ∷ [])
      (ground arith, (ground arith, (ground arith, tt)))

tplcmp_symmetric_example : tplcmp regex (named 97) (named 42) ≡ same
unfolding tplcmp IsKeyed
tplcmp_symmetric_example = tplcmp_symmetric regex (named 42) (named 97) (inl (ground arith)) refl

get_blocking-put_example :
    (waiting after : Element tuples requests) × (named_queue_read_handler tuples requests regex
        (element (named 98 ∷ []) [] [] [])
        (asks get_blocking 2)
      ≡ returned waiting (enf (asks get_blocking 2)) incomplete)
    × (named_queue_write_handler tuples requests regex daemon waiting (asks put 1)
        ≡ returned after
            (handed_over (asks get_blocking 2) (97 ∷ []) (put_of (asks put 1) (97 ∷ [])))
            success)
    × (after.named_queue ≡ named 98 ∷ [])
    × (after.named_queue_requests ≡ [])
get_blocking-put_example =
    get_blocking-put tuples requests regex daemon (element (named 98 ∷ []) [] [] []) (asks put 1)
      (asks get_blocking 2) (97 ∷ []) refl refl refl refl refl refl (ground arith) tt
      (b-Differs, tt)

match_loop-scan_example :
    ending_map (λ q. q) [] (match_loop regex requests 2 (named 97) true (waits get_blocking 1 ∷ []))
    ≡ scan regex (named 97) true (waits get_blocking 1 ∷ [])
match_loop-scan_example =
    match_loop-scan regex requests 2 (named 97) true (waits get_blocking 1 ∷ []) (omega arith)

named_queue_read_handler_returns_example :
    named_queue_read_handler tuples requests regex (element (named 98 ∷ []) [] [] []) (asks get 1)
    ≢ aborted
named_queue_read_handler_returns_example =
    named_queue_read_handler_returns tuples requests regex (element (named 98 ∷ []) [] [] [])
      (asks get 1) (b-IsKeyed, tt)

second_getter_lost_example :
    (p : List BlockingRequest) × (p ≡ [])
    × (match_blocking_requests tuples requests regex daemon
          (element [] [] (waits get_blocking 1 ∷ waits read_blocking 2 ∷ []) [])
          (named 97)
          put
        ≡ returned
            (element [] [] p [])
            (more true (route (1 ∷ []))
              ∷ more true (word ts_ack)
              ∷ last true (text (97 ∷ []))
              ∷ shared (1 ∷ []) 1
              ∷ [])
            success)
second_getter_lost_example =
    second_getter_lost tuples requests regex daemon
      (element [] [] (waits get_blocking 1 ∷ waits read_blocking 2 ∷ []) []) (named 97)
      (waits get_blocking 1) (waits read_blocking 2) []
      (more true (word ts_ack) ∷ last true (text (97 ∷ [])) ∷ shared (1 ∷ []) 1 ∷ []) refl
      named_same second_same get_consumes get_answer

abbrev opens : Token
opens = record { id = 0; ttl = 2; len1 = 2; len2 = 2; buf1 = 115 ∷ []; buf2 = 109 ∷ [] }
