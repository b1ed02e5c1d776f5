-- ===== src/Space/Named/Fetches.antt =====
-- Whether the answers of named_queue_fetch_handler are whole messages (src/tsd/tsd.c).
use synergy_wrapper.Base.{
  ◌≡◌, refl, ap, ◌∙◌, List, [], ◌∷◌, Bool, true, false, not, arith, if◌then◌else◌, ◌==◌, some,
  Bytes, length, get_elem?,
}
use synergy_wrapper.Ring.Node.{word, dword, text, raw}
use synergy_wrapper.Space.Types.{Tuple, BlockingRequest}
use synergy_wrapper.Space.Zlistx.{Zlistx}
use synergy_wrapper.Space.Element.{
  Element, Output, more, last, shared, to_peer, pass, returned, Args, success, ts_ack,
}
use synergy_wrapper.Space.Matching.{fetch_response, fetch_normal}
use synergy_wrapper.Space.Named.{is_pop, reply_header, named_queue_fetch_handler}

-- whether a part is sent that ends a message
unfoldable pub closes : List Output → Bool
closes [] = false
closes (more b p ∷ out) = closes out
closes (last b p ∷ out) = true
closes (shared s n ∷ out) = closes out
closes (pass t ∷ out) = closes out
closes (to_peer b p ∷ out) = closes out

fetch_response-closes :
    (l : Bool) (t : Tuple) (name : Bytes)
    → t.name ≡ some name
    → (out : List Output) × (fetch_response l t ≡ some out) × (closes out ≡ not l)
unfolding fetch_response fetch_normal closes
fetch_response-closes true t name e = (
  more true (word ts_ack) ∷ more true (text name) ∷ shared t.contents t.len ∷ [],
  ground (arith, e),
  refl,
)
fetch_response-closes false t name e = (
  more false (word ts_ack)
      ∷ more false (text name)
      ∷ more false (dword t.len)
      ∷ last false (raw t.contents)
      ∷ [],
  ground (arith, e),
  refl,
)

module _ (tuples : Zlistx Tuple) (requests : Zlistx BlockingRequest) where
  fetch_handler_lem :
      (space : Element tuples requests) (args : Args) (t : Tuple) (out : List Output)
      → (tuples.size space.named_queue == 0) ≡ false
      → tuples.item space.named_queue 0 ≡ some t
      → fetch_response args.is_local t ≡ some out
      → (after : Element tuples requests) × (sent : List Output) × (named_queue_fetch_handler tuples
            requests space args
          ≡ returned after sent success)
        × (closes sent ≡ closes out)
  unfolding named_queue_fetch_handler closes
  fetch_handler_lem space args t out s i e = (
    if is_pop args then record space { named_queue = tuples.detach space.named_queue 0 } else space,
    reply_header args ∷ out,
    ground (arith, s, i, e),
    refl,
  )

  -- Where the first tuple of a space has a name, the answer to a TsPop or a TsPeek ends its message for a
  -- remote client, and leaves it open for a local one.
  pub named_queue_fetch_handler-closes :
      (space : Element tuples requests) (args : Args) (t : Tuple) (ts : List Tuple) (name : Bytes)
      → tuples.items space.named_queue ≡ t ∷ ts
      → t.name ≡ some name
      → (after : Element tuples requests) × (sent : List Output) × (named_queue_fetch_handler tuples
            requests space args
          ≡ returned after sent success)
        × (closes sent ≡ not args.is_local)
  named_queue_fetch_handler-closes space args t ts name i n =
      let s = tuples.size_lem space.named_queue ∙ ap length i in
      let m = tuples.item_lem space.named_queue 0 ∙ ap (λ l. get_elem? l 0) i in
      let (out, e, c) = fetch_response-closes args.is_local t name n in
      let (after, sent, f, d) = fetch_handler_lem space args t out (ground (arith, s)) m e in
      (after, sent, f, d ∙ c)
