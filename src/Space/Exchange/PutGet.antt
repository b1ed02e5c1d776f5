-- ===== src/Space/Exchange/PutGet.antt =====
-- A TsPut, then a TsGet of the same name (named_queue_write_handler and named_queue_read_handler of
-- src/tsd/tsd.c).
use synergy_wrapper.Base.{
  ◌≡◌, refl, ap, ◌∙◌, List, [], ◌∷◌, ◌++◌, Bool, true, false, arith, if◌then◌else◌, Bytes, some,
  All, length,
}
use synergy_wrapper.Ring.Node.{word, text}
use synergy_wrapper.Space.Types.{Tuple, BlockingRequest, is_mode, mode_p2p, put, get}
use synergy_wrapper.Space.Compare.{same, tplcmp, search_tuple, blckcmp_str}
use synergy_wrapper.Space.Zlistx.{Zlistx, remove_at}
use synergy_wrapper.Space.Element.{
  Daemon, Element, Output, more, last, shared, returned, Args, success, bytes_or_none, ts_ack,
}
use synergy_wrapper.Space.Matching.{search_request, read_response}
use synergy_wrapper.Space.Store.{put_tuple, named_queue_write_handler}
use synergy_wrapper.Space.Named.{
  is_get, reply_header, answer_read, named_queue_read_handler, read_named,
}
use synergy_wrapper.Space.Named.Reads.{remove_at-last}
use synergy_wrapper.Space.Exchange.{Differs, put_tuple-Differs, read_named-last}

-- the tuple of a TsPut by a local client
unfoldable pub put_of : Args → Bytes → Tuple
put_of w name = record {
  name = some name;
  anon_id = 0;
  len = w.recv_item_len;
  contents = bytes_or_none w.recv_item_contents;
}

-- what a local client gets for a tuple
abbrev pub handed_over : Args → Bytes → Tuple → List Output
handed_over r name t =
    reply_header r ∷ more true (word ts_ack) ∷ last true (text name) ∷ shared t.contents t.len ∷ []

module _ (tuples : Zlistx Tuple) (requests : Zlistx BlockingRequest) (regex : Bytes → Bytes → Bool)
    (self : Daemon) (space : Element tuples requests) (w r : Args) (name : Bytes) where
  pub write_put :
      (s after : Element tuples requests) (out : List Output)
      → w.action ≡ put
      → w.recv_name ≡ some name
      → w.is_local ≡ true
      → put_tuple tuples requests regex self s (put_of w name) ≡ returned after out success
      → named_queue_write_handler tuples requests regex self s w ≡ returned after out success
  unfolding named_queue_write_handler put_of
  write_put s after out a n l e = ground (arith, a, n, l, e)

  answer_get :
      (s : Element tuples requests) (t : Tuple)
      → r.is_local ≡ true
      → t.name ≡ some name
      → answer_read tuples requests s r t same ≡ returned s (handed_over r name t) success
  unfolding answer_read read_response
  answer_get s t l n = ground (arith, l, n)

  pub read_handler-local :
      (s : Element tuples requests)
      → r.recv_name ≡ some name
      → r.is_local ≡ true
      → named_queue_read_handler tuples requests regex s r
        ≡ read_named tuples requests regex s r name
  unfolding named_queue_read_handler
  read_handler-local s n l = ground (arith, n, l)

  is_get-get : r.action ≡ get → is_get r ≡ true
  is_get-get a = ground (arith, a)

  get_last :
      (s : Element tuples requests) (t : Tuple) (xs : List Tuple)
      → r.action ≡ get
      → r.recv_name ≡ some name
      → r.is_local ≡ true
      → tuples.items s.named_queue ≡ xs ++ (t ∷ [])
      → All (λ u. Differs (tplcmp regex u (search_tuple name))) xs
      → t.name ≡ some name
      → named_queue_read_handler tuples requests regex s r
        ≡ returned
            (record s { named_queue = tuples.detach s.named_queue (length xs) })
            (handed_over r name t)
            success
  get_last s t xs a n l i d k =
      let after = record s { named_queue = tuples.detach s.named_queue (length xs) } in
      read_handler-local s n l
      ∙ read_named-last regex tuples requests s r name xs t i d k
      ∙ ap (λ b. answer_read tuples requests (if b then after else s) r t same) (is_get-get a)
      ∙ answer_get after t l k

  -- The two calls with what they leave of the space.
  pub put-get_lem :
      w.action ≡ put
      → w.recv_name ≡ some name
      → w.is_local ≡ true
      → r.action ≡ get
      → r.recv_name ≡ some name
      → r.is_local ≡ true
      → is_mode space.ts_mode mode_p2p ≡ false
      → All
          (λ b. Differs (blckcmp_str regex b (search_request (put_of w name))))
          (requests.items space.named_queue_requests)
      → All (λ u. Differs (tplcmp regex u (search_tuple name))) (tuples.items space.named_queue)
      → (stored after : Element tuples requests) × (stored.is_activated ≡ space.is_activated)
        × (named_queue_write_handler tuples requests regex self space w
            ≡ returned stored [] success)
        × (named_queue_read_handler tuples requests regex stored r
            ≡ returned after (handed_over r name (put_of w name)) success)
        × (tuples.items after.named_queue ≡ tuples.items space.named_queue)
  unfolding put_of
  put-get_lem wa wn wl ra rn rl m pending stored =
      let t = put_of w name in
      let xs = tuples.items space.named_queue in
      let (middle, ((p, (f, e)), h)) =
        put_tuple-Differs regex tuples requests self space t m pending in
      let q = middle.named_queue in
      let i = ap (λ m. tuples.items m.named_queue) e ∙ tuples.items-add_end space.named_queue t in
      let after = record middle { named_queue = tuples.detach q (length xs) } in
      (
        middle,
        after,
        ap (λ m. m.is_activated) e,
        write_put space middle [] wa wn wl h,
        get_last middle t xs ra rn rl i stored refl,
        tuples.items-detach q (length xs)
            ∙ ap (λ l. remove_at l (length xs)) i
            ∙ remove_at-last xs t,
      )

  -- In a space that is not P2P, where no waiting request and no stored tuple matches a name, a local client
  -- stores a tuple of the name without an answer, and then a local client that gets the name is handed that
  -- tuple, and the stored tuples are those before the two.
  pub put-get :
      w.action ≡ put
      → w.recv_name ≡ some name
      → w.is_local ≡ true
      → r.action ≡ get
      → r.recv_name ≡ some name
      → r.is_local ≡ true
      → is_mode space.ts_mode mode_p2p ≡ false
      → All
          (λ b. Differs (blckcmp_str regex b (search_request (put_of w name))))
          (requests.items space.named_queue_requests)
      → All (λ u. Differs (tplcmp regex u (search_tuple name))) (tuples.items space.named_queue)
      → (stored after : Element tuples requests) × ((named_queue_write_handler tuples requests regex
              self space w
            ≡ returned stored [] success)
          × ((named_queue_read_handler tuples requests regex stored r
                ≡ returned after (handed_over r name (put_of w name)) success)
              × (tuples.items after.named_queue ≡ tuples.items space.named_queue)))
  put-get wa wn wl ra rn rl m pending stored =
      let (middle, after, open_still, sent, handed, kept) =
        put-get_lem wa wn wl ra rn rl m pending stored in
      (middle, after, (sent, (handed, kept)))
