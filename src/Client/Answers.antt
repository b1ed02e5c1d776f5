-- ===== src/Client/Answers.antt =====
-- The answers of src/tsd/tsd.c that the functions of src/ts/ts.c do not understand: those to a local fetch, and
-- those to a broadcast read.
use synergy_wrapper.Base.{
  ◌≡◌, ◌||◌, ◌++◌, refl, ap, ◌∙◌, List, [], ◌∷◌, Bool, true, false, Option, none, some, ℕ, Bytes,
  if◌then◌else◌, arith,
}
use synergy_wrapper.Ring.Node.{Part, word, dword, text, raw}
use synergy_wrapper.Space.Types.{Tuple, BlockingRequest}
use synergy_wrapper.Space.Zlistx.{Zlistx}
use synergy_wrapper.Space.Element.{
  Element, Output, more, last, shared, pass, to_peer, Args, returned, success, ts_ack,
}
use synergy_wrapper.Space.Named.{named_queue_fetch_handler}
use synergy_wrapper.Space.Named.Fetches.{closes, named_queue_fetch_handler-closes}
use synergy_wrapper.Client.Transport.{on_socket, deliver, piped}
use synergy_wrapper.Client.Replies.{ts_out, waits}

-- Nothing of a message that is never closed is delivered.
deliver-Unclosed :
    (c : Bytes) (l : Bool) (out : List Output) (s : Option (Bool × List Part))
    → closes out ≡ false
    → deliver c s (on_socket l out) ≡ []
unfolding deliver on_socket closes
deliver-Unclosed c l [] none h = refl
deliver-Unclosed c l [] (some s) h = refl
deliver-Unclosed c l (last m p ∷ out) s h = absurd (ground (arith, h))
deliver-Unclosed c l (shared b n ∷ out) s h = deliver-Unclosed c l out s h
deliver-Unclosed c l (pass t ∷ out) s h = deliver-Unclosed c l out s h
deliver-Unclosed c l (to_peer b p ∷ out) s h = deliver-Unclosed c l out s h
deliver-Unclosed c true (more false p ∷ out) s h = deliver-Unclosed c true out s h
deliver-Unclosed c false (more true p ∷ out) s h = deliver-Unclosed c false out s h
deliver-Unclosed c true (more true p ∷ out) none h = deliver-Unclosed c true out _ h
deliver-Unclosed c true (more true p ∷ out) (some (mine, acc)) h = deliver-Unclosed c true out _ h
deliver-Unclosed c false (more false p ∷ out) none h = deliver-Unclosed c false out _ h
deliver-Unclosed c false (more false p ∷ out) (some (mine, acc)) h =
    deliver-Unclosed c false out _ h

ts_out-waits :
    (l block : Bool) (u : Tuple) (items : List (Bytes × ℕ)) → ts_out l block u [] items ≡ waits
unfolding ts_out
ts_out-waits l block u items = refl

closes-append : (out later : List Output) → closes (out ++ later) ≡ (closes out || closes later)
unfolding closes
closes-append [] later = refl
closes-append (more m p ∷ out) later = closes-append out later
closes-append (last m p ∷ out) later = refl
closes-append (shared s n ∷ out) later = closes-append out later
closes-append (pass t ∷ out) later = closes-append out later
closes-append (to_peer b p ∷ out) later = closes-append out later

module _ (tuples : Zlistx Tuple) (requests : Zlistx BlockingRequest) where
  -- Where the first tuple of a space has a name, the answer to a local client that pops or peeks lacks its last
  -- part: although the daemon has done its work on the request, the client goes on waiting, whatever the daemon
  -- then sends, until it sends the last part of another message.
  pub local_fetch_waits :
      (space : Element tuples requests) (args : Args) (t u : Tuple) (ts : List Tuple)
      (name c : Bytes) (block : Bool) (later : List Output)
      → tuples.items space.named_queue ≡ t ∷ ts
      → t.name ≡ some name
      → args.is_local ≡ true
      → closes later ≡ false
      → (after : Element tuples requests) × (sent : List Output) × (named_queue_fetch_handler tuples
            requests space args
          ≡ returned after sent success)
        × (ts_out true block u
              (deliver c none (on_socket true (sent ++ later)))
              (piped (sent ++ later))
            ≡ waits)
  local_fetch_waits space args t u ts name c block later i n l h =
      let (after, sent, f, open_still) =
        named_queue_fetch_handler-closes tuples requests space args t ts name i n in
      (
        after,
        sent,
        f,
        ap (λ ps. ts_out true block u ps (piped (sent ++ later)))
              (deliver-Unclosed c true (sent ++ later) none
                (ground (arith, closes-append sent later, open_still, l, h)))
            ∙ ts_out-waits true block u (piped (sent ++ later)),
      )

-- what bcast_queue_read_handler sends for a tuple
abbrev bcast_parts : Bool → Bytes → Tuple → List Output
bcast_parts l name t =
    more l (word ts_ack)
    ∷ (if l
        then last true (text name) ∷ shared t.contents t.len ∷ []
        else more false (text name) ∷ more false (dword t.len) ∷ last false (raw t.contents) ∷ [])
