-- ===== src/Tests/Client.antt =====
-- Clients of a small space (src/ts/ts.c).
use synergy_wrapper.Base.{
  ◌++◌, ℕ, ◌≡◌, refl, List, [], ◌∷◌, true, false, Option, none, some, Bytes, arith,
}
use synergy_wrapper.Ring.Node.{Part}
use synergy_wrapper.Space.Types.{Tuple, put, get, pop, mode_master}
use synergy_wrapper.Space.Element.{Element, Output, Args, returned, success}
use synergy_wrapper.Space.Named.{named_queue_fetch_handler}
use synergy_wrapper.Space.Connect.{ts_connect_handler}
use synergy_wrapper.Space.Types.{Command}
use synergy_wrapper.Space.Dispatch.{Request, handler, handled}
use synergy_wrapper.Client.Transport.{on_socket, deliver, piped, arrives}
use synergy_wrapper.Client.Requests.{ts_in, ts_out_sends}
use synergy_wrapper.Client.Replies.{ts_out, done, waits}
use synergy_wrapper.Client.Rounds.{ts_in-ts_out}
use synergy_wrapper.Space.Named.Fetches.{closes}
use synergy_wrapper.Client.Answers.{local_fetch_waits}
use synergy_wrapper.Client.Opening.{
  ts_open, opening_of, sent_of, returns, ts_open-ts_connect_handler,
}
use synergy_wrapper.Tests.SpaceSamples.{
  tuples, requests, regex, daemon, element, named, asks, nonzero,
}
use synergy_wrapper.Tests.TableSamples.{patterns, strtoul, Entry, table, entry, spaces}

-- the tuple that a client has before it reads
abbrev empty : Tuple
empty = record { name = none; anon_id = 0; len = 0; contents = [] }

ts_in-ts_out_example :
    (sent received : List Part) × (items : List (Bytes × ℕ)) × (write read : Request) × (middle
      after : Bytes → Option Entry)
    × (out : List Output) × (ts_in
          (record { tsname = 115 ∷ []; mode = 0; is_local = true })
          (record { name = some (97 ∷ []); anon_id = 0; len = 2; contents = 7 ∷ 8 ∷ [] })
          put
        ≡ some (sent, items))
    × (arrives true (1 ∷ []) sent items ≡ some write)
    × (handler tuples requests patterns regex strtoul table daemon 1 spaces write
        ≡ handled middle [] (some success))
    × (ts_out_sends (record { tsname = 115 ∷ []; mode = 0; is_local = true }) (some (97 ∷ [])) get
        ≡ some received)
    × (arrives true (2 ∷ []) received [] ≡ some read)
    × (handler tuples requests patterns regex strtoul table daemon 1 middle read
        ≡ handled after out (some success))
    × (ts_out true false empty (deliver (2 ∷ []) none (on_socket true out)) (piped out)
        ≡ done (record { name = some (97 ∷ []); anon_id = 0; len = 2; contents = 7 ∷ 8 ∷ [] }) [])
ts_in-ts_out_example =
    ts_in-ts_out tuples requests patterns regex strtoul table daemon 1 spaces entry (115 ∷ [])
      (1 ∷ []) (2 ∷ []) (97 ∷ []) (7 ∷ 8 ∷ []) 2 empty (nonzero 114, tt) (omega arith)
      (nonzero 0, tt) (omega arith) (nonzero 1, tt) (omega arith) refl refl (ground arith)
      (omega arith) tt tt

no_later : closes [] ≡ false
unfolding closes
no_later = refl

local_fetch_waits_example :
    (after : Element tuples requests) × (sent : List Output) × (named_queue_fetch_handler tuples
        requests
        (element (named 97 ∷ []) [] [] [])
        (asks pop 1)
      ≡ returned after sent success)
    × (ts_out true false empty
          (deliver (1 ∷ []) none (on_socket true (sent ++ [])))
          (piped (sent ++ []))
        ≡ waits)
local_fetch_waits_example =
    local_fetch_waits tuples requests (element (named 97 ∷ []) [] [] []) (asks pop 1) (named 97)
      empty [] (97 ∷ []) (1 ∷ []) false [] refl refl refl no_later

-- a remote client 1
abbrev remote_reader : Args
remote_reader = record (asks Command.bcast_read 1) { is_local = false }

-- a space of a master
abbrev mastered : Element tuples requests
mastered = record (element [] [] [] []) { ts_mode = mode_master }

ts_open-ts_connect_handler_example :
    (returns (ts_connect_handler tuples requests daemon mastered (asks Command.connect 1)) ≡ true)
    × (ts_open true
          (deliver (1 ∷ []) none (
            on_socket true (
              sent_of
                (ts_connect_handler tuples requests daemon mastered (asks Command.connect 1)))))
          []
        ≡ opening_of mode_master false [] 1 true [])
ts_open-ts_connect_handler_example =
    ts_open-ts_connect_handler tuples requests daemon mastered (asks Command.connect 1) true [] refl
