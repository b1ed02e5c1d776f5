-- ===== src/Client/Opening.antt =====
-- ts_open of src/ts/ts.c, and what it makes of the answers of ts_connect_handler of src/tsd/tsd.c.
use synergy_wrapper.Base.{
  ℕ, ◌≡◌, List, [], ◌∷◌, Bool, true, false, ◌||◌, none, Bytes, if◌then◌else◌, ◌==◌, arith,
}
use synergy_wrapper.Ring.Node.{Part, word, text}
use synergy_wrapper.Space.Types.{Tuple, BlockingRequest, TsMode, mode_master, mode_worker, mode_p2p}
use synergy_wrapper.Space.Zlistx.{Zlistx}
use synergy_wrapper.Space.Element.{
  Daemon, Element, Output, Args, Result, returned, aborted, unfinished,
}
use synergy_wrapper.Space.Connect.{
  ts_connect_handler, connect_master, connect_worker, connect_p2p, ts_connect_send_activate_signal,
}
use synergy_wrapper.Client.Transport.{on_socket, deliver, is_for, same_bytes_refl}

-- How ts_open ends: it returns 0 with the daemon's mode, is_local and remote set, or with the fields as they
-- were; it returns 1; it waits for a part; or it takes a part of another size for a number.
pub data Opening : Type 0 where
  opened : ℕ → Bool → Bytes → Opening
  opened_unset refused waits garbled : Opening

-- the case of a worker behind the remote endpoint; the remote daemon's mode is read and dropped
unfoldable pub open_remote : ℕ → Bytes → Bool → List Part → Opening
open_remote mode endpoint is_connected [] = if is_connected then waits else refused
open_remote mode endpoint is_connected (word m ∷ ps) =
    if is_connected then opened mode false endpoint else refused
open_remote mode endpoint is_connected ps = if is_connected then garbled else refused

unfoldable pub open_worker : ℕ → Bool → List Part → List Part → Opening
unfolding open_remote
open_worker mode is_connected [] remote = waits
open_worker mode is_connected (text s ∷ ps) remote = open_remote mode s is_connected remote
open_worker mode is_connected ps remote = garbled

unfoldable pub open_p2p : List Part → Opening
open_p2p [] = waits
open_p2p (word m ∷ ps) = opened_unset
open_p2p ps = garbled

-- ts_open behind the TsConnect that it sends, with the parts from its daemon and from the remote one; the
-- shared memory is created, and is_connected is the result of zmq_connect to the remote daemon.
unfoldable pub ts_open : Bool → List Part → List Part → Opening
unfolding open_worker open_p2p
ts_open is_connected [] remote = waits
ts_open is_connected (word m ∷ ps) remote =
    if (m == 1) || (m == 2)
    then open_worker m is_connected ps remote
    else if m == 0
    then opened 0 true []
    else if m == 3
    then open_p2p ps
    else refused
ts_open is_connected ps remote = garbled

-- What ts_open makes of a space of a mode that is activated or not, for a client's mode.
unfoldable pub opening_of : TsMode → Bool → Bytes → ℕ → Bool → List Part → Opening
unfolding open_remote
opening_of mode_master active endpoint m is_connected remote =
    if (m == 0) || (m == 1) then opened 0 true [] else refused
opening_of mode_worker active endpoint m is_connected remote =
    if (m == 0) || (m == 1)
    then (if active then open_remote 1 endpoint is_connected remote else waits)
    else refused
opening_of mode_p2p active endpoint m is_connected remote = if m == 3 then waits else refused

-- what a handler sends when it returns, and whether it does
unfoldable pub sent_of : {S : Type 0} → Result S → List Output
sent_of (returned s out c) = out
sent_of aborted = []
sent_of unfinished = []

unfoldable pub returns : {S : Type 0} → Result S → Bool
returns (returned s out c) = true
returns aborted = false
returns unfinished = false

module _ (tuples : Zlistx Tuple) (requests : Zlistx BlockingRequest) where
  -- A local client that connects to a space: it gets the space of a master at once, the endpoint of an
  -- activated worker's master at once, it waits for the token of one that is not activated, and it waits
  -- for ever in a P2P space; with any other mode it is refused.
  pub ts_open-ts_connect_handler :
      (self : Daemon) (space : Element tuples requests) (args : Args) (is_connected : Bool)
      (remote : List Part)
      → args.is_local ≡ true
      → (returns (ts_connect_handler tuples requests self space args) ≡ true)
        × (ts_open is_connected
              (deliver args.clientid_buffer none
                (on_socket true (sent_of (ts_connect_handler tuples requests self space args))))
              remote
            ≡ opening_of space.ts_mode space.is_activated space.direct_endpoint args.mode
                is_connected remote)
  unfolding ts_connect_handler connect_master connect_worker connect_p2p
      ts_connect_send_activate_signal sent_of returns on_socket deliver ts_open open_worker
      opening_of open_p2p is_for
  ts_open-ts_connect_handler self space args is_connected remote l =
      ground (arith, l, same_bytes_refl args.clientid_buffer)
