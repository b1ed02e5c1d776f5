-- ===== src/Client/Transport.antt =====
-- ZMQ between a client's DEALER socket and the ROUTER socket of its daemon (src/ts/ts.c, src/tsd/tsd.c):
-- which parts and which items of a pipe reach the client, and what handler receives of its parts.
use synergy_wrapper.Base.{
  ℕ, ◌≡◌, refl, arith, List, [], ◌∷◌, ◌++◌, Bool, true, false, not, Option, none, some, Bytes,
  if◌then◌else◌,
}
use synergy_wrapper.Ring.Node.{Part, route, word, dword, text, slots, raw}
use synergy_wrapper.Ring.Server.Maintenance.{same_bytes}
use synergy_wrapper.Space.Types.{none_}
use synergy_wrapper.Space.Element.{Output, more, last, shared, pass, to_peer}
use synergy_wrapper.Space.Dispatch.{Request}

-- The parts on one of the daemon's sockets, with `true` for ZMQ_SNDMORE.
unfoldable pub on_socket : Bool → List Output → List (Bool × Part)
on_socket l [] = []
on_socket l (more m p ∷ out) =
    let rest = on_socket l out in if (if m then l else not l) then (true, p) ∷ rest else rest
on_socket l (last m p ∷ out) =
    let rest = on_socket l out in if (if m then l else not l) then (false, p) ∷ rest else rest
on_socket l (shared s n ∷ out) = on_socket l out
on_socket l (pass t ∷ out) = on_socket l out
on_socket l (to_peer b p ∷ out) = on_socket l out

unfoldable pub is_for : Bytes → Part → Bool
is_for c (route d) = same_bytes d c
is_for c (word n) = false
is_for c (dword n) = false
is_for c (text s) = false
is_for c (slots s) = false
is_for c (raw s) = false

pub same_bytes_refl : (s : Bytes) → same_bytes s s ≡ true
unfolding same_bytes
same_bytes_refl [] = refl
same_bytes_refl (c ∷ s) = ground (arith, same_bytes_refl s)

-- What the client c receives of messages that begin with an identity: a message arrives as a whole, once its
-- last part is sent. The second argument is the message begun, and whether it is for c.
unfoldable pub deliver : Bytes → Option (Bool × List Part) → List (Bool × Part) → List Part
unfolding is_for
deliver c s [] = []
deliver c none ((m, p) ∷ ps) = deliver c (if m then some (is_for c p, []) else none) ps
deliver c (some (mine, acc)) ((true, p) ∷ ps) = deliver c (some (mine, acc ++ (p ∷ []))) ps
deliver c (some (mine, acc)) ((false, p) ∷ ps) =
    (if mine then acc ++ (p ∷ []) else []) ++ deliver c none ps

-- the items that the daemon sends over the space's pipe, with their lengths
unfoldable pub piped : List Output → List (Bytes × ℕ)
piped [] = []
piped (shared s n ∷ out) = (s, n) ∷ piped out
piped (more m p ∷ out) = piped out
piped (last m p ∷ out) = piped out
piped (pass t ∷ out) = piped out
piped (to_peer b p ∷ out) = piped out

abbrev pub text_of : List Part → Option Bytes
text_of (text s ∷ ps) = some s
text_of ps = none

abbrev pub word_of : List Part → Option ℕ
word_of (word n ∷ ps) = some n
word_of ps = none

abbrev pub dword_of : List Part → Option ℕ
dword_of (p ∷ dword n ∷ ps) = some n
dword_of ps = none

abbrev pub raw_of : List Part → Option Bytes
raw_of (p ∷ q ∷ raw s ∷ ps) = some s
raw_of ps = none

abbrev pub mode_of : Option ℕ → ℕ
mode_of none = 0
mode_of (some m) = m

abbrev pub item_of : List (Bytes × ℕ) → Option Bytes
item_of [] = none
item_of ((s, n) ∷ items) = some s

abbrev pub item_len : List (Bytes × ℕ) → ℕ
item_len [] = 0
item_len ((s, n) ∷ items) = n

-- What the receives of handler and of the function that it dispatches to yield, for a message of the
-- client c with the parts ps behind the action, and the items on the pipe.
abbrev pub message : Bool → Bytes → ℕ → Bytes → ℕ → List Part → List (Bytes × ℕ) → Request
message l c n s a ps items = record {
  is_local = l;
  recv_clientid = some c;
  recv_buf_len = some n;
  recv_namespace = some s;
  recv_action = some a;
  args = record {
    is_local = l;
    clientid_buffer = c;
    action = none_;
    recv_name = text_of ps;
    recv_id = word_of ps;
    recv_len = dword_of ps;
    recv_bytes = raw_of ps;
    recv_item_ok = true;
    recv_item_contents = item_of items;
    recv_item_len = item_len items;
    mode = mode_of (word_of ps);
  };
  calls = record {
    recv_endpoint = none;
    recv_identity = none;
    recv_pattern = text_of ps;
    is_connected = false;
  };
}

-- handler's receives of a client's parts, `none` if they are no message to it
unfoldable pub arrives : Bool → Bytes → List Part → List (Bytes × ℕ) → Option Request
arrives l c (word n ∷ raw s ∷ word a ∷ ps) items = some (message l c n s a ps items)
arrives l c ps items = none
