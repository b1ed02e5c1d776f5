-- ===== src/Client/Replies.antt =====
-- How the functions of src/ts/ts.c read their answers.
use synergy_wrapper.Base.{
  ℕ, ◌+◌, ◌||◌, length, List, [], ◌∷◌, Bool, some, Bytes, if◌then◌else◌, ◌==◌,
}
use synergy_wrapper.Ring.Node.{Part, word, dword, text, raw}
use synergy_wrapper.Space.Types.{Tuple}
use synergy_wrapper.Space.Element.{ts_term, ts_enf, ts_ack, ts_anon}

-- How a function ends: it returns 0 with the tuple and the parts that it leaves, 1, or -1; it waits for a
-- part or an item; or it takes a part of another size for a number. A string arrives as two frames: its length,
-- a number that counts the NUL, and its bytes.
pub data Outcome : Type 0 where
  done : Tuple → List Part → Outcome
  failed terminated waits garbled : Outcome

-- recv_item on the pipe
unfoldable pub take_item : Tuple → List Part → List (Bytes × ℕ) → Outcome
take_item t ps [] = waits
take_item t ps ((s, n) ∷ items) = done (record t { len = n; contents = s }) ps

-- the length and the bytes of a remote daemon
unfoldable pub take_bytes : Tuple → List Part → Outcome
take_bytes t [] = waits
take_bytes t (dword n ∷ []) = if n == 0 then failed else waits
take_bytes t (dword n ∷ raw s ∷ ps) =
    if n == 0 then failed else done (record t { len = n; contents = s }) ps
take_bytes t ps = garbled

unfoldable pub take_contents : Bool → Tuple → List Part → List (Bytes × ℕ) → Outcome
unfolding take_item take_bytes
take_contents l t ps items = if l then take_item t ps items else take_bytes t ps

-- the case TsAck of ts_out
unfoldable pub take_named : Bool → Tuple → List Part → List (Bytes × ℕ) → Outcome
unfolding take_contents
take_named l t [] items = waits
take_named l t (text s ∷ ps) items = take_contents l (record t { name = some s }) ps items
take_named l t ps items = garbled

-- the case TsAnon of ts_out
unfoldable pub take_anon : Bool → Tuple → List Part → List (Bytes × ℕ) → Outcome
unfolding take_contents
take_anon l t [] items = waits
take_anon l t (word n ∷ ps) items = take_contents l (record t { anon_id = n }) ps items
take_anon l t ps items = garbled

-- ts_out that finds the length of a string where it expects a response; the string's bytes come next
unfoldable pub read_length : Bool → ℕ → Outcome
read_length block r =
    if r == ts_ack || r == ts_anon
    then garbled
    else if r == ts_enf
    then (if block then garbled else failed)
    else if r == ts_term
    then terminated
    else failed

-- ts_out behind _handle_reply, for a client whose is_local is l
unfoldable pub ts_out : Bool → Bool → Tuple → List Part → List (Bytes × ℕ) → Outcome
unfolding take_named take_anon read_length
ts_out l block t [] items = waits
ts_out l block t (text s ∷ ps) items = read_length block (length s + 1)
ts_out l block t (word r ∷ ps) items =
    let again = ts_out l block t ps items in
    if r == ts_ack
    then take_named l t ps items
    else if r == ts_anon
    then take_anon l t ps items
    else if r == ts_enf
    then (if block then again else failed)
    else if r == ts_term
    then terminated
    else failed
ts_out l block t ps items = garbled

-- ts_bcast_read behind _restart
unfoldable pub ts_bcast_read : Bool → Bool → Tuple → List Part → List (Bytes × ℕ) → Outcome
unfolding take_contents
ts_bcast_read l blocking t [] items = waits
ts_bcast_read l blocking t (text s ∷ ps) items =
    let r = length s + 1 in
    if r == ts_term
    then terminated
    else if r == ts_enf
    then (if blocking then garbled else failed)
    else if r == ts_ack
    then take_contents l t (raw s ∷ ps) items
    else failed
ts_bcast_read l blocking t (word r ∷ ps) items =
    let again = ts_bcast_read l blocking t ps items in
    if r == ts_term
    then terminated
    else if r == ts_enf
    then (if blocking then again else failed)
    else if r == ts_ack
    then take_contents l t ps items
    else failed
ts_bcast_read l blocking t ps items = garbled
