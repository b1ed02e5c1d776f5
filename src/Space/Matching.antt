-- ===== src/Space/Matching.antt =====
-- The responses of src/tsd/tsd.c and match_blocking_requests.
pub mod Scan
use synergy_wrapper.Base.{
  ℕ, zero, suc, ◌+◌, List, [], ◌∷◌, ◌++◌, Bool, true, false, not, ◌||◌, ◌&&◌, Option, none, some,
  Bytes, length, if◌then◌else◌, ◌==◌, arith,
}
use synergy_wrapper.Ring.Node.{Part, word, dword, text, raw, route, Token}
use synergy_wrapper.Space.Types.{Tuple, BlockingRequest, Command, is_command, TsMode, is_mode}
use synergy_wrapper.Space.Compare.{Order, blckcmp_str}
use synergy_wrapper.Space.Zlistx.{Zlistx, missing, crashed, found}
use synergy_wrapper.Space.Element.{
  Daemon, Element, Output, more, last, shared, pass, Code, success, dilemma, serious,
  named_token_str, anon_token_str, ts_ack, ts_anon,
}

-- handle_named_queue_read_response; `none` is a strlen of NULL
unfoldable pub read_response : Bool → Tuple → Option (List Output)
read_response is_local t = elim t.name [
  | none ↦ none
  | some name ↦ some (
      more is_local (word ts_ack)
      ∷ (if is_local
          then last true (text name) ∷ shared t.contents t.len ∷ []
          else more false (text name)
            ∷ more false (dword t.len)
            ∷ last false (raw t.contents)
            ∷ []))
]

-- handle_bcast_queue_read_response
unfoldable pub bcast_response : Bool → Tuple → Option (List Output)
bcast_response is_local t = elim t.name [
  | none ↦ none
  | some name ↦ some (
      more is_local (word ts_ack)
      ∷ (if is_local
          then last true (text name) ∷ shared t.contents t.len ∷ []
          else more false (text name)
            ∷ more false (dword t.len)
            ∷ last false (raw t.contents)
            ∷ []))
]

-- the second branch of handle_named_queue_fetch_response
unfoldable pub fetch_normal : Bool → Tuple → Option (List Output)
fetch_normal is_local t = elim t.name [
  | none ↦ none
  | some name ↦ some (
      more is_local (word ts_ack)
      ∷ more is_local (text name)
      ∷ (if is_local
          then shared t.contents t.len ∷ []
          else more false (dword t.len) ∷ last false (raw t.contents) ∷ []))
]

-- handle_named_queue_fetch_response
unfoldable pub fetch_response : Bool → Tuple → Option (List Output)
unfolding fetch_normal
fetch_response is_local t = elim t.name [
  | some name ↦ fetch_normal is_local t
  | none ↦
      if t.anon_id == 0
      then fetch_normal is_local t
      else some (
          more is_local (word ts_anon)
          ∷ (if is_local
              then last true (word t.anon_id) ∷ shared t.contents t.len ∷ []
              else more false (word t.anon_id)
                ∷ more false (dword t.len)
                ∷ last false (raw t.contents)
                ∷ []))
]

-- `TsPop_Blocking` or `TsGet_Blocking`: the tuple goes to this request.
unfoldable pub consumes : BlockingRequest → Bool
consumes b = is_command b.command Command.pop_blocking || is_command b.command Command.get_blocking

-- How the loop answers one request: a reply, a crash, or the `return -1` of the switch.
pub data Answer : Type 0 where
  reply : List Output → Answer
  failed crashes : Answer

abbrev pub as_answer : Option (List Output) → Answer
as_answer none = crashes
as_answer (some out) = reply out

-- the switch over the matched command
unfoldable pub answer : Tuple → BlockingRequest → Answer
unfolding read_response bcast_response
answer t b = elim b.command [
  | Command.get_blocking ↦ as_answer (read_response b.local t)
  | Command.read_blocking ↦ as_answer (read_response b.local t)
  | Command.pop_blocking ↦ as_answer (read_response b.local t)
  | Command.peek_blocking ↦ as_answer (read_response b.local t)
  | Command.bcast_read_blocking ↦ as_answer (bcast_response b.local t)
  | _ ↦ failed
]

-- The end of a loop over the requests Q: the requests left, whether the tuple is still to be stored, what
-- was sent, and the result; or a crash, or no end within the fuel.
pub data Ending (Q : Type 0) : Type 0 where
  ended : Q → Bool → List Output → Code → Ending Q
  crash_in_loop no_end : Ending Q

abbrev pub ending_map : {Q P : Type 0} → (Q → P) → List Output → Ending Q → Ending P
ending_map f out (ended q n rest c) = ended (f q) n (out ++ rest) c
ending_map f out crash_in_loop = crash_in_loop
ending_map f out no_end = no_end

-- search_request; its command is 0, its clientid NULL
unfoldable pub search_request : Tuple → BlockingRequest
search_request t = record {
  name = t.name;
  clientid = [];
  command = Command.none_;
  extra = t.anon_id;
  local = false;
}

module _ (regex : Bytes → Bytes → Bool) (requests : Zlistx BlockingRequest) where
  -- the body of the loop behind the match of `b`, with what the rest of the loop does
  unfoldable pub serve_match :
      Tuple
      → BlockingRequest
      → (Bool → Ending requests.Queue)
      → Bool
      → requests.Queue
      → Ending requests.Queue
  unfolding answer consumes
  serve_match t b again need_append op_queue =
      let out = more b.local (route b.clientid) ∷ [] in
      let need = need_append && not (consumes b) in
      elim (answer t b) [
        | reply sent ↦ ending_map (λ q. q) (out ++ sent) (again need)
        | failed ↦ ended op_queue need out serious
        | crashes ↦ crash_in_loop
      ]

  -- the loop behind a match at the place i
  unfoldable pub match_found :
      Tuple
      → (requests.Queue → Bool → Ending requests.Queue)
      → Bool
      → requests.Queue
      → ℕ
      → Ending requests.Queue
  unfolding serve_match
  match_found t again false op_queue i = ended (requests.detach op_queue i) false [] success
  match_found t again true op_queue i =
      let left = requests.detach op_queue i in
      elim (requests.item op_queue i) [
        | none ↦ crash_in_loop
        | some b ↦ serve_match t b (again left) true left
      ]

  -- the do loop of match_blocking_requests
  unfoldable pub match_loop : ℕ → Tuple → Bool → requests.Queue → Ending requests.Queue
  unfolding search_request match_found
  match_loop zero t need_append op_queue = no_end
  match_loop (suc fuel) t need_append op_queue =
      elim (requests.find (blckcmp_str regex) op_queue (search_request t)) [
        | missing ↦ ended op_queue need_append [] success
        | crashed ↦ crash_in_loop
        | found i ↦ match_found t (λ q need. match_loop fuel t need q) need_append op_queue i
      ]
