-- ===== src/Client/Requests.antt =====
-- What the functions of src/ts/ts.c send.
use synergy_wrapper.Base.{
  ℕ, ◌+◌, List, [], ◌∷◌, ◌++◌, Bool, not, ◌&&◌, ◌||◌, Option, none, some, Bytes, length,
  if◌then◌else◌, ◌==◌,
}
use synergy_wrapper.Ring.Node.{Part, word, dword, text, raw}
use synergy_wrapper.Space.Types.{
  Tuple, Command, is_command, put, add, get, read, pop, peek, get_blocking, read_blocking,
  pop_blocking, peek_blocking,
}
use synergy_wrapper.Space.Element.{ts_term}

-- What the functions read of struct _ts.
pub record Client : Type 0 where
  pub tsname : Bytes
  pub mode : ℕ
  pub is_local : Bool

-- init_request, with tsnamelen as ts_open sets it; the NUL of the name is not sent
unfoldable pub init_request : Client → List Part
init_request self = word (length self.tsname + 1) ∷ raw self.tsname ∷ []

-- A part of a message of a client, its number and its name.
unfoldable pub number : Command → ℕ
number Command.none_ = 0
number get = 1
number put = 2
number add = 3
number read = 4
number pop = 5
number peek = 6
number Command.connect = 7
number Command.term = 8
number Command.enf = 9
number Command.ack = 10
number Command.anon = 11
number Command.bcast_write = 12
number Command.bcast_read = 13
number get_blocking = 14
number read_blocking = 15
number Command.bcast_read_blocking = 16
number pop_blocking = 17
number peek_blocking = 18
number Command.expect = 19
number Command.deposit = 20
number Command.transmit = 21
number Command.request = 22
number Command.take = 23
number Command.migrate = 24
number Command.replicate = 25

-- OUT_BLOCK
unfoldable pub out_block : Command → Bool
out_block cmd =
    is_command cmd get_blocking
    || is_command cmd read_blocking
    || is_command cmd pop_blocking
    || is_command cmd peek_blocking

-- IS_OUT_CMD
unfoldable pub is_out_cmd : Command → Bool
unfolding out_block
is_out_cmd cmd =
    is_command cmd get
    || is_command cmd read
    || is_command cmd pop
    || is_command cmd peek
    || out_block cmd

-- IS_FETCH
unfoldable pub is_fetch : Command → Bool
is_fetch cmd =
    not (is_command cmd get_blocking)
    && not (is_command cmd get)
    && not (is_command cmd read_blocking)
    && not (is_command cmd read)

-- what ts_out sends, for a tuple's name; `none` is a failed assertion
unfoldable pub ts_out_sends : Client → Option Bytes → Command → Option (List Part)
unfolding init_request is_out_cmd is_fetch number
ts_out_sends self name cmd = if not (is_out_cmd cmd) then none else elim name [
  | none ↦ if is_fetch cmd then some (init_request self ++ (word (number cmd) ∷ [])) else none
  | some s ↦
      if is_fetch cmd then none else some (init_request self ++ (word (number cmd) ∷ text s ∷ []))
]

-- what ts_in sends, and what it puts on the pipe; `none` is a failed assertion
unfoldable pub ts_in : Client → Tuple → Command → Option (List Part × List (Bytes × ℕ))
unfolding init_request number
ts_in self t cmd =
    let rest = if self.is_local then [] else dword t.len ∷ raw t.contents ∷ [] in
    let items = if self.is_local then (t.contents, t.len) ∷ [] else [] in
    if t.len == 0 then none else elim t.name [
      | some s ↦
          if is_command cmd put && (t.anon_id == 0)
          then some (init_request self ++ (word (number cmd) ∷ text s ∷ rest), items)
          else none
      | none ↦
          if is_command cmd add && not (t.anon_id == 0)
          then some (init_request self ++ (word (number cmd) ∷ word t.anon_id ∷ rest), items)
          else none
    ]

-- ts_bcast_write
unfoldable pub ts_bcast_write : Client → Tuple → Option (List Part × List (Bytes × ℕ))
unfolding init_request number
ts_bcast_write self t =
    let rest = if self.is_local then [] else dword t.len ∷ raw t.contents ∷ [] in
    let items = if self.is_local then (t.contents, t.len) ∷ [] else [] in
    elim t.name [
      | none ↦ none
      | some s ↦
          if t.len == 0
          then none
          else some
              (init_request self ++ (word (number Command.bcast_write) ∷ text s ∷ rest), items)
    ]

-- the command of ts_bcast_read
unfoldable pub bcast_read_command : Bool → Command
bcast_read_command blocking = if blocking then Command.bcast_read else Command.bcast_read_blocking

-- what ts_bcast_read sends
unfoldable pub ts_bcast_read_sends : Client → Option Bytes → Bool → Option (List Part)
unfolding init_request number bcast_read_command
ts_bcast_read_sends self name blocking = elim name [
  | none ↦ none
  | some s ↦ some (init_request self ++ (word (number (bcast_read_command blocking)) ∷ text s ∷ []))
]

-- ts_expect: what it sends, and `none` for its value 1
unfoldable pub ts_expect : Client → Bytes → Option (List Part)
unfolding init_request number
ts_expect self pattern =
    if self.mode == 3
    then some (init_request self ++ (word (number Command.expect) ∷ text pattern ∷ []))
    else none

-- what ts_close sends
unfoldable pub ts_close_sends : Client → List Part
unfolding init_request
ts_close_sends self = init_request self ++ (word ts_term ∷ [])
