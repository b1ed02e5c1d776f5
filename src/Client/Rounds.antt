-- ===== src/Client/Rounds.antt =====
-- What a client writes and another one then reads: ts_in and ts_out of src/ts/ts.c through handler of
-- src/tsd/tsd.c.
use synergy_wrapper.Base.{
  ℕ, ◌+◌, ◌-◌, ◌≡◌, ◌<◌, refl, ap, ◌∙◌, List, [], ◌∷◌, Bool, true, false, none, some, Bytes, take,
  length, take-all, All, arith,
}
use synergy_wrapper.Ring.Node.{Part, word, text, raw}
use synergy_wrapper.Space.Types.{Tuple, BlockingRequest, put, get, is_mode, mode_p2p}
use synergy_wrapper.Space.Compare.{tplcmp, search_tuple, blckcmp_str}
use synergy_wrapper.Space.Zlistx.{Zlistx}
use synergy_wrapper.Space.Element.{Daemon, Element, Output, Args, returned, Code, success}
use synergy_wrapper.Space.Matching.{search_request}
use synergy_wrapper.Space.Store.{named_queue_write_handler}
use synergy_wrapper.Space.Named.{named_queue_read_handler}
use synergy_wrapper.Space.Exchange.{Differs}
use synergy_wrapper.Space.Exchange.PutGet.{put_of, handed_over, put-get_lem}
use synergy_wrapper.Space.Peers.{Space, c_string}
use synergy_wrapper.Space.Dispatch.{
  SpaceTable, Request, handled, handler, act, switch, stored, of_space, namespace_of, command_of,
}
use synergy_wrapper.Space.Dispatch.Names.{IsText, c_string-text}
use synergy_wrapper.Space.Dispatch.Later.{clientid_of-text}
use synergy_wrapper.Space.Dispatch.Refusals.{handler_acts}
use synergy_wrapper.Client.Transport.{message, same_bytes_refl, on_socket, deliver, piped, arrives}
use synergy_wrapper.Client.Requests.{ts_in, ts_out_sends}
use synergy_wrapper.Client.Replies.{ts_out, done}

-- The name of init_request, sent without its NUL.
namespace_lem : (s : Bytes) → IsText s → length s < 50 → namespace_of (length s + 1) s ≡ s
unfolding namespace_of
namespace_lem s h lt =
    ap (λ t. c_string (take (length s + 1 - 1) t)) (take-all 50 s (omega arith))
    ∙ ap c_string (take-all (length s + 1 - 1) s (omega arith))
    ∙ c_string-text s h

-- What a local client makes of a tuple that is handed over to it.
receives :
    (r : Args) (name : Bytes) (t u : Tuple) (block : Bool)
    → r.is_local ≡ true
    → ts_out true block u
        (deliver r.clientid_buffer none (on_socket true (handed_over r name t)))
        (piped (handed_over r name t))
      ≡ done (record u { name = some name; len = t.len; contents = t.contents }) []
unfolding on_socket deliver piped ts_out
receives r name t u block l = rw (l, same_bytes_refl r.clientid_buffer) refl

module _ (tuples : Zlistx Tuple) (requests : Zlistx BlockingRequest) (patterns : Zlistx Bytes)
    (regex : Bytes → Bytes → Bool) (strtoul : Bytes → ℕ)
    (table : SpaceTable (Space tuples requests patterns regex strtoul)) where
  -- the arguments that handler passes on
  abbrev args_of : Request → Bytes → ℕ → Args
  args_of req clientid a = record req.args {
    is_local = req.is_local;
    clientid_buffer = clientid;
    action = command_of a;
  }

  act_lem :
      (self : Daemon) (fuel : ℕ) (spaces : table.Table) (req : Request) (clientid name : Bytes)
      (s : Space tuples requests patterns regex strtoul) (a : ℕ)
      → s.element.is_activated ≡ true
      → act tuples requests patterns regex strtoul table self fuel spaces req clientid name s a
        ≡ stored tuples requests patterns regex strtoul table spaces name (
            switch tuples requests patterns regex strtoul self fuel s
              (args_of req clientid a)
              req.calls)
  unfolding act
  act_lem self fuel spaces req clientid name s a on = ground (arith, on)

  -- A message of a client of the space tsname.
  handler_lem :
      (self : Daemon) (fuel : ℕ) (spaces : table.Table) (c tsname : Bytes) (a : ℕ) (ps : List Part)
      (items : List (Bytes × ℕ)) (s : Space tuples requests patterns regex strtoul)
      → IsText tsname
      → length tsname < 50
      → IsText c
      → length c < 50
      → table.hash_find spaces tsname ≡ some s
      → handler tuples requests patterns regex strtoul table self fuel spaces
          (message true c (length tsname + 1) tsname a ps items)
        ≡ act tuples requests patterns regex strtoul table self fuel spaces
            (message true c (length tsname + 1) tsname a ps items)
            c
            tsname
            s
            a
  handler_lem self fuel spaces c tsname a ps items s ht hl hc lc find =
      let req = message true c (length tsname + 1) tsname a ps items in
      let name = namespace_lem tsname ht hl in
      handler_acts tuples requests patterns regex strtoul table self fuel spaces req c c
        (record {
          buf_len = length tsname + 1;
          received = tsname;
          entry = some s;
          has_length = refl;
          is_named = refl;
          is_positive = omega arith;
          is_short = omega arith;
          finds = ap (table.hash_find spaces) name ∙ find;
        })
        s a refl (clientid_of-text c hc lc) refl refl
      ∙ ap (λ n. act tuples requests patterns regex strtoul table self fuel spaces req c n s a) name

  act-Put :
      (self : Daemon) (fuel : ℕ) (spaces : table.Table) (req : Request) (clientid name : Bytes)
      (s : Space tuples requests patterns regex strtoul) (e : Element tuples requests)
      (out : List Output) (c : Code)
      → s.element.is_activated ≡ true
      → named_queue_write_handler tuples requests regex self s.element (args_of req clientid 2)
        ≡ returned e out c
      → act tuples requests patterns regex strtoul table self fuel spaces req clientid name s 2
        ≡ handled (table.write spaces name (record s { element = e })) out (some c)
  unfolding switch command_of stored of_space
  act-Put self fuel spaces req clientid name s e out c on h =
      act_lem self fuel spaces req clientid name s 2 on
      ∙ ap
          (λ r.
            stored tuples requests patterns regex strtoul table spaces name
              (of_space tuples requests patterns regex strtoul s r))
          h

  act-Get :
      (self : Daemon) (fuel : ℕ) (spaces : table.Table) (req : Request) (clientid name : Bytes)
      (s : Space tuples requests patterns regex strtoul) (e : Element tuples requests)
      (out : List Output) (c : Code)
      → s.element.is_activated ≡ true
      → named_queue_read_handler tuples requests regex s.element (args_of req clientid 1)
        ≡ returned e out c
      → act tuples requests patterns regex strtoul table self fuel spaces req clientid name s 1
        ≡ handled (table.write spaces name (record s { element = e })) out (some c)
  unfolding switch command_of stored of_space
  act-Get self fuel spaces req clientid name s e out c on h =
      act_lem self fuel spaces req clientid name s 1 on
      ∙ ap
          (λ r.
            stored tuples requests patterns regex strtoul table spaces name
              (of_space tuples requests patterns regex strtoul s r))
          h

  -- A local client writes a tuple that is not empty under a name; then a local client gets the name. Their
  -- space is open and not P2P, and no stored tuple and no waiting request matches the name. The ids of the
  -- clients are texts of at most 49 bytes, and the name of the space is one of at most 49. Then the
  -- second client's ts_out returns the tuple that the first one gave to ts_in.
  pub ts_in-ts_out :
      (self : Daemon) (fuel : ℕ) (spaces : table.Table)
      (s : Space tuples requests patterns regex strtoul)
      (tsname writer reader name contents : Bytes) (len : ℕ) (u : Tuple)
      → IsText tsname
      → length tsname < 50
      → IsText writer
      → length writer < 50
      → IsText reader
      → length reader < 50
      → table.hash_find spaces tsname ≡ some s
      → s.element.is_activated ≡ true
      → is_mode s.element.ts_mode mode_p2p ≡ false
      → 0 < len
      → All
          (λ b. Differs (
            blckcmp_str regex b (
              search_request
                (record { name = some name; anon_id = 0; len = len; contents = contents }))))
          (requests.items s.element.named_queue_requests)
      → All (λ v. Differs (tplcmp regex v (search_tuple name))) (tuples.items s.element.named_queue)
      → (sent received : List Part) × (items : List (Bytes × ℕ)) × (write read : Request) × (middle
          after : table.Table)
        × (out : List Output) × (ts_in
              (record { tsname = tsname; mode = 0; is_local = true })
              (record { name = some name; anon_id = 0; len = len; contents = contents })
              put
            ≡ some (sent, items))
        × (arrives true writer sent items ≡ some write)
        × (handler tuples requests patterns regex strtoul table self fuel spaces write
            ≡ handled middle [] (some success))
        × (ts_out_sends (record { tsname = tsname; mode = 0; is_local = true }) (some name) get
            ≡ some received)
        × (arrives true reader received [] ≡ some read)
        × (handler tuples requests patterns regex strtoul table self fuel middle read
            ≡ handled after out (some success))
        × (ts_out true false u (deliver reader none (on_socket true out)) (piped out)
            ≡ done (record u { name = some name; len = len; contents = contents }) [])
  unfolding ts_in ts_out_sends arrives put_of command_of
  ts_in-ts_out self fuel spaces s tsname writer reader name contents len u ht hl hw lw hr lr find on
        m pos pending kept =
      let w =
        message true writer (length tsname + 1) tsname 2 (text name ∷ []) ((contents, len) ∷ []) in
      let r = message true reader (length tsname + 1) tsname 1 (text name ∷ []) [] in
      let (e, f, still, put_done, get_done, same_tuples) =
        put-get_lem tuples requests regex self s.element (args_of w writer 2) (args_of r reader 1)
          name refl refl refl refl refl refl m pending kept in
      let middle = table.write spaces tsname (record s { element = e }) in
      (
        word (length tsname + 1) ∷ raw tsname ∷ word 2 ∷ text name ∷ [],
        word (length tsname + 1) ∷ raw tsname ∷ word 1 ∷ text name ∷ [],
        (contents, len) ∷ [],
        w,
        r,
        middle,
        table.write middle tsname (record s { element = f }),
        handed_over (args_of r reader 1) name
            (record { name = some name; anon_id = 0; len = len; contents = contents }),
        ground (arith, pos),
        refl,
        handler_lem self fuel spaces writer tsname 2 (text name ∷ []) ((contents, len) ∷ []) s ht hl
              hw lw find
            ∙ act-Put self fuel spaces w writer tsname s e [] success on put_done,
        ground arith,
        refl,
        handler_lem self fuel middle reader tsname 1 (text name ∷ []) [] (record s { element = e })
              ht hl hr lr (table.hash_find-write_same spaces tsname (record s { element = e }))
            ∙ act-Get self fuel middle r reader tsname (record s { element = e }) f _ success
                (still ∙ on) get_done,
        receives (args_of r reader 1) name
            (record { name = some name; anon_id = 0; len = len; contents = contents }) u false refl,
      )
