-- ===== src/Space/Dispatch/Frames.antt =====
-- What handler of src/tsd/tsd.c leaves alone.
use synergy_wrapper.Base.{
  ℕ, ◌≡◌, ◌≢◌, ◌<◌, inl, inr, refl, sym, ap, ◌∙◌, subst, List, [], if◌then◌else◌, ltb, ◌==◌, Bool,
  true, false, Option, none, some, Bytes, Bool-cases, Option-cases, arith,
}
use synergy_wrapper.Space.Types.{Tuple, BlockingRequest}
use synergy_wrapper.Space.Zlistx.{Zlistx}
use synergy_wrapper.Space.Element.{Daemon, Output, Code}
use synergy_wrapper.Space.Peers.{Space}
use synergy_wrapper.Space.Dispatch.Refusals.{
  Names, Refused, empty_name, long_name, unknown_space, no_action, handler-Refused, handler_acts,
}
use synergy_wrapper.Space.Dispatch.{
  SpaceTable, Request, Handled, handled, broken, endless, stored, act, handler, refuse, clientid_of,
  namespace_of,
}

module _ (tuples : Zlistx Tuple) (requests : Zlistx BlockingRequest) (patterns : Zlistx Bytes)
    (regex : Bytes → Bytes → Bool) (strtoul : Bytes → ℕ)
    (table : SpaceTable (Space tuples requests patterns regex strtoul)) where
  -- The entry of m in the table that is left, if there is one.
  Keeps : table.Table → Bytes → Handled table.Table → Type 0
  Keeps spaces m (handled t out c) = table.hash_find t m ≡ table.hash_find spaces m
  Keeps spaces m broken = Unit
  Keeps spaces m endless = Unit

  stored-Keeps :
      (spaces : table.Table) (name m : Bytes)
      (h : Handled (Space tuples requests patterns regex strtoul))
      → name ≢ m
      → Keeps spaces m (stored tuples requests patterns regex strtoul table spaces name h)
  unfolding Keeps stored
  stored-Keeps spaces name m (handled s out c) ne = table.hash_find-write_other spaces name m s ne
  stored-Keeps spaces name m broken ne = tt
  stored-Keeps spaces name m endless ne = tt

  refuse-Keeps :
      (spaces : table.Table) (m clientid : Bytes) (l : Bool)
      → Keeps spaces m (refuse l clientid spaces)
  unfolding Keeps refuse
  refuse-Keeps spaces m clientid l = refl

  if-Keeps :
      (spaces : table.Table) (m : Bytes) (b : Bool) (x y : Handled table.Table)
      → Keeps spaces m x
      → Keeps spaces m y
      → Keeps spaces m (if b then x else y)
  if-Keeps spaces m true x y p q = p
  if-Keeps spaces m false x y p q = q

  act-Keeps :
      (self : Daemon) (fuel : ℕ) (spaces : table.Table) (req : Request) (clientid name m : Bytes)
      (s : Space tuples requests patterns regex strtoul) (a : ℕ)
      → name ≢ m
      → Keeps spaces m
          (act tuples requests patterns regex strtoul table self fuel spaces req clientid name s a)
  unfolding act
  act-Keeps self fuel spaces req clientid name m s a ne =
      if-Keeps spaces m _ _ _ (refuse-Keeps spaces m clientid req.is_local)
        (stored-Keeps spaces name m _ ne)

  pub handler-Unread :
      (self : Daemon) (fuel : ℕ) (spaces : table.Table) (req : Request)
      → req.recv_clientid ≡ none
      → handler tuples requests patterns regex strtoul table self fuel spaces req
        ≡ handled spaces [] (some Code.dilemma)
  unfolding handler
  handler-Unread self fuel spaces req e = ground (arith, e)

  pub handler-Broken :
      (self : Daemon) (fuel : ℕ) (spaces : table.Table) (req : Request) (b : Bytes)
      → req.recv_clientid ≡ some b
      → clientid_of b ≡ none
      → handler tuples requests patterns regex strtoul table self fuel spaces req ≡ broken
  unfolding handler
  handler-Broken self fuel spaces req b e d = ground (arith, e, d)

  abbrev names :
      (spaces : table.Table) (req : Request) (n : ℕ) (received : Bytes)
      (entry : Option (Space tuples requests patterns regex strtoul))
      → req.recv_buf_len ≡ some n
      → req.recv_namespace ≡ some received
      → 0 < n
      → n < 51
      → table.hash_find spaces (namespace_of n received) ≡ entry
      → Names tuples requests patterns regex strtoul table spaces req
  names spaces req n received entry l r pos short f = record {
    buf_len = n;
    received = received;
    entry = entry;
    has_length = l;
    is_named = r;
    is_positive = pos;
    is_short = short;
    finds = f;
  }

  handler-Keeps :
      (self : Daemon) (fuel : ℕ) (spaces : table.Table) (req : Request) (buf_len : ℕ)
      (received m : Bytes)
      → req.recv_buf_len ≡ some buf_len
      → req.recv_namespace ≡ some received
      → namespace_of buf_len received ≢ m
      → Keeps spaces m (handler tuples requests patterns regex strtoul table self fuel spaces req)
  unfolding Keeps
  handler-Keeps self fuel spaces req buf_len received m l n ne =
      let keep =
        λ (h : Handled table.Table)
            (e : handler tuples requests patterns regex strtoul table self fuel spaces req ≡ h)
            (k : Keeps spaces m h).
          subst (Keeps spaces m) (sym e) k in
      let refused =
        λ (b c : Bytes) (e : req.recv_clientid ≡ some b) (d : clientid_of b ≡ some c)
            (r : Refused tuples requests patterns regex strtoul table spaces req).
          keep _
            (handler-Refused tuples requests patterns regex strtoul table self fuel spaces req b c e
              d r)
            (refuse-Keeps spaces m c req.is_local) in
      let entry = table.hash_find spaces (namespace_of buf_len received) in
      elim (Option-cases req.recv_clientid) [
        | inl none_yet ↦ keep _ (handler-Unread self fuel spaces req none_yet) refl
        | inr (b, e) ↦ elim (Option-cases (clientid_of b)) [
          | inl unread ↦ keep _ (handler-Broken self fuel spaces req b e unread) tt
          | inr (c, d) ↦ elim (Bool-cases (buf_len == 0)) [
            | inl zero_len ↦ refused b c e d (empty_name (l ∙ ap some {y = 0} (ground arith)))
            | inr pos ↦ elim (Bool-cases (ltb 50 buf_len)) [
              | inl over ↦ refused b c e d (long_name buf_len l (ground arith))
              | inr fits ↦ elim (Option-cases entry) [
                | inl missing_entry ↦ refused b c e d (
                    unknown_space
                      (names spaces req buf_len received none l n (ground arith) (ground arith)
                        missing_entry)
                      refl)
                | inr (s, f) ↦ elim (Option-cases req.recv_action) [
                  | inl unread ↦ refused b c e d (no_action unread)
                  | inr (a, g) ↦
                      keep _
                        (handler_acts tuples requests patterns regex strtoul table self fuel spaces
                          req b c
                          (names spaces req buf_len received (some s) l n (ground arith)
                            (ground arith) f)
                          s a e d refl g)
                        (act-Keeps self fuel spaces req c (namespace_of buf_len received) m s a ne)
                ]
              ]
            ]
          ]
        ]
      ]

  Keeps-handled :
      (spaces t : table.Table) (m : Bytes) (h : Handled table.Table) (out : List Output)
      (c : Option Code)
      → Keeps spaces m h
      → h ≡ handled t out c
      → table.hash_find t m ≡ table.hash_find spaces m
  unfolding Keeps
  Keeps-handled spaces t m h out c k e = subst (Keeps spaces m) e k

  -- A request of a client leaves the entry of every name but the one that it asks for as it is.
  pub handler_frame :
      (self : Daemon) (fuel : ℕ) (spaces t : table.Table) (req : Request) (buf_len : ℕ)
      (received m : Bytes) (out : List Output) (c : Option Code)
      → req.recv_buf_len ≡ some buf_len
      → req.recv_namespace ≡ some received
      → namespace_of buf_len received ≢ m
      → handler tuples requests patterns regex strtoul table self fuel spaces req ≡ handled t out c
      → table.hash_find t m ≡ table.hash_find spaces m
  handler_frame self fuel spaces t req buf_len received m out c l n ne e =
      Keeps-handled spaces t m _ out c
        (handler-Keeps self fuel spaces req buf_len received m l n ne) e
