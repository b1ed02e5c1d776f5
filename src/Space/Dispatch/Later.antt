-- ===== src/Space/Dispatch/Later.antt =====
-- The requests that reach handler of src/tsd/tsd.c after a space is closed.
use synergy_wrapper.Base.{
  ℕ, ◌≡◌, ◌≢◌, ◌<◌, inl, inr, refl, sym, ap, ◌∙◌, List, [], ◌∷◌, Bool, false, Option, some, Bytes,
  length, take-all, Option-cases, All, arith,
}
use synergy_wrapper.Space.Types.{Tuple, BlockingRequest, connect}
use synergy_wrapper.Space.Zlistx.{Zlistx}
use synergy_wrapper.Space.Element.{Daemon, Output, Code}
use synergy_wrapper.Space.Peers.{Space, c_string}
use synergy_wrapper.Space.Dispatch.Names.{IsText, c_string-text}
use synergy_wrapper.Space.Dispatch.Refusals.{closed, handler-Refused}
use synergy_wrapper.Space.Dispatch.Frames.{handler_frame, handler-Unread, handler-Broken}
use synergy_wrapper.Space.Dispatch.{
  SpaceTable, Request, Handled, handled, broken, endless, handler, refuse, clientid_of,
  namespace_of, command_of,
}

-- The id of a client that is a text of at most 49 bytes is read as it is.
pub clientid_of-text : (c : Bytes) → IsText c → length c < 50 → clientid_of c ≡ some c
unfolding clientid_of
clientid_of-text c h lt =
    let same = ap c_string (take-all 50 c (omega (arith, lt))) ∙ c_string-text c h in
    rw same (ground (arith, lt))

-- A request for the space of that name, for anything but TsConnect.
pub record Asks (name : Bytes) (req : Request) : Type 0 where
  pub buf_len : ℕ
  pub received : Bytes
  pub action : ℕ
  pub has_length : req.recv_buf_len ≡ some buf_len
  pub is_positive : 0 < buf_len
  pub is_short : buf_len < 51
  pub is_named : req.recv_namespace ≡ some received
  pub same_name : namespace_of buf_len received ≡ name
  pub has_action : req.recv_action ≡ some action
  pub no_connect : command_of action ≢ connect

-- A request for another space, or one that Asks.
pub data Spares (name : Bytes) (req : Request) : Type 0 where
  elsewhere :
      (n : ℕ) (received : Bytes)
      → req.recv_buf_len ≡ some n
      → req.recv_namespace ≡ some received
      → namespace_of n received ≢ name
      → Spares name req
  asks : Asks name req → Spares name req

-- the table that a handler leaves, or another where it leaves none
abbrev pub left_by : {T : Type 0} → T → Handled T → T
left_by d (handled t out c) = t
left_by d broken = d
left_by d endless = d

module _ (tuples : Zlistx Tuple) (requests : Zlistx BlockingRequest) (patterns : Zlistx Bytes)
    (regex : Bytes → Bytes → Bool) (strtoul : Bytes → ℕ)
    (table : SpaceTable (Space tuples requests patterns regex strtoul)) where
  -- From the table t, the requests are handled one after another, and the table u is left.
  unfoldable pub Reaches : Daemon → ℕ → table.Table → List Request → table.Table → Type 0
  Reaches self fuel t [] u = t ≡ u
  Reaches self fuel t (req ∷ reqs) u =
      (v : table.Table) × (out : List Output) × (c : Option Code) × (handler tuples requests
          patterns regex strtoul table self fuel t req
        ≡ handled v out c)
      × Reaches self fuel v reqs u

  -- A closed space refuses what Asks.
  pub closed-Refuses :
      (self : Daemon) (fuel : ℕ) (spaces : table.Table) (req : Request) (name b c : Bytes)
      (s : Space tuples requests patterns regex strtoul)
      → table.hash_find spaces name ≡ some s
      → s.element.is_activated ≡ false
      → Asks name req
      → req.recv_clientid ≡ some b
      → clientid_of b ≡ some c
      → handler tuples requests patterns regex strtoul table self fuel spaces req
        ≡ refuse req.is_local c spaces
  closed-Refuses self fuel spaces req name b c s find off q e d =
      handler-Refused tuples requests patterns regex strtoul table self fuel spaces req b c e d (
        closed
          (record {
            buf_len = q.buf_len;
            received = q.received;
            entry = some s;
            has_length = q.has_length;
            is_named = q.is_named;
            is_positive = q.is_positive;
            is_short = q.is_short;
            finds = ap (table.hash_find spaces) q.same_name ∙ find;
          })
          s q.action refl off q.has_action q.no_connect)

  refused_left :
      (spaces t : table.Table) (l : Bool) (c : Bytes) (out : List Output) (r : Option Code)
      → refuse l c spaces ≡ handled t out r
      → spaces ≡ t
  unfolding refuse
  refused_left spaces t l c out r e = ap (left_by spaces) e

  broken_absurd : (t : table.Table) (out : List Output) (r : Option Code) → broken ≢ handled t out r
  broken_absurd t out r e = ground (arith, e)

  step_keeps :
      (self : Daemon) (fuel : ℕ) (spaces t : table.Table) (req : Request) (name : Bytes)
      (s : Space tuples requests patterns regex strtoul) (out : List Output) (r : Option Code)
      → table.hash_find spaces name ≡ some s
      → s.element.is_activated ≡ false
      → Spares name req
      → handler tuples requests patterns regex strtoul table self fuel spaces req ≡ handled t out r
      → table.hash_find t name ≡ some s
  step_keeps self fuel spaces t req name s out r find off (elsewhere n received l m ne) e =
      handler_frame tuples requests patterns regex strtoul table self fuel spaces t req n received
        name out r l m ne e
      ∙ find
  step_keeps self fuel spaces t req name s out r find off (asks q) e =
      elim (Option-cases req.recv_clientid) [
        | inl unread ↦
            ap (λ u. table.hash_find u name)
              (sym (
                ap (left_by spaces) (
                  sym (
                    handler-Unread tuples requests patterns regex strtoul table self fuel spaces req
                      unread)
                  ∙ e)))
            ∙ find
        | inr (b, f) ↦ elim (Option-cases (clientid_of b)) [
          | inl long ↦ absurd (
              broken_absurd t out r (
                sym (
                  handler-Broken tuples requests patterns regex strtoul table self fuel spaces req b
                    f long)
                ∙ e))
          | inr (c, d) ↦
              ap (λ u. table.hash_find u name)
                (sym (
                  refused_left spaces t req.is_local c out r
                    (sym (closed-Refuses self fuel spaces req name b c s find off q f d) ∙ e)))
              ∙ find
        ]
      ]

  -- A space that is closed stays as it is while no request opens it.
  pub Reaches-keeps :
      (self : Daemon) (fuel : ℕ) (reqs : List Request) (t u : table.Table) (name : Bytes)
      (s : Space tuples requests patterns regex strtoul)
      → Reaches self fuel t reqs u
      → All (Spares name) reqs
      → table.hash_find t name ≡ some s
      → s.element.is_activated ≡ false
      → table.hash_find u name ≡ some s
  unfolding Reaches
  Reaches-keeps self fuel [] t u name s same a find off =
      ap (λ v. table.hash_find v name) (sym same) ∙ find
  Reaches-keeps self fuel (req ∷ reqs) t u name s (v, out, c, e, rest) (a, others) find off =
      Reaches-keeps self fuel reqs v u name s rest others
        (step_keeps self fuel t v req name s out c find off a e) off
