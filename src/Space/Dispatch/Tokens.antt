-- ===== src/Space/Dispatch/Tokens.antt =====
-- What the token of a TsTerm does to the spaces of another daemon: token_handler, then handler, of
-- src/tsd/tsd.c.
use synergy_wrapper.Base.{
  ℕ, ◌≡◌, ◌<◌, refl, sym, ap, ◌∙◌, List, [], ◌∷◌, Bool, false, some, Bytes, not, ◌==◌, ltb, ◌&&◌,
  ◌||◌, if◌then◌else◌, arith, length, All, subst,
}
use synergy_wrapper.Ring.Node.{Token}
use synergy_wrapper.Space.Types.{Tuple, BlockingRequest}
use synergy_wrapper.Space.Zlistx.{Zlistx}
use synergy_wrapper.Space.Element.{Daemon, Element, Output, pass, unlimited, success}
use synergy_wrapper.Space.Connect.{space_token, term_token_next}
use synergy_wrapper.Space.Peers.{Space, c_string}
use synergy_wrapper.Space.Dispatch.{
  SpaceTable, Request, handled, handler, token_handler, refuse, element_of, stored_element,
}
use synergy_wrapper.Space.Dispatch.Names.{IsText, c_string-text}
use synergy_wrapper.Space.Dispatch.Later.{
  clientid_of-text, Asks, Spares, left_by, Reaches, closed-Refuses, Reaches-keeps,
}

module _ (tuples : Zlistx Tuple) (requests : Zlistx BlockingRequest) (patterns : Zlistx Bytes)
    (regex : Bytes → Bytes → Bool) (strtoul : Bytes → ℕ)
    (table : SpaceTable (Space tuples requests patterns regex strtoul)) where
  -- what term_token_next passes on
  abbrev relayed : Token → Element tuples requests → List Output
  relayed token space =
      if (not (token.ttl == 0) && ltb token.ttl 2147483648)
        || (token.ttl == unlimited && space.is_activated)
      then pass token ∷ []
      else []

  token_handler-Closes :
      (self : Daemon) (fuel : ℕ) (spaces : table.Table) (is_connected : Bool) (token : Token)
      (s : Space tuples requests patterns regex strtoul)
      → token.id ≡ 1
      → table.hash_find spaces (c_string token.buf1) ≡ some s
      → (out : List Output) × (token_handler tuples requests patterns regex strtoul table self fuel
            spaces is_connected token
          ≡ handled
              (table.write spaces
                (c_string token.buf1)
                (record s { element = record s.element { is_activated = false } }))
              out
              (some success))
  unfolding token_handler stored_element term_token_next element_of
  token_handler-Closes self fuel spaces is_connected token s i f =
      (relayed token s.element, ground (arith, i, f))

  -- The token with which a daemon tells the ring of a TsTerm closes the space of that name at every daemon
  -- that has one, whatever its state: when requests have then been handled, each of which is for another space or is
  -- no TsConnect, a request for the space that is no TsConnect, from a client whose id is a text of at most 49
  -- bytes, gets TsEnf at that id, and changes nothing.
  pub token_handler-space_token :
      (closing self : Daemon) (fuel : ℕ) (spaces after : table.Table) (is_connected : Bool)
      (name : Bytes) (s : Space tuples requests patterns regex strtoul) (others : List Request)
      (next : Request) (clientid : Bytes)
      → IsText name
      → table.hash_find spaces name ≡ some s
      → Reaches tuples requests patterns regex strtoul table self fuel
          (left_by spaces (
            token_handler tuples requests patterns regex strtoul table self fuel spaces is_connected
              (space_token closing name 1)))
          others
          after
      → All (Spares name) others
      → Asks name next
      → next.recv_clientid ≡ some clientid
      → IsText clientid
      → length clientid < 50
      → (t : table.Table) × (out : List Output) × (token_handler tuples requests patterns regex
            strtoul table self fuel spaces is_connected
            (space_token closing name 1)
          ≡ handled t out (some success))
        × (handler tuples requests patterns regex strtoul table self fuel after next
            ≡ refuse next.is_local clientid after)
  unfolding space_token
  token_handler-space_token closing self fuel spaces after is_connected name s others next clientid
        h f run spared q i hc lc =
      let entry = c_string-text name h in
      let closed_space = record s { element = record s.element { is_activated = false } } in
      let t = table.write spaces (c_string name) closed_space in
      let (out, sent) =
        token_handler-Closes self fuel spaces is_connected (space_token closing name 1) s refl
          (ap (table.hash_find spaces) entry ∙ f) in
      let from = λ (v : table.Table).
        Reaches tuples requests patterns regex strtoul table self fuel v others after in
      (
        t,
        out,
        sent,
        closed-Refuses tuples requests patterns regex strtoul table self fuel after next name
            clientid clientid closed_space
            (Reaches-keeps tuples requests patterns regex strtoul table self fuel others t after
              name closed_space (subst from (ap (left_by spaces) sent) run) spared
              (ap (table.hash_find t) (sym entry)
                ∙ table.hash_find-write_same spaces (c_string name) closed_space)
              refl)
            refl q i (clientid_of-text clientid hc lc),
      )
