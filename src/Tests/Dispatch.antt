-- ===== src/Tests/Dispatch.antt =====
-- Requests and tokens that reach a daemon (src/tsd/tsd.c).
use synergy_wrapper.Base.{
  ℕ, sym, subst, ◌≡◌, ◌≢◌, refl, List, [], ◌∷◌, ◌++◌, true, Option, none, some, Bytes, arith,
}
use synergy_wrapper.Ring.Node.{Token, word}
use synergy_wrapper.Space.Types.{Command, get_blocking}
use synergy_wrapper.Space.Element.{Output, last, pass, success, ts_term, named_token_str}
use synergy_wrapper.Space.Connect.{space_token, relay}
use synergy_wrapper.Space.Connect.Drain.{answers}
use synergy_wrapper.Space.Peers.{c_string, match_token_next}
use synergy_wrapper.Space.Dispatch.{
  Request, handler, handled, refuse, token_handler, command_of, namespace_of,
}
use synergy_wrapper.Space.Dispatch.Refusals.{Names}
use synergy_wrapper.Space.Dispatch.Later.{Asks, Reaches, left_by}
use synergy_wrapper.Space.Dispatch.Closing.{handler-Closes}
use synergy_wrapper.Space.Dispatch.Tokens.{token_handler-space_token}
use synergy_wrapper.Space.Dispatch.Names.{match_token_next-named_token_str}
use synergy_wrapper.Client.Transport.{message}
use synergy_wrapper.Tests.SpaceSamples.{tuples, requests, regex, daemon, element, waits, nonzero}
use synergy_wrapper.Tests.TableSamples.{patterns, strtoul, Entry, table, entry, spaces}

-- a local client c sends the action a, for the space s
abbrev sends : ℕ → ℕ → Request
sends c a = message true (c ∷ []) 2 (115 ∷ []) a [] []

-- with a client that waits for a name
abbrev waited : Entry
waited = record entry {
  element = record (element [] [] (waits get_blocking 1 ∷ []) []) { is_activated = true };
}

abbrev waited_spaces : Bytes → Option Entry
waited_spaces n = some waited

is_term : command_of 8 ≡ Command.term
unfolding command_of
is_term = refl

is_put : command_of 2 ≢ Command.connect
unfolding command_of
is_put e = ground (arith, e)

-- the tables that the TsTerm and the token leave
abbrev closed_table : Bytes → Option Entry
closed_table =
    left_by waited_spaces
      (handler tuples requests patterns regex strtoul table daemon 2 waited_spaces (sends 3 8))

abbrev left_table : Bytes → Option Entry
left_table = left_by spaces (
    token_handler tuples requests patterns regex strtoul table daemon 2 spaces true
      (space_token daemon (115 ∷ []) 1))

the_name : namespace_of 2 (115 ∷ []) ≡ 115 ∷ []
unfolding namespace_of c_string
the_name = ground arith

-- a put for that space
put-Asks : (c : ℕ) → Asks (115 ∷ []) (sends c 2)
put-Asks c = record {
  buf_len = 2;
  received = 115 ∷ [];
  action = 2;
  has_length = refl;
  is_positive = omega arith;
  is_short = omega arith;
  is_named = refl;
  same_name = the_name;
  has_action = refl;
  no_connect = is_put;
}

-- the name that the requests of these runs are for
abbrev term_names : Names tuples requests patterns regex strtoul table waited_spaces (sends 3 8)
term_names = record {
  buf_len = 2;
  received = 115 ∷ [];
  entry = some waited;
  has_length = refl;
  is_named = refl;
  is_positive = omega arith;
  is_short = omega arith;
  finds = refl;
}

none_between :
    (t : Bytes → Option Entry)
    → Reaches tuples requests patterns regex strtoul table daemon 2 t [] t
unfolding Reaches
none_between t = refl

handler-Closes_example :
    (t : Bytes → Option Entry) × (handler tuples requests patterns regex strtoul table daemon 2
        waited_spaces
        (sends 3 8)
      ≡ handled t
          (pass (space_token daemon (115 ∷ []) 1)
              ∷ answers (λ l. last l (word ts_term)) (waits get_blocking 1 ∷ [])
            ++ answers (λ l. last l (word ts_term)) [])
          none)
    × (handler tuples requests patterns regex strtoul table daemon 2 closed_table (sends 4 2)
        ≡ refuse true (4 ∷ []) closed_table)
handler-Closes_example =
    handler-Closes tuples requests patterns regex strtoul table daemon 2 waited_spaces closed_table
      (sends 3 8) (sends 4 2) [] (3 ∷ []) (4 ∷ []) term_names waited 8 refl (nonzero 2, tt)
      (omega arith) refl refl is_term refl refl (omega arith) (omega arith) (omega arith)
      (none_between closed_table) tt (subst (λ n. Asks n (sends 4 2)) (sym the_name) (put-Asks 4))
      refl (nonzero 3, tt) (omega arith)

token_handler-space_token_example :
    (t : Bytes → Option Entry) × (out : List Output) × (token_handler tuples requests patterns regex
        strtoul table daemon 2 spaces true
        (space_token daemon (115 ∷ []) 1)
      ≡ handled t out (some success))
    × (handler tuples requests patterns regex strtoul table daemon 2 left_table (sends 4 2)
        ≡ refuse true (4 ∷ []) left_table)
token_handler-space_token_example =
    token_handler-space_token tuples requests patterns regex strtoul table daemon daemon 2 spaces
      left_table true (115 ∷ []) entry [] (sends 4 2) (4 ∷ []) (nonzero 114, tt) refl
      (none_between left_table) tt (put-Asks 4) refl (nonzero 3, tt) (omega arith)

-- the token of a write of the name a in the space s
abbrev announced : Token
announced = record {
  id = 2;
  ttl = 1;
  len1 = 6;
  len2 = 2;
  buf1 = named_token_str daemon (115 ∷ []) (97 ∷ []);
  buf2 = 101 ∷ [];
}

match_token_next-named_token_str_example :
    match_token_next tuples requests patterns regex strtoul daemon spaces true announced
    ≡ some (relay announced)
match_token_next-named_token_str_example =
    match_token_next-named_token_str tuples requests patterns regex strtoul daemon daemon spaces
      true announced (115 ∷ []) (97 ∷ []) (nonzero 114, tt) refl refl (λ e. omega arith)
      (λ e. omega arith)
