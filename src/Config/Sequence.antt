-- ===== src/Config/Sequence.antt =====
-- The order of the fields of the section tsd (src/parser/sng_parser.c).
use synergy_wrapper.Base.{
  ℕ, ◌≡◌, ◌≢◌, refl, List, [], ◌∷◌, ◌++◌, true, false, Option, none, some, Bytes, All, test_no,
  test_yes,
}
use synergy_wrapper.Config.{Value, parsed, failure}
use synergy_wrapper.Config.Tsd.{
  Key, Key-discrete, endpoint, ipc, replication_factor, is_key, find, read_factor, read_ipc,
  read_endpoint, parse_tsd,
}

-- No field of the list has the key k.
abbrev pub Lacks : Key → List (Key × Value) → Type 0
Lacks k = All (λ f. k ≢ f.0)

is_key-same : (k : Key) → is_key k k ≡ true
unfolding is_key
is_key-same k = test_yes (Key-discrete k k) refl

is_key-other : (k l : Key) → k ≢ l → is_key k l ≡ false
unfolding is_key
is_key-other k l h = test_no (Key-discrete k l) h

find_behind :
    (k : Key) (before fs : List (Key × Value)) (v : Value)
    → Lacks k before
    → find k (before ++ ((k, v) ∷ fs)) ≡ some (v, fs)
unfolding find
find_behind k [] fs v h = rw (is_key-same k) refl
find_behind k ((l, w) ∷ before) fs v (h, hs) =
    rw (is_key-other k l h) (find_behind k before fs v hs)

find_missing : (k : Key) (fs : List (Key × Value)) → Lacks k fs → find k fs ≡ none
unfolding find
find_missing k [] h = refl
find_missing k ((l, w) ∷ fs) (h, hs) = rw (is_key-other k l h) (find_missing k fs hs)

module _ (dup_utf8 : Value → Option Bytes) (as_int32 : Value → ℕ) where
  -- sng_parse_config accepts a section tsd in which endpoint, ipc and replication_factor stand in this order, each
  -- the first of its key behind the one before, whatever the fields between are, and sets what libbson reads of them.
  pub parse_tsd-in_order :
      (before mid near rest : List (Key × Value)) (v w x : Value)
      → Lacks endpoint before
      → Lacks ipc mid
      → Lacks replication_factor near
      → parse_tsd dup_utf8 as_int32 (
          some (
            before
            ++ ((endpoint, v) ∷ (mid ++ ((ipc, w) ∷ (near ++ ((replication_factor, x) ∷ rest)))))))
        ≡ parsed (record {
          tsd_endpoint = dup_utf8 v;
          tsd_ipc_endpoint = dup_utf8 w;
          tsd_rep_factor = as_int32 x;
        })
  unfolding parse_tsd read_endpoint read_ipc read_factor
  parse_tsd-in_order before mid near rest v w x h i j =
      rw
        (
          find_behind endpoint before
              (mid ++ ((ipc, w) ∷ (near ++ ((replication_factor, x) ∷ rest)))) v h,
          find_behind ipc mid (near ++ ((replication_factor, x) ∷ rest)) w i,
          find_behind replication_factor near rest x j,
        )
        refl

  factor_missing :
      (e i : Option Bytes) (fs : List (Key × Value))
      → Lacks replication_factor fs
      → read_factor dup_utf8 as_int32 e i (find replication_factor fs) ≡ failure
  unfolding read_factor
  factor_missing e i fs h = rw (find_missing replication_factor fs h) refl

  -- sng_parse_config refuses a section tsd whose ipc does not stand behind its first endpoint, and one whose
  -- replication_factor does not stand behind the first ipc there, although the section may have all three.
  pub misplaced_refused :
      (before mid rest : List (Key × Value)) (v : Value)
      → Lacks endpoint before
      → Lacks ipc mid
      → Lacks replication_factor rest
      → (w : Value)
      → (parse_tsd dup_utf8 as_int32 (some (before ++ ((endpoint, v) ∷ mid))) ≡ failure)
        × (parse_tsd dup_utf8 as_int32
              (some (before ++ ((endpoint, v) ∷ (mid ++ ((ipc, w) ∷ rest)))))
            ≡ failure)
  unfolding parse_tsd read_endpoint read_ipc
  misplaced_refused before mid rest v h i j w = (
    rw (find_behind endpoint before mid v h, find_missing ipc mid i) refl,
    rw (find_behind endpoint before (mid ++ ((ipc, w) ∷ rest)) v h, find_behind ipc mid rest w i)
        (factor_missing (dup_utf8 v) (dup_utf8 w) rest j),
  )
