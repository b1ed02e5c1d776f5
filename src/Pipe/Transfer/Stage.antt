-- ===== src/Pipe/Transfer/Stage.antt =====
-- The stages of a transfer: which chunk is in the segment, and what recv_item has by then
-- (src/shared_memory/shared_memory.h).
use synergy_wrapper.Base.{
  ℕ, zero, suc, ◌+◌, ◌*◌, ◌%◌, ◌^◌, ◌≡◌, ◌≤◌, ◌<◌, refl, ap, ◌∙◌, [], ◌++◌, Bytes, length, take,
  drop, replicate, ◌==◌, if◌then◌else◌, length-take, take-all, drop-all, take_add, length-drop,
  append-nil, arith,
}
use synergy_wrapper.Pipe.Segment.{
  Segment, created, maxlen, bytes, write_shared_memory, read_shared_memory, wrote, got,
}
use synergy_wrapper.Pipe.Transfer.{
  chunk_count, chunk_len, Receiver, first, returned, recv_next, store,
}
use synergy_wrapper.Pipe.Transfer.Chunks.{chunk_len-IsBounded}

bytes-take : (n : ℕ) (xs : Bytes) → n ≤ length xs → bytes n xs ≡ take n xs
unfolding bytes
bytes-take n xs h =
    ap (λ k. take n xs ++ replicate k 0) {y = 0} (omega arith) ∙ append-nil (take n xs)

-- The copy of a chunk extends what was stored before it.
pub store_lem :
    (item : Bytes) (i n : ℕ)
    → i + n ≤ length item
    → store (take i item) i (take n (drop i item)) ≡ take (i + n) item
unfolding store
store_lem item i n h =
    let l = length-take i item (omega arith) in
    rw
      (
        bytes-take i (take i item) (omega (arith, l)),
        take-all i (take i item) (omega (arith, l)),
        drop-all (i + length (take n (drop i item))) (take i item) (omega (arith, l)),
        append-nil (take i item ++ take n (drop i item)),
        take_add i n (i + n) item refl,
      )
      refl

-- Reading what was written.
chunk_lem : (xs : Bytes) (n : ℕ) → n ≤ length xs → bytes n (bytes n xs ++ drop n []) ≡ take n xs
chunk_lem xs n h =
    let l = length-take n xs h in
    rw
      (
        bytes-take n xs h,
        drop-all {A = ℕ} n [] (omega arith),
        append-nil (take n xs),
        bytes-take n (take n xs) (omega (arith, l)),
      )
      (take-all n (take n xs) (omega (arith, l)))

module _ (item : Bytes) (len : ℕ) where
  -- chunk i, as write_shared_memory copies it
  unfoldable pub chunk : ℕ → Bytes
  chunk i = bytes (chunk_len len (chunk_count len) i) (drop (i * maxlen) item)

  -- the segment with chunk i in it
  unfoldable pub loaded_segment : ℕ → Segment
  unfolding chunk
  loaded_segment i = record {
    r_sem = 1;
    w_sem = 0;
    id = i % 2 ^ 32;
    len = chunk_len len (chunk_count len) i;
    total = chunk_count len;
    contents = chunk i ++ drop (chunk_len len (chunk_count len) i) [];
  }

  -- recv_item after i chunks
  unfoldable pub after : ℕ → Receiver
  unfolding recv_next
  after zero = first
  after (suc j) =
      if suc j == chunk_count len
      then returned item len
      else recv_next (take (suc j * maxlen) item) maxlen (chunk_count len) (suc j)

  pub write_lem :
      (i : ℕ)
      → 0 < len
      → i < chunk_count len
      → write_shared_memory created
          (drop (i * maxlen) item)
          (chunk_len len (chunk_count len) i)
          i
          (chunk_count len)
        ≡ wrote (loaded_segment i)
  unfolding write_shared_memory loaded_segment
  write_lem i h lt = ground (arith, chunk_len-IsBounded len i h lt)

  pub read_lem :
      (i : ℕ)
      → 0 < len
      → i < chunk_count len
      → length item ≡ len
      → read_shared_memory (loaded_segment i)
        ≡ got
            (take (chunk_len len (chunk_count len) i) (drop (i * maxlen) item))
            (chunk_len len (chunk_count len) i)
            (chunk_count len)
            (i % 2 ^ 32)
            created
  unfolding read_shared_memory loaded_segment chunk
  read_lem i h lt l =
      let b = chunk_len-IsBounded len i h lt in
      ground (
        arith,
        b,
        chunk_lem (drop (i * maxlen) item) (chunk_len len (chunk_count len) i)
            (omega (arith, b, l, length-drop (i * maxlen) item)),
      )
