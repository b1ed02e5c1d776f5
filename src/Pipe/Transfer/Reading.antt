-- ===== src/Pipe/Transfer/Reading.antt =====
-- What recv_item makes of the chunks that send_item cuts (src/shared_memory/shared_memory.h).
use synergy_wrapper.Base.{
  ℕ, suc, ◌+◌, ◌-◌, ◌*◌, ◌%◌, ◌^◌, ◌≡◌, ◌<◌, inl, inr, sym, ap, ◌∙◌, Bool-cases, Bytes, length,
  take, drop, ◌==◌, take-all, take-min, min, arith,
}
use synergy_wrapper.Pipe.Segment.{created, maxlen, got}
use synergy_wrapper.Pipe.Transfer.{
  chunk_count, chunk_len, middle, final, returned, Pipe, recv_next, store, read_chunk, received,
}
use synergy_wrapper.Pipe.Transfer.Chunks.{chunk_count_lem, chunk_len-IsBounded}
use synergy_wrapper.Pipe.Transfer.Stage.{after, store_lem}

module _ (item : Bytes) (len : ℕ) (l : length item ≡ len) (pos : 0 < len)
    (small : len < 2 ^ 64) where
  abbrev pub chunk_bytes : ℕ → Bytes
  chunk_bytes i = take (chunk_len len (chunk_count len) i) (drop (i * maxlen) item)

  pub after_last : (j : ℕ) → suc j ≡ chunk_count len → after item len (suc j) ≡ returned item len
  unfolding after
  after_last j e = ground arith

  after_final :
      (j : ℕ)
      → suc (suc j) ≡ chunk_count len
      → after item len (suc j) ≡ final (take (suc j * maxlen) item) maxlen (chunk_count len) (suc j)
  unfolding after recv_next
  after_final j e = ground (arith, chunk_count_lem len pos)

  after_middle :
      (j : ℕ)
      → suc (suc j) < chunk_count len
      → after item len (suc j)
        ≡ middle (take (suc j * maxlen) item) maxlen (chunk_count len) (suc j)
  unfolding after recv_next
  after_middle j e = ground (arith, chunk_count_lem len pos)

  after_more :
      (j : ℕ)
      → suc j < chunk_count len
      → after item len (suc j)
        ≡ recv_next (take (suc j * maxlen) item) maxlen (chunk_count len) (suc j)
  unfolding after
  after_more j e = ground arith

  -- The first read of recv_item, of the only chunk and of one of several.
  only_chunk : (n c : ℕ) → n ≡ len → c ≡ 1 → recv_next (take n item) n c 1 ≡ returned item len
  unfolding recv_next
  only_chunk n c e one = ground (arith, take-all n item (omega arith))

  first_chunk :
      (n c : ℕ)
      → n ≡ maxlen
      → recv_next (take n item) n c 1 ≡ recv_next (take (1 * maxlen) item) maxlen c 1
  first_chunk n c e = ap (λ k. recv_next (take k item) k c 1) e

  pub first_lem :
      recv_next (chunk_bytes 0) (chunk_len len (chunk_count len) 0) (chunk_count len) 1
      ≡ after item len 1
  first_lem =
      let bound = chunk_count_lem len pos in
      let b = chunk_len-IsBounded len 0 pos (omega (arith, bound)) in
      elim (Bool-cases (chunk_count len == 1)) [
        | inl one ↦
            only_chunk _ _ (ground (arith, bound, b)) (ground arith)
            ∙ sym (after_last 0 (ground arith))
        | inr many ↦
            first_chunk _ _ (ground (arith, bound, b)) ∙ sym (after_more 0 (ground (arith, bound)))
      ]

  stored_lem :
      (i n : ℕ)
      → i * maxlen + n ≡ min len (suc i * maxlen)
      → store (take (i * maxlen) item) (i * maxlen) (take n (drop (i * maxlen) item))
        ≡ take (suc i * maxlen) item
  stored_lem i n e =
      store_lem item (i * maxlen) n (omega (arith, e, l))
      ∙ take-min (i * maxlen + n) (suc i * maxlen) item (omega (arith, e, l))

  last_chunk :
      (i n id : ℕ) (p : Pipe)
      → suc (suc i) ≡ chunk_count len
      → suc i * maxlen + n ≡ len
      → read_chunk
          (final (take (suc i * maxlen) item) maxlen (chunk_count len) (suc i))
          p
          (got (take n (drop (suc i * maxlen) item)) n (chunk_count len) id created)
        ≡ received (returned item len) created p
  unfolding read_chunk
  last_chunk i n id p e sum =
      let bound = chunk_count_lem len pos in
      ap (λ s. received (returned s (((chunk_count len - 1) * maxlen + n) % 2 ^ 64)) created p)
        (stored_lem (suc i) n (omega (arith, bound))
          ∙ take-all (suc (suc i) * maxlen) item (omega (arith, bound)))
      ∙ ap (λ m. received (returned item m) created p) (omega arith)

  middle_chunk :
      (i n id : ℕ) (p : Pipe)
      → suc i * maxlen + n ≡ min len (suc (suc i) * maxlen)
      → read_chunk
          (middle (take (suc i * maxlen) item) maxlen (chunk_count len) (suc i))
          p
          (got (take n (drop (suc i * maxlen) item)) n (chunk_count len) id created)
        ≡ received
            (recv_next (take (suc (suc i) * maxlen) item) maxlen (chunk_count len) (suc (suc i)))
            created
            p
  unfolding read_chunk
  middle_chunk i n id p e =
      ap (λ s. received (recv_next s maxlen (chunk_count len) (suc (suc i))) created p)
        (stored_lem (suc i) n e)

  pub rest_lem :
      (i id : ℕ) (p : Pipe)
      → suc i < chunk_count len
      → read_chunk (after item len (suc i)) p (
          got
            (chunk_bytes (suc i))
            (chunk_len len (chunk_count len) (suc i))
            (chunk_count len)
            id
            created)
        ≡ received (after item len (suc (suc i))) created p
  rest_lem i id p lt =
      let bound = chunk_count_lem len pos in
      let b = chunk_len-IsBounded len (suc i) pos lt in
      elim (Bool-cases (suc (suc i) == chunk_count len)) [
        | inl e ↦
            ap
              (λ r. read_chunk r p (
                got (chunk_bytes (suc i)) (chunk_len len (chunk_count len) (suc i))
                  (chunk_count len) id created))
              (after_final i (ground arith))
            ∙ last_chunk i (chunk_len len (chunk_count len) (suc i)) id p (ground arith)
                (ground (arith, bound, b))
            ∙ ap (λ r. received r created p) (sym (after_last (suc i) (ground arith)))
        | inr e ↦
            ap
              (λ r. read_chunk r p (
                got (chunk_bytes (suc i)) (chunk_len len (chunk_count len) (suc i))
                  (chunk_count len) id created))
              (after_middle i (ground arith))
            ∙ middle_chunk i _ id p b.2
            ∙ ap (λ r. received r created p) (sym (after_more (suc i) (ground arith)))
      ]
