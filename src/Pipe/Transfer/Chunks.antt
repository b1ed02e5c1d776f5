-- ===== src/Pipe/Transfer/Chunks.antt =====
-- The chunks that send_item cuts (src/shared_memory/shared_memory.h).
use synergy_wrapper.Base.{ℕ, ◌+◌, ◌*◌, ◌≡◌, ◌≤◌, ◌<◌, suc, min, arith}
use synergy_wrapper.Pipe.Segment.{maxlen}
use synergy_wrapper.Pipe.Transfer.{chunk_count, chunk_len}

-- the length over maxlen, rounded up
pub chunk_count_lem :
    (len : ℕ)
    → 0 < len
    → (len ≤ chunk_count len * maxlen) × (chunk_count len * maxlen < len + maxlen)
unfolding chunk_count
chunk_count_lem len h = ground arith

chunk_len_lem :
    (len c i : ℕ)
    → 0 < len
    → len ≤ c * maxlen
    → c * maxlen < len + maxlen
    → i < c
    → (0 < chunk_len len c i)
      × (chunk_len len c i ≤ maxlen)
      × (i * maxlen + chunk_len len c i ≡ min len (suc i * maxlen))
unfolding chunk_len
chunk_len_lem len c i h h1 h2 lt = ground arith

-- Every chunk that send_item cuts from an item that is not empty has between 1 and maxlen bytes, so
-- the assertion of write_shared_memory holds for it, and it ends where the next one begins, the last one
-- with the item: the chunks are the item, without a gap and within its bounds.
pub chunk_len-IsBounded :
    (len i : ℕ)
    → 0 < len
    → i < chunk_count len
    → (0 < chunk_len len (chunk_count len) i)
      × (chunk_len len (chunk_count len) i ≤ maxlen)
      × (i * maxlen + chunk_len len (chunk_count len) i ≡ min len (suc i * maxlen))
chunk_len-IsBounded len i h lt =
    let (h1, h2) = chunk_count_lem len h in chunk_len_lem len (chunk_count len) i h h1 h2 lt
