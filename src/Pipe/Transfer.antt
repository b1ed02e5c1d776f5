-- ===== src/Pipe/Transfer.antt =====
-- send_item and recv_item on the two ends of one segment (src/shared_memory/shared_memory.h): each
-- write and each read is one step, since the semaphores keep the others out.
pub mod Chunks
pub mod Stage
pub mod Reading
pub mod Moves
pub mod Delivery
use synergy_wrapper.Base.{
  ℕ, zero, suc, ◌+◌, ◌-◌, ◌*◌, ◌/◌, ◌%◌, ◌^◌, List, [], ◌++◌, Bool, true, false, Option, none, some,
  Bytes, length, take, drop, ltb, ◌==◌, if◌then◌else◌, ◌≡◌,
}
use synergy_wrapper.Pipe.Segment.{
  Segment, created, maxlen, bytes, write_shared_memory, read_shared_memory, Write, Read, failed,
  got, wrote,
}

-- chunks of send_item
unfoldable pub chunk_count : ℕ → ℕ
chunk_count len =
    let chunks = if ltb maxlen len then len / maxlen else 1 in
    if ltb (chunks * maxlen) len then suc chunks else chunks

-- ulen of send_item, for its i and its chunks
unfoldable pub chunk_len : ℕ → ℕ → ℕ → ℕ
chunk_len len chunks i =
    if chunks == 1 then len else if i == chunks - 1 then len - maxlen * i else maxlen

-- the loop of send_item at i, its return of 0, and a failed assertion
pub data Sender : Type 0 where
  sending : ℕ → Sender
  sent aborted : Sender

-- recv_item before its first read, in its loop at i and before its last read with the buffer,
-- size_per_chunk, total_chunk and i, its return of 0 with the item and *len, and a use of a pointer that was
-- never set
pub data Receiver : Type 0 where
  first : Receiver
  middle final : Bytes → ℕ → ℕ → ℕ → Receiver
  returned : Bytes → ℕ → Receiver
  crashed : Receiver

pub record Pipe : Type 0 where
  pub segment : Segment
  pub sender : Sender
  pub receiver : Receiver

unfoldable pub write_chunk : ℕ → Pipe → Write → Option Pipe
write_chunk i p Write.aborted =
    some (record { segment = p.segment; sender = aborted; receiver = p.receiver })
write_chunk i p Write.waits = none
write_chunk i p (wrote s) =
    some (record { segment = s; sender = sending (suc i); receiver = p.receiver })

-- What send_item of the len bytes of item does next; `none` when it waits or has ended.
unfoldable pub send_step : Bytes → ℕ → Pipe → Option Pipe
unfolding write_chunk chunk_len
send_step item len p =
    let chunks = chunk_count len in
    elim p.sender [
      | sent ↦ none
      | aborted ↦ none
      | sending i ↦
          if ltb i chunks
          then write_chunk i p (
              write_shared_memory p.segment (drop (i * maxlen) item) (chunk_len len chunks i) i
                chunks)
          else some (record { segment = p.segment; sender = sent; receiver = p.receiver })
    ]

-- The test of the loop of recv_item at i, whose `total_chunk - 1` wraps around, and the test after it.
unfoldable pub recv_next : Bytes → ℕ → ℕ → ℕ → Receiver
recv_next buffer size total i =
    if ltb i ((total + 2 ^ 64 - 1) % 2 ^ 64)
    then middle buffer size total i
    else if ltb 1 total
    then final buffer size total i
    else returned buffer (total * size % 2 ^ 64)

-- `memcpy(*data + offset, s, n)`, of the whole of s; the bytes never written are zeros
unfoldable pub store : Bytes → ℕ → Bytes → Bytes
unfolding bytes
store buffer offset s = bytes offset buffer ++ s ++ drop (offset + length s) buffer

unfoldable pub received : Receiver → Segment → Pipe → Option Pipe
received receiver s p = some (record { segment = s; sender = p.sender; receiver = receiver })

-- What recv_item makes of its next read; `none` when it waits. Where a read ends with 1, recv_item
-- frees or copies from the pointer that the read did not set.
unfoldable pub read_chunk : Receiver → Pipe → Read → Option Pipe
unfolding received recv_next store
read_chunk receiver p Read.waits = none
read_chunk receiver p (failed n s) = received crashed s p
read_chunk first p (got data_bytes n total id s) = received (recv_next data_bytes n total 1) s p
read_chunk (middle buffer size total i) p (got data_bytes n ttotal id s) =
    received (recv_next (store buffer (i * size) data_bytes) size total (suc i)) s p
read_chunk (final buffer size total i) p (got data_bytes n ttotal id s) =
    received (returned (store buffer (i * size) data_bytes) (((total - 1) * size + n) % 2 ^ 64)) s p
read_chunk (returned buffer n) p (got data_bytes m total id s) = none
read_chunk crashed p (got data_bytes m total id s) = none

-- Whether recv_item is still to read.
unfoldable pub is_reading : Receiver → Bool
is_reading first = true
is_reading (middle buffer size total i) = true
is_reading (final buffer size total i) = true
is_reading (returned buffer n) = false
is_reading crashed = false

-- What recv_item does next; `none` when it waits or has ended.
unfoldable pub recv_step : Pipe → Option Pipe
unfolding read_chunk is_reading
recv_step p =
    if is_reading p.receiver then read_chunk p.receiver p (read_shared_memory p.segment) else none

-- The two ends take turns in any order.
pub data Step (item : Bytes) (len : ℕ) (p : Pipe) : Pipe → Type 0 where
  send : {q : Pipe} → send_step item len p ≡ some q → Step item len p q
  recv : {q : Pipe} → recv_step p ≡ some q → Step item len p q

abbrev pub opened : Pipe
opened = record { segment = created; sender = sending 0; receiver = first }

-- The states after n steps.
pub data Reach (item : Bytes) (len : ℕ) : ℕ → Pipe → Type 0 where
  start : Reach item len 0 opened
  next : {n : ℕ} {p q : Pipe} → Reach item len n p → Step item len p q → Reach item len (suc n) q
