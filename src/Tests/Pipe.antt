-- ===== src/Tests/Pipe.antt =====
-- A pipe that carries one item of three bytes (src/shared_memory/shared_memory.h).
use synergy_wrapper.Base.{
  ◌+◌, ◌*◌, ◌≡◌, ◌≤◌, ◌<◌, ◌⊎◌, refl, [], ◌∷◌, Bytes, length, min, arith, some,
}
use synergy_wrapper.Pipe.Segment.{maxlen, bytes, created, write_shared_memory, read_shared_memory}
use synergy_wrapper.Pipe.Semaphores.{
  Semaphores, initial, Alternating, write, read, begin_write, end_write, begin_read, fail_read,
  Reach-IsExclusive, failed_read_stops,
}
use synergy_wrapper.Pipe.Semaphores
use synergy_wrapper.Pipe.Transfer.{
  Pipe, Step, start, opened, chunk_count, chunk_len, sent, sending, returned, first, send_step,
  recv_step, write_chunk, read_chunk, recv_next, received, is_reading, send, recv, next,
}
use synergy_wrapper.Pipe.Transfer.Chunks.{chunk_count_lem, chunk_len-IsBounded}
use synergy_wrapper.Pipe.Transfer.Delivery.{recv_item-send_item, transfer_ends}

abbrev item : Bytes
item = 1 ∷ 2 ∷ 3 ∷ []

-- a write begun
abbrev writing : Semaphores
writing = record { r_sem = 0; w_sem = 0; writing = 1; reading = 0; failures = 0; log = [] }

Reach-IsExclusive_example :
    (writing.r_sem + writing.w_sem + writing.writing + writing.reading + writing.failures ≡ 1)
    × (Alternating write [] ⊎ Alternating read [])
Reach-IsExclusive_example =
    Reach-IsExclusive {s = writing}
      (Semaphores.next {s = initial} Semaphores.start (begin_write (omega arith)))

-- a read that has failed
abbrev failed : Semaphores
failed = record { r_sem = 0; w_sem = 0; writing = 0; reading = 0; failures = 1; log = write ∷ [] }

failed_read_stops_example : ¬ Semaphores.Step failed initial
failed_read_stops_example =
    failed_read_stops
      (Semaphores.next
        (Semaphores.next
          (Semaphores.next (Semaphores.next Semaphores.start (begin_write (omega arith)))
            (end_write (omega arith)))
          (begin_read (omega arith)))
        (fail_read (omega arith)))
      (omega arith)

-- the second of two chunks
chunk_len-IsBounded_example :
    (0 < chunk_len 4000000 (chunk_count 4000000) 1)
    × (chunk_len 4000000 (chunk_count 4000000) 1 ≤ maxlen)
    × (1 * maxlen + chunk_len 4000000 (chunk_count 4000000) 1 ≡ min 4000000 (2 * maxlen))
chunk_len-IsBounded_example =
    chunk_len-IsBounded 4000000 1 (omega arith)
      (omega (arith, chunk_count_lem 4000000 (omega arith)))

transfer_ends_example :
    (0 ≤ 2 * chunk_count 3 + 1)
    × (((opened.sender ≡ sent) × (opened.receiver ≡ returned item 3))
        ⊎ ((q : Pipe) × Step item 3 opened q))
transfer_ends_example = transfer_ends item 3 0 opened refl (omega arith) (omega arith) start

-- the chunk in the segment, and the item received
abbrev written : Pipe
written = record {
  segment = record { r_sem = 1; w_sem = 0; id = 0; len = 3; total = 1; contents = 1 ∷ 2 ∷ 3 ∷ [] };
  sender = sending 1;
  receiver = first;
}

abbrev arrived : Pipe
arrived = record { segment = created; sender = sending 1; receiver = returned item 3 }

writes_item : send_step item 3 opened ≡ some written
unfolding send_step write_chunk chunk_count chunk_len write_shared_memory bytes
writes_item = refl

reads_item : recv_step written ≡ some arrived
unfolding recv_step read_chunk is_reading read_shared_memory bytes recv_next received
reads_item = refl

recv_item-send_item_example : (item ≡ item) × (length item ≡ 3)
recv_item-send_item_example =
    recv_item-send_item item item 3 3 2 arrived refl (omega arith) (omega arith)
      (next (next start (send writes_item)) (recv reads_item)) refl
