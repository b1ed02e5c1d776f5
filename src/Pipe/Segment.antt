-- ===== src/Pipe/Segment.antt =====
-- The segment and one write or read of it (src/shared_memory/shared_memory.h).
use synergy_wrapper.Base.{
  ℕ, suc, ◌-◌, ◌*◌, ◌%◌, ◌^◌, [], ◌++◌, ◌||◌, Bytes, length, take, drop, replicate, ltb, ◌==◌,
  if◌then◌else◌,
}

abbrev pub max_bytes : ℕ
max_bytes = 4000000

-- With 4 bytes of an unsigned, 8 of a size_t and 8 of a pointer.
abbrev pub maxlen : ℕ
maxlen = 4000000 - 4 - 8 * 2 - 8

-- The mapped memory, its header taken apart, and the two semaphores. The bytes of the data after the
-- ones that `contents` lists are zero.
pub record Segment : Type 0 where
  pub r_sem : ℕ
  pub w_sem : ℕ
  pub id : ℕ
  pub len : ℕ
  pub total : ℕ
  pub contents : Bytes

-- create_shared_memory where every call succeeds: (R,W) = (0,1)
abbrev pub created : Segment
created = record { r_sem = 0; w_sem = 1; id = 0; len = 0; total = 0; contents = [] }

-- The first n bytes, the unlisted ones zero.
unfoldable pub bytes : ℕ → Bytes → Bytes
bytes n xs = take n xs ++ replicate (n - length xs) 0

-- write_shared_memory: a failed assertion, a wait for w_sem, or the segment written
pub data Write : Type 0 where
  aborted waits : Write
  wrote : Segment → Write

unfoldable pub write_shared_memory : Segment → Bytes → ℕ → ℕ → ℕ → Write
unfolding bytes
write_shared_memory self data_bytes len id total =
    if (len == 0) || ltb (max_bytes - 8 * 2 - 4) len
    then aborted
    else if self.w_sem == 0
    then waits
    else wrote (record {
      r_sem = suc self.r_sem;
      w_sem = self.w_sem - 1;
      id = id % 2 ^ 32;
      len = len;
      total = total;
      contents = bytes len data_bytes ++ drop len self.contents;
    })

-- read_shared_memory: a wait for r_sem, the result 1 with what it stored in *len, or the chunk with its
-- length, total and id
pub data Read : Type 0 where
  waits : Read
  failed : ℕ → Segment → Read
  got : Bytes → ℕ → ℕ → ℕ → Segment → Read

unfoldable pub read_shared_memory : Segment → Read
unfolding bytes
read_shared_memory self =
    if self.r_sem == 0
    then waits
    else if (self.len == 0) || ltb max_bytes self.len
    then failed self.len (record {
      r_sem = self.r_sem - 1;
      w_sem = self.w_sem;
      id = self.id;
      len = self.len;
      total = self.total;
      contents = self.contents;
    })
    else got (bytes self.len self.contents) self.len self.total self.id (record {
      r_sem = self.r_sem - 1;
      w_sem = suc self.w_sem;
      id = 0;
      len = 0;
      total = 0;
      contents = [];
    })
