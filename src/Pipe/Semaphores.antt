-- ===== src/Pipe/Semaphores.antt =====
-- The semaphores of the segment while any number of calls of write_shared_memory and of
-- read_shared_memory overlap (src/shared_memory/shared_memory.h).
use synergy_wrapper.Base.{ℕ, suc, ◌+◌, ◌-◌, ◌<◌, ◌≡◌, refl, ◌⊎◌, inl, inr, List, [], ◌∷◌, arith}

pub data Event : Type 0 where
  write read : Event

-- The two semaphores, the calls between their wait and their end, the reads that ended with 1, and the calls
-- that ended with 0, the latest first.
pub record Semaphores : Type 0 where
  pub r_sem : ℕ
  pub w_sem : ℕ
  pub writing : ℕ
  pub reading : ℕ
  pub failures : ℕ
  pub log : List Event

-- create_shared_memory
abbrev pub initial : Semaphores
initial = record { r_sem = 0; w_sem = 1; writing = 0; reading = 0; failures = 0; log = [] }

-- sem_wait and sem_post of one of the calls; a read that ends with 1 posts nothing.
pub data Step (s : Semaphores) : Semaphores → Type 0 where
  begin_write :
      0 < s.w_sem
      → Step s (record {
        r_sem = s.r_sem;
        w_sem = s.w_sem - 1;
        writing = suc s.writing;
        reading = s.reading;
        failures = s.failures;
        log = s.log;
      })
  end_write :
      0 < s.writing
      → Step s (record {
        r_sem = suc s.r_sem;
        w_sem = s.w_sem;
        writing = s.writing - 1;
        reading = s.reading;
        failures = s.failures;
        log = write ∷ s.log;
      })
  begin_read :
      0 < s.r_sem
      → Step s (record {
        r_sem = s.r_sem - 1;
        w_sem = s.w_sem;
        writing = s.writing;
        reading = suc s.reading;
        failures = s.failures;
        log = s.log;
      })
  end_read :
      0 < s.reading
      → Step s (record {
        r_sem = s.r_sem;
        w_sem = suc s.w_sem;
        writing = s.writing;
        reading = s.reading - 1;
        failures = s.failures;
        log = read ∷ s.log;
      })
  fail_read :
      0 < s.reading
      → Step s (record {
        r_sem = s.r_sem;
        w_sem = s.w_sem;
        writing = s.writing;
        reading = s.reading - 1;
        failures = suc s.failures;
        log = s.log;
      })

pub data Reach : Semaphores → Type 0 where
  start : Reach initial
  next : {s t : Semaphores} → Reach s → Step s t → Reach t

-- W-R-W-R-..., the latest first; the index is the call that comes next.
pub data Alternating : Event → List Event → Type 0 where
  none_yet : Alternating write []
  after_write : {es : List Event} → Alternating write es → Alternating read (write ∷ es)
  after_read : {es : List Event} → Alternating read es → Alternating write (read ∷ es)

-- Who holds the segment, and what the log says of whose turn it is.
Turn : Semaphores → Type 0
Turn s =
    ((s.w_sem + s.writing ≡ 1) × (s.r_sem + s.reading + s.failures ≡ 0) × Alternating write s.log)
    ⊎ ((s.r_sem + s.reading + s.failures ≡ 1) × (s.w_sem + s.writing ≡ 0) × Alternating read s.log)

Step-Turn : {s t : Semaphores} → Step s t → Turn s → Turn t
unfolding Turn
Step-Turn (begin_write h) (inl (a, b, c)) = inl (omega arith, b, c)
Step-Turn (begin_write h) (inr (a, b, c)) = absurd (omega arith)
Step-Turn (end_write h) (inl (a, b, c)) = inr (omega arith, omega arith, after_write c)
Step-Turn (end_write h) (inr (a, b, c)) = absurd (omega arith)
Step-Turn (begin_read h) (inl (a, b, c)) = absurd (omega arith)
Step-Turn (begin_read h) (inr (a, b, c)) = inr (omega arith, b, c)
Step-Turn (end_read h) (inl (a, b, c)) = absurd (omega arith)
Step-Turn (end_read h) (inr (a, b, c)) = inl (omega arith, omega arith, after_read c)
Step-Turn (fail_read h) (inl (a, b, c)) = absurd (omega arith)
Step-Turn (fail_read h) (inr (a, b, c)) = inr (omega arith, b, c)

Reach-Turn : {s : Semaphores} → Reach s → Turn s
unfolding Turn
Reach-Turn start = inl (refl, refl, none_yet)
Reach-Turn (next r st) = Step-Turn st (Reach-Turn r)

-- In every state that overlapping writes and reads of the segment reach from create_shared_memory, the
-- two semaphores, the calls that hold the segment and the reads that failed add up to 1: (R,W) is never
-- (1,1), and no two calls touch the segment at once. The calls that have ended alternate, a write first.
pub Reach-IsExclusive :
    {s : Semaphores}
    → Reach s
    → (s.r_sem + s.w_sem + s.writing + s.reading + s.failures ≡ 1)
      × (Alternating write s.log ⊎ Alternating read s.log)
unfolding Turn
Reach-IsExclusive r = elim (Reach-Turn r) [
  | inl (a, b, c) ↦ (omega arith, inl c)
  | inr (a, b, c) ↦ (omega arith, inr c)
]

stuck_lem :
    {s t : Semaphores}
    → Step s t
    → s.r_sem + s.w_sem + s.writing + s.reading + s.failures ≡ 1
    → 0 < s.failures
    → ⊥
stuck_lem (begin_write h) sum f = omega arith
stuck_lem (end_write h) sum f = omega arith
stuck_lem (begin_read h) sum f = omega arith
stuck_lem (end_read h) sum f = omega arith
stuck_lem (fail_read h) sum f = omega arith

-- Once a read has ended with 1, no call on the segment begins or ends any more: every later write and
-- read waits for ever.
pub failed_read_stops : {s t : Semaphores} → Reach s → 0 < s.failures → ¬ Step s t
failed_read_stops r f st = stuck_lem st (Reach-IsExclusive r).0 f
