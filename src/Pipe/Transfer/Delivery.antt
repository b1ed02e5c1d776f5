-- ===== src/Pipe/Transfer/Delivery.antt =====
-- What every run of send_item and recv_item delivers (src/shared_memory/shared_memory.h).
use synergy_wrapper.Base.{
  ℕ, zero, suc, ◌+◌, ◌*◌, ◌^◌, ◌≡◌, ◌↔◌, ◌≤◌, ◌<◌, ◌⊎◌, inl, inr, refl, sym, ap, ◌∙◌, subst,
  Bool-cases, ltb, some, Bytes, length, ◌==◌, arith,
}
use synergy_wrapper.Pipe.Segment.{created, write_shared_memory}
use synergy_wrapper.Pipe.Transfer.{
  chunk_count, chunk_len, sending, sent, aborted, first, returned, Pipe, write_chunk, is_reading,
  send_step, Step, send, recv, Reach, opened, start, next,
}
use synergy_wrapper.Pipe.Transfer.Chunks.{chunk_count_lem, chunk_len-IsBounded}
use synergy_wrapper.Pipe.Transfer.Stage.{after}
use synergy_wrapper.Pipe.Transfer.Moves.{
  Stage, emptied, loaded, last_loaded, done, Moves, write_step, end_step, read_step, is_reading_lem,
  send_step-Moves, recv_step-Moves,
}
use synergy_wrapper.Pipe.Transfer.Reading.{after_last}

returned-injective : {xs ys : Bytes} {m n : ℕ} → returned xs m ≡ returned ys n → (xs ≡ ys) × (m ≡ n)
returned-injective e = (cc, cc)

module _ (item : Bytes) (len : ℕ) (l : length item ≡ len) (pos : 0 < len)
    (small : len < 2 ^ 64) where
  Step-Stage :
      {n : ℕ} {p q : Pipe}
      → Step item len p q
      → Stage item len l pos small n p
      → Stage item len l pos small (suc n) q
  unfolding Moves
  Step-Stage {n} (send e) st =
      subst (Moves item len l pos small n) e (send_step-Moves item len l pos small st)
  Step-Stage {n} (recv e) st =
      subst (Moves item len l pos small n) e (recv_step-Moves item len l pos small st)

  Reach-Stage : {n : ℕ} {p : Pipe} → Reach item len n p → Stage item len l pos small n p
  unfolding after
  Reach-Stage start = emptied 0 (omega arith) refl
  Reach-Stage (next r st) = Step-Stage st (Reach-Stage r)

  after_all : (i : ℕ) → i ≡ chunk_count len → after item len i ≡ returned item len
  after_all zero e = absurd (omega (arith, chunk_count_lem len pos))
  after_all (suc j) e = after_last item len l pos small j e

  returned_lem :
      (i m : ℕ) (buffer : Bytes)
      → i ≤ chunk_count len
      → after item len i ≡ returned buffer m
      → (buffer ≡ item) × (m ≡ len)
  unfolding is_reading
  returned_lem i m buffer le e = elim (Bool-cases (ltb i (chunk_count len))) [
    | inl lt ↦
        absurd
          (ground (arith, is_reading_lem item len l pos small i (ground arith), ap is_reading e))
    | inr ge ↦ returned-injective (sym e ∙ after_all i (ground arith))
  ]

  Stage-Returned :
      {n : ℕ} {p : Pipe} (buffer : Bytes) (m : ℕ)
      → Stage item len l pos small n p
      → p.receiver ≡ returned buffer m
      → (buffer ≡ item) × (m ≡ len)
  Stage-Returned buffer m (emptied i le e) r = returned_lem i m buffer le r
  Stage-Returned buffer m (loaded i lt e) r = returned_lem i m buffer (omega arith) r
  Stage-Returned buffer m (last_loaded i e k) r = returned_lem i m buffer (omega arith) r
  Stage-Returned buffer m (done i e k) r = returned_lem i m buffer (omega arith) r

  Stage-Progress :
      {n : ℕ} {p : Pipe}
      → Stage item len l pos small n p
      → (n ≤ 2 * chunk_count len + 1)
        × (((p.sender ≡ sent) × (p.receiver ≡ returned item len))
            ⊎ ((q : Pipe) × Step item len p q))
  Stage-Progress (emptied i le e) = elim (Bool-cases (ltb i (chunk_count len))) [
    | inl lt ↦ (omega arith, inr (_, send (write_step item len l pos small i _ (ground arith))))
    | inr ge ↦ (omega arith, inr (_, send (end_step item len l pos small i _ _ (ground arith))))
  ]
  Stage-Progress (loaded i lt e) =
      (omega arith, inr (_, recv (read_step item len l pos small i _ lt)))
  Stage-Progress (last_loaded i e k) =
      (omega arith, inr (_, recv (read_step item len l pos small i _ (omega arith))))
  Stage-Progress (done i e k) = (omega arith, inl (refl, after_all i e))

-- Where send_item sends an item that is not empty over a new pipe and recv_item reads from it, in any
-- order of their steps: an item that recv_item returns is the one that was sent, with its length.
pub recv_item-send_item :
    (item buffer : Bytes) (len m n : ℕ) (p : Pipe)
    → length item ≡ len
    → 0 < len
    → len < 2 ^ 64
    → Reach item len n p
    → p.receiver ≡ returned buffer m
    → (buffer ≡ item) × (m ≡ len)
recv_item-send_item item buffer len m n p l pos small r e =
    Stage-Returned item len l pos small buffer m (Reach-Stage item len l pos small r) e

-- Where send_item sends an item that is not empty over a new pipe and recv_item reads from it, in any
-- order of their steps: there are at most twice as many steps as chunks, and one; and as long as send_item
-- has not returned 0 and recv_item the item, one of the two can go on.
pub transfer_ends :
    (item : Bytes) (len n : ℕ) (p : Pipe)
    → length item ≡ len
    → 0 < len
    → len < 2 ^ 64
    → Reach item len n p
    → (n ≤ 2 * chunk_count len + 1)
      × (((p.sender ≡ sent) × (p.receiver ≡ returned item len)) ⊎ ((q : Pipe) × Step item len p q))
transfer_ends item len n p l pos small r =
    Stage-Progress item len l pos small (Reach-Stage item len l pos small r)

sender_lem : {p q : Pipe} → some p ≡ some q → p.sender ≡ q.sender
sender_lem e = cc

aborts :
    (item : Bytes) (len : ℕ)
    → len ≡ 0
    → send_step item len opened
      ≡ some (record { segment = created; sender = aborted; receiver = first })
unfolding send_step write_chunk chunk_count chunk_len write_shared_memory
aborts item len e = ground arith

goes_on :
    (item : Bytes) (len : ℕ) (p : Pipe)
    → 0 < len
    → send_step item len opened ≡ some p
    → p.sender ≡ sending 1
unfolding send_step write_chunk write_shared_memory
goes_on item len p pos e = ground (arith, chunk_count_lem len pos, chunk_len-IsBounded len 0 pos)

-- The first step of send_item on a new pipe fails the assertion of write_shared_memory for the length 0,
-- and for no other length.
pub send_step-Aborts :
    (item : Bytes) (len : ℕ)
    → (send_step item len opened
        ≡ some (record { segment = created; sender = aborted; receiver = first }))
      ↔ (len ≡ 0)
send_step-Aborts item len = (
  λ e. elim (Bool-cases (len == 0)) [
    | inl z ↦ ground arith
    | inr nz ↦ absurd (ground (arith, goes_on item len _ (ground arith) e))
  ],
  aborts item len,
)
