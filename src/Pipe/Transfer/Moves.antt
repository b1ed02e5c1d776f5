-- ===== src/Pipe/Transfer/Moves.antt =====
-- What each step of send_item and of recv_item leads to (src/shared_memory/shared_memory.h).
use synergy_wrapper.Base.{
  ℕ, zero, suc, ◌+◌, ◌*◌, ◌%◌, ◌^◌, ◌≡◌, ◌≤◌, ◌<◌, inl, inr, refl, sym, ap, subst, Bool-cases, ltb,
  Option, none, some, Bytes, length, arith, true,
}
use synergy_wrapper.Pipe.Segment.{Segment, created, read_shared_memory, write_shared_memory, got}
use synergy_wrapper.Pipe.Transfer.{
  chunk_count, chunk_len, Sender, sending, sent, Receiver, first, Pipe, write_chunk, recv_next,
  read_chunk, received, is_reading, send_step, recv_step,
}
use synergy_wrapper.Pipe.Transfer.Chunks.{chunk_count_lem, chunk_len-IsBounded}
use synergy_wrapper.Pipe.Transfer.Stage.{loaded_segment, after, write_lem, read_lem}
use synergy_wrapper.Pipe.Transfer.Reading.{chunk_bytes, first_lem, rest_lem}

ltb-true : (a b : ℕ) → a < b → ltb a b ≡ true
ltb-true a b h = ground arith

module _ (item : Bytes) (len : ℕ) (l : length item ≡ len) (pos : 0 < len)
    (small : len < 2 ^ 64) where
  -- n steps after the start: i chunks are sent, and as many are read, or one fewer.
  pub data Stage (n : ℕ) : Pipe → Type 0 where
    emptied :
        (i : ℕ)
        → i ≤ chunk_count len
        → n ≡ 2 * i
        → Stage n (record { segment = created; sender = sending i; receiver = after item len i })
    loaded :
        (i : ℕ)
        → i < chunk_count len
        → n ≡ 2 * i + 1
        → Stage n (record {
          segment = loaded_segment item len i;
          sender = sending (suc i);
          receiver = after item len i;
        })
    last_loaded :
        (i : ℕ)
        → suc i ≡ chunk_count len
        → n ≡ 2 * i + 2
        → Stage n (record {
          segment = loaded_segment item len i;
          sender = sent;
          receiver = after item len i;
        })
    done :
        (i : ℕ)
        → i ≡ chunk_count len
        → n ≡ 2 * i + 1
        → Stage n (record { segment = created; sender = sent; receiver = after item len i })

  -- What a step of one end leads to from a stage, if it is not waiting.
  unfoldable pub Moves : ℕ → Option Pipe → Type 0
  Moves n none = Unit
  Moves n (some p) = Stage (suc n) p

  pub write_step :
      (i : ℕ) (r : Receiver)
      → i < chunk_count len
      → send_step item len (record { segment = created; sender = sending i; receiver = r })
        ≡ some
            (record { segment = loaded_segment item len i; sender = sending (suc i); receiver = r })
  unfolding send_step write_chunk
  write_step i r lt = rw (ltb-true i (chunk_count len) lt, write_lem item len i pos lt) refl

  pub end_step :
      (i : ℕ) (s : Segment) (r : Receiver)
      → i ≡ chunk_count len
      → send_step item len (record { segment = s; sender = sending i; receiver = r })
        ≡ some (record { segment = s; sender = sent; receiver = r })
  unfolding send_step
  end_step i s r e = ground arith

  wait_step :
      (i : ℕ) (r : Receiver)
      → suc i < chunk_count len
      → send_step item len
          (record { segment = loaded_segment item len i; sender = sending (suc i); receiver = r })
        ≡ none
  unfolding send_step write_chunk write_shared_memory loaded_segment
  wait_step i r lt = ground (arith, chunk_len-IsBounded len (suc i) pos lt)

  pub is_reading_lem : (i : ℕ) → i < chunk_count len → is_reading (after item len i) ≡ true
  unfolding is_reading after recv_next
  is_reading_lem zero lt = refl
  is_reading_lem (suc j) lt = ground (arith, chunk_count_lem len pos)

  chunk_step :
      (i : ℕ) (s : Sender)
      → i < chunk_count len
      → read_chunk
          (after item len i)
          (record { segment = loaded_segment item len i; sender = s; receiver = after item len i })
          (got
            (chunk_bytes item len l pos small i)
            (chunk_len len (chunk_count len) i)
            (chunk_count len)
            (i % 2 ^ 32)
            created)
        ≡ some (record { segment = created; sender = s; receiver = after item len (suc i) })
  unfolding received read_chunk after
  chunk_step zero s lt =
      ap
        (λ r.
          received r created
            (record { segment = loaded_segment item len 0; sender = s; receiver = first }))
        (first_lem item len l pos small)
  chunk_step (suc j) s lt = rest_lem item len l pos small j (suc j % 2 ^ 32) _ lt

  pub read_step :
      (i : ℕ) (s : Sender)
      → i < chunk_count len
      → recv_step
          (record { segment = loaded_segment item len i; sender = s; receiver = after item len i })
        ≡ some (record { segment = created; sender = s; receiver = after item len (suc i) })
  unfolding recv_step
  read_step i s lt = rw (is_reading_lem i lt, read_lem item len i pos lt l) (chunk_step i s lt)

  pub send_step-Moves : {n : ℕ} {p : Pipe} → Stage n p → Moves n (send_step item len p)
  unfolding Moves send_step
  send_step-Moves {n} (emptied i le e) = elim (Bool-cases (ltb i (chunk_count len))) [
    | inl lt ↦
        subst (Moves n) (sym (write_step i _ (ground arith)))
          (loaded i (ground arith) (omega arith))
    | inr ge ↦
        subst (Moves n) (sym (end_step i _ _ (ground arith))) (done i (ground arith) (omega arith))
  ]
  send_step-Moves {n} (loaded i lt e) = elim (Bool-cases (ltb (suc i) (chunk_count len))) [
    | inl more ↦ subst (Moves n) (sym (wait_step i _ (ground arith))) tt
    | inr ge ↦
        subst (Moves n) (sym (end_step (suc i) _ _ (ground arith)))
          (last_loaded i (ground arith) (omega arith))
  ]
  send_step-Moves (last_loaded i e k) = tt
  send_step-Moves (done i e k) = tt

  empty_step :
      (s : Sender) (r : Receiver)
      → recv_step (record { segment = created; sender = s; receiver = r }) ≡ none
  unfolding recv_step read_shared_memory read_chunk
  empty_step s r = ground arith

  pub recv_step-Moves : {n : ℕ} {p : Pipe} → Stage n p → Moves n (recv_step p)
  unfolding Moves
  recv_step-Moves {n} (emptied i le e) = subst (Moves n) (sym (empty_step _ _)) tt
  recv_step-Moves {n} (loaded i lt e) =
      subst (Moves n) (sym (read_step i _ lt)) (emptied (suc i) (omega arith) (omega arith))
  recv_step-Moves {n} (last_loaded i e k) =
      subst (Moves n) (sym (read_step i _ (omega arith))) (done (suc i) e (omega arith))
  recv_step-Moves {n} (done i e k) = subst (Moves n) (sym (empty_step _ _)) tt
