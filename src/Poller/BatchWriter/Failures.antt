-- ===== src/Poller/BatchWriter/Failures.antt =====
-- internal/poller/batchWriterWorker.go: failed writes, and what the writer does with them.
use nmslite.Common.{
  ◌+◌, ◌-◌, ◌*◌, ◌≡◌, ◌≢◌, ◌↔◌, refl, inl, inr, ℤ, true, false, Option, none, some, List, [], ◌∷◌,
  ◌++◌, drop, ltb, length, arith, Bool-cases, if◌then◌else◌,
}
use nmslite.Poller.BatchWriter.{
  BatchWriter, Tx, WriteError, Event, ctx_done, received, ticked, write_batch, requeue, after_write,
  flush_batch, flush, idle, receive, on_event, run, new_batch_writer,
}

module _ {M : Type 0} where
  drop-zero : (xs : List M) → drop 0 xs ≡ xs
  drop-zero xs = refl

  -- A batch is stored exactly when the transaction begins, COPY counts every row and the commit
  -- succeeds.
  write_batch-eq-none_iff :
      (tx : Tx) (m : M) (ms : List M)
      → (write_batch tx (m ∷ ms) ≡ none)
        ↔ ((tx.begins ≡ true) × (tx.copied ≡ some (length (m ∷ ms))) × (tx.commits ≡ true))
  unfolding write_batch
  write_batch-eq-none_iff tx m ms = (λ h. ground arith, λ h. ground arith)

  requeue_lem :
      (bw : BatchWriter M) (batch : List M)
      → bw.requeue_buffer ≡ []
      → ((requeue bw batch).0.consecutive_failures ≡ bw.consecutive_failures)
        × ((requeue bw batch).1 ≡ drop (bw.batch_size * 10) batch)
  unfolding requeue
  requeue_lem bw batch h =
      let room : bw.batch_size * 10 - length bw.requeue_buffer ≡ bw.batch_size * 10 =
        rw h (omega arith) in
      rw room (ground (arith, drop-zero batch))

  after_write_failure :
      (now : ℤ) (bw : BatchWriter M) (batch : List M) (r : Option WriteError)
      → bw.requeue_buffer ≡ []
      → r ≢ none
      → let e = after_write now bw batch r in
        (e.stored ≡ [])
        × (e.writer.consecutive_failures ≡ bw.consecutive_failures + 1)
        × (e.dropped ≡ (
            if ltb (bw.consecutive_failures + 1) bw.max_consecutive_fails
            then drop (bw.batch_size * 10) batch
            else batch))
  unfolding after_write
  after_write_failure now bw batch none h f = absurd (f refl)
  after_write_failure now bw batch (some x) h f =
      let kept =
        requeue_lem (record bw { consecutive_failures = bw.consecutive_failures + 1 }) batch h in
      elim (Bool-cases (ltb (bw.consecutive_failures + 1) bw.max_consecutive_fails)) [
        | inl e ↦ rw e (refl, kept.0, kept.1)
        | inr e ↦ rw e (refl, refl, refl)
      ]

  -- A flush of a batch that is not empty, when its write fails, stores nothing and counts one more
  -- failure in a row. Below `max_consecutive_fails` failures it drops only what does not fit ten
  -- batches, counting what waited for a retry first, and from then on it drops everything.
  flush_failure :
      (tx : Tx) (now : ℤ) (bw : BatchWriter M) (m : M) (ms : List M)
      → bw.current_batch ≡ m ∷ ms
      → write_batch tx (bw.requeue_buffer ++ m ∷ ms) ≢ none
      → ((flush tx now bw).stored ≡ [])
        × ((flush tx now bw).writer.consecutive_failures ≡ bw.consecutive_failures + 1)
        × ((flush tx now bw).dropped ≡ (
            if ltb (bw.consecutive_failures + 1) bw.max_consecutive_fails
            then drop (bw.batch_size * 10) (bw.requeue_buffer ++ m ∷ ms)
            else bw.requeue_buffer ++ m ∷ ms))
  unfolding flush flush_batch
  flush_failure tx now bw m ms h f =
      rw (h, flush_batch)
        (after_write_failure now (record bw { current_batch = []; requeue_buffer = [] })
          (bw.requeue_buffer ++ m ∷ ms) (write_batch tx (bw.requeue_buffer ++ m ∷ ms)) refl f)

  flush_batch-empty :
      (tx : Tx) (now : ℤ) (bw : BatchWriter M) (batch : List M)
      → batch ≡ []
      → flush_batch tx now bw batch ≡ idle bw
  unfolding flush_batch idle
  flush_batch-empty tx now bw batch h = rw h

  receive-empty :
      (tx : Tx) (now : ℤ) (bw : BatchWriter M) (ch : List M)
      → ch ≡ []
      → receive tx now bw ch ≡ idle bw
  unfolding receive
  receive-empty tx now bw ch h = rw h

  -- When the batch and the channel are empty, no event makes Run write anything, whatever the
  -- database would do and also not at shutdown: what waits for a retry stays in memory.
  pub run-stranded :
      (bw : BatchWriter M) (events : List (Event × Tx × ℤ))
      → bw.current_batch ≡ []
      → bw.submit_ch ≡ []
      → ((run bw events).stored ≡ []) × ((run bw events).writer ≡ bw)
  unfolding run idle on_event flush
  run-stranded bw [] h k = (refl, refl)
  run-stranded bw ((ctx_done, tx, now) ∷ rest) h k =
      rw (flush_batch-empty tx now bw bw.current_batch h) (refl, refl)
  run-stranded bw ((received, tx, now) ∷ rest) h k =
      rw (receive-empty tx now bw bw.submit_ch k) (run-stranded bw rest h k)
  run-stranded bw ((ticked, tx, now) ∷ rest) h k =
      let e : ltb 0 (length bw.current_batch) ≡ false = rw h in rw e (run-stranded bw rest h k)

-- A writer configured with batch size 0 keeps nothing for a retry: the capacity of 10000 that its
-- constructor reserves is never used, and a failed batch is dropped whole.
pub new_batch_writer-requeue :
    (M : Type 0) (now : ℤ) (batch : List M)
    → requeue (new_batch_writer M 0 now) batch ≡ (new_batch_writer M 0 now, batch)
unfolding requeue new_batch_writer
new_batch_writer-requeue M now batch = refl
