-- ===== src/Poller/BatchWriter/Bounds.antt =====
-- internal/poller/batchWriterWorker.go: the sizes of the batch and of the retry buffer.
use nmslite.Common.{
  ◌-◌, ◌*◌, ◌≤◌, ◌≡◌, refl, inl, inr, ℤ, Option, none, some, List, [], ◌∷◌, ◌++◌, ltb, leb, length,
  length-take, arith, Bool-cases,
}
use nmslite.Poller.BatchWriter.{
  BatchWriter, Tx, WriteError, Event, ctx_done, received, ticked, write_batch, after_write,
  flush_batch, flush, idle, receive, on_event, run,
}

-- Between two events the batch is below its limit, and the retry buffer holds ten batches at most.
pub record IsBounded {M : Type 0} (bw : BatchWriter M) : Type 0 where
  pub batch : length bw.current_batch ≤ bw.batch_size - 1
  pub buffer : length bw.requeue_buffer ≤ bw.batch_size * 10

module _ {M : Type 0} where
  after_write-IsBounded :
      (now : ℤ) (bw : BatchWriter M) (batch : List M) (r : Option WriteError)
      → bw.requeue_buffer ≡ []
      → bw.current_batch ≡ []
      → IsBounded (after_write now bw batch r).writer
  unfolding after_write
  after_write-IsBounded now bw batch none h k = ground (arith)
  after_write-IsBounded now bw batch (some e) h k =
      ground (arith, length-take (bw.batch_size * 10 - length bw.requeue_buffer) batch)

  flush_batch-IsBounded :
      (tx : Tx) (now : ℤ) (bw : BatchWriter M) (batch : List M)
      → length bw.requeue_buffer ≤ bw.batch_size * 10
      → bw.current_batch ≡ batch
      → IsBounded (flush_batch tx now bw batch).writer
  unfolding flush_batch
  flush_batch-IsBounded tx now bw [] h k = record { batch = rw k (omega arith); buffer = h }
  flush_batch-IsBounded tx now bw (m ∷ ms) h k =
      after_write-IsBounded now (record bw { current_batch = []; requeue_buffer = [] })
        (bw.requeue_buffer ++ m ∷ ms) (write_batch tx (bw.requeue_buffer ++ m ∷ ms)) refl refl

  flush-IsBounded :
      (tx : Tx) (now : ℤ) (bw : BatchWriter M)
      → length bw.requeue_buffer ≤ bw.batch_size * 10
      → IsBounded (flush tx now bw).writer
  unfolding flush
  flush-IsBounded tx now bw h = flush_batch-IsBounded tx now bw bw.current_batch h refl

  receive-IsBounded :
      (tx : Tx) (now : ℤ) (bw : BatchWriter M) (ch : List M)
      → IsBounded bw
      → IsBounded (receive tx now bw ch).writer
  unfolding receive idle
  receive-IsBounded tx now bw [] v = v
  receive-IsBounded tx now bw (m ∷ ms) v =
      let bw' : BatchWriter M = record bw {
        submit_ch = ms;
        current_batch = bw.current_batch ++ m ∷ [];
      } in
      elim (Bool-cases (leb bw.batch_size (length bw'.current_batch))) [
        | inl e ↦ rw e (flush-IsBounded tx now bw' v.buffer)
        | inr e ↦ rw e (record { batch = ground (arith, e); buffer = v.buffer })
      ]

  on_event-IsBounded :
      (e : Event) (tx : Tx) (now : ℤ) (bw : BatchWriter M)
      → IsBounded bw
      → IsBounded (on_event e tx now bw).writer
  unfolding on_event idle
  on_event-IsBounded ctx_done tx now bw v = flush-IsBounded tx now bw v.buffer
  on_event-IsBounded received tx now bw v = receive-IsBounded tx now bw bw.submit_ch v
  on_event-IsBounded ticked tx now bw v = elim (Bool-cases (ltb 0 (length bw.current_batch))) [
    | inl e ↦ rw e (flush-IsBounded tx now bw v.buffer)
    | inr e ↦ rw e v
  ]

  -- From a bounded writer, whatever events Run handles and whatever the database does, the batch
  -- stays below the batch size (empty, if that is 0) and the retry buffer within ten times it.
  pub run-IsBounded :
      (bw : BatchWriter M) (events : List (Event × Tx × ℤ))
      → IsBounded bw
      → IsBounded (run bw events).writer
  unfolding run idle
  run-IsBounded bw [] v = v
  run-IsBounded bw ((ctx_done, tx, now) ∷ rest) v = on_event-IsBounded ctx_done tx now bw v
  run-IsBounded bw ((received, tx, now) ∷ rest) v =
      run-IsBounded (on_event received tx now bw).writer rest
        (on_event-IsBounded received tx now bw v)
  run-IsBounded bw ((ticked, tx, now) ∷ rest) v =
      run-IsBounded (on_event ticked tx now bw).writer rest (on_event-IsBounded ticked tx now bw v)
