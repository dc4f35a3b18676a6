-- ===== src/Poller/BatchWriter/Flow.antt =====
-- internal/poller/batchWriterWorker.go: what becomes of the records, and in what order.
use mathlib.Core.List.{append-nil, append_assoc, Sublist, sublist-append_right}
use mathlib.Core.List.Sublist
use nmslite.Common.{
  false, subst, Bool, not, ◌&&◌, ◌||◌, ◌≤◌, length-append, ◌-◌, ◌*◌, ◌≡◌, refl, ap, ◌∙◌, inl, inr,
  ℤ, Option, none, some, List, [], ◌∷◌, ◌++◌, ltb, leb, length, take-append-drop, arith, Bool-cases,
}
use nmslite.Poller.BatchWriter.{
  BatchWriter, Tx, WriteError, Effect, Event, ctx_done, received, ticked, submit, sent, write_batch,
  written_by, after_write, flush_batch, flush, idle, receive, on_event, then_run, run,
}

-- No commit is carried out without the writer hearing of it.
abbrev pub AllAnswered : List (Event × Tx × ℤ) → Type 0
AllAnswered [] = Unit
AllAnswered ((e, tx, now) ∷ rest) = (tx.loses_answer ≡ false) × AllAnswered rest

module _ {M : Type 0} where
  -- Everything that the writer holds, oldest first.
  abbrev pub pending : BatchWriter M → List M
  pending bw = bw.requeue_buffer ++ (bw.current_batch ++ bw.submit_ch)

  -- An effect accounts for a batch: stored, kept for retry or dropped, in this order.
  abbrev Accounts : BatchWriter M → List M → Effect M → Type 0
  Accounts bw batch e =
      (e.stored ++ (e.writer.requeue_buffer ++ e.dropped) ≡ batch)
      × (e.writer.current_batch ≡ [])
      × (e.writer.submit_ch ≡ bw.submit_ch)

  after_write-Accounts :
      (now : ℤ) (bw : BatchWriter M) (batch : List M) (r : Option WriteError)
      → bw.requeue_buffer ≡ []
      → bw.current_batch ≡ []
      → Accounts bw batch (after_write now bw batch r)
  unfolding after_write
  after_write-Accounts now bw batch none h k = (rw h (append-nil batch), k, refl)
  after_write-Accounts now bw batch (some e) h k =
      ground (arith, take-append-drop (bw.batch_size * 10 - length bw.requeue_buffer) batch)

  flush_batch-Accounts :
      (tx : Tx) (now : ℤ) (bw : BatchWriter M) (batch : List M)
      → bw.current_batch ≡ batch
      → Accounts bw (bw.requeue_buffer ++ batch) (flush_batch tx now bw batch)
  unfolding flush_batch
  flush_batch-Accounts tx now bw [] h = (refl, h, refl)
  flush_batch-Accounts tx now bw (m ∷ ms) h =
      after_write-Accounts now (record bw { current_batch = []; requeue_buffer = [] })
        (bw.requeue_buffer ++ m ∷ ms) (write_batch tx (bw.requeue_buffer ++ m ∷ ms)) refl refl

  -- A flush empties the batch. The rows that it stores, those that it keeps for the next flush and
  -- those that it drops are together what was buffered, in the same order, whatever the database
  -- does.
  pub flush-Accounts :
      (tx : Tx) (now : ℤ) (bw : BatchWriter M)
      → Accounts bw (bw.requeue_buffer ++ bw.current_batch) (flush tx now bw)
  unfolding flush
  flush-Accounts tx now bw = flush_batch-Accounts tx now bw bw.current_batch refl

  -- Nothing is stored twice or out of order.
  abbrev InOrder : BatchWriter M → Effect M → Type 0
  InOrder bw e = Sublist (e.stored ++ pending e.writer) (pending bw)

  Accounts-InOrder :
      (bw : BatchWriter M) (e : Effect M)
      → Accounts bw (bw.requeue_buffer ++ bw.current_batch) e
      → InOrder bw e
  Accounts-InOrder bw e (h, k, l) =
      rw
        (
          k,
          l,
          ← append_assoc bw.requeue_buffer bw.current_batch bw.submit_ch,
          ← h,
          append_assoc e.stored (e.writer.requeue_buffer ++ e.dropped) bw.submit_ch,
          append_assoc e.writer.requeue_buffer e.dropped bw.submit_ch,
        )
        (Sublist.append (Sublist.refl e.stored) (
          Sublist.append (Sublist.refl e.writer.requeue_buffer) (sublist-append_right e.dropped _)))

  flush-InOrder : (tx : Tx) (now : ℤ) (bw : BatchWriter M) → InOrder bw (flush tx now bw)
  flush-InOrder tx now bw = Accounts-InOrder bw (flush tx now bw) (flush-Accounts tx now bw)

  pub pending-receive :
      (bw : BatchWriter M) (m : M) (ms : List M)
      → bw.submit_ch ≡ m ∷ ms
      → pending (record bw { submit_ch = ms; current_batch = bw.current_batch ++ m ∷ [] })
        ≡ pending bw
  pending-receive bw m ms h =
      ap (◌++◌ bw.requeue_buffer) (append_assoc bw.current_batch (m ∷ []) ms ∙ rw h)

  receive-InOrder :
      (tx : Tx) (now : ℤ) (bw : BatchWriter M) (ch : List M)
      → bw.submit_ch ≡ ch
      → InOrder bw (receive tx now bw ch)
  unfolding receive idle
  receive-InOrder tx now bw [] h = Sublist.refl _
  receive-InOrder tx now bw (m ∷ ms) h =
      let bw' : BatchWriter M = record bw {
        submit_ch = ms;
        current_batch = bw.current_batch ++ m ∷ [];
      } in
      let same : pending bw' ≡ pending bw = pending-receive bw m ms h in
      elim (Bool-cases (leb bw.batch_size (length bw'.current_batch))) [
        | inl e ↦ rw e (rw same at (flush-InOrder tx now bw'))
        | inr e ↦ rw e (rw same (Sublist.refl (pending bw)))
      ]

  on_event-InOrder :
      (e : Event) (tx : Tx) (now : ℤ) (bw : BatchWriter M) → InOrder bw (on_event e tx now bw)
  unfolding on_event idle
  on_event-InOrder ctx_done tx now bw = flush-InOrder tx now bw
  on_event-InOrder received tx now bw = receive-InOrder tx now bw bw.submit_ch refl
  on_event-InOrder ticked tx now bw = elim (Bool-cases (ltb 0 (length bw.current_batch))) [
    | inl e ↦ rw e (flush-InOrder tx now bw)
    | inr e ↦ rw e (Sublist.refl _)
  ]

  then_run-InOrder :
      (bw : BatchWriter M) (e later : Effect M)
      → InOrder bw e
      → InOrder e.writer later
      → InOrder bw (then_run e later)
  then_run-InOrder bw e later h k =
      rw (append_assoc e.stored later.stored (pending later.writer))
        (Sublist.trans (Sublist.append (Sublist.refl e.stored) k) h)

  run_later :
      (bw : BatchWriter M) (e : Event) (tx : Tx) (now : ℤ) (rest : List (Event × Tx × ℤ))
      → let first = on_event e tx now bw in
        InOrder first.writer (run first.writer rest)
        → InOrder bw (then_run first (run first.writer rest))
  run_later bw e tx now rest h =
      let first = on_event e tx now bw in
      then_run-InOrder bw first (run first.writer rest) (on_event-InOrder e tx now bw) h

  -- The rows whose commit succeeds as far as the writer knows, followed by the records still held.
  run-InOrder : (bw : BatchWriter M) (events : List (Event × Tx × ℤ)) → InOrder bw (run bw events)
  unfolding run idle
  run-InOrder bw [] = Sublist.refl _
  run-InOrder bw ((ctx_done, tx, now) ∷ rest) = on_event-InOrder ctx_done tx now bw
  run-InOrder bw ((received, tx, now) ∷ rest) =
      run_later bw received tx now rest (run-InOrder (on_event received tx now bw).writer rest)
  run-InOrder bw ((ticked, tx, now) ∷ rest) =
      run_later bw ticked tx now rest (run-InOrder (on_event ticked tx now bw).writer rest)

  written-after_write :
      (tx : Tx) (now : ℤ) (bw : BatchWriter M) (batch : List M) (r : Option WriteError)
      → tx.loses_answer ≡ false
      → written_by tx r batch (after_write now bw batch r).written
        ≡ (after_write now bw batch r).stored
  unfolding after_write
  written-after_write tx now bw batch none h = refl
  written-after_write tx now bw batch (some e) h = ground (arith, h)

  written-flush :
      (tx : Tx) (now : ℤ) (bw : BatchWriter M) (batch : List M)
      → tx.loses_answer ≡ false
      → (flush_batch tx now bw batch).written ≡ (flush_batch tx now bw batch).stored
  unfolding flush_batch
  written-flush tx now bw [] h = refl
  written-flush tx now bw (m ∷ ms) h =
      let batch = bw.requeue_buffer ++ m ∷ ms in
      written-after_write tx now (record bw { current_batch = []; requeue_buffer = [] }) batch
        (write_batch tx batch) h

  written-receive :
      (tx : Tx) (now : ℤ) (bw : BatchWriter M) (ch : List M)
      → tx.loses_answer ≡ false
      → (receive tx now bw ch).written ≡ (receive tx now bw ch).stored
  unfolding receive flush idle
  written-receive tx now bw [] h = refl
  written-receive tx now bw (m ∷ ms) h =
      elim (Bool-cases (leb bw.batch_size (length (bw.current_batch ++ m ∷ [])))) [
        | inl e ↦ rw e (
            written-flush tx now
              (record bw { submit_ch = ms; current_batch = bw.current_batch ++ m ∷ [] })
              (bw.current_batch ++ m ∷ []) h)
        | inr e ↦ rw e refl
      ]

  written-on_event :
      (e : Event) (tx : Tx) (now : ℤ) (bw : BatchWriter M)
      → tx.loses_answer ≡ false
      → (on_event e tx now bw).written ≡ (on_event e tx now bw).stored
  unfolding on_event flush idle
  written-on_event ctx_done tx now bw h = written-flush tx now bw bw.current_batch h
  written-on_event received tx now bw h = written-receive tx now bw bw.submit_ch h
  written-on_event ticked tx now bw h = elim (Bool-cases (ltb 0 (length bw.current_batch))) [
    | inl e ↦ rw e (written-flush tx now bw bw.current_batch h)
    | inr e ↦ rw e refl
  ]

  written-run :
      (bw : BatchWriter M) (events : List (Event × Tx × ℤ))
      → AllAnswered events
      → (run bw events).written ≡ (run bw events).stored
  unfolding run idle
  written-run bw [] h = refl
  written-run bw ((ctx_done, tx, now) ∷ rest) h = written-on_event ctx_done tx now bw h.0
  written-run bw ((received, tx, now) ∷ rest) h =
      rw
        (
          written-on_event received tx now bw h.0,
          written-run (on_event received tx now bw).writer rest h.1,
        )
        refl
  written-run bw ((ticked, tx, now) ∷ rest) h =
      rw
        (
          written-on_event ticked tx now bw h.0,
          written-run (on_event ticked tx now bw).writer rest h.1,
        )
        refl

  -- Where the writer hears of every commit that is carried out: whatever events Run handles and whatever
  -- else the database does, the rows that the table gets, followed by the records still held, are a
  -- sublist of the records held before, so that none is written twice, made up or moved past another.
  pub run-Sublist :
      (bw : BatchWriter M) (events : List (Event × Tx × ℤ))
      → AllAnswered events
      → Sublist ((run bw events).written ++ pending (run bw events).writer) (pending bw)
  run-Sublist bw events h = rw (written-run bw events h) (run-InOrder bw events)

  -- A record that Submit accepts is queued behind everything that the writer holds, and the channel
  -- stays within its capacity.
  submit-pending :
      (ctx_done_now pick : Bool) (bw bw' : BatchWriter M) (metric : M)
      → submit ctx_done_now pick bw metric ≡ sent bw'
      → (pending bw' ≡ pending bw ++ metric ∷ []) × (length bw'.submit_ch ≤ bw'.submit_cap)
  unfolding submit
  submit-pending ctx_done_now pick bw bw' metric h =
      elim (Bool-cases (ltb (length bw.submit_ch) bw.submit_cap && (not ctx_done_now || pick))) [
        | inl e ↦
            let queued : BatchWriter M = record bw { submit_ch = bw.submit_ch ++ metric ∷ [] } in
            let same : queued ≡ bw' = ground (arith, rw e at h) in
            let room : length (bw.submit_ch ++ metric ∷ []) ≤ bw.submit_cap =
              ground (arith, e, length-append bw.submit_ch (metric ∷ [])) in
            subst
              (λ (t : BatchWriter M).
                (pending t ≡ pending bw ++ metric ∷ []) × (length t.submit_ch ≤ t.submit_cap))
              same
              (
                rw (append_assoc bw.requeue_buffer _ _, append_assoc bw.current_batch _ _) refl,
                room,
              )
        | inr e ↦ absurd (ground (arith, rw e at h))
      ]
