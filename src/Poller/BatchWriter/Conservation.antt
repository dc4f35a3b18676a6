-- ===== src/Poller/BatchWriter/Conservation.antt =====
-- internal/poller/batchWriterWorker.go: no record disappears.
use nmslite.Common.{
  ℕ, ◌+◌, ◌≡◌, refl, ap, inl, inr, ℤ, List, [], ◌∷◌, ◌++◌, ltb, leb, length, total, total-append,
  arith, Bool-cases,
}
use nmslite.Poller.BatchWriter.Flow.{pending, pending-receive, flush-Accounts}
use nmslite.Poller.BatchWriter.{
  BatchWriter, Tx, Effect, Event, ctx_done, received, ticked, flush, idle, receive, on_event,
  then_run, run,
}
use nmslite.Poller.BatchWriter.Flow.{pending, flush-Accounts, pending-receive}

module _ {M : Type 0} where
  -- Nothing disappears: what was held is stored, dropped or still held.
  abbrev Conserves : BatchWriter M → Effect M → Type 0
  Conserves bw e =
      (w : M → ℕ)
      → total w (pending bw) ≡ total w e.stored + total w e.dropped + total w (pending e.writer)

  total-pending :
      (w : M → ℕ) (bw : BatchWriter M)
      → total w (pending bw)
        ≡ total w bw.requeue_buffer + total w bw.current_batch + total w bw.submit_ch
  total-pending w bw = omega (
    arith,
    total-append w bw.requeue_buffer (bw.current_batch ++ bw.submit_ch),
    total-append w bw.current_batch bw.submit_ch,
  )

  flush-Conserves : (tx : Tx) (now : ℤ) (bw : BatchWriter M) → Conserves bw (flush tx now bw)
  flush-Conserves tx now bw w =
      let e = flush tx now bw in
      let (h, k, l) = flush-Accounts tx now bw in
      omega (
        arith,
        ap (total w) h,
        ap (total w) k,
        ap (total w) l,
        total-append w e.stored (e.writer.requeue_buffer ++ e.dropped),
        total-append w e.writer.requeue_buffer e.dropped,
        total-append w bw.requeue_buffer bw.current_batch,
        total-pending w bw,
        total-pending w e.writer,
      )

  receive-Conserves :
      (tx : Tx) (now : ℤ) (bw : BatchWriter M) (ch : List M)
      → bw.submit_ch ≡ ch
      → Conserves bw (receive tx now bw ch)
  unfolding receive idle
  receive-Conserves tx now bw [] h = λ w. omega arith
  receive-Conserves tx now bw (m ∷ ms) h =
      let bw' : BatchWriter M = record bw {
        submit_ch = ms;
        current_batch = bw.current_batch ++ m ∷ [];
      } in
      let same : pending bw' ≡ pending bw = pending-receive bw m ms h in
      elim (Bool-cases (leb bw.batch_size (length bw'.current_batch))) [
        | inl e ↦ rw e (λ w. omega (arith, ap (total w) same, flush-Conserves tx now bw' w))
        | inr e ↦ rw e (λ w. omega (arith, ap (total w) same))
      ]

  on_event-Conserves :
      (e : Event) (tx : Tx) (now : ℤ) (bw : BatchWriter M) → Conserves bw (on_event e tx now bw)
  unfolding on_event idle
  on_event-Conserves ctx_done tx now bw = flush-Conserves tx now bw
  on_event-Conserves received tx now bw = receive-Conserves tx now bw bw.submit_ch refl
  on_event-Conserves ticked tx now bw = elim (Bool-cases (ltb 0 (length bw.current_batch))) [
    | inl e ↦ rw e (flush-Conserves tx now bw)
    | inr e ↦ rw e (λ w. omega arith)
  ]

  run_later-Conserves :
      (bw : BatchWriter M) (e : Event) (tx : Tx) (now : ℤ) (later : Effect M)
      → Conserves (on_event e tx now bw).writer later
      → Conserves bw (then_run (on_event e tx now bw) later)
  run_later-Conserves bw e tx now later h w =
      let first = on_event e tx now bw in
      omega (
        arith,
        on_event-Conserves e tx now bw w,
        h w,
        total-append w first.stored later.stored,
        total-append w first.dropped later.dropped,
      )

  -- Whatever events Run handles and whatever the database does, every record held before is stored
  -- (by a commit that reports success), dropped or still held afterwards, as often as it was held
  -- (weighed by any `w`).
  pub run-Conserves :
      (bw : BatchWriter M) (events : List (Event × Tx × ℤ)) (w : M → ℕ)
      → total w (pending bw)
        ≡ total w (run bw events).stored
          + total w (run bw events).dropped
          + total w (pending (run bw events).writer)
  unfolding run idle
  run-Conserves bw [] = λ w. omega arith
  run-Conserves bw ((ctx_done, tx, now) ∷ rest) = on_event-Conserves ctx_done tx now bw
  run-Conserves bw ((received, tx, now) ∷ rest) =
      run_later-Conserves bw received tx now (run (on_event received tx now bw).writer rest)
        (run-Conserves (on_event received tx now bw).writer rest)
  run-Conserves bw ((ticked, tx, now) ∷ rest) =
      run_later-Conserves bw ticked tx now (run (on_event ticked tx now bw).writer rest)
        (run-Conserves (on_event ticked tx now bw).writer rest)
