-- ===== src/Poller/BatchWriter.antt =====
-- internal/poller/batchWriterWorker.go: metrics are queued, batched and written by COPY.
-- A method returns the new writer. What the database does is an argument (`Tx`); the rows that a
-- flush stores and those that it gives up (its log lines count them) are part of its result.
-- The writer only moves records, so their type is a parameter. `BatchSize` is not negative: Go
-- panics in `make` if it is.
pub mod Flow
pub mod Conservation
pub mod Bounds
pub mod Failures
use nmslite.Common.{
  ℕ, ◌+◌, ◌-◌, ◌*◌, ℤ, Bool, not, ◌&&◌, ◌||◌, Option, none, some, List, [], ◌∷◌, ◌++◌, length, take,
  drop, ltb, leb, ◌==◌, if◌then◌else◌,
}

-- The results of the calls of one transaction: Begin, CopyFrom (the count, or an error), Commit; and
-- whether a commit that reports an error has been carried out, its answer being lost.
pub record Tx : Type 0 where
  pub begins : Bool
  pub copied : Option ℕ
  pub commits : Bool
  pub loses_answer : Bool

pub data WriteError : Type 0 where
  begin_failed copy_failed count_mismatch commit_failed : WriteError

pub record BatchWriter (M : Type 0) : Type 0 where
  pub batch_size : ℕ
  pub submit_ch : List M
  pub submit_cap : ℕ
  pub requeue_buffer : List M
  pub current_batch : List M
  pub last_flush : ℤ
  pub consecutive_failures : ℕ
  pub max_consecutive_fails : ℕ

-- What a call does besides returning the writer: the rows whose commit has succeeded as far as the
-- writer knows, those that the table has got, and those that the writer gives up.
pub record Effect (M : Type 0) : Type 0 where
  pub writer : BatchWriter M
  pub error : Option WriteError
  pub stored : List M
  pub written : List M
  pub dropped : List M

pub data SubmitResult (M : Type 0) : Type 0 where
  sent : BatchWriter M → SubmitResult M
  cancelled : SubmitResult M
  blocked : SubmitResult M

-- The default stands in for a size of 0 in the capacities only: the methods read `cfg`.
pub new_batch_writer : (M : Type 0) → ℕ → ℤ → BatchWriter M
new_batch_writer M cfg_batch_size now = record {
  batch_size = cfg_batch_size;
  submit_ch = [];
  submit_cap = (if cfg_batch_size == 0 then 1000 else cfg_batch_size) * 2;
  requeue_buffer = [];
  current_batch = [];
  last_flush = now;
  consecutive_failures = 0;
  max_consecutive_fails = 5;
}

module _ {M : Type 0} where
  -- `select` on the channel and the context; `pick` is Go's choice where both are ready.
  unfoldable pub submit : Bool → Bool → BatchWriter M → M → SubmitResult M
  submit ctx_done pick bw metric =
      if ltb (length bw.submit_ch) bw.submit_cap && (not ctx_done || pick)
      then sent (record bw { submit_ch = bw.submit_ch ++ metric ∷ [] })
      else if ctx_done
      then cancelled
      else blocked

  -- `none` is success.
  unfoldable pub write_batch : Tx → List M → Option WriteError
  write_batch tx [] = none
  write_batch tx (m ∷ ms) = if not tx.begins then some begin_failed else elim tx.copied [
    | none ↦ some copy_failed
    | some count ↦
        if not (count == length (m ∷ ms))
        then some count_mismatch
        else if tx.commits
        then none
        else some commit_failed
  ]

  -- The buffer takes what fits; the rest is dropped.
  unfoldable pub requeue : BatchWriter M → List M → BatchWriter M × List M
  requeue bw batch =
      let available = bw.batch_size * 10 - length bw.requeue_buffer in
      if available == 0 then (bw, batch) else (
        record bw { requeue_buffer = bw.requeue_buffer ++ take available batch },
        drop available batch,
      )

  -- The end of `flush`, by the outcome of the write.
  unfoldable pub after_write : ℤ → BatchWriter M → List M → Option WriteError → Effect M
  unfolding requeue
  after_write now bw batch none = record {
    writer = record bw { consecutive_failures = 0; last_flush = now };
    error = none;
    stored = batch;
    written = batch;
    dropped = [];
  }
  after_write now bw batch (some e) =
      let failures = bw.consecutive_failures + 1 in
      let failed : BatchWriter M = record bw { consecutive_failures = failures } in
      if ltb failures bw.max_consecutive_fails
      then (let (bw', rest) = requeue failed batch in
          record { writer = bw'; error = some e; stored = []; written = []; dropped = rest })
      else record { writer = failed; error = some e; stored = []; written = []; dropped = batch }

  -- A commit whose answer is lost has written the batch, though the writer takes it for failed.
  abbrev pub written_by : Tx → Option WriteError → List M → List M → List M
  written_by tx (some commit_failed) batch written = if tx.loses_answer then batch else []
  written_by tx _ batch written = written

  unfoldable pub flush_batch : Tx → ℤ → BatchWriter M → List M → Effect M
  unfolding after_write
  flush_batch tx now bw [] = record {
    writer = bw;
    error = none;
    stored = [];
    written = [];
    dropped = [];
  }
  flush_batch tx now bw (m ∷ ms) =
      let batch = bw.requeue_buffer ++ m ∷ ms in
      let outcome = write_batch tx batch in
      let e : Effect M =
        after_write now (record bw { current_batch = []; requeue_buffer = [] }) batch outcome in
      record e { written = written_by tx outcome batch e.written }

  unfoldable pub flush : Tx → ℤ → BatchWriter M → Effect M
  unfolding flush_batch
  flush tx now bw = flush_batch tx now bw bw.current_batch

-- The cases of the `select` in Run.
pub data Event : Type 0 where
  ctx_done received ticked : Event

module _ {M : Type 0} where
  unfoldable pub idle : BatchWriter M → Effect M
  idle bw = record { writer = bw; error = none; stored = []; written = []; dropped = [] }

  -- One message of `submitCh`; an empty channel is not ready.
  unfoldable pub receive : Tx → ℤ → BatchWriter M → List M → Effect M
  unfolding flush idle
  receive tx now bw [] = idle bw
  receive tx now bw (m ∷ ms) =
      let bw' : BatchWriter M = record bw {
        submit_ch = ms;
        current_batch = bw.current_batch ++ m ∷ [];
      } in
      if leb bw.batch_size (length bw'.current_batch) then flush tx now bw' else idle bw'

  unfoldable pub on_event : Event → Tx → ℤ → BatchWriter M → Effect M
  unfolding receive
  on_event ctx_done tx now bw = flush tx now bw
  on_event received tx now bw = receive tx now bw bw.submit_ch
  on_event ticked tx now bw = if ltb 0 (length bw.current_batch) then flush tx now bw else idle bw

  -- `then_run` adds what later rounds store and drop.
  abbrev then_run : Effect M → Effect M → Effect M
  then_run e later = record {
    writer = later.writer;
    error = later.error;
    stored = e.stored ++ later.stored;
    written = e.written ++ later.written;
    dropped = e.dropped ++ later.dropped;
  }

  -- Run, over the events that its `select` takes; it returns at the first `ctx_done`.
  unfoldable pub run : BatchWriter M → List (Event × Tx × ℤ) → Effect M
  unfolding idle
  run bw [] = idle bw
  run bw ((ctx_done, tx, now) ∷ rest) = on_event ctx_done tx now bw
  run bw ((e, tx, now) ∷ rest) =
      let first = on_event e tx now bw in then_run first (run first.writer rest)
