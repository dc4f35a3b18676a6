-- ===== src/Poller/Tests/Records.antt =====
-- internal/poller/batchWriterWorker.go and the priority queue of scheduler.go on small inputs.
use mathlib.Core.List.{Sublist}
use nmslite.Common.{
  ℤ, ℕ, ◌+◌, ◌≡◌, refl, pos, true, false, some, List, [], ◌∷◌, ◌++◌, length, total, arith,
}
use nmslite.Poller.BatchWriter.{
  BatchWriter, Tx, Event, ctx_done, received, ticked, write_batch, requeue, after_write,
  flush_batch, flush, idle, receive, on_event, run, new_batch_writer,
}
use nmslite.Poller.BatchWriter.Flow.{pending, run-Sublist}
use nmslite.Poller.BatchWriter.Conservation.{run-Conserves}
use nmslite.Poller.BatchWriter.Bounds.{IsBounded, run-IsBounded}
use nmslite.Poller.BatchWriter.Failures.{run-stranded, new_batch_writer-requeue}
use nmslite.Poller.Queue.{HeapItem, PriorityQueue, push, pop}
use nmslite.Poller.Queue.Order.{IsHeap}
use nmslite.Poller.Queue.Up.{push-IsHeap, length-push}
use nmslite.Poller.Queue.Down.{Popped, pop-Popped}

abbrev works : Tx
works = record { begins = true; copied = some 2; commits = true; loses_answer = false }

abbrev miscounts : Tx
miscounts = record { begins = true; copied = some 5; commits = true; loses_answer = false }

abbrev holding : List ℕ → List ℕ → List ℕ → BatchWriter ℕ
holding waiting batch queued = record {
  batch_size = 2;
  submit_ch = queued;
  submit_cap = 4;
  requeue_buffer = waiting;
  current_batch = batch;
  last_flush = pos 0;
  consecutive_failures = 0;
  max_consecutive_fails = 5;
}

abbrev busy : BatchWriter ℕ
busy = holding [] (11 ∷ []) (12 ∷ 13 ∷ [])

abbrev events : List (Event × Tx × ℤ)
events = (received, works, pos 1) ∷ (received, works, pos 2) ∷ (ctx_done, miscounts, pos 3) ∷ []

-- Two records are stored by the batch, the third is requeued when the last flush fails.
run_result :
    ((run busy events).stored ≡ 11 ∷ 12 ∷ []) × ((run busy events).writer.requeue_buffer ≡ 13 ∷ [])
unfolding run on_event receive flush flush_batch after_write requeue write_batch idle
run_result = (refl, refl)

run-Sublist_example :
    Sublist ((run busy events).written ++ pending (run busy events).writer) (pending busy)
run-Sublist_example = run-Sublist busy events (refl, (refl, (refl, tt)))

-- A commit whose answer is lost: the row is queued again, and written twice.
abbrev loses : Tx
loses = record { begins = true; copied = some 1; commits = false; loses_answer = true }

abbrev batch_of_one : BatchWriter ℕ
batch_of_one = record (holding [] [] (11 ∷ 12 ∷ [])) { batch_size = 1 }

written_twice :
    (run batch_of_one ((received, loses, pos 1) ∷ (received, works, pos 2) ∷ [])).written
    ≡ 11 ∷ 11 ∷ 12 ∷ []
unfolding run on_event receive flush flush_batch after_write requeue write_batch idle
written_twice = refl

abbrev one : ℕ → ℕ
one m = 1

run-Conserves_example :
    total one (pending busy)
    ≡ total one (run busy events).stored
      + total one (run busy events).dropped
      + total one (pending (run busy events).writer)
run-Conserves_example = run-Conserves busy events one

busy-IsBounded : IsBounded busy
busy-IsBounded = record { batch = omega arith; buffer = omega arith }

run-IsBounded_example : IsBounded (run busy events).writer
run-IsBounded_example = run-IsBounded busy events busy-IsBounded

abbrev stranded : BatchWriter ℕ
stranded = holding (10 ∷ []) [] []

run-stranded_example :
    ((run stranded ((ticked, works, pos 1) ∷ (ctx_done, works, pos 2) ∷ [])).stored ≡ [])
    × ((run stranded ((ticked, works, pos 1) ∷ (ctx_done, works, pos 2) ∷ [])).writer ≡ stranded)
run-stranded_example =
    run-stranded stranded ((ticked, works, pos 1) ∷ (ctx_done, works, pos 2) ∷ []) refl refl

new_batch_writer-requeue_example :
    requeue (new_batch_writer ℕ 0 (pos 0)) (11 ∷ []) ≡ (new_batch_writer ℕ 0 (pos 0), 11 ∷ [])
new_batch_writer-requeue_example = new_batch_writer-requeue ℕ (pos 0) (11 ∷ [])

abbrev item : ℕ → ℕ → HeapItem
item id due = record { monitor_id = id; next_poll_deadline = pos due }

abbrev queue : PriorityQueue
queue = push (push [] (item 2 9)) (item 1 5)

empty-IsHeap : IsHeap []
empty-IsHeap c p q = absurd (omega arith)

queue-IsHeap : IsHeap queue
queue-IsHeap = push-IsHeap (push [] (item 2 9)) (item 1 5) (push-IsHeap [] (item 2 9) empty-IsHeap)

length-queue : length queue ≡ 2
length-queue = omega (
  arith,
  length-push [] (item 2 9) empty-IsHeap,
  length-push (push [] (item 2 9)) (item 1 5) (push-IsHeap [] (item 2 9) empty-IsHeap),
)

pop-Popped_example : Popped queue (pop queue)
pop-Popped_example = pop-Popped queue queue-IsHeap (omega (arith, length-queue))

push-IsHeap_example : IsHeap (push queue (item 4 6))
push-IsHeap_example = push-IsHeap queue (item 4 6) queue-IsHeap
