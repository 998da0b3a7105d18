-- ===== src/Store/Writer.antt =====
-- server/store.py: `_batch_writer_loop` as a machine over the write queue, with `init_batch_writer`,
-- `shutdown_batch_writer` and `_do_bulk_insert`. What `insert_many` does is MongoDB's.
pub mod Order
use group_chat.Prelude.{
  ℕ, Bool, true, false, Option, none, some, List, [], ◌∷◌, ◌++◌, length, ltb, if◌then◌else◌,
}
use group_chat.Batch.{gather}
use group_chat.Store.Append.{offer_doc}
use group_chat.Store.Defs.{Doc, DbWrite, insert_many, Store}

-- Where the task stands: at `await _write_queue.get()`, at the `await` of an insertion that no thread of the
-- pool has begun yet or that one runs, or ended, with the documents of an insertion that was cancelled before
-- a thread began it.
pub data Phase : Type 0 where
  waiting : Phase
  pending : List Doc → Phase
  inserting : List Doc → Phase
  ended : List Doc → Phase

-- `inserted` holds the batches whose `insert_many` has been called and has returned, oldest first.
pub record Writer : Type 0 where
  pub queue : List Doc
  pub phase : Phase
  pub inserted : List (List Doc)

abbrev pub started : Writer
started = record { queue = []; phase = waiting; inserted = [] }

-- `init_batch_writer`, in a running event loop: an empty queue, and the task at its `get`.
unfoldable pub init_batch_writer : Store → Store
init_batch_writer s = elim s.write_queue [
  | none ↦ record s { write_queue = some started.queue }
  | some _ ↦ s
]

-- `_do_bulk_insert`: what it asks of the database. An error of the database is passed over.
unfoldable pub do_bulk_insert : List Doc → List DbWrite → List DbWrite
do_bulk_insert [] asked = asked
do_bulk_insert (doc ∷ batch) asked = asked ++ insert_many (doc ∷ batch) ∷ []

-- `_write_queue.put_nowait(doc)` of `append_message`
unfoldable pub put_nowait : Doc → Writer → Writer
unfolding offer_doc
put_nowait doc w = record w { queue = offer_doc doc w.queue }

-- The batch limit after the first document is out of the queue.
pub max_batch : List Doc → ℕ
max_batch q = if ltb 50 (length q) then 500 else 100

unfoldable pub take_batch : ℕ → List Doc → Writer → Writer
take_batch rounds [] w = w
take_batch rounds (doc ∷ q) w =
    let (batch, rest) = gather rounds (max_batch q) (doc ∷ []) q in
    record w { queue = rest; phase = pending batch }

-- The task runs on from the `get` to the insertion; with an empty queue it stays there.
unfoldable pub wake : ℕ → Writer → Writer
unfolding take_batch max_batch
wake rounds w = elim w.phase [
  | waiting ↦ take_batch rounds w.queue w
  | pending batch ↦ w
  | inserting batch ↦ w
  | ended lost ↦ w
]

-- A thread of the pool, which it shares with `append_message`, begins the insertion.
unfoldable pub begin : Writer → Writer
begin w = elim w.phase [
  | waiting ↦ w
  | pending batch ↦ record w { phase = inserting batch }
  | inserting batch ↦ w
  | ended lost ↦ w
]

-- The insertion returns, and the loop goes round.
unfoldable pub insertion_done : Writer → Writer
insertion_done w = elim w.phase [
  | waiting ↦ w
  | pending batch ↦ w
  | inserting batch ↦ record w { phase = waiting; inserted = w.inserted ++ batch ∷ [] }
  | ended lost ↦ w
]

unfoldable pub flush : List Doc → Writer → Writer
flush [] w = record w { phase = ended [] }
flush (doc ∷ q) w = record w {
  queue = [];
  phase = ended [];
  inserted = w.inserted ++ (doc ∷ q) ∷ [];
}

-- `shutdown_batch_writer`: `task.cancel()` raises `CancelledError` at the `await` where the task
-- stands. At the `get` it is caught, and the queue is written out. At the insertion it is not in the
-- `try`, and the task ends: a thread that has begun the batch finishes it, but a job that still waits for
-- a thread is cancelled with the task.
unfoldable pub cancel : Writer → Writer
unfolding flush
cancel w = elim w.phase [
  | waiting ↦ flush w.queue w
  | pending batch ↦ record w { phase = ended batch }
  | inserting batch ↦ record w { phase = ended []; inserted = w.inserted ++ batch ∷ [] }
  | ended lost ↦ w
]

-- What can happen to the task.
pub data Event : Type 0 where
  put : Doc → Event
  woken : ℕ → Event
  begun : Event
  done : Event
  cancelled : Event

unfoldable pub step : Event → Writer → Writer
unfolding put_nowait wake begin insertion_done cancel
step (put doc) w = put_nowait doc w
step (woken rounds) w = wake rounds w
step begun w = begin w
step done w = insertion_done w
step cancelled w = cancel w

pub run : List Event → Writer → Writer
run [] w = w
run (e ∷ es) w = run es (step e w)
