-- ===== src/Node/Ending.antt =====
-- The end of the batch writer, where app.py's `lifespan` awaits `shutdown_batch_writer` of server/store.py.
use mathlib.Core.List.{append-nil}
use mathlib.Core.Path.{ap₂}
use group_chat.Prelude.{◌≡◌, ◌∙◌, refl, sym, ap, some, List, [], ◌∷◌, ◌++◌, length, drop, arith}
use group_chat.App.Lifespan.{Process, writer_of, stop_writer}
use group_chat.Node.Defs.{written, bulk_inserts}
use group_chat.Store.Defs.{Doc, DbWrite, Store}
use group_chat.Store.Writer.{
  Phase, waiting, pending, inserting, ended, cancelled, cancel, flush, step, do_bulk_insert,
}

-- What the batch writer asks of the database when it is cancelled, and what stays in its queue.
unfoldable pub last_batch : Phase → List Doc → List Doc
last_batch waiting q = q
last_batch (pending batch) q = []
last_batch (inserting batch) q = batch
last_batch (ended l) q = []

unfoldable pub left_over : Phase → List Doc → List Doc
left_over waiting q = []
left_over (pending batch) q = q
left_over (inserting batch) q = q
left_over (ended l) q = q

-- The documents that the cancellation loses.
unfoldable pub lost_batch : Phase → List Doc
lost_batch waiting = []
lost_batch (pending batch) = batch
lost_batch (inserting batch) = []
lost_batch (ended l) = l

drop-append : {A : Type 0} (xs ys : List A) → drop (length xs) (xs ++ ys) ≡ ys
drop-append [] ys = refl
drop-append (x ∷ xs) ys = drop-append xs ys

-- What is asked of the database for the batches that come after `ins`.
bulk_inserts_new :
    (ins news : List (List Doc)) (asked : List DbWrite)
    → bulk_inserts (drop (length ins) (ins ++ news)) asked ≡ bulk_inserts news asked
bulk_inserts_new ins news asked = ap (λ bs. bulk_inserts bs asked) (drop-append ins news)

bulk_inserts_same :
    (ins : List (List Doc)) (asked : List DbWrite)
    → bulk_inserts (drop (length ins) ins) asked ≡ asked
unfolding bulk_inserts
bulk_inserts_same ins asked =
    ap (λ bs. bulk_inserts (drop (length ins) bs) asked) (sym (append-nil ins))
    ∙ bulk_inserts_new ins [] asked

written-cancelled :
    (ph : Phase) (ins : List (List Doc)) (q : List Doc) (s : Store)
    → ((written (record { queue = q; phase = ph; inserted = ins }) cancelled s).db_writes
        ≡ do_bulk_insert (last_batch ph q) s.db_writes)
      × ((written (record { queue = q; phase = ph; inserted = ins }) cancelled s).write_queue
          ≡ some (left_over ph q))
      × ((step cancelled (record { queue = q; phase = ph; inserted = ins })).phase
          ≡ ended (lost_batch ph))
unfolding written step cancel flush bulk_inserts do_bulk_insert last_batch left_over lost_batch
written-cancelled waiting ins [] s = (bulk_inserts_same ins s.db_writes, refl, refl)
written-cancelled waiting ins (doc ∷ q) s =
    (bulk_inserts_new ins ((doc ∷ q) ∷ []) s.db_writes, refl, refl)
written-cancelled (pending batch) ins q s = (bulk_inserts_same ins s.db_writes, refl, refl)
written-cancelled (inserting batch) ins q s =
    (bulk_inserts_new ins (batch ∷ []) s.db_writes, refl, refl)
written-cancelled (ended l) ins q s = (bulk_inserts_same ins s.db_writes, refl, refl)

stopped :
    (p : Process) (q : List Doc)
    → p.server.store.write_queue ≡ some q
    → stop_writer p ≡ record p {
      server = record p.server { store = written (writer_of q p) cancelled p.server.store };
      phase = (step cancelled (writer_of q p)).phase;
      inserted = (step cancelled (writer_of q p)).inserted;
    }
unfolding stop_writer
stopped p q e = ground arith

-- The end of a batch writer that was started. Where it waited for documents, all that were in its queue are
-- asked of the database in one insertion, and none is lost. Where a thread ran an insertion, that batch is
-- asked, and the documents in the queue are not. Where the insertion still waited for a thread, nothing is
-- asked, and that batch is lost. In every case the task has ended, and of the rest of the node nothing
-- changes: not its clients, rooms, queues to clients and peers, tasks, cache or keys.
pub stop_writer-ends :
    (p : Process) (q : List Doc)
    → p.server.store.write_queue ≡ some q
    → ((stop_writer p).phase ≡ ended (lost_batch p.phase))
      × (stop_writer p).server ≡ record p.server {
        store = record p.server.store {
          write_queue = some (left_over p.phase q);
          db_writes = do_bulk_insert (last_batch p.phase q) p.server.store.db_writes;
        };
      }
unfolding writer_of written
stop_writer-ends p q e =
    let same = stopped p q e in
    let (asked, left, over) = written-cancelled p.phase p.inserted q p.server.store in
    rw same (
      (
        over,
        ap₂
            (λ asked' left'. record p.server {
              store = record p.server.store { write_queue = left'; db_writes = asked' };
            })
            asked left,
      ))
