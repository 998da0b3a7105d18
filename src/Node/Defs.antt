-- ===== src/Node/Defs.antt =====
-- The work that runs beside the handlers: server/ws_server.py's sender of a connection, server/store.py's
-- calls in the thread pool, and server/gossip.py's worker of a peer.
use group_chat.Prelude.{
  ℕ, zero, suc, Bool, false, Option, none, some, List, [], ◌∷◌, Str, get, put, drop, length,
  if◌then◌else◌,
}
use group_chat.Gossip.{Gossip, send_round}
use group_chat.Host.{Host, Draw}
use group_chat.Server.Defs.{Server, Frame, Task}
use group_chat.Store.Append.{append_message}
use group_chat.Store.Defs.{Doc, DbWrite, Store, save_user_public_key}
use group_chat.Store.Writer.{Writer, Event, step, do_bulk_insert}

-- A round of `_client_sender_loop` from the return of `q.get()` on: the frame goes to the socket, or, where
-- `sent` is false, the socket raises or takes half a second, and the client is marked as gone. Either
-- way the frame is out of the queue. The condition of the loop was tested before the wait, so that a
-- client that is marked as gone meanwhile still gets this frame.
unfoldable pub sender_round : Str → Bool → Server → Option Frame × Server
sender_round cid sent s = elim (get cid s.clients) [
  | none ↦ (none, s)
  | some c ↦ elim (get cid s.net.queues) [
    | none ↦ (none, s)
    | some [] ↦ (none, s)
    | some (frame ∷ q) ↦
        let s₁ : Server = record s { net = record s.net { queues = put cid q s.net.queues } } in
        if sent
        then (some frame, s₁)
        else (none, record s₁ { clients = put cid (record c { connected = false }) s₁.clients })
  ]
]

-- `async_append_message` and `async_save_user_public_key` in the thread pool.
unfoldable pub run_task : Host → Draw → Task → Store → Store
run_task h d (Task.append room msg key) s = (append_message h d room msg key s).1
run_task h d (Task.save_public_key username pub_key) s = save_user_public_key h username pub_key s

-- The task at a position, and the others.
unfoldable pub pick : ℕ → List Task → Option (Task × List Task)
pick n [] = none
pick zero (t ∷ ts) = some (t, ts)
pick (suc n) (t ∷ ts) = elim (pick n ts) [ none ↦ none | some (u, us) ↦ some (u, t ∷ us) ]

-- The pool runs one of the started tasks, any of them.
unfoldable pub run_one : Host → Draw → ℕ → Server → Server
unfolding run_task pick
run_one h d n s = elim (pick n s.tasks) [
  | none ↦ s
  | some (t, ts) ↦ record s { store = run_task h d t s.store; tasks = ts }
]

-- A round of the worker of a peer: the batch that it posts.
unfoldable pub worker_round : ℕ → Str → Server → Option (List Gossip) × Server
worker_round rounds peer s = elim (get peer s.peers) [
  | none ↦ (none, s)
  | some q ↦
      let (batch, rest) = send_round rounds q in (batch, record s { peers = put peer rest s.peers })
]

-- The insertions, one after the other.
unfoldable pub bulk_inserts : List (List Doc) → List DbWrite → List DbWrite
unfolding do_bulk_insert
bulk_inserts [] asked = asked
bulk_inserts (batch ∷ batches) asked = bulk_inserts batches (do_bulk_insert batch asked)

-- An event of the batch writer, on the store that holds its queue: the documents that stay in it, and the
-- insertion of each batch that the event completes.
unfoldable pub written : Writer → Event → Store → Store
unfolding bulk_inserts
written w e s =
    let after = step e w in
    record s {
      write_queue = some after.queue;
      db_writes = bulk_inserts (drop (length w.inserted) after.inserted) s.db_writes;
    }
