-- ===== src/App/Lifespan.antt =====
-- app.py: the life cycle of the process (`lifespan`), its heartbeat and `/health`.
use Prim.Native.Nat.{◌/◌}
use group_chat.Prelude.{ℕ, ◌-◌, ltb, Bool, none, some, List, Str, codes, length}
use group_chat.Gossip.Links.{Links, init_gossip}
use group_chat.Host.{Host}
use group_chat.Node.Defs.{written}
use group_chat.Server.Defs.{Server}
use group_chat.Store.Defs.{Doc, Store}
use group_chat.Store.Writer.{Writer, Phase, waiting, cancelled, init_batch_writer, step}

-- The node with what runs beside it: the peers that have a worker, whether the HTTP client is open, where the
-- batch writer stands, and the batches that it has inserted.
pub record Process : Type 0 where
  pub server : Server
  pub workers : List Str
  pub client : Bool
  pub phase : Phase
  pub inserted : List (List Doc)

-- The links to the peers, and the writer with its queue.
unfoldable pub links_of : Process → Links
links_of p = record { queues = p.server.peers; workers = p.workers; client = p.client }

unfoldable pub writer_of : List Doc → Process → Writer
writer_of q p = record { queue = q; phase = p.phase; inserted = p.inserted }

unfoldable pub set_links : Links → Process → Process
set_links l p = record p {
  server = record p.server { peers = l.queues };
  workers = l.workers;
  client = l.client;
}

unfoldable pub start_writer : Process → Process
start_writer p = elim p.server.store.write_queue [
  | none ↦ record p {
    server = record p.server { store = init_batch_writer p.server.store };
    phase = waiting;
  }
  | some _ ↦ p
]

-- `lifespan` up to its `yield`; the cache's warm-up is left to the pool.
unfoldable pub start_up : Host → Process → Process
unfolding start_writer set_links links_of
start_up h p = let p₁ = start_writer p in set_links (init_gossip h.py h.cfg (links_of p₁)) p₁

-- `shutdown_batch_writer`, up to the end of the task that it cancels and waits for; without a queue there is no task.
unfoldable pub stop_writer : Process → Process
unfolding writer_of
stop_writer p = elim p.server.store.write_queue [
  | none ↦ p
  | some q ↦
      let w = writer_of q p in
      let after = step cancelled w in
      record p {
        server = record p.server { store = written w cancelled p.server.store };
        phase = after.phase;
        inserted = after.inserted;
      }
]

-- What a round of `_memory_monitor_loop` prints, with the resident memory in MB, and whether it collects
-- garbage.
pub record Heartbeat : Type 0 where
  pub rss : ℕ
  pub conns : ℕ
  pub cache_len : ℕ
  pub db_queue : ℕ
  pub collects : Bool

unfoldable heartbeat : ℕ → Store → Heartbeat
heartbeat rss_mb s = record {
  rss = rss_mb;
  conns = s.active_connections;
  cache_len = length s.cache.messages;
  db_queue = elim s.write_queue [ none ↦ 0 | some q ↦ length q ];
  collects = ltb 120 rss_mb;
}

pub record Health : Type 0 where
  pub status : Str
  pub server_id : Str
  pub uptime_sec : ℕ

-- `health`, with the clock in milliseconds
unfoldable health : Host → ℕ → ℕ → Health
health h started now = record {
  status = codes "ok";
  server_id = h.cfg.server_id;
  uptime_sec = (now - started) / 1000;
}
