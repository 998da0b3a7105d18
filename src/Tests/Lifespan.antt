-- ===== src/Tests/Lifespan.antt =====
-- Examples for the start and the end of a process.
use group_chat.Prelude.{◌≡◌, refl, false, true, none, some, [], ◌∷◌, Str, codes, All}
use group_chat.App.Lifespan.{Process, start_up, stop_writer, links_of}
use group_chat.Gossip.{get_valid_peers}
use group_chat.Gossip.Links.{IsLinked, IsFound}
use group_chat.Node.Ending.{last_batch, left_over, lost_batch, stop_writer-ends}
use group_chat.Node.Lifespan.{IsFresh, start_up-IsReady}
use group_chat.Node.Steps.{Run, Step}
use group_chat.Python.{str, int, pos}
use group_chat.App.Defs.{count_in}
use group_chat.Server.Defs.{Server}
use group_chat.Server.Limits.{IsFit}
use group_chat.Store.Defs.{Doc}
use group_chat.Store.Writer.{waiting, inserting, ended, do_bulk_insert}
use group_chat.Tests.{store}
use group_chat.Tests.Limits.{linked_host}
use group_chat.Tests.Said.{two_seated}
use group_chat.Tests.Placement.{started as started_server}

abbrev fresh : Process
fresh = record {
  server = record started_server { store = record store { write_queue = none } };
  workers = [];
  client = false;
  phase = ended [];
  inserted = [];
}

fresh-IsFresh : IsFresh fresh
fresh-IsFresh = record {
  peers = refl;
  workers = refl;
  queues = refl;
  cache = refl;
  write_queue = refl;
}

abbrev running : Server
running = (start_up linked_host fresh).server

start_up-IsReady_example :
    ((start_up linked_host fresh).server.store.write_queue ≡ some [])
    × ((start_up linked_host fresh).phase ≡ waiting)
    × IsLinked (links_of (start_up linked_host fresh))
    × All
        (IsFound (links_of (start_up linked_host fresh)))
        (get_valid_peers linked_host.py linked_host.cfg)
    × IsFit linked_host (count_in linked_host running)
start_up-IsReady_example =
    start_up-IsReady linked_host fresh fresh-IsFresh (Run.next Run.here (Step.counts_in running))

abbrev doc : Str → Doc
doc i = record {
  id = str i;
  room_id = str (codes "general");
  sender = codes "ann";
  text_plain = codes "hi";
  ciphertext = [];
  nonce = [];
  signature = [];
  timestamp = int (pos 1);
}

-- A process with a document in its queue, whose batch writer is at an insertion.
abbrev busy : Process
busy = record {
  server = record two_seated {
    store = record store { write_queue = some (doc (codes "m2") ∷ []) };
  };
  workers = codes "http://peer" ∷ [];
  client = true;
  phase = inserting (doc (codes "m1") ∷ []);
  inserted = [];
}

stop_writer-ends_example :
    ((stop_writer busy).phase ≡ ended [])
    × (stop_writer busy).server ≡ record busy.server {
      store = record busy.server.store {
        write_queue = some (doc (codes "m2") ∷ []);
        db_writes = do_bulk_insert (doc (codes "m1") ∷ []) [];
      };
    }
unfolding last_batch left_over lost_batch
stop_writer-ends_example = stop_writer-ends busy (doc (codes "m2") ∷ []) refl
