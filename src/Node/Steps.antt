-- ===== src/Node/Steps.antt =====
-- What can happen to a node, one step at a time and in any order: what stands between two `await`s of a
-- handler is a step of its own, so that other steps come in between.
use group_chat.Prelude.{ℕ, ◌≡◌, Bool, true, Option, none, some, List, [], Str, get}
use group_chat.App.Defs.{post_message, receive_gossip, get_feed_route, count_in, count_out}
use group_chat.Gossip.Links.{Links, init_gossip, shutdown_gossip}
use group_chat.Host.{Host, Draw}
use group_chat.Node.Defs.{sender_round, run_one, worker_round, written}
use group_chat.Python.{Value, Fields, ℤ, str_of}
use group_chat.Result.{Result}
use group_chat.Server.Defs.{Client, Server}
use group_chat.Server.Handlers.{join_begin, join_end, history}
use group_chat.Server.RoomHandlers.{may_switch, move, switch_end}
use group_chat.Server.Session.{connect, disconnect, round, presence_sweep, init_rooms, shutdown}
use group_chat.Store.Cache.Defs.{Message, warm_cache_from_db}
use group_chat.Store.Defs.{History}
use group_chat.Store.Writer.{Writer, Event, init_batch_writer}

module _ (h : Host) where
  pub data Step : Server → Server → Type 0 where
    connects :
        (d : Draw) (room : Value) (username : Option Str) (s : Server)
        → get d.uuid s.clients ≡ none
        → Step s (connect h d room username s)
    receives :
        (d : Draw) (found : Result (List Fields)) (cid : Str) (v : Option Value) (s : Server)
        → Step s (round h d found cid v s)
    join_begins :
        (d : Draw) (cid : Str) (frame : Fields) (u r : Str) (s s₁ : Server)
        → join_begin h d cid frame s ≡ some (u, r, s₁)
        → Step s s₁
    join_ends : (cid u r : Str) (hist : History) (s : Server) → Step s (join_end h cid u r hist s)
    switch_begins :
        (d : Draw) (c : Client) (name : Str) (room : Value) (s : Server)
        → get c.id s.clients ≡ some c
        → may_switch h c room s ≡ true
        → Step s (move h d c name (str_of h.py room) s)
    switch_ends :
        (cid name r : Str) (hist : History) (s : Server) → Step s (switch_end h cid name r hist s)
    loads :
        (d : Draw) (found : Result (List Fields)) (room : Str) (s : Server)
        → Step s (history h d found room s).1
    closes : (cid : Str) (s : Server) → Step s (disconnect h cid s)
    sweeps : (now : ℕ) (s : Server) → Step s (presence_sweep h now s)
    posts : (d : Draw) (body query : Fields) (s : Server) → Step s (post_message h d body query s).1
    gossips : (d : Draw) (body : Option Value) (s : Server) → Step s (receive_gossip h d body s).1
    feeds :
        (dumps : List Message → Result Str) (now now' : ℕ) (room : Option Str) (limit : ℤ)
        (s : Server)
        → Step s (get_feed_route h dumps now now' room limit s).1
    sends : (cid : Str) (sent : Bool) (s : Server) → Step s (sender_round cid sent s).1
    works : (d : Draw) (n : ℕ) (s : Server) → Step s (run_one h d n s)
    spreads : (rounds : ℕ) (peer : Str) (s : Server) → Step s (worker_round rounds peer s).1
    -- The cache's warm-up, in the pool.
    warms :
        (now : ℕ) (found : Result (List Fields)) (s : Server)
        → Step s (record s {
          store = record s.store { cache = warm_cache_from_db h.py now found s.store.cache };
        })
    -- The start of the batch writer, and an event of it.
    writer_starts : (s : Server) → Step s (record s { store = init_batch_writer s.store })
    writes :
        (w : Writer) (e : Event) (s : Server)
        → s.store.write_queue ≡ some w.queue
        → Step s (record s { store = written w e s.store })
    -- The WebSocket route counts a connection from before its start to after its end.
    counts_in : (s : Server) → Step s (count_in h s)
    counts_out : (s : Server) → Step s (count_out h s)
    -- The start and the end of the gossip, with any workers.
    links :
        (l : Links) (s : Server)
        → l.queues ≡ s.peers
        → Step s (record s { peers = (init_gossip h.py h.cfg l).queues })
    unlinks :
        (l : Links) (s : Server)
        → l.queues ≡ s.peers
        → Step s (record s { peers = (shutdown_gossip l).queues })
    shuts : (s : Server) → Step s (shutdown s)

  -- Any number of steps.
  pub data Run (s : Server) : Server → Type 0 where
    here : Run s s
    next : {t u : Server} → Run s t → Step t u → Run s u

  -- A node that has just started, with any store, peers and names.
  pub record IsStart (now : ℕ) (s : Server) : Type 0 where
    pub no_clients : s.clients ≡ []
    pub rooms : s.rooms ≡ init_rooms h now []
