-- ===== src/Server/Limits.antt =====
-- What a node holds in memory for others: the feed's cache, the write queue, the clients' and the peers' queues;
-- and that the handlers of server/ws_server.py keep its bounds.
pub mod Handled
pub mod Roomed
pub mod Sessions
use group_chat.Prelude.{
  ℕ, ◌≡◌, refl, Option, List, [], ◌∷◌, Str, get, AllValues, if_intro, option_intro, keys,
}
use group_chat.Gossip.{broadcast_gossip}
use group_chat.Gossip.Origin.{IsOwn, broadcast_gossip-IsOwn}
use group_chat.Gossip.Welcome.{IsWelcome}
use group_chat.Host.{Host, Draw}
use group_chat.Net.{Net}
use group_chat.Python.{Value, Fields}
use group_chat.Result.{Result, ok, raise}
use group_chat.Rooms.Bounds.{IsWithin, enqueue-IsWithin, broadcast-IsWithin}
use group_chat.Server.Defs.{Frame, Server, send, send_each, to_room, close_ws, broadcast_to_all}
use group_chat.Server.Handlers.{cache_message}
use group_chat.Store.Limits.{IsShortQueue}
use group_chat.Store.Cache.Bounds.{IsBounded, cache_put-IsBounded}
use group_chat.Store.Cache.Defs.{Cache, cache_put}

module _ (h : Host) where
  -- The cache, the write queue, every client's queue and every peer's queue are within their bounds, and a
  -- peer's queue holds payloads of this node only, which any node takes.
  pub record IsFit (s : Server) : Type 0 where
    pub cache : IsBounded s.store.cache
    pub documents : IsShortQueue s.store.write_queue
    pub frames : IsWithin s.net
    pub payloads : AllValues (IsOwn h.cfg) s.peers

  -- With other clients, names, rooms or tasks.
  pub IsFit-same :
      {s t : Server} → t.store ≡ s.store → t.net ≡ s.net → t.peers ≡ s.peers → IsFit s → IsFit t
  IsFit-same {s} {t} store net peers fit = record {
    cache = rw store fit.cache;
    documents = rw store fit.documents;
    frames = rw net fit.frames;
    payloads = rw peers fit.payloads;
  }

  pub IsFit-net :
      (net : Net Frame) (s : Server) → IsWithin net → IsFit s → IsFit (record s { net = net })
  IsFit-net net s within fit = record {
    cache = fit.cache;
    documents = fit.documents;
    frames = within;
    payloads = fit.payloads;
  }

  pub send-IsFit : (cid : Str) (frame : Frame) (s : Server) → IsFit s → IsFit (send cid frame s)
  unfolding send
  send-IsFit cid frame s fit =
      option_intro IsFit (get cid s.clients) (λ _. fit)
        (λ c _.
          if_intro IsFit c.connected
            (λ _. IsFit-net _ s (enqueue-IsWithin cid frame s.net fit.frames) fit) (λ _. fit))

  pub to_room-IsFit :
      (room : Str) (frame : Frame) (exclude : Option Str) (s : Server)
      → IsFit s
      → IsFit (to_room room frame exclude s)
  unfolding to_room
  to_room-IsFit room frame exclude s fit =
      IsFit-net _ s (broadcast-IsWithin room frame exclude s.rooms s.net fit.frames) fit

  send_each-IsFit :
      (cids : List Str) (frame : Frame) (s : Server) → IsFit s → IsFit (send_each cids frame s)
  unfolding send_each
  send_each-IsFit [] frame s fit = fit
  send_each-IsFit (cid ∷ cids) frame s fit =
      send_each-IsFit cids frame (send cid frame s) (send-IsFit cid frame s fit)

  pub broadcast_to_all-IsFit :
      (frame : Frame) (s : Server) → IsFit s → IsFit (broadcast_to_all frame s)
  unfolding broadcast_to_all
  broadcast_to_all-IsFit frame s fit = send_each-IsFit (keys s.clients) frame s fit

  pub close_ws-IsFit : (cid : Str) (code : ℕ) (s : Server) → IsFit s → IsFit (close_ws cid code s)
  unfolding close_ws
  close_ws-IsFit cid code s fit =
      option_intro IsFit (get cid s.clients) (λ _. fit)
        (λ c _. if_intro IsFit c.connected (λ _. IsFit-same refl refl refl fit) (λ _. fit))

  pub cache_message-IsFit :
      (d : Draw) (room : Value) (msg : Fields) (s : Server) {t : Server}
      → IsFit s
      → cache_message h d room msg s ≡ ok t
      → IsFit t
  unfolding cache_message
  cache_message-IsFit d room msg s {t} fit e =
      go (cache_put h.py d.now room msg s.store.cache) refl e
    where
      go :
          (r : Result Cache)
          → cache_put h.py d.now room msg s.store.cache ≡ r
          → (elim r as (λ _. Result Server) [
            | raise ↦ raise
            | ok c ↦ ok (record s { store = record s.store { cache = c } })
          ])
            ≡ ok t
          → IsFit t
      go raise p q = cc
      go (ok c) p q =
          let kept : IsFit (record s { store = record s.store { cache = c } }) = record {
            cache = cache_put-IsBounded h.py d.now room msg s.store.cache fit.cache p;
            documents = fit.documents;
            frames = fit.frames;
            payloads = fit.payloads;
          } in
          let same : record s { store = record s.store { cache = c } } ≡ t = cc in rw (← same) kept

  pub broadcast_gossip-IsFit :
      (room : Value) (msg : Fields) (s : Server)
      → IsWelcome room msg
      → IsFit s
      → IsFit (record s { peers = broadcast_gossip h.cfg room msg s.peers })
  broadcast_gossip-IsFit room msg s welcome fit = record {
    cache = fit.cache;
    documents = fit.documents;
    frames = fit.frames;
    payloads = broadcast_gossip-IsOwn h.cfg room msg s.peers welcome fit.payloads;
  }
