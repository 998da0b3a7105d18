-- ===== src/Node/Spread.antt =====
-- From a node to its peers: what a worker of gossip.py posts, and what `receive_gossip` of app.py makes
-- of it.
use mathlib.Core.List.{Mem}
use mathlib.Core.Option
use group_chat.Prelude.{
  ℕ, ◌+◌, ◌≤◌, ◌≡◌, ◌≢◌, ◌∙◌, refl, sym, ap, Bool, true, false, some, List, [], ◌∷◌, Str, arith,
  if◌then◌else◌, if_neg, String, str-discrete, get,
}
use group_chat.App.Defs.{
  Response, ok_status, server_error, receive_item, receive_items, receive_gossip, accept,
  accept_value, canonical, post_message, request_id, request_time, post_cached, is_own,
  broadcast_value,
}
use group_chat.Gossip.{Gossip, publish, payload_value, body_of}
use group_chat.Host.{Host, Draw}
use group_chat.Config.{Config}
use group_chat.Crypto.{Disk}
use group_chat.Gossip.Ring.{get-broadcast_gossip, send_round_single}
use group_chat.Node.Defs.{worker_round}
use group_chat.Store.Cache.Bounds.{IsBounded}
use group_chat.Node.Accepted.{
  wire, message_of-wire, IsRequest, message_of, kept, kept_time-int_of, post_message-IsPublished,
  cache_put-message_of,
}
use group_chat.Store.Visible.{cache_put-stored, in_feed-insert}
use group_chat.Python.{Key, hash_of, Value, Fields, ℤ, pos, int, str, truth, ◌orelse◌, field_or}
use group_chat.Result.{Result, ok}
use group_chat.Server.Defs.{Server, to_room}
use group_chat.Store.Cache.Defs.{
  Cache, Message, compact, cache_put, get_feed_bytes, contains, insert,
}
use group_chat.Server.Handlers.{cache_message}

module _ (h : Host) (d : Draw) where
  compact-canonical :
      (i : Value) (u t r : Str) (ts : ℤ)
      → compact h.py i (str r) (canonical h d (str r) (wire i u t r ts)) ts
        ≡ compact h.py i (str r) (post_cached h (wire i u t r ts)) ts
  unfolding compact canonical post_cached truth ◌orelse◌ field_or
  compact-canonical i [] [] r ts = refl
  compact-canonical i [] (c ∷ t) r ts = refl
  compact-canonical i (b ∷ u) [] r ts = refl
  compact-canonical i (b ∷ u) (c ∷ t) r ts = refl

  accept-stored :
      (r : Str) (msg : Fields) (s : Server) {c : Cache}
      → cache_put h.py d.now (str r) (canonical h d (str r) msg) s.store.cache ≡ ok c
      → (accept h d (str r) msg s).1.store.cache ≡ c
  unfolding accept cache_message broadcast_value to_room
  accept-stored r msg s e = ground arith

  answered : Bool × Server → Response × Server
  answered p = if p.0 then (ok_status, p.1) else (server_error, p.1)

  answered-same : (p : Bool × Server) → (answered p).1 ≡ p.1
  unfolding answered
  answered-same (true, s) = refl
  answered-same (false, s) = refl

  -- The payload of another node, in a request of its own.
  receive_gossip-stored :
      (origin : Str) (ch : ℕ) (r : Str) (k : String) (v : Value) (msg : Fields) (s : Server)
      {c : Cache}
      → origin ≢ h.cfg.server_id
      → cache_put h.py d.now
          (str (ch ∷ r))
          (canonical h d (str (ch ∷ r)) (Fields.field k v msg))
          s.store.cache
        ≡ ok c
      → (receive_gossip h d
          (some (
            body_of
              (record { origin = origin; room = str (ch ∷ r); msg = Fields.field k v msg } ∷ [])))
          s).1.store.cache
        ≡ c
  unfolding receive_gossip body_of payload_value receive_items receive_item is_own accept_value
      truth ◌orelse◌ field_or answered
  receive_gossip-stored origin ch r k v msg s {c} other e =
      let p = accept h d (str (ch ∷ r)) (Fields.field k v msg) s in
      rw (if_neg (str-discrete origin h.cfg.server_id) other true false) (
        ap (λ t. t.store.cache) (answered-same p)
        ∙ accept-stored (ch ∷ r) (Fields.field k v msg) s e)

  receive_gossip-kept :
      (origin : Str) (i : Value) (u t : Str) (ch : ℕ) (r : Str) (ts : ℤ) (k : Key) (s : Server)
      → origin ≢ h.cfg.server_id
      → truth i ≡ true
      → hash_of i ≡ some k
      → truth (int ts) ≡ true
      → (receive_gossip h d
          (some (
            body_of
              (record { origin = origin; room = str (ch ∷ r); msg = wire i u t (ch ∷ r) ts } ∷ [])))
          s).1.store.cache
        ≡ insert k
            (compact h.py i (str (ch ∷ r)) (post_cached h (wire i u t (ch ∷ r) ts)) ts)
            s.store.cache
  unfolding canonical field_or
  receive_gossip-kept origin i u t ch r ts k s other named key timed =
      receive_gossip-stored origin ch r "id" i _ s other (
        cache_put-stored h d.now (str (ch ∷ r))
          (canonical h d (str (ch ∷ r)) (wire i u t (ch ∷ r) ts)) s.store.cache k ts named
          (kept_time-int_of h d d.now ts ∙ ap (λ b. some (if b then ts else pos d.now)) timed) key)
      ∙ ap (λ m. insert k m s.store.cache) (compact-canonical i u t (ch ∷ r) ts)

pub worker_round_single :
    (rounds : ℕ) (peer : Str) (g : Gossip) (s : Server)
    → get peer s.peers ≡ some (g ∷ [])
    → (worker_round rounds peer s).0 ≡ some (g ∷ [])
unfolding worker_round
worker_round_single rounds peer g s e = ground (arith, send_round_single rounds g)

module _ (h : Host) (d : Draw) (cfg : Config) (disk : Disk) where
  -- Another node with the same code: its settings and its disk are its own.
  abbrev pub other_node : Host
  other_node = record h { cfg = cfg; disk = disk }

  -- The batch that holds the message of a request, and nothing else.
  abbrev pub own_batch : Fields → Fields → Value → List Gossip
  own_batch body query room =
      record { origin = h.cfg.server_id; room = room; msg = message_of h d body query } ∷ []

  -- What the peer's cache is after the batch with the message.
  receive_gossip-message_of :
      (body query : Fields) (ch : ℕ) (r : Str) (k : Key) (s' : Server) (d' : Draw)
      → IsRequest h d body query (ch ∷ r) k
      → truth (int (request_time h d body query)) ≡ true
      → h.cfg.server_id ≢ cfg.server_id
      → (receive_gossip other_node d'
          (some (
            body_of (
              record {
                origin = h.cfg.server_id;
                room = str (ch ∷ r);
                msg = message_of h d body query;
              }
              ∷ [])))
          s').1.store.cache
        ≡ insert k (kept h d body query (ch ∷ r)) s'.store.cache
  unfolding post_cached
  receive_gossip-message_of body query ch r k s' d' request timed other =
      let c = s'.store.cache in
      let ts = request_time h d body query in
      let same = message_of-wire h d body query (ch ∷ r) k request in
      let stored : Fields → ℤ → Cache = λ msg t.
        insert k (compact h.py (request_id h d body query) (str (ch ∷ r)) (post_cached h msg) t)
          c in
      ap
        (λ msg.
          (receive_gossip other_node d'
            (some
              (body_of (record { origin = h.cfg.server_id; room = str (ch ∷ r); msg = msg } ∷ [])))
            s').1.store.cache)
        same
      ∙ receive_gossip-kept other_node d' h.cfg.server_id _ _ _ ch r ts k s' other request.named
          request.key timed
      ∙ ap (λ msg. stored msg ts) (sym same)
      ∙ ap (λ b. stored (message_of h d body query) (if b then ts else pos d.now)) (sym timed)

  -- A POST /message with a text, and with a room, an id and a time that are not empty, is the next
  -- batch for each peer whose queue was empty, whatever the clock of the peer's worker does. A
  -- peer that gets this batch in a request, being a node of the same code with another id, has in
  -- its cache the same message as the first node has in its own: with the same id, name, text, room
  -- and time. On each of the two nodes a request for the feed that comes next, a second or more after the
  -- last serialization there, gets the bytes of the messages with it, if they can be serialized. The
  -- message's id is new to both nodes, and their caches are within their bounds.
  pub post_message-spreads :
      (body query : Fields) (ch : ℕ) (r : Str) (k : Key) (s s' : Server) (d' : Draw) (rounds : ℕ)
      (peer : Str) (dumps : List Message → Result Str) (now now' : ℕ) (bytes bytes' : Str)
      → IsBounded s.store.cache
      → IsBounded s'.store.cache
      → IsRequest h d body query (ch ∷ r) k
      → truth (int (request_time h d body query)) ≡ true
      → contains k s.store.cache.ids ≡ false
      → contains k s'.store.cache.ids ≡ false
      → h.cfg.server_id ≢ cfg.server_id
      → get peer s.peers ≡ some []
      → s.store.cache.last_serialized + 1000 ≤ now
      → s.store.cache.last_serialized + 1000 ≤ now'
      → s'.store.cache.last_serialized + 1000 ≤ now
      → s'.store.cache.last_serialized + 1000 ≤ now'
      → dumps (post_message h d body query s).1.store.cache.messages ≡ ok bytes
      → dumps
          (receive_gossip other_node d'
            (some (body_of (own_batch body query (str (ch ∷ r)))))
            s').1.store.cache.messages
        ≡ ok bytes'
      → ((worker_round rounds peer (post_message h d body query s).1).0
          ≡ some (own_batch body query (str (ch ∷ r))))
        × Mem (kept h d body query (ch ∷ r)) (post_message h d body query s).1.store.cache.messages
        × ((get_feed_bytes dumps now now' (post_message h d body query s).1.store.cache).1 ≡ bytes)
        × Mem
            (kept h d body query (ch ∷ r))
            (receive_gossip other_node d'
              (some (body_of (own_batch body query (str (ch ∷ r)))))
              s').1.store.cache.messages
        × ((get_feed_bytes dumps now now'
              (receive_gossip other_node d'
                (some (body_of (own_batch body query (str (ch ∷ r)))))
                s').1.store.cache).1
            ≡ bytes')
  unfolding publish
  post_message-spreads body query ch r k s s' d' rounds peer dumps now now' bytes bytes' bounded
        bounded' request timed new new' other empty late late' peer_late peer_late' e e' =
      let put_it = cache_put-message_of h d body query (ch ∷ r) k s.store.cache request in
      let published = (post_message-IsPublished h d body query (ch ∷ r) k s request put_it).1 in
      let g : Gossip = record {
        origin = h.cfg.server_id;
        room = str (ch ∷ r);
        msg = message_of h d body query;
      } in
      let queued : get peer (post_message h d body query s).1.peers ≡ some (g ∷ []) =
        rw published.peers (
          get-broadcast_gossip h.cfg (str (ch ∷ r)) (message_of h d body query) peer s.peers
          ∙ ap (Option.map (publish g)) empty) in
      let m = kept h d body query (ch ∷ r) in
      let here =
        in_feed-insert dumps now now' bytes k m s.store.cache bounded new published.cache late late'
          e in
      let there =
        in_feed-insert dumps now now' bytes' k m s'.store.cache bounded' new'
          (receive_gossip-message_of body query ch r k s' d' request timed other) peer_late
          peer_late' e' in
      (
        worker_round_single rounds peer g (post_message h d body query s).1 queued,
        here.0,
        here.1,
        there.0,
        there.1,
      )
