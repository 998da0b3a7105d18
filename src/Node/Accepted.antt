-- ===== src/Node/Accepted.antt =====
-- An accepted POST /message, from the request to the feed, the members, the peers and the document.
use mathlib.Core.List.{Mem}
use mathlib.Core.Option
use group_chat.Prelude.{
  ℕ, ◌+◌, ◌≤◌, List, ◌≡◌, refl, ap, Bool, true, false, none, some, [], ◌∷◌, ◌++◌, Str, arith, take,
  IsDict, get, if◌then◌else◌,
}
use group_chat.App.Defs.{
  accepted, answer, post_message, post_body, publish_post, post_obj, post_cached, broadcast_value,
  msg_text, request_id, request_room, request_time, client_name, count_in, count_out,
}
use group_chat.Config.{max_username_len, max_message_len}
use group_chat.Gossip.{broadcast_gossip, publish}
use group_chat.Gossip.Ring.{get-broadcast_gossip}
use group_chat.Host.{Host, Draw}
use group_chat.Python.{
  Value, Fields, Key, ℤ, pos, int, str, truth, hash_of, str_of, int_of, field_or, ◌orelse◌,
}
use group_chat.Python.Text.{strip}
use group_chat.Result.{Result, ok}
use group_chat.Rooms.Broadcast.{queue_after, queue-broadcast}
use group_chat.Rooms.Defs.{broadcast, members_of}
use group_chat.Server.Defs.{Frame, Task, Server, to_room, add_task}
use group_chat.Server.Handlers.{cache_message}
use group_chat.Store.Cache.Defs.{
  Cache, Message, cache_put, get_feed_bytes, compact, contains, insert,
}
use group_chat.Store.Cache.Bounds.{IsBounded}
use group_chat.Store.Visible.{in_feed-insert, cache_put-stored}
use group_chat.Store.Defs.{increment_connections, decrement_connections}

-- The message dictionary that a request is turned into.
abbrev pub message_of : Host → Draw → Fields → Fields → Fields
message_of h d body query =
    post_obj h (request_id h d body query) (client_name h body query) (msg_text h body query)
      (request_room h body query) (request_time h d body query)

-- A message as a request is turned into one.
abbrev pub wire : Value → Str → Str → Str → ℤ → Fields
wire i u t r ts = Fields.field "id" i (
    Fields.field "username" (str u) (
      Fields.field "text" (str t)
        (Fields.field "room" (str r) (Fields.field "timestamp" (int ts) Fields.end))))

-- A request with a text, for the room `r`, whose id is not empty and has the key `k`.
pub record IsRequest (h : Host) (d : Draw) (body query : Fields) (r : Str) (k : Key) : Type 0 where
  pub text : truth (msg_text h body query) ≡ true
  pub room : request_room h body query ≡ str r
  pub named : truth (request_id h d body query) ≡ true
  pub key : hash_of (request_id h d body query) ≡ some k

-- What a request adds to a node.
pub record IsPublished (h : Host) (r : Str) (msg : Fields) (c : Cache) (s t : Server) : Type 0 where
  pub cache : t.store.cache ≡ c
  pub net : t.net ≡ broadcast r (Frame.message msg) none s.rooms s.net
  pub peers : t.peers ≡ broadcast_gossip h.cfg (str r) msg s.peers
  pub tasks : t.tasks ≡ s.tasks ++ Task.append (str r) msg none ∷ []
  pub rooms : t.rooms ≡ s.rooms

module _ (h : Host) (d : Draw) where
  pub message_of-wire :
      (body query : Fields) (r : Str) (k : Key)
      → IsRequest h d body query r k
      → message_of h d body query
        ≡ wire
            (request_id h d body query)
            (take max_username_len (strip h.py.is_space (str_of h.py (client_name h body query))))
            (take max_message_len (strip h.py.is_space (str_of h.py (msg_text h body query))))
            r
            (request_time h d body query)
  unfolding post_obj
  message_of-wire body query r k request =
      ap
        (λ room.
          post_obj h (request_id h d body query) (client_name h body query) (msg_text h body query)
            room (request_time h d body query))
        request.room

  publish_post-IsPublished :
      (r : Str) (msg : Fields) (s : Server) {c : Cache}
      → cache_put h.py d.now (str r) (post_cached h msg) s.store.cache ≡ ok c
      → ((publish_post h d (str r) msg s).0 ≡ accepted (answer h msg))
        × IsPublished h r msg c s (publish_post h d (str r) msg s).1
  unfolding publish_post cache_message broadcast_value to_room add_task
  publish_post-IsPublished r msg s e = ground arith

  post_body-request :
      (body query : Fields) (r : Str) (k : Key) (s : Server)
      → IsRequest h d body query r k
      → post_body h d body query s ≡ publish_post h d (str r) (message_of h d body query) s
  unfolding post_body
  post_body-request body query r k s request =
      rw request.text
        (ap (λ room. publish_post h d room (message_of h d body query) s) request.room)

  -- The counter aside, an accepted request does its four steps.
  pub post_message-IsPublished :
      (body query : Fields) (r : Str) (k : Key) (s : Server) {c : Cache}
      → IsRequest h d body query r k
      → cache_put h.py d.now (str r) (post_cached h (message_of h d body query)) s.store.cache
        ≡ ok c
      → ((post_message h d body query s).0 ≡ accepted (answer h (message_of h d body query)))
        × IsPublished h r (message_of h d body query) c s (post_message h d body query s).1
  unfolding post_message count_in count_out increment_connections decrement_connections
  post_message-IsPublished body query r k s request e =
      let s₁ = count_in h s in
      let same = post_body-request body query r k s₁ request in
      let (answer, published) = publish_post-IsPublished r (message_of h d body query) s₁ e in
      (
        rw same answer,
        record {
          cache = rw same published.cache;
          net = rw same published.net;
          peers = rw same published.peers;
          tasks = rw same published.tasks;
          rooms = rw same published.rooms;
        },
      )

  -- The time of a cached message: a time of 0 counts as none.
  abbrev pub kept_time : ℕ → ℤ → ℤ
  kept_time now ts = if truth (int ts) then ts else pos now

  pub kept_time-int_of :
      (now : ℕ) (ts : ℤ) → int_of h.py (int ts orelse int (pos now)) ≡ some (kept_time now ts)
  unfolding ◌orelse◌ int_of
  kept_time-int_of now ts = go (truth (int ts))
    where
      go :
          (b : Bool)
          → int_of h.py (if b then int ts else int (pos now)) ≡ some (if b then ts else pos now)
      go true = refl
      go false = refl

  -- The message that the cache keeps of a request.
  abbrev pub kept : Fields → Fields → Str → Message
  kept body query r =
      compact h.py (request_id h d body query) (str r) (post_cached h (message_of h d body query))
        (kept_time d.now (request_time h d body query))

  pub cache_put-message_of :
      (body query : Fields) (r : Str) (k : Key) (c : Cache)
      → IsRequest h d body query r k
      → cache_put h.py d.now (str r) (post_cached h (message_of h d body query)) c
        ≡ ok (insert k (kept body query r) c)
  unfolding field_or post_cached post_obj
  cache_put-message_of body query r k c request =
      cache_put-stored h d.now (str r) (post_cached h (message_of h d body query)) c k
        (kept_time d.now (request_time h d body query)) request.named
        (kept_time-int_of d.now (request_time h d body query)) request.key

  -- A POST /message with a text, a room and an id that are not empty, the id being new to the
  -- node, whose cache is within its bounds and where the member ids of the room differ, has done
  -- all this when it returns: the answer is made of the message; the message is in the cache, and a
  -- request for the feed on this state that comes a second or more after the last serialization gets the
  -- bytes of the messages with it, if they can be serialized; it is at the end of the queue of every
  -- member of its room who is connected with a queue that has room for it, every other client's
  -- queue is as it was, and it is published to every peer.
  pub post_message-reaches :
      (body query : Fields) (r : Str) (k : Key) (s : Server) (dumps : List Message → Result Str)
      (now now' : ℕ) (bytes : Str)
      → IsBounded s.store.cache
      → IsDict (members_of r s.rooms)
      → IsRequest h d body query r k
      → contains k s.store.cache.ids ≡ false
      → s.store.cache.last_serialized + 1000 ≤ now
      → s.store.cache.last_serialized + 1000 ≤ now'
      → dumps (post_message h d body query s).1.store.cache.messages ≡ ok bytes
      → ((post_message h d body query s).0 ≡ accepted (answer h (message_of h d body query)))
        × Mem (kept body query r) (post_message h d body query s).1.store.cache.messages
        × ((get_feed_bytes dumps now now' (post_message h d body query s).1.store.cache).1 ≡ bytes)
        × ((j : Str)
            → get j (post_message h d body query s).1.net.queues
              ≡ queue_after none
                  (Frame.message (message_of h d body query))
                  (get j (members_of r s.rooms))
                  j
                  s.net)
        × ((peer : Str)
            → get peer (post_message h d body query s).1.peers
              ≡ Option.map
                  (publish (record {
                    origin = h.cfg.server_id;
                    room = str r;
                    msg = message_of h d body query;
                  }))
                  (get peer s.peers))
  post_message-reaches body query r k s dumps now now' bytes bounded dict request new late late' e =
      let put_it = cache_put-message_of body query r k s.store.cache request in
      let (answer, published) = post_message-IsPublished body query r k s request put_it in
      (
        answer,
        (in_feed-insert dumps now now' bytes k (kept body query r) s.store.cache bounded new
            published.cache late late' e).0,
        (in_feed-insert dumps now now' bytes k (kept body query r) s.store.cache bounded new
            published.cache late late' e).1,
        (λ j. rw published.net (
            queue-broadcast none (Frame.message (message_of h d body query)) r s.rooms j s.net
              dict)),
        (λ peer.
            rw published.peers
              (get-broadcast_gossip h.cfg (str r) (message_of h d body query) peer s.peers)),
      )
