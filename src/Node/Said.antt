-- ===== src/Node/Said.antt =====
-- A frame `message` of server/ws_server.py, from the handler to the feed, the members, the peers and the task; and a
-- frame `private_message`, from the handler to the two queues.
use mathlib.Core.List.{Mem}
use mathlib.Core.Option
use group_chat.Prelude.{
  ℕ, ◌+◌, ◌≤◌, ◌≡◌, ◌∙◌, refl, ◌≢◌, ap, true, false, Option, none, some, List, [], ◌∷◌, ◌++◌, Str,
  get, get-put, arith, ite, str-discrete, IsDict, if◌then◌else◌, Option-cases, Bool-cases, inl, inr,
}
use group_chat.Gossip.{broadcast_gossip, publish}
use group_chat.Gossip.Ring.{get-broadcast_gossip}
use group_chat.Host.{Host, Draw}
use group_chat.Net.{Net, offer, enqueue}
use group_chat.Node.Accepted.{kept_time, kept_time-int_of}
use group_chat.Python.{
  Fields, Key, ℤ, pos, int, str, truth, hash_of, str_of, int_of, field_of, field_or, ◌orelse◌,
}
use group_chat.Result.{Result, ok}
use group_chat.Rooms.Broadcast.{queue_after, queue-broadcast}
use group_chat.Rooms.Defs.{members_of}
use group_chat.Server.Defs.{
  Client, Frame, Task, Server, done, state_of, send, to_room, add_task, name_of, is_empty,
}
use group_chat.Server.Handlers.{
  chat_message, message_text, handle_message, post_text, cache_message, publish_message,
  private_key,
}
use group_chat.Store.Cache.Bounds.{IsBounded}
use group_chat.Store.Cache.Defs.{
  Cache, Message, cache_put, get_feed_bytes, compact, contains, insert,
}
use group_chat.Store.Defs.{Store}
use group_chat.Store.Visible.{in_feed-insert, cache_put-stored}

-- The queue of client `j` after a frame that is sent to the client `c`.
pub sent_to : Client → Frame → Str → Option (List Frame) → Option (List Frame)
sent_to c frame j q =
    if c.connected then ite (str-discrete c.id j) (Option.map (offer frame) q) q else q

queue-enqueue_self :
    (cid : Str) (frame : Frame) (net : Net Frame)
    → get cid (enqueue cid frame net).queues ≡ Option.map (offer frame) (get cid net.queues)
unfolding enqueue
queue-enqueue_self cid frame net = elim (Option-cases (get cid net.queues)) [
  | inl e ↦ ground arith
  | inr (q, e) ↦ ground (arith, get-put cid cid (offer frame q) net.queues)
]

queue-enqueue_ne :
    (cid j : Str) (frame : Frame) (net : Net Frame)
    → cid ≢ j
    → get j (enqueue cid frame net).queues ≡ get j net.queues
unfolding enqueue
queue-enqueue_ne cid j frame net other = elim (Option-cases (get cid net.queues)) [
  | inl e ↦ ground arith
  | inr (q, e) ↦ ground (arith, get-put cid j (offer frame q) net.queues)
]

queue-enqueue :
    (cid j : Str) (frame : Frame) (net : Net Frame)
    → get j (enqueue cid frame net).queues
      ≡ ite (str-discrete cid j) (Option.map (offer frame) (get j net.queues)) (get j net.queues)
queue-enqueue cid j frame net =
    elim (str-discrete cid j)
      as (λ x.
        get j (enqueue cid frame net).queues
        ≡ ite x (Option.map (offer frame) (get j net.queues)) (get j net.queues)) [
          | yes e ↦ rw (← e) (queue-enqueue_self cid frame net)
          | no ne ↦ queue-enqueue_ne cid j frame net ne
        ]

pub queue-send :
    (c : Client) (frame : Frame) (j : Str) (s : Server)
    → get c.id s.clients ≡ some c
    → get j (send c.id frame s).net.queues ≡ sent_to c frame j (get j s.net.queues)
unfolding send sent_to
queue-send c frame j s found = elim (Bool-cases c.connected) [
  | inl on ↦ ground (arith, queue-enqueue c.id j frame s.net)
  | inr off ↦ ground arith
]

module _ (h : Host) (d : Draw) where
  -- The id of a frame, or a new one.
  abbrev pub frame_id : Fields → Str
  frame_id frame = str_of h.py (field_of "id" frame orelse str d.uuid)

  -- The message of a client's frame.
  abbrev pub said : Client → Str → Fields → ℤ → Fields
  said c name frame ts = chat_message h (str (frame_id frame)) name (message_text h frame) c.room ts

  -- A frame with a text and a time that is a number, of a client with a name; its id is not empty.
  pub record IsSaid (c : Client) (name : Str) (frame : Fields) (ts : ℤ) : Type 0 where
    pub named : name_of c ≡ some name
    pub text : is_empty (message_text h frame) ≡ false
    pub time : int_of h.py (field_of "timestamp" frame orelse int (pos d.now)) ≡ some ts
    pub real : truth (str (frame_id frame)) ≡ true

  -- The message that the cache keeps of it.
  abbrev pub kept_said : Client → Str → Fields → ℤ → Message
  kept_said c name frame ts =
      compact h.py (str (frame_id frame)) (str c.room) (said c name frame ts)
        (kept_time h d d.now ts)

  cache_put-said :
      (c : Client) (name : Str) (frame : Fields) (ts : ℤ) (cache : Cache)
      → IsSaid c name frame ts
      → cache_put h.py d.now (str c.room) (said c name frame ts) cache
        ≡ ok (insert (Key.word (frame_id frame)) (kept_said c name frame ts) cache)
  unfolding chat_message hash_of field_or
  cache_put-said c name frame ts cache said' =
      cache_put-stored h d.now (str c.room) (said c name frame ts) cache (Key.word (frame_id frame))
        (kept_time h d d.now ts) said'.real (kept_time-int_of h d d.now ts) refl

  handle_message-done :
      (c : Client) (name : Str) (frame : Fields) (ts : ℤ) (s : Server) {cache : Cache}
      → get c.id s.clients ≡ some c
      → IsSaid c name frame ts
      → cache_put h.py d.now (str c.room) (said c name frame ts) s.store.cache ≡ ok cache
      → handle_message h d c.id frame s
        ≡ done (
            publish_message h c
              (frame_id frame)
              (said c name frame ts)
              (record s { store = record s.store { cache = cache } }))
  unfolding handle_message post_text cache_message
  handle_message-done c name frame ts s found said' e =
      ground (arith, said'.named, said'.text, said'.time)

  publish_message-parts :
      (c : Client) (i : Str) (msg : Fields) (s : Server)
      → ((publish_message h c i msg s).store ≡ s.store)
        × ((publish_message h c i msg s).tasks
            ≡ s.tasks ++ Task.append (str c.room) msg (private_key h c) ∷ [])
        × ((publish_message h c i msg s).peers ≡ broadcast_gossip h.cfg (str c.room) msg s.peers)
        × ((publish_message h c i msg s).net
            ≡ (send c.id (Frame.delivered i) (to_room c.room (Frame.message msg) none s)).net)
  unfolding publish_message send add_task to_room
  publish_message-parts c i msg s = ground arith

  -- A frame with a text, of a client that has a name and stands under its id, where the text's time is a
  -- number or none, and the id is not empty and new to the node, whose cache is within its bounds and
  -- where the member ids of the room differ, has done all this when its handler returns, which it does
  -- without an exception: the message is in the cache, and a request for the feed on this state that
  -- comes a second or more after the last serialization gets the bytes of the messages with it, if they can
  -- be serialized; the frame is at the end of the queue of every
  -- connected member of the room that has a queue with room for it, and behind it, for the sender, the
  -- acknowledgement, while every other queue is as it was; the message is published to every peer;
  -- and the task that will store it is started.
  pub handle_message-reaches :
      (c : Client) (name : Str) (frame : Fields) (ts : ℤ) (s : Server)
      (dumps : List Message → Result Str) (now now' : ℕ) (bytes : Str)
      → get c.id s.clients ≡ some c
      → IsSaid c name frame ts
      → IsBounded s.store.cache
      → IsDict (members_of c.room s.rooms)
      → contains (Key.word (frame_id frame)) s.store.cache.ids ≡ false
      → s.store.cache.last_serialized + 1000 ≤ now
      → s.store.cache.last_serialized + 1000 ≤ now'
      → dumps (state_of (handle_message h d c.id frame s)).store.cache.messages ≡ ok bytes
      → (handle_message h d c.id frame s ≡ done (state_of (handle_message h d c.id frame s)))
        × Mem
            (kept_said c name frame ts)
            (state_of (handle_message h d c.id frame s)).store.cache.messages
        × ((get_feed_bytes dumps now now'
              (state_of (handle_message h d c.id frame s)).store.cache).1
            ≡ bytes)
        × ((j : Str)
            → get j (state_of (handle_message h d c.id frame s)).net.queues
              ≡ sent_to c (Frame.delivered (frame_id frame)) j (
                  queue_after none
                    (Frame.message (said c name frame ts))
                    (get j (members_of c.room s.rooms))
                    j
                    s.net))
        × ((peer : Str)
            → get peer (state_of (handle_message h d c.id frame s)).peers
              ≡ Option.map
                  (publish (record {
                    origin = h.cfg.server_id;
                    room = str c.room;
                    msg = said c name frame ts;
                  }))
                  (get peer s.peers))
        × ((state_of (handle_message h d c.id frame s)).tasks
            ≡ s.tasks ++ Task.append (str c.room) (said c name frame ts) (private_key h c) ∷ [])
  unfolding state_of to_room
  handle_message-reaches c name frame ts s dumps now now' bytes found said' bounded dict new late
        late' e =
      let m = said c name frame ts in
      let put_it = cache_put-said c name frame ts s.store.cache said' in
      let cache = insert (Key.word (frame_id frame)) (kept_said c name frame ts) s.store.cache in
      let s₁ : Server = record s { store = record s.store { cache = cache } } in
      let same = handle_message-done c name frame ts s found said' put_it in
      let t = to_room c.room (Frame.message m) none s₁ in
      let (store, tasks, peers, net) = publish_message-parts c (frame_id frame) m s₁ in
      let cached : (state_of (handle_message h d c.id frame s)).store.cache ≡ cache =
        rw (same, state_of) (ap (λ (x : Store). x.cache) store) in
      let (there, served) =
        in_feed-insert dumps now now' bytes (Key.word (frame_id frame)) (kept_said c name frame ts)
          s.store.cache bounded new cached late late' e in
      (
        rw (same, state_of) refl,
        there,
        served,
        (λ j.
            rw (same, state_of)
              (rw net (
                queue-send c (Frame.delivered (frame_id frame)) j t found
                ∙ ap (sent_to c (Frame.delivered (frame_id frame)) j)
                    (queue-broadcast none (Frame.message m) c.room s.rooms j s.net dict)))),
        (λ peer.
            rw (same, state_of)
              (rw peers (get-broadcast_gossip h.cfg (str c.room) m peer s.peers))),
        rw (same, state_of) tasks,
      )
