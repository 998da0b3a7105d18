-- ===== src/App/Defs.antt =====
-- app.py: `post_message`, `receive_gossip`, the feed route and the lifespan's end. The bodies come
-- parsed: what is not JSON is an empty object where the code takes it for one.
use group_chat.Prelude.{
  ℕ, Bool, true, false, Option, none, some, List, [], Str, codes, take, ite, str-discrete,
  if◌then◌else◌,
}
use group_chat.Config.{max_username_len, max_message_len}
use group_chat.Gossip.{broadcast_gossip}
use group_chat.Host.{Host, Draw}
use group_chat.Python.Text.{strip}
use group_chat.Python.{
  Value, Items, Fields, ℤ, pos, int, str, arr, obj, truth, ◌orelse◌, field_of, field_or, str_of,
  int_of,
}
use group_chat.Result.{Result, ok, raise, or_else}
use group_chat.Server.Defs.{Frame, Task, Server, to_room, add_task}
use group_chat.Server.Handlers.{cache_message}
use group_chat.Store.Cache.Defs.{Message, get_feed_bytes, cache_get}
use group_chat.Store.Defs.{increment_connections, decrement_connections}

-- `room_manager.broadcast(room, …)` for any value: only a text is the name of a room, and a list or
-- a dictionary cannot be looked up.
unfoldable pub broadcast_value : Value → Frame → Server → Result Server
unfolding to_room
broadcast_value (str room) frame s = ok (to_room room frame none s)
broadcast_value (arr l) frame s = raise
broadcast_value (obj d) frame s = raise
broadcast_value _ frame s = ok s

-- A response: the status, and whether the handler raised (which the framework answers with 500).
pub data Response : Type 0 where
  bad_request : Response
  server_error : Response
  accepted : Fields → Response
  ok_status : Response

module _ (h : Host) where
  -- The name of the sender under any of the accepted field names.
  unfoldable pub client_name : Fields → Fields → Value
  client_name body query =
      field_of "client-name" body
      orelse field_of "client_name" body
      orelse field_of "username" body
      orelse field_of "sender" body
      orelse field_of "name" body
      orelse field_of "client-name" query
      orelse field_of "client_name" query
      orelse field_of "username" query
      orelse str (codes "Anonymous")

  unfoldable pub msg_text : Fields → Fields → Value
  msg_text body query =
      field_of "msg" body
      orelse field_of "text" body
      orelse field_of "message" body
      orelse field_of "content" body
      orelse field_of "msg" query
      orelse field_of "text" query
      orelse field_of "message" query
      orelse str []

  -- The id of the request, or a new one.
  unfoldable pub request_id : Draw → Fields → Fields → Value
  request_id d body query =
      field_of "id" body orelse field_of "msg_id" body orelse field_of "id" query orelse str d.uuid

  unfoldable pub request_room : Fields → Fields → Value
  request_room body query =
      field_of "room" body orelse field_of "room" query orelse str h.cfg.first_room

  -- The timestamp of the request, or the clock where it has none or one that is no number.
  unfoldable pub request_time : Draw → Fields → Fields → ℤ
  request_time d body query =
      elim (int_of h.py
        (field_of "timestamp" body orelse field_of "timestamp" query orelse int (pos d.now))) [
          | none ↦ pos d.now
          | some t ↦ t
        ]

  -- `msg_obj`
  unfoldable pub post_obj : Value → Value → Value → Value → ℤ → Fields
  post_obj msg_id name text room timestamp = Fields.field "id" msg_id (
      Fields.field "username" (str (take max_username_len (strip h.py.is_space (str_of h.py name))))
        (Fields.field "text" (str (take max_message_len (strip h.py.is_space (str_of h.py text))))
          (Fields.field "room" room (Fields.field "timestamp" (int timestamp) Fields.end))))

  -- The dictionary that is cached.
  unfoldable pub post_cached : Fields → Fields
  post_cached msg = Fields.field "id" (field_of "id" msg) (
      Fields.field "username" (field_of "username" msg) (
        Fields.field "client-name" (field_of "username" msg) (
          Fields.field "text" (field_of "text" msg) (
            Fields.field "msg" (field_of "text" msg) (
              Fields.field "room" (field_of "room" msg) (
                Fields.field "timestamp" (field_of "timestamp" msg) (
                  Fields.field "verified" (Value.bool true)
                    (Fields.field "tampered" (Value.bool false) Fields.end))))))))

  -- The dictionary that is returned; `msg` is `msg_obj`.
  unfoldable pub answer : Fields → Fields
  answer msg = Fields.field "status" (str (codes "ok")) (
      Fields.field "id" (field_of "id" msg) (
        Fields.field "client-name" (field_of "username" msg) (
          Fields.field "username" (field_of "username" msg) (
            Fields.field "msg" (field_of "text" msg) (
              Fields.field "text" (field_of "text" msg) (
                Fields.field "room" (field_of "room" msg) (
                  Fields.field "timestamp" (field_of "timestamp" msg) (
                    Fields.field "verified" (Value.bool true) (
                      Fields.field "duplicate" (Value.bool false)
                        (Fields.field "server_id" (str h.cfg.server_id) Fields.end))))))))))

  -- The four steps, and the exception of one of the first two.
  unfoldable pub publish_post : Draw → Value → Fields → Server → Response × Server
  unfolding post_cached broadcast_value add_task answer
  publish_post d room msg s = elim (cache_message h d room (post_cached msg) s) [
    | raise ↦ (server_error, s)
    | ok s₁ ↦ elim (broadcast_value room (Frame.message msg) s₁) [
      | raise ↦ (server_error, s₁)
      | ok s₂ ↦
          let s₃ = add_task (Task.append room msg none) s₂ in
          (accepted (answer msg), record s₃ { peers = broadcast_gossip h.cfg room msg s₃.peers })
    ]
  ]

  unfoldable pub count_in : Server → Server
  count_in s = record s { store = increment_connections s.store }

  unfoldable pub count_out : Server → Server
  count_out s = record s { store = decrement_connections s.store }

  -- The body of the `try`.
  unfoldable pub post_body : Draw → Fields → Fields → Server → Response × Server
  unfolding post_obj client_name msg_text request_id request_room request_time publish_post
  post_body d body query s =
      if truth (msg_text body query)
      then publish_post d (request_room body query)
          (post_obj (request_id d body query) (client_name body query) (msg_text body query)
            (request_room body query) (request_time d body query))
          s
      else (bad_request, s)

  -- `post_message`: `body` is the parsed body and `query` the query parameters.
  unfoldable pub post_message : Draw → Fields → Fields → Server → Response × Server
  unfolding count_in count_out post_body increment_connections decrement_connections
  post_message d body query s =
      let (r, s₁) = post_body d body query (count_in s) in (r, count_out s₁)

  -- The message that `receive_gossip` makes of a payload's `msg`.
  unfoldable pub canonical : Draw → Value → Fields → Fields
  canonical d room msg =
      let user =
        field_of "username" msg orelse field_or (str (codes "Anonymous")) "client-name" msg in
      let text = field_of "text" msg orelse field_or (str []) "msg" msg in
      Fields.field "id" (field_of "id" msg) (
        Fields.field "client-name" user (
          Fields.field "username" user (
            Fields.field "msg" text (
              Fields.field "text" text (
                Fields.field "room" room (
                  Fields.field "timestamp" (field_or (int (pos d.now)) "timestamp" msg) (
                    Fields.field "verified" (Value.bool true)
                      (Fields.field "tampered" (Value.bool false) Fields.end))))))))

  unfoldable pub is_own : Value → Bool
  is_own (str s) = ite (str-discrete s h.cfg.server_id) true false
  is_own _ = false

  -- A payload of another node with a message in it. `false` is an exception.
  unfoldable pub accept : Draw → Value → Fields → Server → Bool × Server
  unfolding canonical broadcast_value
  accept d room msg s = elim (cache_message h d room (canonical d room msg) s) [
    | raise ↦ (false, s)
    | ok s₁ ↦ elim (broadcast_value room (Frame.message (canonical d room msg)) s₁) [
      | raise ↦ (false, s₁)
      | ok s₂ ↦ (true, s₂)
    ]
  ]

  -- `if not msg or not isinstance(msg, dict): continue`
  unfoldable pub accept_value : Draw → Value → Value → Server → Bool × Server
  unfolding accept
  accept_value d room (obj (Fields.field k v msg)) s = accept d room (Fields.field k v msg) s
  accept_value d room _ s = (true, s)

  -- One item of the request.
  unfoldable pub receive_item : Draw → Value → Server → Bool × Server
  unfolding accept_value is_own
  receive_item d (obj item) s =
      if is_own (field_of "origin" item)
      then (true, s)
      else accept_value d (field_of "room" item orelse str h.cfg.first_room) (field_of "msg" item) s
  receive_item d _ s = (true, s)

  unfoldable pub receive_items : Draw → Items → Server → Response × Server
  unfolding receive_item
  receive_items d Items.nil s = (ok_status, s)
  receive_items d (Items.cons item items) s =
      let (go_on, s₁) = receive_item d item s in
      let rest = receive_items d items s₁ in if go_on then rest else (server_error, s₁)

  -- `receive_gossip`: `none` is a body that is not JSON.
  unfoldable pub receive_gossip : Draw → Option Value → Server → Response × Server
  unfolding receive_items
  receive_gossip d none s = (bad_request, s)
  receive_gossip d (some (arr items)) s = receive_items d items s
  receive_gossip d (some v) s = receive_items d (Items.cons v Items.nil) s

  -- `get_feed_route`: the bytes; `now` and `now'` are the two readings of the clock.
  unfoldable pub get_feed_route :
      (List Message → Result Str) → ℕ → ℕ → Option Str → ℤ → Server → Str × Server
  unfolding count_in count_out
  get_feed_route dumps now now' none limit s =
      let (c, bytes) = get_feed_bytes dumps now now' s.store.cache in
      (bytes, record s { store = record s.store { cache = c } })
  get_feed_route dumps now now' (some room) limit s = (
    or_else (dumps (cache_get (some room) limit (count_in s).store.cache)) (codes "[]"),
    count_out (count_in s),
  )
