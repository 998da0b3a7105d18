-- ===== src/Server/Handlers.antt =====
-- server/ws_server.py: the handlers of the frames. A handler with an `await` that can suspend is in
-- two parts, since other connections run in between.
use group_chat.Prelude.{
  Bool, true, false, Option, none, some, List, [], ◌∷◌, ◌++◌, Str, codes, get, put, keys, take, ite,
  str-discrete, if◌then◌else◌,
}
use group_chat.Config.{max_username_len, max_message_len}
use group_chat.Crypto.{Bytes, get_or_create_sender_keys}
use group_chat.Gossip.{broadcast_gossip}
use group_chat.Host.{Host, Draw}
use group_chat.Python.Text.{strip}
use group_chat.Python.{Value, Fields, ℤ, pos, int, str, ◌orelse◌, field_of, str_of, int_of}
use group_chat.Result.{Result, ok, raise}
use group_chat.Rooms.Defs.{Member, join, leave, get_usernames, list_rooms}
use group_chat.Server.Defs.{
  Client, Frame, Task, Server, Outcome, done, failed, set_client, send, to_room, notify, add_task,
  name_of, is_empty,
}
use group_chat.Server.Names.{is_valid_room_name, unique_username}
use group_chat.Store.Cache.Defs.{cache_put}
use group_chat.Store.Defs.{History, get_history}

module _ (h : Host) where
  -- `str(v or '').strip()`
  unfoldable pub clean : Value → Str
  clean v = strip h.py.is_space (str_of h.py (v orelse str []))

  -- The room that a frame names, or the first default room.
  unfoldable pub room_or_default : Value → Str
  room_or_default v = if is_valid_room_name v then str_of h.py v else h.cfg.first_room

  is_one_of : Str → List Str → Bool
  is_one_of x [] = false
  is_one_of x (y ∷ l) = ite (str-discrete x y) true (is_one_of x l)

  -- `await store.async_get_history(room, config.HISTORY_LIMIT)`; `found` is the result of the query,
  -- which is made where the cache has nothing.
  unfoldable pub history : Draw → Result (List Fields) → Str → Server → Result History × Server
  history d found room s =
      let (r, c) = get_history h.py d.now found room h.cfg.history_limit s.store.cache in
      (r, record s { store = record s.store { cache = c } })

  -- The member that `join` and the connection register: with the client's queue.
  abbrev pub queue_member : Str → Member
  queue_member username = record { username = username; connected = true; has_queue = true }

  pub requested_name : Client → Fields → Str
  unfolding clean
  requested_name c frame =
      let name : Str = take max_username_len (clean (field_of "username" frame)) in
      if is_empty name then codes "User" ++ take 4 c.id else name

  -- `if old_room and old_room != room`
  unfoldable pub leave_old : Client → Str → Server → Server
  leave_old c room s =
      if is_empty c.room
      then s
      else ite (str-discrete c.room room) s (record s { rooms = leave c.room c.id s.rooms })

  -- `_handle_join` up to the history, with the name and the room at hand.
  unfoldable pub register : Draw → Client → Str → Str → Server → Server
  unfolding leave_old is_one_of set_client add_task
  register d c username room s =
      let s₁ = leave_old c room s in
      let ((priv, pub_key), kr) =
        get_or_create_sender_keys h.py h.cr h.disk d.key_bytes username s₁.store.keyring in
      let s₂ : Server = add_task (Task.save_public_key username pub_key) (
        set_client
          (record c {
            username = some username;
            room = room;
            is_admin = is_one_of (h.py.lower username) h.cfg.admin_usernames;
            explicitly_joined = true;
            key_pair = some (priv, pub_key);
          })
          (record s₁ { store = record s₁.store { keyring = kr } })) in
      record s₂ {
        usernames = put (h.py.lower username) c.id s₂.usernames;
        rooms = join d.now room c.id (queue_member username) s₂.rooms;
      }

  -- The name and the room, and the state before the history is awaited; `none` where nothing is done.
  unfoldable pub join_begin : Draw → Str → Fields → Server → Option (Str × Str × Server)
  unfolding requested_name room_or_default register
  join_begin d cid frame s = elim (get cid s.clients) [
    | none ↦ none
    | some c ↦
        if c.explicitly_joined
        then none
        else elim (unique_username h.py (requested_name c frame) s.usernames) [
          | none ↦ none
          | some username ↦
              let room = room_or_default (field_of "room" frame) in
              some (username, room, register d c username room s)
        ]
  ]

  is_admin_of : Option Client → Bool
  is_admin_of none = false
  is_admin_of (some c) = c.is_admin

  -- `_handle_join` after the history.
  unfoldable pub join_end : Str → Str → Str → History → Server → Server
  unfolding is_admin_of send notify
  join_end cid username room hist s =
      let s₁ =
        send cid
          (Frame.welcome username room (is_admin_of (get cid s.clients))
            (get_usernames room s.rooms) (list_rooms s.rooms) (keys s.usernames) hist)
          s in
      let s₂ = notify room (username ++ codes " joined #" ++ room) (some cid) s₁ in
      send cid (Frame.room_list (list_rooms s₂.rooms)) s₂

  -- `_handle_join`, with nothing in between.
  unfoldable pub handle_join : Draw → Result (List Fields) → Str → Fields → Server → Outcome
  unfolding join_begin history join_end
  handle_join d found cid frame s = elim (join_begin d cid frame s) [
    | none ↦ done s
    | some (username, room, s₁) ↦
        let (r, s₂) = history d found room s₁ in
        elim r [ raise ↦ failed s₂ | ok hist ↦ done (join_end cid username room hist s₂) ]
  ]

  -- The message dictionary of `_handle_message`.
  unfoldable pub chat_message : Value → Str → Str → Str → ℤ → Fields
  chat_message msg_id name text room timestamp = Fields.field "id" msg_id (
      Fields.field "client-name" (str name) (
        Fields.field "username" (str name) (
          Fields.field "msg" (str text) (
            Fields.field "text" (str text) (
              Fields.field "room" (str room) (
                Fields.field "timestamp" (int timestamp) (
                  Fields.field "verified" (Value.bool true)
                    (Fields.field "tampered" (Value.bool false) Fields.end))))))))

  unfoldable pub private_key : Client → Option Bytes
  private_key c = elim c.key_pair [ none ↦ none | some (priv, _) ↦ some priv ]

  -- `store.cache_message`, which does not raise on a message of a handler
  unfoldable pub cache_message : Draw → Value → Fields → Server → Result Server
  cache_message d room msg s = elim (cache_put h.py d.now room msg s.store.cache) [
    | raise ↦ raise
    | ok c ↦ ok (record s { store = record s.store { cache = c } })
  ]

  -- What follows the caching: to the room, the acknowledgement, the task and the peers.
  unfoldable pub publish_message : Client → Str → Fields → Server → Server
  unfolding to_room send add_task private_key
  publish_message c msg_id msg s =
      let s₁ = send c.id (Frame.delivered msg_id) (to_room c.room (Frame.message msg) none s) in
      let s₂ = add_task (Task.append (str c.room) msg (private_key c)) s₁ in
      record s₂ { peers = broadcast_gossip h.cfg (str c.room) msg s₂.peers }

  -- `_handle_message` with the name and the text at hand.
  unfoldable pub post_text : Draw → Client → Str → Str → Fields → Server → Outcome
  unfolding chat_message cache_message publish_message
  post_text d c name text frame s =
      let msg_id : Str = str_of h.py (field_of "id" frame orelse str d.uuid) in
      elim (int_of h.py (field_of "timestamp" frame orelse int (pos d.now))) [
        | none ↦ failed s
        | some timestamp ↦
            let msg = chat_message (str msg_id) name text c.room timestamp in
            elim (cache_message d (str c.room) msg s) [
              | raise ↦ failed s
              | ok s₁ ↦ done (publish_message c msg_id msg s₁)
            ]
      ]

  unfoldable pub message_text : Fields → Str
  unfolding clean
  message_text frame =
      take max_message_len (clean (field_of "text" frame orelse field_of "msg" frame))

  unfoldable pub handle_message : Draw → Str → Fields → Server → Outcome
  unfolding message_text post_text name_of is_empty
  handle_message d cid frame s = elim (get cid s.clients) [
    | none ↦ done s
    | some c ↦ elim (name_of c) [
      | none ↦ done s
      | some name ↦
          if is_empty (message_text frame)
          then done s
          else post_text d c name (message_text frame) frame s
    ]
  ]
