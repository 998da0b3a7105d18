-- ===== src/Server/RoomHandlers.antt =====
-- server/ws_server.py: private messages, the change and the creation of rooms, typing, moderation.
use group_chat.Prelude.{
  Bool, true, false, ◌&&◌, Option, none, some, List, ◌++◌, Str, codes, get, take, ite, str-discrete,
  if◌then◌else◌,
}
use group_chat.Config.{max_message_len}
use group_chat.Host.{Host, Draw}
use group_chat.Python.{Value, Fields, pos, int, str, field_of, str_of}
use group_chat.Result.{Result, ok, raise}
use group_chat.Rooms.Defs.{join, leave, get_usernames, list_rooms, room_exists, ensure_room, le_str}
use group_chat.Server.Defs.{
  Client, Frame, Task, Server, Outcome, done, failed, set_client, send, send_error, close_ws,
  broadcast_to_all, to_room, notify, add_task, name_of, is_empty,
}
use group_chat.Server.Handlers.{clean, history, private_key}
use group_chat.Server.Names.{is_valid_room_name}
use group_chat.Store.Defs.{History}

-- `'__'.join(sorted([a, b]))`
pair_key : Str → Str → Str
pair_key a b = if le_str a b then a ++ codes "__" ++ b else b ++ codes "__" ++ a

pub data Action : Type 0 where
  kick mute unmute : Action

module _ (h : Host) where
  -- The dictionary of a private message.
  pub dm_of : Draw → Str → Str → Str → Fields
  dm_of d name target text = Fields.field "id" (str d.uuid) (
      Fields.field "from" (str name) (
        Fields.field "to" (str target)
          (Fields.field "text" (str text) (Fields.field "timestamp" (int (pos d.now)) Fields.end))))

  -- The room under which a private conversation is stored.
  pub dm_room : Str → Str → Str
  unfolding pair_key
  dm_room name target = codes "dm-" ++ pair_key (h.py.lower name) (h.py.lower target)

  -- From the delivery on: to the target, to the sender, and the task. A target that is not among the
  -- clients is passed over by `send`.
  unfoldable pub deliver : Draw → Client → Str → Str → Str → Str → Server → Server
  unfolding dm_of dm_room send add_task private_key
  deliver d c name target target_id text s =
      let dm = dm_of d name target text in
      add_task (Task.append (str (dm_room name target)) dm (private_key h c))
        (send c.id (Frame.private_message dm) (send target_id (Frame.private_message dm) s))

  unfoldable pub handle_private_message : Draw → Str → Fields → Server → Outcome
  unfolding clean deliver send_error name_of is_empty
  handle_private_message d cid frame s = elim (get cid s.clients) [
    | none ↦ done s
    | some c ↦ elim (name_of c) [
      | none ↦ done s
      | some name ↦
          let target = clean h (field_of "to" frame) in
          let text = take max_message_len (clean h (field_of "text" frame)) in
          elim (get (h.py.lower target) s.usernames) [
            | none ↦
                done (send_error cid (codes "user_offline") (target ++ codes " is not online.") s)
            | some target_id ↦
                if is_empty text then done s else done (deliver d c name target target_id text s)
          ]
    ]
  ]

  -- `_handle_switch_room` up to the history: out of the old room, and into the new one with a member
  -- that has no queue.
  unfoldable pub move : Draw → Client → Str → Str → Server → Server
  unfolding notify set_client
  move d c name room s =
      let s₁ : Server = record s { rooms = leave c.room c.id s.rooms } in
      let s₂ =
        set_client (record c { room = room })
          (notify c.room (name ++ codes " left #" ++ c.room) none s₁) in
      record s₂ {
        rooms =
            join d.now room c.id
              (record { username = name; connected = c.connected; has_queue = false }) s₂.rooms;
      }

  -- The new room is one that exists and another one than the client's.
  unfoldable pub may_switch : Client → Value → Server → Bool
  may_switch c room s = is_valid_room_name room && room_exists (str_of h.py room) s.rooms

  -- `_handle_switch_room` after the history.
  unfoldable pub switch_end : Str → Str → Str → History → Server → Server
  unfolding send notify
  switch_end cid name room hist s =
      notify room (name ++ codes " joined #" ++ room) (some cid)
        (send cid (Frame.room_switched room (get_usernames room s.rooms) hist) s)

  unfoldable pub switch_to : Draw → Result (List Fields) → Client → Str → Str → Server → Outcome
  unfolding move history switch_end
  switch_to d found c name room s =
      let (r, s₁) = history h d found room (move d c name room s) in
      elim r [ raise ↦ failed s₁ | ok hist ↦ done (switch_end c.id name room hist s₁) ]

  unfoldable pub handle_switch_room : Draw → Result (List Fields) → Str → Value → Server → Outcome
  unfolding may_switch switch_to send_error name_of
  handle_switch_room d found cid room s = elim (get cid s.clients) [
    | none ↦ done s
    | some c ↦ elim (name_of c) [
      | none ↦ done s
      | some name ↦
          if may_switch c room s
          then ite (str-discrete (str_of h.py room) c.room) (done s)
              (switch_to d found c name (str_of h.py room) s)
          else done (
              send_error cid (codes "no_such_room")
                (codes "Room \"" ++ str_of h.py room ++ codes "\" doesn't exist.") s)
    ]
  ]

  -- The room is made, and every client is told if it is new.
  unfoldable pub make_room : Draw → Str → Server → Server
  unfolding broadcast_to_all
  make_room d name s =
      let s₁ : Server = record s { rooms = ensure_room d.now name s.rooms } in
      if room_exists name s.rooms
      then s₁
      else broadcast_to_all (Frame.room_list (list_rooms s₁.rooms)) s₁

  unfoldable pub handle_create_room : Draw → Result (List Fields) → Str → Fields → Server → Outcome
  unfolding clean make_room handle_switch_room send_error name_of
  handle_create_room d found cid frame s = elim (get cid s.clients) [
    | none ↦ done s
    | some c ↦ elim (name_of c) [
      | none ↦ done s
      | some _ ↦
          let name = clean h (field_of "room" frame) in
          if is_valid_room_name (str name)
          then handle_switch_room d found cid (str name) (make_room d name s)
          else done (
              send_error cid (codes "bad_room_name")
                (codes "Room names: 1-24 chars, letters/numbers/_/- only.") s)
    ]
  ]

  unfoldable pub handle_typing : Str → Server → Server
  unfolding to_room name_of is_empty
  handle_typing cid s = elim (get cid s.clients) [
    | none ↦ s
    | some c ↦ elim (name_of c) [
      | none ↦ s
      | some name ↦
          if is_empty c.room then s else to_room c.room (Frame.typing name c.room) (some cid) s
    ]
  ]

  -- The notification of `mute` and `unmute` to the target's room.
  unfoldable pub tell_room : Client → Str → Str → Server → Server
  unfolding notify is_empty
  tell_room target verb name s =
      if is_empty target.room then s else notify target.room (verb ++ name) none s

  -- The three actions on a target that is online.
  unfoldable pub moderate : Action → Str → Client → Str → Server → Server
  unfolding send close_ws set_client tell_room
  moderate kick name target target_name s =
      close_ws target.id 4001 (send target.id (Frame.kicked name) s)
  moderate mute name target target_name s =
      tell_room target (target_name ++ codes " was muted by ") name
        (set_client (record target { muted = true }) s)
  moderate unmute name target target_name s =
      tell_room target (target_name ++ codes " was unmuted by ") name
        (set_client (record target { muted = false }) s)

  -- `self.clients_by_id.get(target_id) if target_id else None`
  unfoldable pub online : Str → Server → Option Client
  online target_name s = elim (get (h.py.lower target_name) s.usernames) [
    | none ↦ none
    | some target_id ↦ get target_id s.clients
  ]

  unfoldable pub handle_moderation : Action → Str → Fields → Server → Server
  unfolding clean online moderate send_error name_of
  handle_moderation action cid frame s = elim (get cid s.clients) [
    | none ↦ s
    | some c ↦ elim (name_of c) [
      | none ↦ s
      | some name ↦
          let target_name = clean h (field_of "target" frame) in
          if c.is_admin
          then elim (online target_name s) [
            | none ↦
                send_error cid (codes "user_offline") (target_name ++ codes " is not online.") s
            | some target ↦ moderate action name target target_name s
          ]
          else send_error cid (codes "not_admin") (codes "Only moderators can do that.") s
    ]
  ]
