-- ===== src/Server/Session.antt =====
-- server/ws_server.py: a connection from its start to its end, the dispatcher, the presence sweep and
-- the shutdown.
pub mod Registry
pub mod Moderation
pub mod JoinFrame
pub mod Joining
pub mod SwitchFrame
pub mod Seats
pub mod Quiet
pub mod Sound
pub mod Rounds
pub mod Placement
pub mod Closing
pub mod Private
pub mod Moves
use group_chat.Prelude.{
  ℕ, ◌+◌, ◌-◌, Bool, true, false, not, ◌&&◌, ◌||◌, Option, none, some, List, [], ◌∷◌, ◌++◌, Str,
  codes, Dict, get, put, pop, keys, take, ite, str-discrete, ltb, if◌then◌else◌,
}
use group_chat.Crypto.{Bytes}
use group_chat.Host.{Host, Draw}
use group_chat.Python.{Value, Fields, str, obj, field_of}
use group_chat.Result.{Result, ok, raise}
use group_chat.Rooms.Defs.{Member, Rooms, join, leave, ensure_room}
use group_chat.Server.Defs.{
  Client, Presence, online, away, Frame, Server, Outcome, done, failed, state_of, set_client,
  close_ws, broadcast_to_all, notify, is_empty,
}
use group_chat.Server.Handlers.{queue_member, room_or_default, handle_join, handle_message}
use group_chat.Server.RoomHandlers.{
  kick, mute, unmute, handle_private_message, handle_switch_room, handle_create_room, handle_typing,
  handle_moderation,
}

module _ (h : Host) where
  unfoldable pub make_rooms : ℕ → List Str → Rooms → Rooms
  make_rooms now [] rooms = rooms
  make_rooms now (r ∷ rs) rooms = make_rooms now rs (ensure_room now r rooms)

  -- `__init__`: the default rooms are made.
  unfoldable pub init_rooms : ℕ → Rooms → Rooms
  unfolding make_rooms
  init_rooms now rooms = make_rooms now (h.cfg.first_room ∷ h.cfg.other_rooms) rooms

  -- The start of `handle_connection`: `room` and `username` are the query parameters, the name being
  -- `username` or else `client-name` where it is not empty.
  unfoldable pub connect : Draw → Value → Option Str → Server → Server
  unfolding room_or_default
  connect d room username s =
      let r = room_or_default h room in
      let name : Str = elim username [ none ↦ codes "User" ++ take 4 d.uuid | some u ↦ u ] in
      record s {
        clients =
            put d.uuid
              (record {
                id = d.uuid;
                connected = true;
                username = username;
                room = r;
                is_admin = false;
                muted = false;
                presence = online;
                last_activity = d.now;
                explicitly_joined = false;
                key_pair = none;
              })
              s.clients;
        rooms = join d.now r d.uuid (queue_member h name) s.rooms;
        net = record s.net { queues = put d.uuid [] s.net.queues };
      }

  -- The body of `_handle_close`, with the client at hand.
  unfoldable pub close_client : Client → Server → Server
  unfolding notify is_empty
  close_client c s =
      let name : Str = elim c.username [ none ↦ [] | some u ↦ u ] in
      let s₁ : Server = record s {
        clients = pop c.id s.clients;
        usernames = if is_empty name then s.usernames else pop (h.py.lower name) s.usernames;
      } in
      if is_empty c.room
      then s₁
      else (let s₂ : Server = record s₁ { rooms = leave c.room c.id s₁.rooms } in
          if c.explicitly_joined && not (is_empty name)
          then notify c.room (name ++ codes " left #" ++ c.room) none s₂
          else s₂)

  -- The end of a connection: the `finally` of `handle_connection` with `_handle_close`.
  unfoldable pub disconnect : Str → Server → Server
  unfolding close_client
  disconnect cid s = elim (get cid s.clients) [ none ↦ s | some c ↦ close_client c s ]

  pub is_type : Value → Str → Bool
  is_type (str t) name = ite (str-discrete t name) true false
  is_type _ name = false

  -- `_dispatch`
  unfoldable pub dispatch : Draw → Result (List Fields) → Str → Fields → Server → Outcome
  unfolding is_type
  dispatch d found cid frame s =
      let t = field_of "type" frame in
      if is_type t (codes "join")
      then handle_join h d found cid frame s
      else if is_type t (codes "message")
      then handle_message h d cid frame s
      else if is_type t (codes "private_message")
      then handle_private_message h d cid frame s
      else if is_type t (codes "switch_room")
      then handle_switch_room h d found cid (field_of "room" frame) s
      else if is_type t (codes "create_room")
      then handle_create_room h d found cid frame s
      else if is_type t (codes "typing")
      then done (handle_typing h cid s)
      else if is_type t (codes "kick")
      then done (handle_moderation h kick cid frame s)
      else if is_type t (codes "mute")
      then done (handle_moderation h mute cid frame s)
      else if is_type t (codes "unmute")
      then done (handle_moderation h unmute cid frame s)
      else done s

  -- The activity of a client that sent a frame; one that was away is announced as back.
  unfoldable pub awake : ℕ → Client → Server → Server
  unfolding set_client broadcast_to_all
  awake now c s =
      let s₁ = set_client (record c { last_activity = now; presence = online }) s in
      elim c.presence [
        | online ↦ s₁
        | away ↦
            broadcast_to_all
              (Frame.presence_of (elim c.username [ none ↦ codes "None" | some u ↦ u ]) online) s₁
      ]

  -- A valid JSON document: only an object has the method `get`, and any other value raises.
  unfoldable pub on_value : Draw → Result (List Fields) → Str → Value → Server → Outcome
  unfolding dispatch
  on_value d found cid (obj frame) s = dispatch d found cid frame s
  on_value d found cid _ s = failed s

  -- One round of the loop of `handle_connection`: `none` is a text that is not JSON.
  unfoldable pub on_text : Draw → Result (List Fields) → Str → Option Value → Server → Outcome
  unfolding on_value awake
  on_text d found cid none s = done s
  on_text d found cid (some v) s = elim (get cid s.clients) [
    | none ↦ done s
    | some c ↦ on_value d found cid v (awake d.now c s)
  ]

  -- The round, and the end of the connection where it raises.
  unfoldable pub round : Draw → Result (List Fields) → Str → Option Value → Server → Server
  unfolding on_text disconnect
  round d found cid v s = elim (on_text d found cid v s) [
    | done s₁ ↦ s₁
    | failed s₁ ↦ disconnect cid s₁
  ]

  pub is_online : Presence → Bool
  is_online online = true
  is_online away = false

  -- One client of the presence sweep.
  unfoldable pub sweep_one : ℕ → Client → Server → Server
  unfolding set_client broadcast_to_all is_online
  sweep_one now c s =
      let name : Str = elim c.username [ none ↦ [] | some u ↦ u ] in
      if not (is_empty name)
        && ltb h.cfg.idle_timeout_ms (now - c.last_activity)
        && is_online c.presence
      then broadcast_to_all (Frame.presence_of name away)
          (set_client (record c { presence = away }) s)
      else s

  unfoldable pub sweep_ids : ℕ → List Str → Server → Server
  unfolding sweep_one
  sweep_ids now [] s = s
  sweep_ids now (cid ∷ cids) s =
      sweep_ids now cids (elim (get cid s.clients) [ none ↦ s | some c ↦ sweep_one now c s ])

  -- A pass of `_presence_sweep_loop` over the clients.
  unfoldable pub presence_sweep : ℕ → Server → Server
  unfolding sweep_ids
  presence_sweep now s = sweep_ids now (keys s.clients) s

unfoldable pub close_all : List Str → Server → Server
unfolding close_ws
close_all [] s = s
close_all (cid ∷ cids) s = close_all cids (close_ws cid 1001 s)

-- `shutdown`
unfoldable pub shutdown : Server → Server
unfolding close_all broadcast_to_all
shutdown s =
    let s₁ =
      broadcast_to_all
        (Frame.system_shutdown (codes "Server is shutting down. You will be disconnected.")) s in
    close_all (keys s₁.clients) s₁
