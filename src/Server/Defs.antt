-- ===== src/Server/Defs.antt =====
-- server/ws_server.py: the clients, the frames and the ways to send one. Python's `client`
-- dictionary is one object, found by its id, so a handler changes it in `clients`.
use group_chat.Prelude.{
  ℕ, Bool, true, false, Option, none, some, List, [], ◌∷◌, ◌++◌, Str, Dict, get, put, keys,
  if◌then◌else◌,
}
use group_chat.Crypto.{Bytes, KeyPair}
use group_chat.Gossip.{Gossip}
use group_chat.Net.{Net, enqueue}
use group_chat.Python.{Value, Fields}
use group_chat.Rooms.Defs.{Rooms, Listed, get_usernames, broadcast}
use group_chat.Store.Defs.{Store, History}

pub data Presence : Type 0 where
  online away : Presence

-- The `client` dictionary. The token bucket allows everything and holds nothing.
pub record Client : Type 0 where
  pub id : Str
  pub connected : Bool
  pub username : Option Str
  pub room : Str
  pub is_admin : Bool
  pub muted : Bool
  pub presence : Presence
  pub last_activity : ℕ
  pub explicitly_joined : Bool
  pub key_pair : Option KeyPair

-- The JSON objects that a client is sent, one constructor for each `type`.
pub data Frame : Type 0 where
  error : Str → Str → Frame
  presence_of : Str → Presence → Frame
  message : Fields → Frame
  delivered : Str → Frame
  private_message : Fields → Frame
  notification : Str → List Str → Str → Frame
  welcome : Str → Str → Bool → List Str → List Listed → List Str → History → Frame
  room_list : List Listed → Frame
  room_switched : Str → List Str → History → Frame
  typing : Str → Str → Frame
  kicked : Str → Frame
  system_shutdown : Str → Frame

-- What `asyncio.create_task` is given: work for the thread pool, done at any later time.
pub data Task : Type 0 where
  save_public_key : Str → Bytes → Task
  append : Value → Fields → Option Bytes → Task

-- The node: the server's dictionaries, the rooms, the frames on their way, the sockets told to close,
-- the store, the peers' queues and the tasks.
pub record Server : Type 0 where
  pub clients : Dict Client
  pub usernames : Dict Str
  pub rooms : Rooms
  pub net : Net Frame
  pub closing : List (Str × ℕ)
  pub store : Store
  pub peers : Dict (List Gossip)
  pub tasks : List Task

unfoldable pub set_client : Client → Server → Server
set_client c s = record s { clients = put c.id c s.clients }

-- `_send`: a client has a queue from its connection on.
unfoldable pub send : Str → Frame → Server → Server
unfolding enqueue
send cid frame s = elim (get cid s.clients) [
  | none ↦ s
  | some c ↦ if c.connected then record s { net = enqueue cid frame s.net } else s
]

unfoldable pub send_error : Str → Str → Str → Server → Server
unfolding send
send_error cid code text s = send cid (error code text) s

-- `_close_ws`
unfoldable pub close_ws : Str → ℕ → Server → Server
close_ws cid code s = elim (get cid s.clients) [
  | none ↦ s
  | some c ↦
      if c.connected
      then record s {
        clients = put cid (record c { connected = false }) s.clients;
        closing = s.closing ++ (cid, code) ∷ [];
      }
      else s
]

-- The loop of `_broadcast_to_all` over the list of ids that was made before it.
unfoldable pub send_each : List Str → Frame → Server → Server
unfolding send
send_each [] frame s = s
send_each (cid ∷ cids) frame s = send_each cids frame (send cid frame s)

unfoldable pub broadcast_to_all : Frame → Server → Server
unfolding send_each keys
broadcast_to_all frame s = send_each (keys s.clients) frame s

-- `self.room_manager.broadcast`
unfoldable pub to_room : Str → Frame → Option Str → Server → Server
to_room room frame exclude s = record s { net = broadcast room frame exclude s.rooms s.net }

-- The notification that a user joined, left, was muted or unmuted: `text` is its wording.
unfoldable pub notify : Str → Str → Option Str → Server → Server
unfolding to_room
notify room text exclude s =
    to_room room (notification text (get_usernames room s.rooms) room) exclude s

unfoldable pub add_task : Task → Server → Server
add_task t s = record s { tasks = s.tasks ++ t ∷ [] }

-- `if client['username']`: the name, unless it is absent or empty.
unfoldable pub name_of : Client → Option Str
name_of c = elim c.username [ none ↦ none | some [] ↦ none | some (ch ∷ name) ↦ some (ch ∷ name) ]

unfoldable pub is_empty : Str → Bool
is_empty [] = true
is_empty (ch ∷ s) = false

-- How a handler ends: normally, or with an exception, which ends the connection.
pub data Outcome : Type 0 where
  done : Server → Outcome
  failed : Server → Outcome

-- The state that an outcome leaves.
unfoldable pub state_of : Outcome → Server
state_of (done s) = s
state_of (failed s) = s
