-- ===== src/Tests/Rooms.antt =====
-- Examples for the rooms and the peers' queues.
use group_chat.Prelude.{
  ℕ, ◌≡◌, ◌≤◌, refl, true, none, List, [], ◌∷◌, Str, codes, get, str-discrete, length,
}
use group_chat.Gossip.{peer_queue_size}
use group_chat.Gossip.Ring.{publishes, publishes-ring}
use group_chat.Net.{Net}
use group_chat.Ring.{newest}
use group_chat.Rooms.Defs.{Member, Rooms, members_of, broadcast}
use group_chat.Rooms.Broadcast.{queue_after, queue-broadcast}

abbrev ann : Member
ann = record { username = codes "Ann"; connected = true; has_queue = true }

abbrev lobby : Str
lobby = codes "lobby"

abbrev cid : Str
cid = codes "c1"

abbrev rooms : Rooms
rooms = (lobby, record { name = lobby; members = (cid, ann) ∷ []; created_at = 1 }) ∷ []

abbrev net : Net ℕ
net = record { queues = (cid, 1 ∷ []) ∷ []; direct = [] }

queue-broadcast_example :
    get cid (broadcast lobby 2 none rooms net).queues
    ≡ queue_after none 2 (get cid (members_of lobby rooms)) cid net
unfolding str-discrete members_of get
queue-broadcast_example = queue-broadcast none 2 lobby rooms cid net (refl, tt)

abbrev given : List ℕ
given = 1 ∷ 2 ∷ []

publishes-ring_example :
    (publishes given [] ≡ newest peer_queue_size given)
    × (length (publishes given []) ≤ peer_queue_size)
publishes-ring_example = publishes-ring given

abbrev queued : List ℕ
queued = 1 ∷ 2 ∷ 3 ∷ []
