-- ===== src/Rooms/Defs.antt =====
-- server/rooms.py: the rooms, their members and the broadcast.
use group_chat.Prelude.{
  ℕ, Bool, true, false, Option, none, some, List, [], ◌∷◌, Str, Dict, get, put, pop, values, length,
  map, ite, str-discrete, ltb, ◌==◌, ◌&&◌, ◌||◌, if◌then◌else◌,
}
use group_chat.Net.{Net, enqueue, send_direct}

-- The member dictionary: its own `connected`, and whether it has a `send_queue`. Its `ws` and `loop`
-- are always there.
pub record Member : Type 0 where
  pub username : Str
  pub connected : Bool
  pub has_queue : Bool

pub record Room : Type 0 where
  pub name : Str
  pub members : Dict Member
  pub created_at : ℕ

abbrev pub Rooms : Type 0
Rooms = Dict Room

-- `_safe_send`
unfoldable pub safe_send : {P : Type 0} → Str → Member → P → Net P → Net P
unfolding enqueue send_direct
safe_send cid member payload net =
    if member.connected
    then (if member.has_queue then enqueue cid payload net else send_direct cid payload net)
    else net

unfoldable pub room_exists : Str → Rooms → Bool
room_exists name rooms = elim (get name rooms) [ none ↦ false | some _ ↦ true ]

unfoldable pub ensure_room : ℕ → Str → Rooms → Rooms
ensure_room now name rooms = elim (get name rooms) [
  | none ↦ put name (record { name = name; members = []; created_at = now }) rooms
  | some _ ↦ rooms
]

-- `room['members'][client_id] = member`, and the `pop`, on the room object in the dictionary
unfoldable pub edit_members : Str → (Dict Member → Dict Member) → Rooms → Rooms
edit_members name edit rooms = elim (get name rooms) [
  | none ↦ rooms
  | some room ↦ put name (record room { members = edit room.members }) rooms
]

unfoldable pub join : ℕ → Str → Str → Member → Rooms → Rooms
unfolding ensure_room edit_members
join now room_name cid member rooms =
    edit_members room_name (put cid member) (ensure_room now room_name rooms)

unfoldable pub leave : Str → Str → Rooms → Rooms
unfolding edit_members
leave room_name cid rooms = edit_members room_name (pop cid) rooms

-- The members of a room, none where there is no room.
unfoldable pub members_of : Str → Rooms → Dict Member
members_of name rooms = elim (get name rooms) [ none ↦ [] | some room ↦ room.members ]

get_members : Str → Rooms → List Member
unfolding members_of
get_members name rooms = values (members_of name rooms)

unfoldable pub get_usernames : Str → Rooms → List Str
unfolding get_members
get_usernames name rooms = map (λ m. m.username) (get_members name rooms)

-- `a <= b` of texts: by code points
unfoldable pub le_str : Str → Str → Bool
le_str [] t = true
le_str (a ∷ s) [] = false
le_str (a ∷ s) (b ∷ t) = ltb a b || ((a == b) && le_str s t)

pub record Listed : Type 0 where
  pub name : Str
  pub member_count : ℕ

unfoldable pub insert_sorted : Listed → List Listed → List Listed
insert_sorted r [] = r ∷ []
insert_sorted r (s ∷ l) = if le_str r.name s.name then r ∷ s ∷ l else s ∷ insert_sorted r l

-- `sorted(rooms, key=lambda r: r['name'])`
unfoldable pub sorted : List Listed → List Listed
unfolding insert_sorted le_str
sorted [] = []
sorted (r ∷ l) = insert_sorted r (sorted l)

pub listed : Room → Listed
listed r = record { name = r.name; member_count = length r.members }

unfoldable pub list_rooms : Rooms → List Listed
unfolding listed sorted values
list_rooms rooms = sorted (map listed (values rooms))

-- The loop of `broadcast` and its body; `exclude` is `exclude_client_id`.
unfoldable pub send_one : {P : Type 0} → Option Str → P → Str → Member → Net P → Net P
unfolding safe_send
send_one none payload cid member net = safe_send cid member payload net
send_one (some x) payload cid member net =
    ite (str-discrete cid x) net (safe_send cid member payload net)

unfoldable pub send_all : {P : Type 0} → Option Str → P → Dict Member → Net P → Net P
unfolding send_one
send_all exclude payload [] net = net
send_all exclude payload ((cid, member) ∷ rest) net =
    send_all exclude payload rest (send_one exclude payload cid member net)

unfoldable pub broadcast : {P : Type 0} → Str → P → Option Str → Rooms → Net P → Net P
unfolding send_all
broadcast room_name payload exclude rooms net = elim (get room_name rooms) [
  | none ↦ net
  | some room ↦ send_all exclude payload room.members net
]
