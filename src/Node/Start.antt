-- ===== src/Node/Start.antt =====
-- A node from its start: `__init__` of server/ws_server.py makes the default rooms, and any steps follow.
use mathlib.Core.Path.{subst}
use group_chat.Prelude.{ℕ, ◌≡◌, ◌∙◌, refl, sym, ap, true, false, none, List, [], ◌∷◌, Str, get, All}
use group_chat.Config.{default_rooms}
use group_chat.Host.{Host}
use group_chat.Node.Runs.{Run-Sound}
use group_chat.Node.Steps.{Run, IsStart}
use group_chat.Rooms.Defs.{Rooms, room_exists, ensure_room, members_of}
use group_chat.Rooms.Members.{members_of-ensure_room}
use group_chat.Rooms.Persist.{Keeps, ensure_room-Keeps, room_exists-ensure_room_self}
use group_chat.Server.Defs.{Server, is_empty}
use group_chat.Server.Session.{make_rooms, init_rooms}
use group_chat.Server.Session.Placement.{IsPlaced}

All-Keeps :
    (rooms rooms' : Rooms) (names : List Str)
    → Keeps rooms rooms'
    → All (λ r. room_exists r rooms ≡ true) names
    → All (λ r. room_exists r rooms' ≡ true) names
All-Keeps rooms rooms' [] k h = h
All-Keeps rooms rooms' (r ∷ rs) k h = (k r h.0, All-Keeps rooms rooms' rs k h.1)

module _ (h : Host) where
  make_rooms-Keeps :
      (now : ℕ) (names : List Str) (rooms : Rooms) → Keeps rooms (make_rooms h now names rooms)
  unfolding make_rooms
  make_rooms-Keeps now [] rooms r e = e
  make_rooms-Keeps now (n ∷ ns) rooms r e =
      make_rooms-Keeps now ns (ensure_room now n rooms) r (ensure_room-Keeps now n rooms r e)

  make_rooms-made :
      (now : ℕ) (names : List Str) (rooms : Rooms)
      → All (λ r. room_exists r (make_rooms h now names rooms) ≡ true) names
  unfolding make_rooms
  make_rooms-made now [] rooms = tt
  make_rooms-made now (n ∷ ns) rooms = (
    make_rooms-Keeps now ns (ensure_room now n rooms) n (room_exists-ensure_room_self now n rooms),
    make_rooms-made now ns (ensure_room now n rooms),
  )

  members_of-make_rooms :
      (now : ℕ) (names : List Str) (r : Str) (rooms : Rooms)
      → members_of r (make_rooms h now names rooms) ≡ members_of r rooms
  unfolding make_rooms
  members_of-make_rooms now [] r rooms = refl
  members_of-make_rooms now (n ∷ ns) r rooms =
      members_of-make_rooms now ns r (ensure_room now n rooms)
      ∙ members_of-ensure_room now n r rooms

  start-IsPlaced : (now : ℕ) (s : Server) → IsStart h now s → IsPlaced s.clients s.rooms
  unfolding get members_of init_rooms
  start-IsPlaced now s start = record {
    own = λ cid c e. (let gone : get cid s.clients ≡ none = ap (get cid) start.no_clients in cc);
    here = λ cid r m e.
        (let gone : members_of r s.rooms ≡ [] =
            rw start.rooms (members_of-make_rooms now (default_rooms h.cfg) r []) in
          let none_there : get cid (members_of r s.rooms) ≡ none = ap (get cid) gone in cc);
  }

  start-rooms :
      (now : ℕ) (s : Server)
      → IsStart h now s
      → All (λ r. room_exists r s.rooms ≡ true) (default_rooms h.cfg)
  unfolding init_rooms
  start-rooms now s start =
      subst (λ rooms. All (λ r. room_exists r rooms ≡ true) (default_rooms h.cfg)) (sym start.rooms)
        (make_rooms-made now (default_rooms h.cfg) [])

  -- In every run of a node whose first default room has a name, whatever clients, peers, requests and
  -- timers do and in whatever order the steps of different connections come: every client stands under
  -- its id, every member of a room is a client whose room is that one, and the default rooms exist.
  pub Run-IsPlaced :
      (now : ℕ) (s t : Server)
      → is_empty h.cfg.first_room ≡ false
      → IsStart h now s
      → Run h s t
      → IsPlaced t.clients t.rooms × All (λ r. room_exists r t.rooms ≡ true) (default_rooms h.cfg)
  Run-IsPlaced now s t default start run =
      let sound = Run-Sound h default (start-IsPlaced now s start) run in
      (
        sound.placed,
        All-Keeps s.rooms t.rooms (default_rooms h.cfg) sound.keeps (start-rooms now s start),
      )
