-- ===== src/Tests/Names.antt =====
-- Examples for the names.
use group_chat.Prelude.{◌≡◌, ◌↔◌, true, [], ◌∷◌, Str, codes, Dict}
use group_chat.Server.Names.{match_room_name}
use group_chat.Server.Names.RoomNames.{IsRoomName, match_room_name_iff}

match_room_name_iff_example : (match_room_name (codes "lobby") ≡ true) ↔ IsRoomName (codes "lobby")
match_room_name_iff_example = match_room_name_iff (codes "lobby")

abbrev taken : Dict Str
taken = (codes "ann", codes "c1") ∷ []
