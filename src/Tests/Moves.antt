-- ===== src/Tests/Moves.antt =====
-- Examples for changes of the room.
use group_chat.Prelude.{◌≡◌, ◌≢◌, refl, true, [], Str, codes, get, put, str-discrete, ◌∙◌, sym}
use group_chat.Python.{Fields, str, str_of, field_of, field_or, truth, ◌orelse◌}
use group_chat.Python.Text.{strip}
use group_chat.Result.{raise, ok}
use group_chat.Rooms.Defs.{ensure_room, room_exists, join}
use group_chat.Server.Defs.{Server, state_of, name_of}
use group_chat.Server.Handlers.{clean}
use group_chat.Server.Names.{is_valid_room_name}
use group_chat.Server.RoomHandlers.{handle_switch_room, handle_create_room, may_switch}
use group_chat.Server.Session.Moves.{
  IsMoved, guest_of, handle_switch_room-IsMoved, handle_create_room-IsMoved,
}
use group_chat.Tests.{host, draw}
use group_chat.Tests.Said.{ann, two_seated}

abbrev random : Str
random = codes "random"

-- A node with a second room.
abbrev two_rooms : Server
two_rooms = record two_seated { rooms = ensure_room 1 random two_seated.rooms }

random-other : random ≢ ann.room
random-other e = cc

may_random : may_switch host ann (str random) two_rooms ≡ true
unfolding may_switch is_valid_room_name room_exists get ensure_room join put str-discrete str_of
may_random = refl

-- The history raises, and the client has moved all the same.
handle_switch_room-IsMoved_example :
    IsMoved ann
      (str_of host.py (str random))
      (guest_of ann (codes "ann"))
      two_rooms
      (state_of (handle_switch_room host draw raise (codes "c1") (str random) two_rooms))
unfolding get str-discrete name_of str_of
handle_switch_room-IsMoved_example =
    handle_switch_room-IsMoved host draw raise ann (codes "ann") (str random) two_rooms refl refl
      may_random random-other

abbrev make_random : Fields
make_random = Fields.field "room" (str (codes " random ")) Fields.end

random_cleaned : clean host (field_of "room" make_random) ≡ random
unfolding clean field_or truth ◌orelse◌ strip str_of
random_cleaned = refl

random_valid : is_valid_room_name (str (clean host (field_of "room" make_random))) ≡ true
unfolding clean field_or truth ◌orelse◌ strip str_of is_valid_room_name
random_valid = refl

handle_create_room-IsMoved_example :
    IsMoved ann
      (clean host (field_of "room" make_random))
      (guest_of ann (codes "ann"))
      two_seated
      (state_of (handle_create_room host draw (ok []) (codes "c1") make_random two_seated))
unfolding get str-discrete name_of
handle_create_room-IsMoved_example =
    handle_create_room-IsMoved host draw (ok []) ann (codes "ann") make_random two_seated refl refl
      random_valid (λ e. random-other (sym random_cleaned ∙ e))
