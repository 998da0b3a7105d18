-- ===== src/Rooms/Members.antt =====
-- Who is in a room: the effect of `ensure_room`, `join` and `leave` on every room.
use group_chat.Prelude.{
  ℕ, ◌≡◌, refl, true, false, Str, Dict, get, put, pop, get-put, arith, ite, str-discrete, [],
  if_pos, ◌∙◌, Bool-cases, Option-cases, inl, inr,
}
use group_chat.Rooms.Defs.{
  Member, Rooms, room_exists, ensure_room, edit_members, join, leave, members_of,
}

-- Making sure of a room adds no member and removes none, anywhere.
pub members_of-ensure_room :
    (now : ℕ) (name r : Str) (rooms : Rooms)
    → members_of r (ensure_room now name rooms) ≡ members_of r rooms
unfolding members_of ensure_room
members_of-ensure_room now name r rooms =
    ground (arith, get-put name r (record { name = name; members = []; created_at = now }) rooms)

-- The room is there afterwards, and no other room comes or goes.
pub room_exists-ensure_room :
    (now : ℕ) (name r : Str) (rooms : Rooms)
    → room_exists r (ensure_room now name rooms)
      ≡ ite (str-discrete name r) true (room_exists r rooms)
unfolding room_exists ensure_room
room_exists-ensure_room now name r rooms =
    ground (arith, get-put name r (record { name = name; members = []; created_at = now }) rooms)

members_of-edit_members :
    (name r : Str) (edit : Dict Member → Dict Member) (rooms : Rooms)
    → room_exists name rooms ≡ true
    → members_of r (edit_members name edit rooms)
      ≡ ite (str-discrete name r) (edit (members_of r rooms)) (members_of r rooms)
unfolding members_of edit_members room_exists
members_of-edit_members name r edit rooms h = elim (Option-cases (get name rooms)) [
  | inl e ↦ ground arith
  | inr (room, e) ↦
      ground (arith, get-put name r (record room { members = edit room.members }) rooms)
]

-- Joining puts the client into that room, with the new member, and changes no other membership.
pub members_of-join :
    (now : ℕ) (name cid r : Str) (member : Member) (rooms : Rooms)
    → members_of r (join now name cid member rooms)
      ≡ ite (str-discrete name r) (put cid member (members_of r rooms)) (members_of r rooms)
unfolding join
members_of-join now name cid r member rooms =
    members_of-edit_members name r (put cid member) (ensure_room now name rooms)
      (room_exists-ensure_room now name name rooms ∙ if_pos (str-discrete name name) refl true _)
    ∙ rw (members_of-ensure_room now name r rooms)

leave_unknown :
    (name cid r : Str) (rooms : Rooms)
    → room_exists name rooms ≡ false
    → members_of r (leave name cid rooms)
      ≡ ite (str-discrete name r) (pop cid (members_of r rooms)) (members_of r rooms)
unfolding members_of leave room_exists pop
leave_unknown name cid r rooms h = ground arith

-- Leaving takes the client out of that room, and changes no other membership.
pub members_of-leave :
    (name cid r : Str) (rooms : Rooms)
    → members_of r (leave name cid rooms)
      ≡ ite (str-discrete name r) (pop cid (members_of r rooms)) (members_of r rooms)
unfolding leave
members_of-leave name cid r rooms = elim (Bool-cases (room_exists name rooms)) [
  | inl here ↦ members_of-edit_members name r (pop cid) rooms here
  | inr gone ↦ leave_unknown name cid r rooms gone
]
