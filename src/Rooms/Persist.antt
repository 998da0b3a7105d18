-- ===== src/Rooms/Persist.antt =====
-- Which rooms there are: no operation takes one away.
use group_chat.Prelude.{
  ℕ, ◌≡◌, ◌∙◌, refl, true, Str, Dict, get, put, get-put, arith, ite, if_pos, str-discrete,
  Option-cases, inl, inr,
}
use group_chat.Rooms.Defs.{Member, Rooms, room_exists, ensure_room, edit_members, join, leave}
use group_chat.Rooms.Members.{room_exists-ensure_room}

-- The rooms of the first are rooms of the second.
abbrev pub Keeps : Rooms → Rooms → Type 0
Keeps rooms rooms' = (r : Str) → room_exists r rooms ≡ true → room_exists r rooms' ≡ true

room_exists-edit_members :
    (name r : Str) (edit : Dict Member → Dict Member) (rooms : Rooms)
    → room_exists r (edit_members name edit rooms) ≡ room_exists r rooms
unfolding room_exists edit_members
room_exists-edit_members name r edit rooms = elim (Option-cases (get name rooms)) [
  | inl e ↦ ground arith
  | inr (room, e) ↦
      ground (arith, get-put name r (record room { members = edit room.members }) rooms)
]

pub ensure_room-Keeps :
    (now : ℕ) (name : Str) (rooms : Rooms) → Keeps rooms (ensure_room now name rooms)
ensure_room-Keeps now name rooms r h =
    room_exists-ensure_room now name r rooms
    ∙ elim (str-discrete name r) as (λ x. ite x true (room_exists r rooms) ≡ true) [
      | yes p ↦ refl
      | no p ↦ h
    ]

pub room_exists-ensure_room_self :
    (now : ℕ) (name : Str) (rooms : Rooms) → room_exists name (ensure_room now name rooms) ≡ true
room_exists-ensure_room_self now name rooms =
    room_exists-ensure_room now name name rooms ∙ if_pos (str-discrete name name) refl true _

pub join-Keeps :
    (now : ℕ) (name cid : Str) (m : Member) (rooms : Rooms)
    → Keeps rooms (join now name cid m rooms)
unfolding join
join-Keeps now name cid m rooms r h =
    room_exists-edit_members name r (put cid m) (ensure_room now name rooms)
    ∙ ensure_room-Keeps now name rooms r h

pub leave-Keeps : (name cid : Str) (rooms : Rooms) → Keeps rooms (leave name cid rooms)
unfolding leave
leave-Keeps name cid rooms r h = room_exists-edit_members name r _ rooms ∙ h

-- After a join its room is there, and the other rooms are as they were; a leave changes none.
pub room_exists-join :
    (now : ℕ) (name cid r : Str) (m : Member) (rooms : Rooms)
    → room_exists r (join now name cid m rooms)
      ≡ ite (str-discrete name r) true (room_exists r rooms)
unfolding join
room_exists-join now name cid r m rooms =
    room_exists-edit_members name r (put cid m) (ensure_room now name rooms)
    ∙ room_exists-ensure_room now name r rooms

pub room_exists-leave :
    (name cid r : Str) (rooms : Rooms) → room_exists r (leave name cid rooms) ≡ room_exists r rooms
unfolding leave
room_exists-leave name cid r rooms = room_exists-edit_members name r _ rooms
