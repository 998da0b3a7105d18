-- ===== src/Server/Session/Sound.antt =====
-- Joins, changes of the room and new rooms keep the clients in their rooms and every room.
use group_chat.Prelude.{
  ◌≡◌, ◌∙◌, sym, ap, false, List, Str, codes, get, arith, if_intro, if◌then◌else◌, Option-cases,
  inl, inr,
}
use group_chat.Host.{Host, Draw}
use group_chat.Python.{Value, Fields, field_of, str, str_of}
use group_chat.Result.{Result}
use group_chat.Rooms.Defs.{room_exists, ensure_room, leave}
use group_chat.Rooms.Members.{members_of-ensure_room}
use group_chat.Rooms.Persist.{Keeps, ensure_room-Keeps, join-Keeps, leave-Keeps}
use group_chat.Server.Defs.{Client, Server, Outcome, done, state_of, is_empty, send_error, name_of}
use group_chat.Server.Handlers.{clean, handle_join, leave_old, register}
use group_chat.Server.Names.{is_valid_room_name}
use group_chat.Server.RoomHandlers.{move, handle_switch_room, handle_create_room, make_room}
use group_chat.Server.Session.JoinFrame.{begun, handle_join-parts, begun-cases, begun-IsPlaced}
use group_chat.Server.Session.Placement.{IsPlaced}
use group_chat.Server.Session.Seats.{
  Seated, Seated-IsPlaced, Seated-same, Seated-send, Seated-broadcast_to_all,
}
use group_chat.Server.Session.SwitchFrame.{switch-cases, handle_switch_room-IsPlaced}

-- From the first state to the second: the clients are placed, and no room is gone.
pub record Sound (s t : Server) : Type 0 where
  pub placed : IsPlaced t.clients t.rooms
  pub keeps : Keeps s.rooms t.rooms

abbrev pub Placed : Server → Type 0
Placed s = IsPlaced s.clients s.rooms

pub Sound-of_Seated : {s t : Server} → Placed s → Seated s t → Sound s t
Sound-of_Seated placed same = record {
  placed = Seated-IsPlaced same placed;
  keeps = λ r e. ap (room_exists r) same.rooms ∙ e;
}

pub Sound-refl : (s : Server) → Placed s → Sound s s
Sound-refl s placed = record { placed = placed; keeps = λ r e. e }

pub Sound-trans : {s t u : Server} → Sound s t → Sound t u → Sound s u
Sound-trans a b = record { placed = b.placed; keeps = λ r e. b.keeps r (a.keeps r e) }

module _ (h : Host) where
  leave_old-Keeps :
      (c : Client) (room : Str) (s : Server) → Keeps s.rooms (leave_old h c room s).rooms
  unfolding leave_old
  leave_old-Keeps c room s r e = ground (arith, leave-Keeps c.room c.id s.rooms r e)

  pub move-Keeps :
      (d : Draw) (c : Client) (name room : Str) (s : Server)
      → Keeps s.rooms (move h d c name room s).rooms
  unfolding move
  move-Keeps d c name room s r e =
      join-Keeps d.now room c.id _ (leave c.room c.id s.rooms) r
        (leave-Keeps c.room c.id s.rooms r e)

  register-Keeps :
      (d : Draw) (c : Client) (u room : Str) (s : Server)
      → Keeps s.rooms (register h d c u room s).rooms
  unfolding register
  register-Keeps d c u room s r e =
      join-Keeps d.now room c.id _ (leave_old h c room s).rooms r (leave_old-Keeps c room s r e)

  module _ (d : Draw) (found : Result (List Fields))
      (default : is_empty h.cfg.first_room ≡ false) where
    pub begun-Sound :
        (cid : Str) (frame : Fields) (s : Server) → Placed s → Sound s (begun h d found cid frame s)
    begun-Sound cid frame s placed = record {
      placed = begun-IsPlaced h d found cid frame s default placed;
      keeps = λ r e. elim (begun-cases h d found cid frame s) [
        | inl same ↦ ap (λ (t : Server). room_exists r t.rooms) same ∙ e
        | inr (c, u, _, new) ↦
            ap (λ (t : Server). room_exists r t.rooms) new ∙ register-Keeps d c u _ s r e
      ];
    }

    pub handle_join-Sound :
        (cid : Str) (frame : Fields) (s : Server)
        → Placed s
        → Sound s (state_of (handle_join h d found cid frame s))
    handle_join-Sound cid frame s placed = Sound-trans (begun-Sound cid frame s placed) (
        Sound-of_Seated (begun-Sound cid frame s placed).placed (
          Seated-same (handle_join-parts h d found cid frame s).0
            (handle_join-parts h d found cid frame s).1))

    pub handle_switch_room-Sound :
        (cid : Str) (room : Value) (s : Server)
        → Placed s
        → Sound s (state_of (handle_switch_room h d found cid room s))
    handle_switch_room-Sound cid room s placed = record {
      placed = handle_switch_room-IsPlaced h d found room s cid placed;
      keeps = λ r e. elim (switch-cases h d found room s cid) [
        | inl (_, rooms) ↦ ap (room_exists r) rooms ∙ e
        | inr (c, name, _, _, (_, rooms)) ↦
            ap (room_exists r) rooms ∙ move-Keeps d c name (str_of h.py room) s r e
      ];
    }

    make_room-Sound : (name : Str) (s : Server) → Placed s → Sound s (make_room h d name s)
    unfolding make_room
    make_room-Sound name s placed =
        if_intro (λ t. Sound s t) (room_exists name s.rooms) (λ _. made)
          (λ _. Sound-trans made (Sound-of_Seated made.placed (Seated-broadcast_to_all _ _)))
      where
        made : Sound s (record s { rooms = ensure_room d.now name s.rooms })
        made = record {
          placed = record {
            own = placed.own;
            here = λ cid r m e.
                placed.here cid r m
                  (ap (get cid) (sym (members_of-ensure_room d.now name r s.rooms)) ∙ e);
          };
          keeps = ensure_room-Keeps d.now name s.rooms;
        }

    pub handle_create_room-Sound :
        (cid : Str) (frame : Fields) (s : Server)
        → Placed s
        → Sound s (state_of (handle_create_room h d found cid frame s))
    unfolding handle_create_room state_of
    handle_create_room-Sound cid frame s placed = elim (Option-cases (get cid s.clients)) [
      | inl e ↦
          let same : handle_create_room h d found cid frame s ≡ done s = ground arith in
          rw same (Sound-refl s placed)
      | inr (c, e) ↦ elim (Option-cases (name_of c)) [
        | inl n ↦
            let same : handle_create_room h d found cid frame s ≡ done s = ground arith in
            rw same (Sound-refl s placed)
        | inr (u, n) ↦
            let t = make_room h d (clean h (field_of "room" frame)) s in
            let o = handle_switch_room h d found cid (str (clean h (field_of "room" frame))) t in
            let p : Outcome = done (
              send_error cid (codes "bad_room_name")
                (codes "Room names: 1-24 chars, letters/numbers/_/- only.") s) in
            let same : handle_create_room h d found cid frame s
                ≡ (if is_valid_room_name (str (clean h (field_of "room" frame))) then o else p) =
              ground arith in
            let made = make_room-Sound (clean h (field_of "room" frame)) s placed in
            rw same (
              if_intro (λ x. Sound s (state_of x))
                (is_valid_room_name (str (clean h (field_of "room" frame))))
                (λ _. Sound-trans made (handle_switch_room-Sound cid _ t made.placed))
                (λ _. Sound-of_Seated placed (unfold send_error in (Seated-send cid _ s))))
      ]
    ]
