-- ===== src/Server/Session/SwitchFrame.antt =====
-- The whole handler of a change of the room keeps every client in its own room only.
use group_chat.Prelude.{
  ◌≡◌, ◌∙◌, refl, ap, true, false, ◌⊎◌, some, List, [], ◌∷◌, Str, get, arith, Option-cases,
  Bool-cases, inl, inr, str-discrete,
}
use group_chat.Host.{Host, Draw}
use group_chat.Python.{Value, Fields, str, str_of}
use group_chat.Result.{Result}
use group_chat.Server.Defs.{
  Client, Server, is_empty, state_of, send, send_error, notify, to_room, name_of,
}
use group_chat.Server.Handlers.{history}
use group_chat.Server.Names.{is_valid_room_name, match_room_name}
use group_chat.Server.RoomHandlers.{handle_switch_room, switch_to, switch_end, may_switch, move}
use group_chat.Server.Session.Joining.{move-IsPlaced}
use group_chat.Server.Session.Placement.{IsPlaced}

pub valid-named :
    (h : Host) (v : Value) → is_valid_room_name v ≡ true → is_empty (str_of h.py v) ≡ false
unfolding is_valid_room_name match_room_name str_of is_empty
valid-named h (str []) e = cc
valid-named h (str (c ∷ s)) e = refl
valid-named h _ e = cc

module _ (h : Host) (d : Draw) (found : Result (List Fields)) (room : Value) (s : Server) where
  switch_to-parts :
      (c : Client) (name new : Str)
      → ((state_of (switch_to h d found c name new s)).clients ≡ (move h d c name new s).clients)
        × ((state_of (switch_to h d found c name new s)).rooms ≡ (move h d c name new s).rooms)
  unfolding switch_to history switch_end send notify to_room state_of
  switch_to-parts c name new = ground arith

  -- The clients and the rooms of a node that are those of another.
  abbrev Same : Server → Server → Type 0
  Same t u = (t.clients ≡ u.clients) × (t.rooms ≡ u.rooms)

  pub switch-cases :
      (cid : Str)
      → Same (state_of (handle_switch_room h d found cid room s)) s
        ⊎ ((c : Client) × (name : Str) × (get cid s.clients ≡ some c)
            × (is_valid_room_name room ≡ true)
            × Same
                (state_of (handle_switch_room h d found cid room s))
                (move h d c name (str_of h.py room) s))
  unfolding handle_switch_room may_switch send_error send state_of
  switch-cases cid = elim (Option-cases (get cid s.clients)) [
    | inl e ↦ inl (ground arith)
    | inr (c, e) ↦ elim (Option-cases (name_of c)) [
      | inl n ↦ inl (ground arith)
      | inr (name, n) ↦ elim (Bool-cases (may_switch h c room s)) [
        | inr refused ↦ inl (ground arith)
        | inl may ↦ elim (str-discrete (str_of h.py room) c.room) [
          | yes p ↦ inl (ground arith)
          | no p ↦
              inr (
                c,
                name,
                e,
                ground arith,
                ground (arith, switch_to-parts c name (str_of h.py room)),
              )
        ]
      ]
    ]
  ]

  -- A frame that asks for another room keeps clients and rooms in step, also where it is refused and
  -- where the history raises.
  pub handle_switch_room-IsPlaced :
      (cid : Str)
      → IsPlaced s.clients s.rooms
      → IsPlaced
          (state_of (handle_switch_room h d found cid room s)).clients
          (state_of (handle_switch_room h d found cid room s)).rooms
  handle_switch_room-IsPlaced cid placed = elim (switch-cases cid) [
    | inl (clients, rooms) ↦ rw (clients, rooms) placed
    | inr (c, name, e, valid, (clients, rooms)) ↦
        rw (clients, rooms)
          (move-IsPlaced h c s placed (ap (λ i. get i s.clients) (placed.own cid c e) ∙ e) d name
            (str_of h.py room) (valid-named h room valid))
  ]
