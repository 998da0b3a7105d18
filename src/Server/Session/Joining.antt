-- ===== src/Server/Session/Joining.antt =====
-- A connection, a join and a change of the room keep every client in its own room only.
use group_chat.Prelude.{
  ◌≡◌, ◌≢◌, ◌⊎◌, refl, false, Option, none, some, [], ◌∷◌, Str, get, arith, Option-cases, if_intro,
  inl, inr,
}
use group_chat.Host.{Host, Draw}
use group_chat.Python.{Value, str, str_of}
use group_chat.Rooms.Defs.{Member, members_of, leave}
use group_chat.Server.Defs.{Client, Server, is_empty}
use group_chat.Server.Handlers.{leave_old, register, room_or_default}
use group_chat.Server.Names.{is_valid_room_name, match_room_name}
use group_chat.Server.RoomHandlers.{move}
use group_chat.Server.Session.{connect}
use group_chat.Server.Session.Placement.{
  IsPlaced, put-IsPlaced, get-leave_self, get-leave_other, get-leave-none,
}

-- A room that is named by a frame, or the first default room, has a name.
pub room_or_default-named :
    (h : Host) (v : Value)
    → is_empty h.cfg.first_room ≡ false
    → is_empty (room_or_default h v) ≡ false
unfolding room_or_default is_valid_room_name match_room_name str_of is_empty
room_or_default-named h (str []) e = ground arith
room_or_default-named h (str (c ∷ s)) e =
    if_intro (λ x. is_empty x ≡ false) (match_room_name (c ∷ s)) (λ _. refl) (λ _. e)
room_or_default-named h _ e = ground arith

-- A new connection keeps clients and rooms in step, where its id is new and the first default room has
-- a name.
pub connect-IsPlaced :
    (h : Host) (d : Draw) (room : Value) (username : Option Str) (s : Server)
    → is_empty h.cfg.first_room ≡ false
    → get d.uuid s.clients ≡ none
    → IsPlaced s.clients s.rooms
    → IsPlaced (connect h d room username s).clients (connect h d room username s).rooms
unfolding connect
connect-IsPlaced h d room username s default new placed =
    put-IsPlaced s.clients s.rooms placed s.rooms d.now _ _ (room_or_default-named h room default)
      (λ r _. nowhere r (Option-cases (get d.uuid (members_of r s.rooms)))) (λ j r _. refl)
  where
    nowhere :
        (r : Str)
        → (get d.uuid (members_of r s.rooms) ≡ none)
          ⊎ ((m : Member) × (get d.uuid (members_of r s.rooms) ≡ some m))
        → get d.uuid (members_of r s.rooms) ≡ none
    nowhere r (inl e) = e
    nowhere r (inr (m, e)) = let (c', found, _, _) = placed.here d.uuid r m e in cc

module _ (h : Host) (c : Client) (s : Server) (placed : IsPlaced s.clients s.rooms)
    (found : get c.id s.clients ≡ some c) where
  -- Out of the old room, the client is a member of the new room at most.
  leave_old-gone :
      (room r : Str) → room ≢ r → get c.id (members_of r (leave_old h c room s).rooms) ≡ none
  unfolding leave_old
  leave_old-gone room r other = elim (Option-cases (get c.id (members_of r s.rooms))) [
    | inl e ↦ ground (arith, get-leave-none c.room c.id r s.rooms e)
    | inr (m, e) ↦
        let (c', found', in_it, named) = placed.here c.id r m e in
        let same : c.room ≡ r = cc in let gone = get-leave_self c.room c.id s.rooms in ground arith
  ]

  leave_old-others :
      (room j r : Str)
      → c.id ≢ j
      → get j (members_of r (leave_old h c room s).rooms) ≡ get j (members_of r s.rooms)
  unfolding leave_old
  leave_old-others room j r other = ground (arith, get-leave_other c.room c.id j r s.rooms other)

  leave_old-clients : (room : Str) → (leave_old h c room s).clients ≡ s.clients
  unfolding leave_old
  leave_old-clients room = ground arith

  -- A join keeps clients and rooms in step, where the new room has a name.
  pub register-IsPlaced :
      (d : Draw) (username room : Str)
      → is_empty room ≡ false
      → IsPlaced (register h d c username room s).clients (register h d c username room s).rooms
  unfolding register
  register-IsPlaced d username room named = rw (leave_old-clients room) (
      put-IsPlaced s.clients s.rooms placed (leave_old h c room s).rooms d.now _ _ named
        (leave_old-gone room) (leave_old-others room))

  -- A change of the room keeps them in step too.
  pub move-IsPlaced :
      (d : Draw) (name room : Str)
      → is_empty room ≡ false
      → IsPlaced (move h d c name room s).clients (move h d c name room s).rooms
  unfolding move
  move-IsPlaced d name room named =
      put-IsPlaced s.clients s.rooms placed (leave c.room c.id s.rooms) d.now _ _ named
        (λ r _. left r (Option-cases (get c.id (members_of r s.rooms))))
        (λ j r other. get-leave_other c.room c.id j r s.rooms other)
    where
      left :
          (r : Str)
          → (get c.id (members_of r s.rooms) ≡ none)
            ⊎ ((m : Member) × (get c.id (members_of r s.rooms) ≡ some m))
          → get c.id (members_of r (leave c.room c.id s.rooms)) ≡ none
      left r (inl e) = get-leave-none c.room c.id r s.rooms e
      left r (inr (m, e)) =
          let (c', found', in_it, _) = placed.here c.id r m e in
          let same : c.room ≡ r = cc in rw (← same) (get-leave_self c.room c.id s.rooms)
