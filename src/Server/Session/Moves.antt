-- ===== src/Server/Session/Moves.antt =====
-- What the handlers `_handle_switch_room` and `_handle_create_room` of server/ws_server.py change.
use group_chat.Prelude.{
  ℕ, ◌≡◌, ◌≢◌, ◌∙◌, refl, sym, ap, true, false, some, List, [], ◌∷◌, Str, get, put, pop, get-put,
  keys, arith, ite, if_pos, if_neg, str-discrete, if_intro,
}
use group_chat.Host.{Host, Draw}
use group_chat.Python.{Value, Fields, str, str_of, field_of}
use group_chat.Result.{Result}
use group_chat.Rooms.Defs.{
  Member, Rooms, join, leave, members_of, room_exists, ensure_room, list_rooms,
}
use group_chat.Rooms.Members.{
  members_of-join, members_of-leave, members_of-ensure_room, room_exists-ensure_room,
}
use group_chat.Rooms.Persist.{room_exists-join, room_exists-leave, room_exists-ensure_room_self}
use group_chat.Server.Defs.{
  Client, Frame, Server, state_of, send, send_each, broadcast_to_all, to_room, notify, set_client,
  name_of,
}
use group_chat.Server.Handlers.{clean, history}
use group_chat.Server.Names.{is_valid_room_name}
use group_chat.Server.RoomHandlers.{
  may_switch, move, switch_to, switch_end, handle_switch_room, make_room, handle_create_room,
}

-- What no frame that is only sent changes.
record IsSent (s t : Server) : Type 0 where
  clients : t.clients ≡ s.clients
  rooms : t.rooms ≡ s.rooms
  usernames : t.usernames ≡ s.usernames
  peers : t.peers ≡ s.peers
  tasks : t.tasks ≡ s.tasks

send_each-IsSent :
    (cids : List Str) (frame : Frame) (s : Server) → IsSent s (send_each cids frame s)
unfolding send_each send
send_each-IsSent [] frame s = ground arith
send_each-IsSent (cid ∷ cids) frame s =
    ground (arith, send_each-IsSent cids frame (send cid frame s))

-- A client that moved from its room to the room `r`: it is a member of the new room and not of the old
-- one, the new room exists, and the other clients, members and rooms are as they were, like the names,
-- the queues to the peers and the tasks.
pub record IsMoved (c : Client) (r : Str) (guest : Member) (s t : Server) : Type 0 where
  pub mover : get c.id t.clients ≡ some (record c { room = r })
  pub others : (j : Str) → c.id ≢ j → get j t.clients ≡ get j s.clients
  pub members :
      (q : Str)
      → members_of q t.rooms
        ≡ ite
            (str-discrete r q)
            (put c.id guest (members_of q s.rooms))
            (ite (str-discrete c.room q) (pop c.id (members_of q s.rooms)) (members_of q s.rooms))
  pub rooms :
      (q : Str) → room_exists q t.rooms ≡ ite (str-discrete r q) true (room_exists q s.rooms)
  pub usernames : t.usernames ≡ s.usernames
  pub peers : t.peers ≡ s.peers
  pub tasks : t.tasks ≡ s.tasks

-- The member entry that a change of the room makes: without a queue.
abbrev pub guest_of : Client → Str → Member
guest_of c name = record { username = name; connected = c.connected; has_queue = false }

ite-twice : {P A : Type 0} (p : Dec P) (x y : A) → ite p x (ite p x y) ≡ ite p x y
ite-twice (yes _) x y = refl
ite-twice (no _) x y = refl

members_of-moved :
    (now : ℕ) (old r cid q : Str) (m : Member) (rooms : Rooms)
    → old ≢ r
    → members_of q (join now r cid m (leave old cid rooms))
      ≡ ite
          (str-discrete r q)
          (put cid m (members_of q rooms))
          (ite (str-discrete old q) (pop cid (members_of q rooms)) (members_of q rooms))
members_of-moved now old r cid q m rooms other =
    members_of-join now r cid q m (leave old cid rooms)
    ∙ elim (str-discrete r q)
        as (λ x.
          ite x (put cid m (members_of q (leave old cid rooms)))
            (members_of q (leave old cid rooms))
          ≡ ite x (put cid m (members_of q rooms))
              (ite (str-discrete old q) (pop cid (members_of q rooms)) (members_of q rooms))) [
                | yes e ↦ ap (put cid m) (
                    members_of-leave old cid q rooms
                    ∙ if_neg (str-discrete old q) (λ p. other (p ∙ sym e)) _ _)
                | no _ ↦ members_of-leave old cid q rooms
              ]

module _ (h : Host) (d : Draw) where
  -- The parts of a move.
  move-parts :
      (c : Client) (name r : Str) (s : Server)
      → ((move h d c name r s).clients ≡ put c.id (record c { room = r }) s.clients)
        × ((move h d c name r s).rooms
            ≡ join d.now r c.id (guest_of c name) (leave c.room c.id s.rooms))
        × ((move h d c name r s).usernames ≡ s.usernames)
        × ((move h d c name r s).peers ≡ s.peers)
        × ((move h d c name r s).tasks ≡ s.tasks)
  unfolding move notify to_room set_client
  move-parts c name r s = ground arith

  move-IsMoved :
      (c : Client) (name r : Str) (s : Server)
      → c.room ≢ r
      → IsMoved c r (guest_of c name) s (move h d c name r s)
  move-IsMoved c name r s other =
      let (clients, rooms, usernames, peers, tasks) = move-parts c name r s in
      record {
        mover =
            ap (get c.id) clients
            ∙ get-put c.id c.id _ s.clients
            ∙ if_pos (str-discrete c.id c.id) refl _ _;
        others = λ j ne.
            ap (get j) clients ∙ get-put c.id j _ s.clients ∙ if_neg (str-discrete c.id j) ne _ _;
        members = λ q.
            ap (members_of q) rooms
            ∙ members_of-moved d.now c.room r c.id q (guest_of c name) s.rooms other;
        rooms = λ q.
            ap (room_exists q) rooms
            ∙ room_exists-join d.now r c.id q (guest_of c name) (leave c.room c.id s.rooms)
            ∙ ap (ite (str-discrete r q) true) (room_exists-leave c.room c.id q s.rooms);
        usernames = usernames;
        peers = peers;
        tasks = tasks;
      }

  -- What the handler does after the move keeps all this.
  switch_to-IsSent :
      (found : Result (List Fields)) (c : Client) (name r : Str) (s : Server)
      → IsSent (move h d c name r s) (state_of (switch_to h d found c name r s))
  unfolding switch_to history switch_end send notify to_room state_of
  switch_to-IsSent found c name r s = ground arith

  IsMoved-sent :
      {c : Client} {r : Str} {guest : Member} {s t u : Server}
      → IsMoved c r guest s t
      → IsSent t u
      → IsMoved c r guest s u
  IsMoved-sent {c} {r} {guest} {s} {t} {u} moved sent = record {
    mover = ap (get c.id) sent.clients ∙ moved.mover;
    others = λ j ne. ap (get j) sent.clients ∙ moved.others j ne;
    members = λ q. ap (members_of q) sent.rooms ∙ moved.members q;
    rooms = λ q. ap (room_exists q) sent.rooms ∙ moved.rooms q;
    usernames = sent.usernames ∙ moved.usernames;
    peers = sent.peers ∙ moved.peers;
    tasks = sent.tasks ∙ moved.tasks;
  }

  -- A frame that asks for another room, which exists, of a client with a name: the client moves there,
  -- whatever the history is and also where it raises: it is a member of the new room and not of the old one,
  -- and the other clients, members, rooms and names, the queues to the peers and the tasks are as they
  -- were. What is queued for the clients and cached of the history is not stated.
  pub handle_switch_room-IsMoved :
      (found : Result (List Fields)) (c : Client) (name : Str) (room : Value) (s : Server)
      → get c.id s.clients ≡ some c
      → name_of c ≡ some name
      → may_switch h c room s ≡ true
      → str_of h.py room ≢ c.room
      → IsMoved c
          (str_of h.py room)
          (guest_of c name)
          s
          (state_of (handle_switch_room h d found c.id room s))
  handle_switch_room-IsMoved found c name room s here named may other =
      let same : handle_switch_room h d found c.id room s
          ≡ switch_to h d found c name (str_of h.py room) s =
        unfold handle_switch_room in (ground arith) in
      rw same (
        IsMoved-sent (move-IsMoved c name (str_of h.py room) s (λ e. other (sym e)))
          (switch_to-IsSent found c name (str_of h.py room) s))

  make_room-parts :
      (name : Str) (s : Server)
      → ((make_room h d name s).rooms ≡ ensure_room d.now name s.rooms)
        × ((make_room h d name s).clients ≡ s.clients)
        × ((make_room h d name s).usernames ≡ s.usernames)
        × ((make_room h d name s).peers ≡ s.peers)
        × ((make_room h d name s).tasks ≡ s.tasks)
  unfolding make_room broadcast_to_all
  make_room-parts name s =
      let s₁ : Server = record s { rooms = ensure_room d.now name s.rooms } in
      let sent = send_each-IsSent (keys s.clients) (Frame.room_list (list_rooms s₁.rooms)) s₁ in
      if_intro {A = Server}
        (λ t.
          (t.rooms ≡ ensure_room d.now name s.rooms)
          × (t.clients ≡ s.clients)
          × (t.usernames ≡ s.usernames)
          × (t.peers ≡ s.peers)
          × (t.tasks ≡ s.tasks))
        (room_exists name s.rooms) (λ _. (refl, refl, refl, refl, refl))
        (λ _. (sent.rooms, sent.clients, sent.usernames, sent.peers, sent.tasks))

  -- A move after a room was made sure of is a move.
  IsMoved-made :
      {c : Client} (guest : Member) (r : Str) {s t : Server}
      → IsMoved c r guest (make_room h d r s) t
      → IsMoved c r guest s t
  IsMoved-made {c} guest r {s} {t} moved =
      let (rooms, clients, usernames, peers, tasks) = make_room-parts r s in
      let same : (q : Str) → members_of q (make_room h d r s).rooms ≡ members_of q s.rooms =
        λ q. ap (members_of q) rooms ∙ members_of-ensure_room d.now r q s.rooms in
      record {
        mover = moved.mover;
        others = λ j ne. moved.others j ne ∙ ap (get j) clients;
        members = λ q.
            moved.members q
            ∙ ap
                (λ m.
                  ite (str-discrete r q) (put c.id guest m)
                    (ite (str-discrete c.room q) (pop c.id m) m))
                (same q);
        rooms = λ q.
            moved.rooms q
            ∙ ap (ite (str-discrete r q) true)
                (ap (room_exists q) rooms ∙ room_exists-ensure_room d.now r q s.rooms)
            ∙ ite-twice (str-discrete r q) true (room_exists q s.rooms);
        usernames = moved.usernames ∙ usernames;
        peers = moved.peers ∙ peers;
        tasks = moved.tasks ∙ tasks;
      }

  -- A frame that makes a room, whether it exists or is new, with a valid name, of a client with a name that
  -- is not in that room: the room exists, the client is a member of it and not of its old one, and the other
  -- clients, members, rooms and names, the queues to the peers and the tasks are as they were. What is
  -- queued for the clients and cached of the history is not stated.
  pub handle_create_room-IsMoved :
      (found : Result (List Fields)) (c : Client) (name : Str) (frame : Fields) (s : Server)
      → get c.id s.clients ≡ some c
      → name_of c ≡ some name
      → is_valid_room_name (str (clean h (field_of "room" frame))) ≡ true
      → clean h (field_of "room" frame) ≢ c.room
      → IsMoved c
          (clean h (field_of "room" frame))
          (guest_of c name)
          s
          (state_of (handle_create_room h d found c.id frame s))
  handle_create_room-IsMoved found c name frame s here named valid other =
      let r = clean h (field_of "room" frame) in
      let t = make_room h d r s in
      let (rooms, clients, _, _, _) = make_room-parts r s in
      let same : handle_create_room h d found c.id frame s
          ≡ handle_switch_room h d found c.id (str r) t =
        unfold handle_create_room in (ground arith) in
      let exists : room_exists r t.rooms ≡ true =
        ap (room_exists r) rooms ∙ room_exists-ensure_room_self d.now r s.rooms in
      let may : may_switch h c (str r) t ≡ true =
        unfold may_switch str_of in (rw (valid, exists) refl) in
      let moved : IsMoved c r (guest_of c name) t
          (state_of (handle_switch_room h d found c.id (str r) t)) =
        unfold str_of in
        (handle_switch_room-IsMoved found c name (str r) t (ap (get c.id) clients ∙ here) named may
          other) in
      rw same (IsMoved-made (guest_of c name) r moved)
