-- ===== src/Server/Session/Seats.antt =====
-- Steps that move no client: the rooms stay, and every client keeps its id and its room.
use group_chat.Prelude.{
  ℕ, ◌≡◌, ◌∙◌, refl, sym, ap, false, Option, none, some, List, [], ◌∷◌, Str, Dict, get, put,
  get-put, keys, arith, if_pos, if_neg, str-discrete, Option-cases, Bool-cases, inl, inr,
}
use group_chat.Server.Defs.{
  Client, Server, Frame, send, send_each, broadcast_to_all, close_ws, set_client,
}
use group_chat.Server.Session.Placement.{IsPlaced}

-- Where a client sits.
pub seat : Option Client → Option (Str × Str)
seat none = none
seat (some c) = some (c.id, c.room)

pub record Seated (s t : Server) : Type 0 where
  pub rooms : t.rooms ≡ s.rooms
  pub seats : (cid : Str) → seat (get cid t.clients) ≡ seat (get cid s.clients)

seat-eq_some :
    (o : Option Client) {i r : Str}
    → seat o ≡ some (i, r)
    → (c : Client) × (o ≡ some c) × (c.id ≡ i) × (c.room ≡ r)
unfolding seat
seat-eq_some none e = cc
seat-eq_some (some c) e = (c, refl, cc, cc)

module _ {s t : Server} (same : Seated s t) where
  -- The client that sits where one of the other state sits.
  there :
      (cid : Str) (c : Client)
      → get cid t.clients ≡ some c
      → (c' : Client) × (get cid s.clients ≡ some c') × (c'.id ≡ c.id) × (c'.room ≡ c.room)
  unfolding seat
  there cid c e = seat-eq_some (get cid s.clients) (sym (same.seats cid) ∙ ap seat e)

  back :
      (cid : Str) (c : Client)
      → get cid s.clients ≡ some c
      → (c' : Client) × (get cid t.clients ≡ some c') × (c'.id ≡ c.id) × (c'.room ≡ c.room)
  unfolding seat
  back cid c e = seat-eq_some (get cid t.clients) (same.seats cid ∙ ap seat e)

  pub Seated-IsPlaced : IsPlaced s.clients s.rooms → IsPlaced t.clients t.rooms
  Seated-IsPlaced placed = record {
    own = λ cid c e. let (c', found, i, r) = there cid c e in sym i ∙ placed.own cid c' found;
    here = λ cid r m e.
        let (c, found, room, named) = placed.here cid r m (rw (← same.rooms) e) in
        let (c', found', i, r') = back cid c found in (c', found', r' ∙ room, named);
  }

pub Seated-refl : (s : Server) → Seated s s
Seated-refl s = record { rooms = refl; seats = λ cid. refl }

pub Seated-trans : {s t u : Server} → Seated s t → Seated t u → Seated s u
Seated-trans a b = record { rooms = b.rooms ∙ a.rooms; seats = λ cid. b.seats cid ∙ a.seats cid }

-- The same clients and rooms.
pub Seated-same : {s t : Server} → t.clients ≡ s.clients → t.rooms ≡ s.rooms → Seated s t
Seated-same {s} {t} e r = record { rooms = r; seats = λ cid. ap (λ d. seat (get cid d)) e }

pub seats-put :
    (cid j : Str) (c c' : Client) (d : Dict Client)
    → get cid d ≡ some c
    → c'.id ≡ c.id
    → c'.room ≡ c.room
    → seat (get j (put cid c' d)) ≡ seat (get j d)
unfolding seat
seats-put cid j c c' d found same room = elim (str-discrete cid j) [
  | yes p ↦
      let old : get j d ≡ some c = ap (λ i. get i d) (sym p) ∙ found in
      let new : get j (put cid c' d) ≡ some c' =
        get-put cid j c' d ∙ if_pos (str-discrete cid j) p _ _ in
      rw (old, new) (cc)
  | no p ↦ ap seat (get-put cid j c' d ∙ if_neg (str-discrete cid j) p _ _)
]

-- A client is written back with its id and its room.
pub Seated-set_client :
    (c c' : Client) (s : Server)
    → get c.id s.clients ≡ some c
    → c'.id ≡ c.id
    → c'.room ≡ c.room
    → Seated s (set_client c' s)
unfolding set_client
Seated-set_client c c' s found same room = record {
  rooms = refl;
  seats = λ j. seats-put c'.id j c c' s.clients (ap (λ i. get i s.clients) same ∙ found) same room;
}

pub Seated-send : (cid : Str) (frame : Frame) (s : Server) → Seated s (send cid frame s)
unfolding send
Seated-send cid frame s = Seated-same (ground arith) (ground arith)

Seated-send_each :
    (cids : List Str) (frame : Frame) (s : Server) → Seated s (send_each cids frame s)
unfolding send_each
Seated-send_each [] frame s = Seated-refl s
Seated-send_each (cid ∷ cids) frame s =
    Seated-trans (Seated-send cid frame s) (Seated-send_each cids frame (send cid frame s))

pub Seated-broadcast_to_all : (frame : Frame) (s : Server) → Seated s (broadcast_to_all frame s)
unfolding broadcast_to_all
Seated-broadcast_to_all frame s = Seated-send_each (keys s.clients) frame s

pub Seated-close_ws : (cid : Str) (code : ℕ) (s : Server) → Seated s (close_ws cid code s)
unfolding close_ws
Seated-close_ws cid code s = elim (Option-cases (get cid s.clients)) [
  | inl e ↦ Seated-same (ground arith) (ground arith)
  | inr (c, e) ↦ elim (Bool-cases c.connected) [
    | inl on ↦ record {
      rooms = ground arith;
      seats = λ j.
          let same : (close_ws cid code s).clients
              ≡ put cid (record c { connected = false }) s.clients =
            ground arith in
          ap (λ d. seat (get j d)) same
          ∙ seats-put cid j c (record c { connected = false }) s.clients e refl refl;
    }
    | inr off ↦ Seated-same (ground arith) (ground arith)
  ]
]
