-- ===== src/Server/Session/Placement.antt =====
-- A client is a member of its own room only, and a closed connection is a member nowhere.
use group_chat.Prelude.{
  ℕ, ◌≡◌, ◌≢◌, ◌∙◌, refl, sym, ap, false, none, some, Str, Dict, get, pop, put, get-pop, get-put,
  arith, ite, if_pos, if_neg, str-discrete, if◌then◌else◌, Option-cases, inl, inr,
}
use group_chat.Host.{Host}
use group_chat.Rooms.Defs.{Member, Rooms, members_of, join, leave}
use group_chat.Rooms.Members.{members_of-join, members_of-leave}
use group_chat.Server.Defs.{Client, Server, is_empty, notify, to_room}
use group_chat.Server.Session.{close_client, disconnect}

-- Every client stands under its own id. Every member of a room is a client whose room is this one, and
-- that room has a name.
pub record IsPlaced (clients : Dict Client) (rooms : Rooms) : Type 0 where
  pub own : (cid : Str) (c : Client) → get cid clients ≡ some c → c.id ≡ cid
  pub here :
      (cid r : Str) (m : Member)
      → get cid (members_of r rooms) ≡ some m
      → (c : Client) × (get cid clients ≡ some c) × (c.room ≡ r) × (is_empty r ≡ false)

pub get-leave_self :
    (name cid : Str) (rooms : Rooms) → get cid (members_of name (leave name cid rooms)) ≡ none
get-leave_self name cid rooms =
    rw
      (
        members_of-leave name cid name rooms,
        if_pos (str-discrete name name) refl (pop cid (members_of name rooms))
            (members_of name rooms),
      )
      (get-pop cid cid (members_of name rooms) ∙ if_pos (str-discrete cid cid) refl none _)

pub get-leave_other :
    (name cid j r : Str) (rooms : Rooms)
    → cid ≢ j
    → get j (members_of r (leave name cid rooms)) ≡ get j (members_of r rooms)
get-leave_other name cid j r rooms other =
    rw (members_of-leave name cid r rooms)
      (elim (str-discrete name r)
        as (λ x.
          get j (ite x (pop cid (members_of r rooms)) (members_of r rooms))
          ≡ get j (members_of r rooms)) [
            | yes p ↦ get-pop cid j (members_of r rooms) ∙ if_neg (str-discrete cid j) other none _
            | no p ↦ refl
          ])

pub get-leave-none :
    (name cid r : Str) (rooms : Rooms)
    → get cid (members_of r rooms) ≡ none
    → get cid (members_of r (leave name cid rooms)) ≡ none
get-leave-none name cid r rooms h =
    rw (members_of-leave name cid r rooms)
      (elim (str-discrete name r)
        as (λ x. get cid (ite x (pop cid (members_of r rooms)) (members_of r rooms)) ≡ none) [
          | yes p ↦ get-pop cid cid (members_of r rooms) ∙ if_pos (str-discrete cid cid) refl none _
          | no p ↦ h
        ])

-- The rooms after a client that has the room `name` is taken out.
unfoldable pub out_of : Str → Str → Rooms → Rooms
out_of name cid rooms = if is_empty name then rooms else leave name cid rooms

get-out_of_other :
    (name cid j r : Str) (rooms : Rooms)
    → cid ≢ j
    → get j (members_of r (out_of name cid rooms)) ≡ get j (members_of r rooms)
unfolding out_of
get-out_of_other name cid j r rooms other = ground (arith, get-leave_other name cid j r rooms other)

module _ (clients : Dict Client) (rooms : Rooms) (placed : IsPlaced clients rooms) where
  out_of-nowhere :
      (c : Client) (cid r : Str)
      → get cid clients ≡ some c
      → get cid (members_of r (out_of c.room cid rooms)) ≡ none
  unfolding out_of
  out_of-nowhere c cid r found = elim (Option-cases (get cid (members_of r rooms))) [
    | inl none_here ↦ ground (arith, get-leave-none c.room cid r rooms none_here)
    | inr (m, e) ↦
        let (c', found', room, named) = placed.here cid r m e in
        let same : c'.room ≡ c.room = cc in
        let gone = get-leave_self c.room cid rooms in ground arith
  ]

  pop-IsPlaced :
      (c : Client) (cid : Str)
      → get cid clients ≡ some c
      → IsPlaced (pop cid clients) (out_of c.room cid rooms)
  pop-IsPlaced c cid found = record {
    own = λ j c' e. placed.own j c' (ground (arith, get-pop cid j clients));
    here = λ j r m e. stays j r m e (str-discrete cid j);
  }
    where
      stays :
          (j r : Str) (m : Member)
          → get j (members_of r (out_of c.room cid rooms)) ≡ some m
          → Dec (cid ≡ j)
          → (c' : Client) × (get j (pop cid clients) ≡ some c')
            × (c'.room ≡ r)
            × (is_empty r ≡ false)
      stays j r m e (yes p) =
          let gone : get j (members_of r (out_of c.room cid rooms)) ≡ none =
            rw (← p) (out_of-nowhere c cid r found) in
          cc
      stays j r m e (no p) =
          let (c', found', room, named) =
            placed.here j r m (sym (get-out_of_other c.room cid j r rooms p) ∙ e) in
          (c', get-pop cid j clients ∙ if_neg (str-discrete cid j) p none _ ∙ found', room, named)

close_client-parts :
    (h : Host) (c : Client) (s : Server)
    → ((close_client h c s).clients ≡ pop c.id s.clients)
      × ((close_client h c s).rooms ≡ out_of c.room c.id s.rooms)
unfolding close_client notify to_room out_of
close_client-parts h c s = ground arith

pub disconnect-parts :
    (h : Host) (cid : Str) (c : Client) (s : Server)
    → get cid s.clients ≡ some c
    → c.id ≡ cid
    → ((disconnect h cid s).clients ≡ pop cid s.clients)
      × ((disconnect h cid s).rooms ≡ out_of c.room cid s.rooms)
unfolding disconnect
disconnect-parts h cid c s found same = ground (arith, close_client-parts h c s)

-- The end of a connection keeps clients and rooms in step, and afterwards the connection's client is a
-- member of no room.
pub disconnect-IsPlaced :
    (h : Host) (cid : Str) (c : Client) (s : Server)
    → IsPlaced s.clients s.rooms
    → get cid s.clients ≡ some c
    → IsPlaced (disconnect h cid s).clients (disconnect h cid s).rooms
      × ((r : Str) → get cid (members_of r (disconnect h cid s).rooms) ≡ none)
disconnect-IsPlaced h cid c s placed found =
    let (clients, rooms) = disconnect-parts h cid c s found (placed.own cid c found) in
    rw (clients, rooms)
      (
        pop-IsPlaced s.clients s.rooms placed c cid found,
        λ r. out_of-nowhere s.clients s.rooms placed c cid r found,
      )

get-join_other :
    (now : ℕ) (name cid j r : Str) (m : Member) (rooms : Rooms)
    → cid ≢ j
    → get j (members_of r (join now name cid m rooms)) ≡ get j (members_of r rooms)
get-join_other now name cid j r m rooms other =
    rw (members_of-join now name cid r m rooms)
      (elim (str-discrete name r)
        as (λ x.
          get j (ite x (put cid m (members_of r rooms)) (members_of r rooms))
          ≡ get j (members_of r rooms)) [
            | yes p ↦ get-put cid j m (members_of r rooms) ∙ if_neg (str-discrete cid j) other _ _
            | no p ↦ refl
          ])

get-join_elsewhere :
    (now : ℕ) (name cid r : Str) (m : Member) (rooms : Rooms)
    → name ≢ r
    → get cid (members_of r (join now name cid m rooms)) ≡ get cid (members_of r rooms)
get-join_elsewhere now name cid r m rooms other =
    ap (get cid) (members_of-join now name cid r m rooms ∙ if_neg (str-discrete name r) other _ _)

-- A client that goes into its room, from rooms in which it is a member of no other.
module _ (clients : Dict Client) (rooms : Rooms) (placed : IsPlaced clients rooms)
    (rooms₁ : Rooms) where
  pub put-IsPlaced :
      (now : ℕ) (c : Client) (m : Member)
      → is_empty c.room ≡ false
      → ((r : Str) → c.room ≢ r → get c.id (members_of r rooms₁) ≡ none)
      → ((j r : Str) → c.id ≢ j → get j (members_of r rooms₁) ≡ get j (members_of r rooms))
      → IsPlaced (put c.id c clients) (join now c.room c.id m rooms₁)
  put-IsPlaced now c m named gone others = record {
    own = λ j c' e. keeps j c' e (str-discrete c.id j);
    here = λ j r m' e. stays j r m' e (str-discrete c.id j) (str-discrete c.room r);
  }
    where
      Here : Str → Str → Type 0
      Here j r =
          (c' : Client) × (get j (put c.id c clients) ≡ some c')
          × (c'.room ≡ r)
          × (is_empty r ≡ false)

      keeps :
          (j : Str) (c' : Client)
          → get j (put c.id c clients) ≡ some c'
          → Dec (c.id ≡ j)
          → c'.id ≡ j
      keeps j c' e (yes p) =
          let same = get-put c.id j c clients ∙ if_pos (str-discrete c.id j) p _ _ in
          let it : c ≡ c' = cc in ap (λ (x : Client). x.id) (sym it) ∙ p
      keeps j c' e (no p) =
          placed.own j c' (sym (get-put c.id j c clients ∙ if_neg (str-discrete c.id j) p _ _) ∙ e)

      stays :
          (j r : Str) (m' : Member)
          → get j (members_of r (join now c.room c.id m rooms₁)) ≡ some m'
          → Dec (c.id ≡ j)
          → Dec (c.room ≡ r)
          → Here j r
      stays j r m' e (yes p) (yes q) = (
        c,
        get-put c.id j c clients ∙ if_pos (str-discrete c.id j) p _ _,
        q,
        ap is_empty (sym q) ∙ named,
      )
      stays j r m' e (yes p) (no q) =
          let away = get-join_elsewhere now c.room c.id r m rooms₁ q ∙ gone r q in
          let away_j : get j (members_of r (join now c.room c.id m rooms₁)) ≡ none =
            rw (← p) away in
          cc
      stays j r m' e (no p) q =
          let (c', found', room, n) =
            placed.here j r m'
              (sym (get-join_other now c.room c.id j r m rooms₁ p ∙ others j r p) ∙ e) in
          (c', get-put c.id j c clients ∙ if_neg (str-discrete c.id j) p _ _ ∙ found', room, n)
