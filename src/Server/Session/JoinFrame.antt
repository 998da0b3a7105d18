-- ===== src/Server/Session/JoinFrame.antt =====
-- The whole handler of a join frame keeps every client in its own room only.
use group_chat.Prelude.{
  ◌≡◌, ◌∙◌, ap, false, ◌⊎◌, none, some, List, Str, get, arith, Option-cases, Bool-cases, inl, inr,
}
use group_chat.Host.{Host, Draw}
use group_chat.Python.{Fields, field_of}
use group_chat.Result.{Result}
use group_chat.Server.Defs.{Client, Server, is_empty, state_of, send, notify, to_room}
use group_chat.Server.Handlers.{
  handle_join, join_begin, join_end, history, register, requested_name, room_or_default,
}
use group_chat.Server.Names.{unique_username}
use group_chat.Server.Session.Joining.{register-IsPlaced, room_or_default-named}
use group_chat.Server.Session.Placement.{IsPlaced}

module _ (h : Host) (d : Draw) (found : Result (List Fields)) where
  unfoldable pub begun : Str → Fields → Server → Server
  begun cid frame s = elim (join_begin h d cid frame s) [ none ↦ s | some (u, r, s₁) ↦ s₁ ]

  pub handle_join-parts :
      (cid : Str) (frame : Fields) (s : Server)
      → ((state_of (handle_join h d found cid frame s)).clients ≡ (begun cid frame s).clients)
        × ((state_of (handle_join h d found cid frame s)).rooms ≡ (begun cid frame s).rooms)
  unfolding handle_join history join_end send notify to_room state_of begun
  handle_join-parts cid frame s = ground arith

  pub begun-cases :
      (cid : Str) (frame : Fields) (s : Server)
      → (begun cid frame s ≡ s)
        ⊎ ((c : Client) × (u : Str) × (get cid s.clients ≡ some c)
            × (begun cid frame s ≡ register h d c u (room_or_default h (field_of "room" frame)) s))
  unfolding begun join_begin
  begun-cases cid frame s = elim (Option-cases (get cid s.clients)) [
    | inl e ↦ inl (ground arith)
    | inr (c, e) ↦ elim (Bool-cases c.explicitly_joined) [
      | inl joined ↦ inl (ground arith)
      | inr new ↦
          elim (Option-cases (unique_username h.py (requested_name h c frame) s.usernames)) [
            | inl n ↦ inl (ground arith)
            | inr (u, n) ↦ inr (c, u, e, ground arith)
          ]
    ]
  ]

  pub begun-IsPlaced :
      (cid : Str) (frame : Fields) (s : Server)
      → is_empty h.cfg.first_room ≡ false
      → IsPlaced s.clients s.rooms
      → IsPlaced (begun cid frame s).clients (begun cid frame s).rooms
  begun-IsPlaced cid frame s default placed = elim (begun-cases cid frame s) [
    | inl same ↦ rw same placed
    | inr (c, u, e, new) ↦
        let own : c.id ≡ cid = placed.own cid c e in
        rw new (
          register-IsPlaced h c s placed (ap (λ i. get i s.clients) own ∙ e) d u
            (room_or_default h (field_of "room" frame))
            (room_or_default-named h (field_of "room" frame) default))
  ]

  -- A join frame keeps clients and rooms in step, also where it is refused and where the history
  -- raises, if the first default room has a name.
  handle_join-IsPlaced :
      (cid : Str) (frame : Fields) (s : Server)
      → is_empty h.cfg.first_room ≡ false
      → IsPlaced s.clients s.rooms
      → IsPlaced
          (state_of (handle_join h d found cid frame s)).clients
          (state_of (handle_join h d found cid frame s)).rooms
  handle_join-IsPlaced cid frame s default placed =
      let (clients, rooms) = handle_join-parts cid frame s in
      rw (clients, rooms) (begun-IsPlaced cid frame s default placed)
