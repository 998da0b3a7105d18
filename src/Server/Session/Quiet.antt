-- ===== src/Server/Session/Quiet.antt =====
-- The frames that move no client: messages, typing, moderation, activity and the presence sweep.
use group_chat.Prelude.{
  ℕ, ◌≡◌, ◌∙◌, refl, ap, true, false, none, some, List, [], ◌∷◌, Str, codes, get, keys, arith,
  if_intro, Option-cases, Bool-cases, inl, inr, ◌&&◌, not, ltb, ◌++◌, ◌-◌,
}
use group_chat.Host.{Host, Draw}
use group_chat.Python.{Fields, field_of}
use group_chat.Server.Defs.{
  Client, Presence, online, away, Server, Frame, state_of, send, send_error, to_room, notify,
  set_client, broadcast_to_all, is_empty, name_of,
}
use group_chat.Server.Handlers.{clean, handle_message, post_text, cache_message, publish_message}
use group_chat.Server.RoomHandlers.{
  Action, kick, mute, unmute, moderate, tell_room, online as target_of, handle_moderation,
  handle_private_message, deliver, handle_typing,
}
use group_chat.Server.Session.{awake, is_online, sweep_one, sweep_ids, presence_sweep}
use group_chat.Server.Session.Placement.{IsPlaced}
use group_chat.Server.Session.Seats.{
  Seated, Seated-IsPlaced, Seated-refl, Seated-trans, Seated-same, Seated-set_client, Seated-send,
  Seated-broadcast_to_all, Seated-close_ws,
}

module _ (h : Host) where
  pub Seated-handle_message :
      (d : Draw) (cid : Str) (frame : Fields) (s : Server)
      → Seated s (state_of (handle_message h d cid frame s))
  unfolding handle_message post_text cache_message publish_message send to_room state_of
  Seated-handle_message d cid frame s = Seated-same (ground arith) (ground arith)

  pub Seated-handle_private_message :
      (d : Draw) (cid : Str) (frame : Fields) (s : Server)
      → Seated s (state_of (handle_private_message h d cid frame s))
  unfolding handle_private_message deliver send send_error state_of
  Seated-handle_private_message d cid frame s = Seated-same (ground arith) (ground arith)

  pub Seated-handle_typing : (cid : Str) (s : Server) → Seated s (handle_typing h cid s)
  unfolding handle_typing to_room
  Seated-handle_typing cid s = Seated-same (ground arith) (ground arith)

  Seated-tell_room :
      (c : Client) (verb name : Str) (s : Server) → Seated s (tell_room h c verb name s)
  unfolding tell_room notify to_room
  Seated-tell_room c verb name s = Seated-same (ground arith) (ground arith)

  Seated-moderate :
      (action : Action) (name : Str) (target : Client) (target_name : Str) (s : Server)
      → get target.id s.clients ≡ some target
      → Seated s (moderate h action name target target_name s)
  unfolding moderate
  Seated-moderate kick name target target_name s found =
      Seated-trans (Seated-send target.id (Frame.kicked name) s) (Seated-close_ws target.id 4001 _)
  Seated-moderate mute name target target_name s found =
      Seated-trans (Seated-set_client target (record target { muted = true }) s found refl refl)
        (Seated-tell_room target _ name _)
  Seated-moderate unmute name target target_name s found =
      Seated-trans (Seated-set_client target (record target { muted = false }) s found refl refl)
        (Seated-tell_room target _ name _)

  target_of-found :
      (name : Str) (s : Server) {c : Client}
      → IsPlaced s.clients s.rooms
      → target_of h name s ≡ some c
      → get c.id s.clients ≡ some c
  unfolding target_of
  target_of-found name s {c} placed e = elim (Option-cases (get (h.py.lower name) s.usernames)) [
    | inl n ↦ cc
    | inr (i, n) ↦
        let found : get i s.clients ≡ some c = ground arith in
        ap (λ j. get j s.clients) (placed.own i c found) ∙ found
  ]

  module _ (action : Action) (cid : Str) (frame : Fields) (c : Client) (name : Str) where
    moderation-refused :
        (s : Server)
        → get cid s.clients ≡ some c
        → name_of c ≡ some name
        → c.is_admin ≡ false
        → handle_moderation h action cid frame s
          ≡ send cid (Frame.error (codes "not_admin") (codes "Only moderators can do that.")) s
    unfolding handle_moderation send_error
    moderation-refused s e n plain = ground arith

    moderation-offline :
        (s : Server)
        → get cid s.clients ≡ some c
        → name_of c ≡ some name
        → c.is_admin ≡ true
        → target_of h (clean h (field_of "target" frame)) s ≡ none
        → handle_moderation h action cid frame s
          ≡ send cid
              (Frame.error
                (codes "user_offline")
                (clean h (field_of "target" frame) ++ codes " is not online."))
              s
    unfolding handle_moderation send_error
    moderation-offline s e n admin nobody = ground arith

    moderation-done :
        (target : Client) (s : Server)
        → get cid s.clients ≡ some c
        → name_of c ≡ some name
        → c.is_admin ≡ true
        → target_of h (clean h (field_of "target" frame)) s ≡ some target
        → handle_moderation h action cid frame s
          ≡ moderate h action name target (clean h (field_of "target" frame)) s
    unfolding handle_moderation
    moderation-done target s e n admin found = ground arith

  pub Seated-handle_moderation :
      (action : Action) (cid : Str) (frame : Fields) (s : Server)
      → IsPlaced s.clients s.rooms
      → Seated s (handle_moderation h action cid frame s)
  unfolding handle_moderation
  Seated-handle_moderation action cid frame s placed = elim (Option-cases (get cid s.clients)) [
    | inl e ↦ Seated-same (ground arith) (ground arith)
    | inr (c, e) ↦ elim (Option-cases (name_of c)) [
      | inl n ↦ Seated-same (ground arith) (ground arith)
      | inr (name, n) ↦ elim (Bool-cases c.is_admin) [
        | inr plain ↦
            rw (moderation-refused action cid frame c name s e n plain) (Seated-send cid _ s)
        | inl admin ↦ elim (Option-cases (target_of h (clean h (field_of "target" frame)) s)) [
          | inl nobody ↦
              rw (moderation-offline action cid frame c name s e n admin nobody)
                (Seated-send cid _ s)
          | inr (target, found) ↦
              rw (moderation-done action cid frame c name target s e n admin found) (
                Seated-moderate action name target (clean h (field_of "target" frame)) s
                  (target_of-found (clean h (field_of "target" frame)) s placed found))
        ]
      ]
    ]
  ]

  pub Seated-awake :
      (now : ℕ) (c : Client) (s : Server) → get c.id s.clients ≡ some c → Seated s (awake h now c s)
  Seated-awake now c s found = go c.presence refl
    where
      woken : Client
      woken = record c { last_activity = now; presence = online }

      back : Seated s (set_client woken s)
      back = Seated-set_client c woken s found refl refl

      go : (p : Presence) → c.presence ≡ p → Seated s (awake h now c s)
      go online e =
          let same : awake h now c s ≡ set_client woken s = unfold awake in (ground arith) in
          rw same back
      go away e =
          let name : Str = elim c.username [ none ↦ codes "None" | some u ↦ u ] in
          let same : awake h now c s
              ≡ broadcast_to_all (Frame.presence_of name online) (set_client woken s) =
            unfold awake in (ground arith) in
          rw same (Seated-trans back (Seated-broadcast_to_all _ _))

  Seated-sweep_one :
      (now : ℕ) (c : Client) (s : Server)
      → get c.id s.clients ≡ some c
      → Seated s (sweep_one h now c s)
  unfolding sweep_one
  Seated-sweep_one now c s found =
      let gone : Client = record c { presence = away } in
      let name : Str = elim c.username [ none ↦ [] | some u ↦ u ] in
      if_intro (λ t. Seated s t)
        (not (is_empty name)
          && ltb h.cfg.idle_timeout_ms (now - c.last_activity)
          && is_online h c.presence)
        (λ _.
          Seated-trans (Seated-set_client c gone s found refl refl) (Seated-broadcast_to_all _ _))
        (λ _. Seated-refl s)

  Seated-sweep_ids :
      (now : ℕ) (cids : List Str) (s : Server)
      → IsPlaced s.clients s.rooms
      → Seated s (sweep_ids h now cids s)
  unfolding sweep_ids
  Seated-sweep_ids now [] s placed = Seated-refl s
  Seated-sweep_ids now (cid ∷ cids) s placed = elim (Option-cases (get cid s.clients)) [
    | inl e ↦ rw e (Seated-sweep_ids now cids s placed)
    | inr (c, e) ↦
        let one = Seated-sweep_one now c s (ap (λ i. get i s.clients) (placed.own cid c e) ∙ e) in
        rw e (
          Seated-trans one
            (Seated-sweep_ids now cids (sweep_one h now c s) (Seated-IsPlaced one placed)))
  ]

  pub Seated-presence_sweep :
      (now : ℕ) (s : Server) → IsPlaced s.clients s.rooms → Seated s (presence_sweep h now s)
  unfolding presence_sweep
  Seated-presence_sweep now s placed = Seated-sweep_ids now (keys s.clients) s placed
