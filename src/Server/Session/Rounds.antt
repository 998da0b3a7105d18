-- ===== src/Server/Session/Rounds.antt =====
-- Every frame, every connection and every end of one keeps the clients in their rooms and every room.
use group_chat.Prelude.{
  ℕ, ◌≡◌, ◌∙◌, ap, Bool, false, Option, none, some, List, Str, codes, get, arith, if_intro,
  if◌then◌else◌, Option-cases, inl, inr,
}
use group_chat.Host.{Host, Draw}
use group_chat.Python.{Value, Fields, field_of, obj}
use group_chat.Result.{Result}
use group_chat.Rooms.Defs.{Rooms, room_exists}
use group_chat.Rooms.Persist.{Keeps, join-Keeps, leave-Keeps}
use group_chat.Server.Defs.{Client, Server, Outcome, done, failed, state_of, is_empty}
use group_chat.Server.Handlers.{handle_join, handle_message}
use group_chat.Server.RoomHandlers.{
  kick, mute, unmute, handle_switch_room, handle_create_room, handle_private_message, handle_typing,
  handle_moderation,
}
use group_chat.Server.Session.{
  connect, disconnect, dispatch, is_type, awake, on_value, on_text, round, presence_sweep,
}
use group_chat.Server.Session.Joining.{connect-IsPlaced}
use group_chat.Server.Session.Placement.{disconnect-IsPlaced, disconnect-parts, out_of}
use group_chat.Server.Session.Quiet.{
  Seated-handle_message, Seated-handle_private_message, Seated-handle_typing,
  Seated-handle_moderation, Seated-awake, Seated-presence_sweep,
}
use group_chat.Server.Session.Seats.{Seated}
use group_chat.Server.Session.Sound.{
  Sound, Placed, Sound-of_Seated, Sound-refl, Sound-trans, handle_join-Sound,
  handle_switch_room-Sound, handle_create_room-Sound,
}

-- The state that an outcome leaves.
record SoundEnd (s : Server) (o : Outcome) : Type 0 where
  state : Sound s (state_of o)

module _ (h : Host) where
  module _ (d : Draw) (found : Result (List Fields))
      (default : is_empty h.cfg.first_room ≡ false) where
    dispatch-Sound :
        (cid : Str) (frame : Fields) (s : Server)
        → Placed s
        → Sound s (state_of (dispatch h d found cid frame s))
    unfolding dispatch state_of
    dispatch-Sound cid frame s placed =
        let all : SoundEnd s (dispatch h d found cid frame s) =
          either (is_type h (field_of "type" frame) (codes "join"))
            (handle_join h d found cid frame s)
            (handle_join-Sound h d found default cid frame s placed)
            (either (is_type h (field_of "type" frame) (codes "message"))
              (handle_message h d cid frame s) (quiet (Seated-handle_message h d cid frame s))
              (either (is_type h (field_of "type" frame) (codes "private_message"))
                (handle_private_message h d cid frame s)
                (quiet (Seated-handle_private_message h d cid frame s))
                (either (is_type h (field_of "type" frame) (codes "switch_room"))
                  (handle_switch_room h d found cid (field_of "room" frame) s)
                  (handle_switch_room-Sound h d found default cid (field_of "room" frame) s placed)
                  (either (is_type h (field_of "type" frame) (codes "create_room"))
                    (handle_create_room h d found cid frame s)
                    (handle_create_room-Sound h d found default cid frame s placed)
                    (either (is_type h (field_of "type" frame) (codes "typing"))
                      (done (handle_typing h cid s)) (quiet (Seated-handle_typing h cid s))
                      (either (is_type h (field_of "type" frame) (codes "kick"))
                        (done (handle_moderation h kick cid frame s))
                        (quiet (Seated-handle_moderation h kick cid frame s placed))
                        (either (is_type h (field_of "type" frame) (codes "mute"))
                          (done (handle_moderation h mute cid frame s))
                          (quiet (Seated-handle_moderation h mute cid frame s placed))
                          (either (is_type h (field_of "type" frame) (codes "unmute"))
                            (done (handle_moderation h unmute cid frame s))
                            (quiet (Seated-handle_moderation h unmute cid frame s placed))
                            (record { state = Sound-refl s placed }))))))))) in
        all.state
      where
        either :
            (b : Bool) (o : Outcome) {p : Outcome}
            → Sound s (state_of o)
            → SoundEnd s p
            → SoundEnd s (if b then o else p)
        either b o a p = if_intro (SoundEnd s) b (λ _. record { state = a }) (λ _. p)

        quiet : {t : Server} → Seated s t → Sound s t
        quiet = Sound-of_Seated placed

    Placed-client :
        (cid : Str) (c : Client) (s : Server)
        → Placed s
        → get cid s.clients ≡ some c
        → get c.id s.clients ≡ some c
    Placed-client cid c s placed e = ap (λ i. get i s.clients) (placed.own cid c e) ∙ e

    on_value-Sound :
        (cid : Str) (v : Value) (s : Server)
        → Placed s
        → Sound s (state_of (on_value h d found cid v s))
    unfolding on_value state_of
    on_value-Sound cid (obj frame) s placed = dispatch-Sound cid frame s placed
    on_value-Sound cid _ s placed = Sound-refl s placed

    on_text-Sound :
        (cid : Str) (v : Option Value) (s : Server)
        → Placed s
        → Sound s (state_of (on_text h d found cid v s))
    unfolding on_text state_of
    on_text-Sound cid none s placed = Sound-refl s placed
    on_text-Sound cid (some v) s placed = elim (Option-cases (get cid s.clients)) [
      | inl e ↦
          let same : on_text h d found cid (some v) s ≡ done s = ground arith in
          rw same (Sound-refl s placed)
      | inr (c, e) ↦
          let same : on_text h d found cid (some v) s
              ≡ on_value h d found cid v (awake h d.now c s) =
            ground arith in
          let up =
            Sound-of_Seated placed (Seated-awake h d.now c s (Placed-client cid c s placed e)) in
          rw same (Sound-trans up (on_value-Sound cid v (awake h d.now c s) up.placed))
    ]

  out_of-Keeps : (name cid : Str) (rooms : Rooms) → Keeps rooms (out_of name cid rooms)
  unfolding out_of
  out_of-Keeps name cid rooms r e = ground (arith, leave-Keeps name cid rooms r e)

  pub disconnect-Sound : (cid : Str) (s : Server) → Placed s → Sound s (disconnect h cid s)
  unfolding disconnect
  disconnect-Sound cid s placed = elim (Option-cases (get cid s.clients)) [
    | inl e ↦ let same : disconnect h cid s ≡ s = ground arith in rw same (Sound-refl s placed)
    | inr (c, e) ↦ record {
      placed = (disconnect-IsPlaced h cid c s placed e).0;
      keeps = λ r x.
          ap (room_exists r) (disconnect-parts h cid c s e (placed.own cid c e)).1
          ∙ out_of-Keeps c.room cid s.rooms r x;
    }
  ]

  -- A whole round of a connection, also where it raises and the connection ends.
  pub round-Sound :
      (d : Draw) (found : Result (List Fields)) (cid : Str) (v : Option Value) (s : Server)
      → is_empty h.cfg.first_room ≡ false
      → Placed s
      → Sound s (round h d found cid v s)
  unfolding round state_of
  round-Sound d found cid v s default placed =
      after (on_text h d found cid v s) (on_text-Sound d found default cid v s placed)
    where
      after :
          (o : Outcome)
          → Sound s (state_of o)
          → Sound s (elim o as (λ _. Server) [ done s₁ ↦ s₁ | failed s₁ ↦ disconnect h cid s₁ ])
      after (done t) sound = sound
      after (failed t) sound = Sound-trans sound (disconnect-Sound cid t sound.placed)

  pub connect-Sound :
      (d : Draw) (room : Value) (username : Option Str) (s : Server)
      → is_empty h.cfg.first_room ≡ false
      → get d.uuid s.clients ≡ none
      → Placed s
      → Sound s (connect h d room username s)
  unfolding connect
  connect-Sound d room username s default new placed = record {
    placed = connect-IsPlaced h d room username s default new placed;
    keeps = join-Keeps d.now _ d.uuid _ s.rooms;
  }

  pub presence_sweep-Sound : (now : ℕ) (s : Server) → Placed s → Sound s (presence_sweep h now s)
  presence_sweep-Sound now s placed = Sound-of_Seated placed (Seated-presence_sweep h now s placed)
