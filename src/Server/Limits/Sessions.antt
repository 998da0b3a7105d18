-- ===== src/Server/Limits/Sessions.antt =====
-- Connections, frames, the presence sweep and the shutdown keep the bounds of what a node holds for others.
use group_chat.Prelude.{
  ℕ, refl, ◌&&◌, not, ◌-◌, ltb, Option, none, some, List, [], ◌∷◌, Str, codes, get, keys, if_intro,
  option_intro, put-AllValues, arith,
}
use group_chat.Host.{Host, Draw}
use group_chat.Python.{Value, Fields, obj, field_of}
use group_chat.Result.{Result}
use group_chat.Rooms.Bounds.{IsShort}
use group_chat.Server.Defs.{
  Client, Presence, online, away, Frame, Server, Outcome, done, failed, state_of, set_client,
  broadcast_to_all, is_empty,
}
use group_chat.Server.Limits.{IsFit, IsFit-same, broadcast_to_all-IsFit, close_ws-IsFit}
use group_chat.Server.Limits.Handled.{
  EndsFit, notify-IsFit, handle_message-IsFit, handle_private_message-IsFit, handle_typing-IsFit,
  handle_moderation-IsFit,
}
use group_chat.Server.Limits.Roomed.{
  handle_join-IsFit, handle_switch_room-IsFit, handle_create_room-IsFit,
}
use group_chat.Server.RoomHandlers.{kick, mute, unmute}
use group_chat.Server.Session.{
  connect, disconnect, close_client, dispatch, is_type, awake, on_value, on_text, round, is_online,
  sweep_one, sweep_ids, presence_sweep, close_all, shutdown,
}

module _ (h : Host) where
  pub connect-IsFit :
      (d : Draw) (room : Value) (username : Option Str) (s : Server)
      → IsFit h s
      → IsFit h (connect h d room username s)
  unfolding connect
  connect-IsFit d room username s fit = record {
    cache = fit.cache;
    documents = fit.documents;
    frames = put-AllValues IsShort d.uuid [] s.net.queues (omega arith) fit.frames;
    payloads = fit.payloads;
  }

  close_client-IsFit : (c : Client) (s : Server) → IsFit h s → IsFit h (close_client h c s)
  unfolding close_client
  close_client-IsFit c s fit =
      if_intro (IsFit h) (is_empty c.room) (λ _. IsFit-same h refl refl refl fit)
        (λ _.
          if_intro (IsFit h)
            (c.explicitly_joined && not (is_empty (elim c.username [ none ↦ [] | some u ↦ u ])))
            (λ _. notify-IsFit h c.room _ none _ (IsFit-same h refl refl refl fit))
            (λ _. IsFit-same h refl refl refl fit))

  pub disconnect-IsFit : (cid : Str) (s : Server) → IsFit h s → IsFit h (disconnect h cid s)
  unfolding disconnect
  disconnect-IsFit cid s fit =
      option_intro (IsFit h) (get cid s.clients) (λ _. fit) (λ c _. close_client-IsFit c s fit)

  dispatch-IsFit :
      (d : Draw) (found : Result (List Fields)) (cid : Str) (frame : Fields) (s : Server)
      → IsFit h s
      → EndsFit h (dispatch h d found cid frame s)
  unfolding dispatch state_of
  dispatch-IsFit d found cid frame s fit =
      if_intro (EndsFit h) (is_type h (field_of "type" frame) (codes "join"))
        (λ _. handle_join-IsFit h d found cid frame s fit)
        (λ _.
          if_intro (EndsFit h) (is_type h (field_of "type" frame) (codes "message"))
            (λ _. handle_message-IsFit h d cid frame s fit)
            (λ _.
              if_intro (EndsFit h) (is_type h (field_of "type" frame) (codes "private_message"))
                (λ _. handle_private_message-IsFit h d cid frame s fit)
                (λ _.
                  if_intro (EndsFit h) (is_type h (field_of "type" frame) (codes "switch_room"))
                    (λ _. handle_switch_room-IsFit h d found cid (field_of "room" frame) s fit)
                    (λ _.
                      if_intro (EndsFit h) (is_type h (field_of "type" frame) (codes "create_room"))
                        (λ _. handle_create_room-IsFit h d found cid frame s fit)
                        (λ _.
                          if_intro (EndsFit h) (is_type h (field_of "type" frame) (codes "typing"))
                            (λ _. handle_typing-IsFit h cid s fit)
                            (λ _.
                              if_intro (EndsFit h)
                                (is_type h (field_of "type" frame) (codes "kick"))
                                (λ _. handle_moderation-IsFit h kick cid frame s fit)
                                (λ _.
                                  if_intro (EndsFit h)
                                    (is_type h (field_of "type" frame) (codes "mute"))
                                    (λ _. handle_moderation-IsFit h mute cid frame s fit)
                                    (λ _.
                                      if_intro (EndsFit h)
                                        (is_type h (field_of "type" frame) (codes "unmute"))
                                        (λ _. handle_moderation-IsFit h unmute cid frame s fit)
                                        (λ _. fit)))))))))

  awake-IsFit : (now : ℕ) (c : Client) (s : Server) → IsFit h s → IsFit h (awake h now c s)
  unfolding awake set_client
  awake-IsFit now c s fit = go c.presence
    where
      s₁ : Server
      s₁ = set_client (record c { last_activity = now; presence = online }) s

      fit₁ : IsFit h s₁
      fit₁ = IsFit-same h refl refl refl fit

      go :
          (p : Presence)
          → IsFit h (elim p as (λ _. Server) [
            | online ↦ s₁
            | away ↦
                broadcast_to_all
                  (Frame.presence_of (elim c.username [ none ↦ codes "None" | some u ↦ u ]) online)
                  s₁
          ])
      go online = fit₁
      go away = broadcast_to_all-IsFit h _ s₁ fit₁

  on_value-IsFit :
      (d : Draw) (found : Result (List Fields)) (cid : Str) (v : Value) (s : Server)
      → IsFit h s
      → EndsFit h (on_value h d found cid v s)
  unfolding on_value state_of
  on_value-IsFit d found cid (obj frame) s fit = dispatch-IsFit d found cid frame s fit
  on_value-IsFit d found cid _ s fit = fit

  on_text-IsFit :
      (d : Draw) (found : Result (List Fields)) (cid : Str) (v : Option Value) (s : Server)
      → IsFit h s
      → EndsFit h (on_text h d found cid v s)
  unfolding on_text state_of
  on_text-IsFit d found cid none s fit = fit
  on_text-IsFit d found cid (some v) s fit =
      option_intro (EndsFit h) (get cid s.clients) (λ _. fit)
        (λ c _. on_value-IsFit d found cid v _ (awake-IsFit d.now c s fit))

  -- A round ends with what the frame left, or with the end of the connection.
  rounded :
      (o : Outcome) (cid : Str)
      → EndsFit h o
      → IsFit h (elim o [ done s₁ ↦ s₁ | failed s₁ ↦ disconnect h cid s₁ ])
  unfolding state_of
  rounded (done s₁) cid fit = fit
  rounded (failed s₁) cid fit = disconnect-IsFit cid s₁ fit

  pub round-IsFit :
      (d : Draw) (found : Result (List Fields)) (cid : Str) (v : Option Value) (s : Server)
      → IsFit h s
      → IsFit h (round h d found cid v s)
  unfolding round
  round-IsFit d found cid v s fit = rounded _ cid (on_text-IsFit d found cid v s fit)

  sweep_one-IsFit : (now : ℕ) (c : Client) (s : Server) → IsFit h s → IsFit h (sweep_one h now c s)
  unfolding sweep_one set_client
  sweep_one-IsFit now c s fit =
      if_intro (IsFit h)
        (not (is_empty (elim c.username [ none ↦ [] | some u ↦ u ]))
          && ltb h.cfg.idle_timeout_ms (now - c.last_activity)
          && is_online h c.presence)
        (λ _.
          broadcast_to_all-IsFit h
            (Frame.presence_of (elim c.username [ none ↦ [] | some u ↦ u ]) away)
            (set_client (record c { presence = away }) s) (IsFit-same h refl refl refl fit))
        (λ _. fit)

  sweep_ids-IsFit :
      (now : ℕ) (cids : List Str) (s : Server) → IsFit h s → IsFit h (sweep_ids h now cids s)
  unfolding sweep_ids
  sweep_ids-IsFit now [] s fit = fit
  sweep_ids-IsFit now (cid ∷ cids) s fit =
      sweep_ids-IsFit now cids _
        (option_intro (IsFit h) (get cid s.clients) (λ _. fit) (λ c _. sweep_one-IsFit now c s fit))

  pub presence_sweep-IsFit : (now : ℕ) (s : Server) → IsFit h s → IsFit h (presence_sweep h now s)
  unfolding presence_sweep
  presence_sweep-IsFit now s fit = sweep_ids-IsFit now (keys s.clients) s fit

  close_all-IsFit : (cids : List Str) (s : Server) → IsFit h s → IsFit h (close_all cids s)
  unfolding close_all
  close_all-IsFit [] s fit = fit
  close_all-IsFit (cid ∷ cids) s fit = close_all-IsFit cids _ (close_ws-IsFit h cid 1001 s fit)

  pub shutdown-IsFit : (s : Server) → IsFit h s → IsFit h (shutdown s)
  unfolding shutdown
  shutdown-IsFit s fit =
      let last : Frame =
        Frame.system_shutdown (codes "Server is shutting down. You will be disconnected.") in
      let s₁ = broadcast_to_all last s in
      close_all-IsFit (keys s₁.clients) s₁ (broadcast_to_all-IsFit h last s fit)
