-- ===== src/Server/Limits/Handled.antt =====
-- The handlers of server/ws_server.py keep the bounds of what a node holds for others.
use group_chat.Prelude.{◌≡◌, refl, Option, none, some, Str, get, take, if_intro, option_intro}
use group_chat.Config.{max_message_len}
use group_chat.Gossip.Welcome.{IsWelcome, is_lookup}
use group_chat.Host.{Host, Draw}
use group_chat.Python.{
  Fields, str, field_of, str_of, int_of, int, pos, ℤ, ◌orelse◌, Key, hash_of, field_or,
}
use group_chat.Result.{Result, ok, raise}
use group_chat.Server.Defs.{
  Client, Frame, Task, Server, Outcome, done, failed, state_of, send, send_error, to_room, notify,
  add_task, set_client, name_of, is_empty,
}
use group_chat.Server.Handlers.{
  cache_message, chat_message, publish_message, post_text, handle_message, message_text,
  private_key, clean,
}
use group_chat.Server.Limits.{
  IsFit, IsFit-same, send-IsFit, to_room-IsFit, close_ws-IsFit, cache_message-IsFit,
  broadcast_gossip-IsFit,
}
use group_chat.Server.RoomHandlers.{
  Action, kick, mute, unmute, deliver, handle_private_message, handle_typing, tell_room, moderate,
  online, handle_moderation,
}

module _ (h : Host) where
  -- The state that an outcome leaves is within the bounds.
  abbrev pub EndsFit : Outcome → Type 0
  EndsFit o = IsFit h (state_of o)

  pub notify-IsFit :
      (room text : Str) (exclude : Option Str) (s : Server)
      → IsFit h s
      → IsFit h (notify room text exclude s)
  unfolding notify
  notify-IsFit room text exclude s fit = to_room-IsFit h room _ exclude s fit

  publish_message-IsFit :
      (c : Client) (msg_id : Str) (msg : Fields) (s : Server)
      → IsWelcome (str c.room) msg
      → IsFit h s
      → IsFit h (publish_message h c msg_id msg s)
  unfolding publish_message add_task
  publish_message-IsFit c msg_id msg s welcome fit =
      let s₁ = send c.id (Frame.delivered msg_id) (to_room c.room (Frame.message msg) none s) in
      let fit₁ : IsFit h s₁ = send-IsFit h c.id _ _ (to_room-IsFit h c.room _ none s fit) in
      broadcast_gossip-IsFit h (str c.room) msg
        (add_task (Task.append (str c.room) msg (private_key h c)) s₁) welcome
        (IsFit-same h refl refl refl fit₁)

  -- The message of a handler can be taken by any node.
  chat_message-IsWelcome :
      (i name text r : Str) (ts : ℤ) → IsWelcome (str r) (chat_message h (str i) name text r ts)
  unfolding chat_message is_lookup field_or hash_of
  chat_message-IsWelcome i name text r ts = record {
    lookup = refl;
    hashed = λ _. (Key.word i, refl);
    time = (ts, λ v. refl);
  }

  post_text-IsFit :
      (d : Draw) (c : Client) (name text : Str) (frame : Fields) (s : Server)
      → IsFit h s
      → EndsFit (post_text h d c name text frame s)
  unfolding post_text state_of
  post_text-IsFit d c name text frame s fit =
      option_intro EndsFit (int_of h.py (field_of "timestamp" frame orelse int (pos d.now)))
        (λ _. fit) (λ ts _. go ts (cache_message h d (str c.room) _ s) refl)
    where
      msg_id : Str
      msg_id = str_of h.py (field_of "id" frame orelse str d.uuid)

      go :
          (ts : ℤ) (r : Result Server)
          → cache_message h d (str c.room) (chat_message h (str msg_id) name text c.room ts) s ≡ r
          → EndsFit (elim r as (λ _. Outcome) [
            | raise ↦ failed s
            | ok s₁ ↦
                done
                  (publish_message h c msg_id (chat_message h (str msg_id) name text c.room ts) s₁)
          ])
      go ts raise e = fit
      go ts (ok s₁) e =
          publish_message-IsFit c msg_id _ s₁ (chat_message-IsWelcome msg_id name text c.room ts)
            (cache_message-IsFit h d (str c.room) _ s fit e)

  pub handle_message-IsFit :
      (d : Draw) (cid : Str) (frame : Fields) (s : Server)
      → IsFit h s
      → EndsFit (handle_message h d cid frame s)
  unfolding handle_message state_of
  handle_message-IsFit d cid frame s fit =
      option_intro EndsFit (get cid s.clients) (λ _. fit)
        (λ c _.
          option_intro EndsFit (name_of c) (λ _. fit)
            (λ name _.
              if_intro EndsFit (is_empty (message_text h frame)) (λ _. fit)
                (λ _. post_text-IsFit d c name (message_text h frame) frame s fit)))

  pub handle_private_message-IsFit :
      (d : Draw) (cid : Str) (frame : Fields) (s : Server)
      → IsFit h s
      → EndsFit (handle_private_message h d cid frame s)
  unfolding handle_private_message state_of send_error deliver add_task
  handle_private_message-IsFit d cid frame s fit =
      option_intro EndsFit (get cid s.clients) (λ _. fit)
        (λ c _.
          option_intro EndsFit (name_of c) (λ _. fit)
            (λ name _.
              option_intro EndsFit (get (h.py.lower (clean h (field_of "to" frame))) s.usernames)
                (λ _. send-IsFit h cid _ s fit)
                (λ target _.
                  if_intro EndsFit
                    (is_empty (take max_message_len (clean h (field_of "text" frame)))) (λ _. fit)
                    (λ _.
                      IsFit-same h refl refl refl
                        (send-IsFit h c.id _ _ (send-IsFit h target _ s fit))))))

  pub handle_typing-IsFit : (cid : Str) (s : Server) → IsFit h s → IsFit h (handle_typing h cid s)
  unfolding handle_typing
  handle_typing-IsFit cid s fit =
      option_intro (IsFit h) (get cid s.clients) (λ _. fit)
        (λ c _.
          option_intro (IsFit h) (name_of c) (λ _. fit)
            (λ name _.
              if_intro (IsFit h) (is_empty c.room) (λ _. fit)
                (λ _. to_room-IsFit h c.room _ (some cid) s fit)))

  tell_room-IsFit :
      (c : Client) (verb name : Str) (s : Server) → IsFit h s → IsFit h (tell_room h c verb name s)
  unfolding tell_room
  tell_room-IsFit c verb name s fit =
      if_intro (IsFit h) (is_empty c.room) (λ _. fit) (λ _. notify-IsFit c.room _ none s fit)

  moderate-IsFit :
      (action : Action) (name : Str) (target : Client) (target_name : Str) (s : Server)
      → IsFit h s
      → IsFit h (moderate h action name target target_name s)
  unfolding moderate set_client
  moderate-IsFit kick name target target_name s fit =
      close_ws-IsFit h target.id 4001 _ (send-IsFit h target.id (Frame.kicked name) s fit)
  moderate-IsFit mute name target target_name s fit =
      tell_room-IsFit target _ name _ (IsFit-same h refl refl refl fit)
  moderate-IsFit unmute name target target_name s fit =
      tell_room-IsFit target _ name _ (IsFit-same h refl refl refl fit)

  pub handle_moderation-IsFit :
      (action : Action) (cid : Str) (frame : Fields) (s : Server)
      → IsFit h s
      → IsFit h (handle_moderation h action cid frame s)
  unfolding handle_moderation send_error
  handle_moderation-IsFit action cid frame s fit =
      option_intro (IsFit h) (get cid s.clients) (λ _. fit)
        (λ c _.
          option_intro (IsFit h) (name_of c) (λ _. fit)
            (λ name _.
              if_intro (IsFit h) c.is_admin
                (λ _.
                  option_intro (IsFit h) (online h (clean h (field_of "target" frame)) s)
                    (λ _. send-IsFit h cid _ s fit)
                    (λ target _. moderate-IsFit action name target _ s fit))
                (λ _. send-IsFit h cid _ s fit)))
