-- ===== src/Node/Direct.antt =====
-- A frame `private_message` of server/ws_server.py, from the handler to the two queues and the task.
use group_chat.Prelude.{◌≡◌, ◌∙◌, refl, ap, false, some, [], ◌∷◌, ◌++◌, Str, get, take, arith}
use group_chat.Config.{max_message_len}
use group_chat.Host.{Host, Draw}
use group_chat.Node.Said.{sent_to, queue-send}
use group_chat.Python.{Fields, str, field_of}
use group_chat.Server.Defs.{
  Client, Frame, Task, Server, done, state_of, send, add_task, name_of, is_empty,
}
use group_chat.Server.Handlers.{clean, private_key}
use group_chat.Server.RoomHandlers.{dm_of, dm_room, deliver, handle_private_message}

send-clients : (cid : Str) (frame : Frame) (s : Server) → (send cid frame s).clients ≡ s.clients
unfolding send
send-clients cid frame s = ground arith

module _ (h : Host) (d : Draw) where
  -- The name that a frame is addressed to, and its text.
  abbrev pub target_of : Fields → Str
  target_of frame = clean h (field_of "to" frame)

  abbrev pub text_of : Fields → Str
  text_of frame = take max_message_len (clean h (field_of "text" frame))

  deliver-queues :
      (c t : Client) (name target text : Str) (j : Str) (s : Server)
      → get c.id s.clients ≡ some c
      → get t.id s.clients ≡ some t
      → get j (deliver h d c name target t.id text s).net.queues
        ≡ sent_to c
            (Frame.private_message (dm_of h d name target text))
            j
            (sent_to t (Frame.private_message (dm_of h d name target text)) j (get j s.net.queues))
  unfolding deliver add_task
  deliver-queues c t name target text j s here there =
      let f = Frame.private_message (dm_of h d name target text) in
      queue-send c f j (send t.id f s) (ap (get c.id) (send-clients t.id f s) ∙ here)
      ∙ ap (sent_to c f j) (queue-send t f j s there)

  deliver-tasks :
      (c t : Client) (name target text : Str) (s : Server)
      → (deliver h d c name target t.id text s).tasks
        ≡ s.tasks
          ++ Task.append
              (str (dm_room h name target))
              (dm_of h d name target text)
              (private_key h c)
            ∷ []
  unfolding deliver add_task send
  deliver-tasks c t name target text s = ground arith

  -- A private message with a text, of a client with a name, to the name of a client that is registered:
  -- the handler returns without an exception, the message is at the end of the queue of the target
  -- and then of that of the sender, where they are connected and have room for it, every other queue is as
  -- it was, and the task that stores the message under the room of the two is started.
  pub handle_private_message-delivers :
      (c t : Client) (name : Str) (frame : Fields) (s : Server)
      → get c.id s.clients ≡ some c
      → name_of c ≡ some name
      → get (h.py.lower (target_of frame)) s.usernames ≡ some t.id
      → get t.id s.clients ≡ some t
      → is_empty (text_of frame) ≡ false
      → (handle_private_message h d c.id frame s
          ≡ done (state_of (handle_private_message h d c.id frame s)))
        × ((j : Str)
            → get j (state_of (handle_private_message h d c.id frame s)).net.queues
              ≡ sent_to c
                  (Frame.private_message (dm_of h d name (target_of frame) (text_of frame)))
                  j
                  (sent_to t
                    (Frame.private_message (dm_of h d name (target_of frame) (text_of frame)))
                    j
                    (get j s.net.queues)))
        × ((state_of (handle_private_message h d c.id frame s)).tasks
            ≡ s.tasks
              ++ Task.append
                  (str (dm_room h name (target_of frame)))
                  (dm_of h d name (target_of frame) (text_of frame))
                  (private_key h c)
                ∷ [])
  unfolding state_of
  handle_private_message-delivers c t name frame s found named registered there some_text =
      let same : handle_private_message h d c.id frame s
          ≡ done (deliver h d c name (target_of frame) t.id (text_of frame) s) =
        unfold handle_private_message in (ground arith) in
      rw (same, state_of)
        ((
          refl,
          λ j. deliver-queues c t name (target_of frame) (text_of frame) j s found there,
          deliver-tasks c t name (target_of frame) (text_of frame) s,
        ))
