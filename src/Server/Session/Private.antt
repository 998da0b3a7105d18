-- ===== src/Server/Session/Private.antt =====
-- Who gets a private message: nobody but the two, and no other node.
use group_chat.Prelude.{
  ◌≡◌, ◌≢◌, ◌∙◌, refl, ap, Option, none, some, Str, codes, get, get-put, take, ◌++◌, if_intro,
  if◌then◌else◌, arith, inl, inr, Option-cases,
}
use group_chat.Config.{max_message_len}
use group_chat.Host.{Host, Draw}
use group_chat.Net.{Net, enqueue, offer}
use group_chat.Python.{Fields, field_of}
use group_chat.Server.Defs.{
  Client, Frame, Server, Outcome, done, state_of, send, send_error, name_of, is_empty, add_task,
}
use group_chat.Server.Handlers.{clean}
use group_chat.Server.RoomHandlers.{dm_of, deliver, handle_private_message}

-- What a handler leaves of the node for a client `j`: its queue, the sends around the queues, the peers,
-- the rooms and the store.
pub record IsUntouched (j : Str) (s t : Server) : Type 0 where
  pub queue : get j t.net.queues ≡ get j s.net.queues
  pub direct : t.net.direct ≡ s.net.direct
  pub peers : t.peers ≡ s.peers
  pub rooms : t.rooms ≡ s.rooms
  pub store : t.store ≡ s.store

IsUntouched-refl : (j : Str) (s : Server) → IsUntouched j s s
IsUntouched-refl j s = record {
  queue = refl;
  direct = refl;
  peers = refl;
  rooms = refl;
  store = refl;
}

IsUntouched-trans :
    (j : Str) {s t u : Server} → IsUntouched j s t → IsUntouched j t u → IsUntouched j s u
IsUntouched-trans j a b = record {
  queue = b.queue ∙ a.queue;
  direct = b.direct ∙ a.direct;
  peers = b.peers ∙ a.peers;
  rooms = b.rooms ∙ a.rooms;
  store = b.store ∙ a.store;
}

enqueue-ne :
    (cid j : Str) (frame : Frame) (net : Net Frame)
    → cid ≢ j
    → (get j (enqueue cid frame net).queues ≡ get j net.queues)
      × ((enqueue cid frame net).direct ≡ net.direct)
unfolding enqueue
enqueue-ne cid j frame net ne = elim (Option-cases (get cid net.queues)) [
  | inl e ↦ ground arith
  | inr (q, e) ↦ ground (arith, get-put cid j (offer frame q) net.queues)
]

pub send-IsUntouched :
    (cid j : Str) (frame : Frame) (s : Server) → cid ≢ j → IsUntouched j s (send cid frame s)
unfolding send
send-IsUntouched cid j frame s ne = ground (arith, enqueue-ne cid j frame s.net ne)

module _ (h : Host) (d : Draw) where
  deliver-IsUntouched :
      (c : Client) (name target target_id text : Str) (j : Str) (s : Server)
      → c.id ≢ j
      → target_id ≢ j
      → IsUntouched j s (deliver h d c name target target_id text s)
  unfolding deliver add_task
  deliver-IsUntouched c name target target_id text j s ne ne' =
      let f = Frame.private_message (dm_of h d name target text) in
      let two =
        IsUntouched-trans j (send-IsUntouched target_id j f s ne')
          (send-IsUntouched c.id j f (send target_id f s) ne) in
      record {
        queue = two.queue;
        direct = two.direct;
        peers = two.peers;
        rooms = two.rooms;
        store = two.store;
      }

  -- With the sender's name and the target's id at hand.
  to_target-IsUntouched :
      (c : Client) (name target text : Str) (j : Str) (s : Server) (o : Option Str)
      → c.id ≢ j
      → o ≢ some j
      → IsUntouched j s (
          state_of (elim o as (λ x. Outcome) [
            | none ↦
                done (send_error c.id (codes "user_offline") (target ++ codes " is not online.") s)
            | some target_id ↦
                if is_empty text then done s else done (deliver h d c name target target_id text s)
          ]))
  unfolding state_of send_error
  to_target-IsUntouched c name target text j s none ne other = send-IsUntouched c.id j _ s ne
  to_target-IsUntouched c name target text j s (some target_id) ne other =
      if_intro {A = Outcome} (λ x. IsUntouched j s (state_of x)) (is_empty text)
        (λ _. IsUntouched-refl j s)
        (λ _. deliver-IsUntouched c name target target_id text j s ne (λ e. other (ap some e)))

  -- A frame with a private message, whatever it holds, of a sender that is among the clients,
  -- changes for no other client than the sender and the one registered under the target's name the
  -- queue of its frames; and it changes no room, no queue to another node and nothing in the
  -- store, the cache included.
  pub handle_private_message-IsUntouched :
      (c : Client) (frame : Fields) (j : Str) (s : Server)
      → get c.id s.clients ≡ some c
      → c.id ≢ j
      → get (h.py.lower (clean h (field_of "to" frame))) s.usernames ≢ some j
      → IsUntouched j s (state_of (handle_private_message h d c.id frame s))
  unfolding handle_private_message state_of
  handle_private_message-IsUntouched c frame j s found ne other =
      rw (found, state_of) (go (name_of c))
    where
      target : Str
      target = clean h (field_of "to" frame)

      text : Str
      text = take max_message_len (clean h (field_of "text" frame))

      go :
          (o : Option Str)
          → IsUntouched j s (
              state_of (elim o as (λ x. Outcome) [
                | none ↦ done s
                | some name ↦ elim (get (h.py.lower target) s.usernames) as (λ x. Outcome) [
                  | none ↦
                      done (
                        send_error c.id
                          (codes "user_offline")
                          (target ++ codes " is not online.")
                          s)
                  | some target_id ↦
                      if is_empty text
                      then done s
                      else done (deliver h d c name target target_id text s)
                ]
              ]))
      go none = IsUntouched-refl j s
      go (some name) =
          to_target-IsUntouched c name target text j s (get (h.py.lower target) s.usernames) ne
            other
