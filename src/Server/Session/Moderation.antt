-- ===== src/Server/Session/Moderation.antt =====
-- Who may moderate, and what a mute does.
use mathlib.Core.Option
use group_chat.Prelude.{
  ◌≡◌, ◌≢◌, ◌⊎◌, ◌∙◌, refl, Bool, false, some, Str, codes, get, put, get-put, arith, if_pos,
  if_intro, option_intro, Option-cases, inl, inr, str-discrete,
}
use group_chat.Host.{Host, Draw}
use group_chat.Python.{Fields}
use group_chat.Net.{Net, enqueue, offer}
use group_chat.Server.Session.Private.{send-IsUntouched}
use group_chat.Server.Defs.{
  name_of, send_error, Frame, Client, Server, Outcome, done, state_of, to_room, send, set_client,
}
use group_chat.Server.Handlers.{handle_message, post_text, publish_message, cache_message}
use group_chat.Server.RoomHandlers.{Action, handle_moderation}

-- The error that a client without the moderator's flag gets.
abbrev pub not_admin : Frame
not_admin = Frame.error (codes "not_admin") (codes "Only moderators can do that.")

-- Nothing is different but the client's own queue, which has at most this error more.
pub record IsRefused (cid : Str) (s t : Server) : Type 0 where
  pub clients : t.clients ≡ s.clients
  pub usernames : t.usernames ≡ s.usernames
  pub rooms : t.rooms ≡ s.rooms
  pub closing : t.closing ≡ s.closing
  pub tasks : t.tasks ≡ s.tasks
  pub peers : t.peers ≡ s.peers
  pub store : t.store ≡ s.store
  pub direct : t.net.direct ≡ s.net.direct
  pub queues : (j : Str) → cid ≢ j → get j t.net.queues ≡ get j s.net.queues
  pub own :
      (get cid t.net.queues ≡ get cid s.net.queues)
      ⊎ (get cid t.net.queues ≡ Option.map (offer not_admin) (get cid s.net.queues))

IsRefused-same : (cid : Str) (s : Server) → IsRefused cid s s
IsRefused-same cid s = record {
  clients = refl;
  usernames = refl;
  rooms = refl;
  closing = refl;
  tasks = refl;
  peers = refl;
  store = refl;
  direct = refl;
  queues = λ j ne. refl;
  own = inl refl;
}

enqueue-own :
    (cid : Str) (frame : Frame) (net : Net Frame)
    → get cid (enqueue cid frame net).queues ≡ Option.map (offer frame) (get cid net.queues)
unfolding enqueue
enqueue-own cid frame net = elim (Option-cases (get cid net.queues)) [
  | inl e ↦ ground arith
  | inr (q, e) ↦ ground (arith, get-put cid cid (offer frame q) net.queues)
]

send-kept :
    (cid : Str) (frame : Frame) (s : Server)
    → ((send cid frame s).clients ≡ s.clients)
      × ((send cid frame s).usernames ≡ s.usernames)
      × ((send cid frame s).closing ≡ s.closing)
      × ((send cid frame s).tasks ≡ s.tasks)
      × ((send cid frame s).rooms ≡ s.rooms)
      × ((send cid frame s).peers ≡ s.peers)
      × ((send cid frame s).store ≡ s.store)
      × ((send cid frame s).net.direct ≡ s.net.direct)
unfolding send enqueue
send-kept cid frame s = ground arith

send-own :
    (cid : Str) (frame : Frame) (s : Server)
    → (get cid (send cid frame s).net.queues ≡ get cid s.net.queues)
      ⊎ (get cid (send cid frame s).net.queues ≡ Option.map (offer frame) (get cid s.net.queues))
unfolding send
send-own cid frame s =
    option_intro {B = Server}
      (λ t.
        (get cid t.net.queues ≡ get cid s.net.queues)
        ⊎ (get cid t.net.queues ≡ Option.map (offer frame) (get cid s.net.queues)))
      (get cid s.clients) (λ _. inl refl)
      (λ c _.
        if_intro {A = Server}
          (λ t.
            (get cid t.net.queues ≡ get cid s.net.queues)
            ⊎ (get cid t.net.queues ≡ Option.map (offer frame) (get cid s.net.queues)))
          c.connected (λ _. inr (enqueue-own cid frame s.net)) (λ _. inl refl))

IsRefused-sent : (cid : Str) (s : Server) → IsRefused cid s (send cid not_admin s)
IsRefused-sent cid s =
    let (clients, usernames, closing, tasks, rooms, peers, store, direct) =
      send-kept cid not_admin s in
    record {
      clients = clients;
      usernames = usernames;
      rooms = rooms;
      closing = closing;
      tasks = tasks;
      peers = peers;
      store = store;
      direct = direct;
      queues = λ j ne. (send-IsUntouched cid j not_admin s ne).queue;
      own = send-own cid not_admin s;
    }

-- Without the moderator's flag a client's moderation frame changes no client, no name, no room, no
-- socket, no task, no peer's queue, nothing in the store and no other client's queue: at most the error
-- "not_admin" is queued for the client itself.
pub handle_moderation-needs_admin :
    (h : Host) (action : Action) (cid : Str) (frame : Fields) (c : Client) (s : Server)
    → get cid s.clients ≡ some c
    → c.is_admin ≡ false
    → IsRefused cid s (handle_moderation h action cid frame s)
unfolding handle_moderation send_error
handle_moderation-needs_admin h action cid frame c s here plain = elim (Option-cases (name_of c)) [
  | inl e ↦
      let same : handle_moderation h action cid frame s ≡ s = ground arith in
      rw same (IsRefused-same cid s)
  | inr (name, e) ↦
      let same : handle_moderation h action cid frame s ≡ send cid not_admin s = ground arith in
      rw same (IsRefused-sent cid s)
]

module _ (h : Host) (d : Draw) where
  -- What others see of a message.
  abbrev pub SameEffect : Outcome → Outcome → Type 0
  SameEffect o p =
      ((state_of o).net ≡ (state_of p).net)
      × ((state_of o).store.cache ≡ (state_of p).store.cache)
      × ((state_of o).tasks ≡ (state_of p).tasks)
      × ((state_of o).peers ≡ (state_of p).peers)

  twin : Bool → Str → Client → Server → Server
  twin b cid c s = record s { clients = put cid (record c { muted = b }) s.clients }

  twin-get :
      (b : Bool) (cid : Str) (c : Client) (s : Server)
      → get cid (twin b cid c s).clients ≡ some (record c { muted = b })
  unfolding twin
  twin-get b cid c s =
      get-put cid cid (record c { muted = b }) s.clients ∙ if_pos (str-discrete cid cid) refl _ _

  publish-SameEffect :
      (cid : Str) (b : Bool) (c : Client) (msg_id : Str) (msg : Fields) (s : Server)
      → get c.id s.clients ≡ some c
      → SameEffect
          (done (publish_message h (record c { muted = b }) msg_id msg (twin b c.id c s)))
          (done (publish_message h c msg_id msg s))
  unfolding publish_message send to_room twin state_of
  publish-SameEffect cid b c msg_id msg s here = let there = twin-get b c.id c s in ground arith

  -- The handler of messages does not read the mute flag: a muted client's message reaches the room, the
  -- cache, the database task and the peers just as if it were not muted.
  pub handle_message-ignores_mute :
      (cid : Str) (frame : Fields) (b : Bool) (c : Client) (s : Server)
      → get cid s.clients ≡ some c
      → c.id ≡ cid
      → SameEffect
          (handle_message h d cid frame (set_client (record c { muted = b }) s))
          (handle_message h d cid frame s)
  unfolding handle_message set_client state_of post_text cache_message publish_message send to_room
      twin
  handle_message-ignores_mute cid frame b c s here own =
      let there = twin-get b cid c s in
      let both = λ (msg_id : Str) (msg : Fields). publish-SameEffect cid b c msg_id msg in
      ground arith
