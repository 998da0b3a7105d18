-- ===== src/Server/Limits/Roomed.antt =====
-- Joins, changes of the room and new rooms keep the bounds of what a node holds for others.
use mathlib.Core.Path.{subst}
use group_chat.Prelude.{
  ℕ, ◌≡◌, refl, Option, none, some, List, [], ◌∷◌, ◌++◌, Str, codes, get, inl, inr, if_intro,
  option_intro, ite, str-discrete,
}
use group_chat.Host.{Host, Draw}
use group_chat.Python.{Python, Value, Fields, str, field_of, str_of, pos}
use group_chat.Result.{Result, ok, raise, Result-cases}
use group_chat.Rooms.Defs.{room_exists, leave, ensure_room}
use group_chat.Server.Defs.{
  Client, Server, done, failed, state_of, send_error, add_task, set_client, name_of, is_empty,
}
use group_chat.Server.Handlers.{
  clean, leave_old, register, join_begin, join_end, history, handle_join, requested_name,
}
use group_chat.Server.Limits.{IsFit, IsFit-same, send-IsFit, broadcast_to_all-IsFit}
use group_chat.Server.Limits.Handled.{EndsFit, notify-IsFit}
use group_chat.Server.Names.{is_valid_room_name, unique_username}
use group_chat.Server.RoomHandlers.{
  move, may_switch, switch_end, switch_to, handle_switch_room, make_room, handle_create_room,
}
use group_chat.Store.Cache.Bounds.{IsBounded, cache_put-IsBounded}
use group_chat.Store.Cache.Defs.{Cache, cache_get, cache_put, Message}
use group_chat.Store.Defs.{History, get_history, load_history, put_each}

put_first :
    (py : Python) (now : ℕ) (room : Str) (m : Fields) (ms : List Fields) (c : Cache)
    → IsBounded c
    → ((c' : Cache) → IsBounded c' → IsBounded (put_each py now room ms c').1)
    → IsBounded (put_each py now room (m ∷ ms) c).1
unfolding put_each
put_first py now room m ms c h rest = elim (Result-cases (cache_put py now (str room) m c)) [
  | inl (c', e) ↦ rw (e, put_each) (rest c' (cache_put-IsBounded py now (str room) m c h e))
  | inr e ↦ rw (e, put_each) h
]

put_each-IsBounded :
    (py : Python) (now : ℕ) (room : Str) (ms : List Fields) (c : Cache)
    → IsBounded c
    → IsBounded (put_each py now room ms c).1
unfolding put_each
put_each-IsBounded py now room [] c h = h
put_each-IsBounded py now room (m ∷ ms) c h =
    put_first py now room m ms c h (λ c' h'. put_each-IsBounded py now room ms c' h')

load_history-IsBounded :
    (py : Python) (now : ℕ) (found : Result (List Fields)) (room : Str) (c : Cache)
    → IsBounded c
    → IsBounded (load_history py now found room c).1
unfolding load_history
load_history-IsBounded py now raise room c h = h
load_history-IsBounded py now (ok cursor) room c h = put_each-IsBounded py now room _ c h

get_history-IsBounded :
    (py : Python) (now : ℕ) (found : Result (List Fields)) (room : Str) (limit : ℕ) (c : Cache)
    → IsBounded c
    → IsBounded (get_history py now found room limit c).1
unfolding get_history
get_history-IsBounded py now found room limit c h = go (cache_get (some room) (pos limit) c)
  where
    go :
        (ms : List Message)
        → IsBounded
            (elim ms as (λ _. Result History × Cache) [
              | [] ↦ load_history py now found room c
              | m ∷ ms ↦ (ok (History.cached (m ∷ ms)), c)
            ]).1
    go [] = load_history-IsBounded py now found room c h
    go (m ∷ ms) = h

module _ (h : Host) where
  pub history-IsFit :
      (d : Draw) (found : Result (List Fields)) (room : Str) (s : Server)
      → IsFit h s
      → IsFit h (history h d found room s).1
  unfolding history
  history-IsFit d found room s fit = record {
    cache = get_history-IsBounded h.py d.now found room h.cfg.history_limit s.store.cache fit.cache;
    documents = fit.documents;
    frames = fit.frames;
    payloads = fit.payloads;
  }

  -- What follows a history.
  after_history :
      (r : Result History) (s : Server) (f : History → Server)
      → IsFit h s
      → ((hist : History) → IsFit h (f hist))
      → EndsFit h (elim r [ raise ↦ failed s | ok hist ↦ done (f hist) ])
  unfolding state_of
  after_history raise s f fit all = fit
  after_history (ok hist) s f fit all = all hist

  leave_old-IsFit :
      (c : Client) (room : Str) (s : Server) → IsFit h s → IsFit h (leave_old h c room s)
  unfolding leave_old
  leave_old-IsFit c room s fit =
      if_intro (IsFit h) (is_empty c.room) (λ _. fit)
        (λ _.
          elim (str-discrete c.room room)
            as (λ x. IsFit h (ite x s (record s { rooms = leave c.room c.id s.rooms }))) [
              | yes _ ↦ fit
              | no _ ↦ IsFit-same h refl refl refl fit
            ])

  register-IsFit :
      (d : Draw) (c : Client) (username room : Str) (s : Server)
      → IsFit h s
      → IsFit h (register h d c username room s)
  unfolding register set_client add_task
  register-IsFit d c username room s fit =
      let before = leave_old-IsFit c room s fit in
      record {
        cache = before.cache;
        documents = before.documents;
        frames = before.frames;
        payloads = before.payloads;
      }

  pub join_end-IsFit :
      (cid username room : Str) (hist : History) (s : Server)
      → IsFit h s
      → IsFit h (join_end h cid username room hist s)
  unfolding join_end
  join_end-IsFit cid username room hist s fit =
      send-IsFit h cid _ _ (notify-IsFit h room _ (some cid) _ (send-IsFit h cid _ s fit))

  -- What `join_begin` returns leaves the node within the bounds.
  BeginsFit : Option (Str × Str × Server) → Type 0
  BeginsFit none = Unit
  BeginsFit (some (username, room, s)) = IsFit h s

  join_begin-BeginsFit :
      (d : Draw) (cid : Str) (frame : Fields) (s : Server)
      → IsFit h s
      → BeginsFit (join_begin h d cid frame s)
  unfolding join_begin BeginsFit
  join_begin-BeginsFit d cid frame s fit =
      option_intro BeginsFit (get cid s.clients) (λ _. tt)
        (λ c _.
          if_intro BeginsFit c.explicitly_joined (λ _. tt)
            (λ _.
              option_intro BeginsFit (unique_username h.py (requested_name h c frame) s.usernames)
                (λ _. tt) (λ username _. register-IsFit d c username _ s fit)))

  pub join_begin-IsFit :
      (d : Draw) (cid : Str) (frame : Fields) (u r : Str) (s s₁ : Server)
      → join_begin h d cid frame s ≡ some (u, r, s₁)
      → IsFit h s
      → IsFit h s₁
  unfolding BeginsFit
  join_begin-IsFit d cid frame u r s s₁ e fit =
      subst BeginsFit e (join_begin-BeginsFit d cid frame s fit)

  pub handle_join-IsFit :
      (d : Draw) (found : Result (List Fields)) (cid : Str) (frame : Fields) (s : Server)
      → IsFit h s
      → EndsFit h (handle_join h d found cid frame s)
  unfolding handle_join state_of
  handle_join-IsFit d found cid frame s fit =
      option_intro (EndsFit h) (join_begin h d cid frame s) (λ _. fit)
        (λ p e.
          let begun = join_begin-IsFit d cid frame p.0 p.1 s p.2 e fit in
          let loaded = history-IsFit d found p.1 p.2 begun in
          after_history _ _ _ loaded (λ hist. join_end-IsFit cid p.0 p.1 hist _ loaded))

  pub move-IsFit :
      (d : Draw) (c : Client) (name room : Str) (s : Server)
      → IsFit h s
      → IsFit h (move h d c name room s)
  unfolding move set_client
  move-IsFit d c name room s fit =
      let left : IsFit h (record s { rooms = leave c.room c.id s.rooms }) =
        IsFit-same h refl refl refl fit in
      let told = notify-IsFit h c.room (name ++ codes " left #" ++ c.room) none _ left in
      IsFit-same h refl refl refl told

  pub switch_end-IsFit :
      (cid name room : Str) (hist : History) (s : Server)
      → IsFit h s
      → IsFit h (switch_end h cid name room hist s)
  unfolding switch_end
  switch_end-IsFit cid name room hist s fit =
      notify-IsFit h room _ (some cid) _ (send-IsFit h cid _ s fit)

  switch_to-IsFit :
      (d : Draw) (found : Result (List Fields)) (c : Client) (name room : Str) (s : Server)
      → IsFit h s
      → EndsFit h (switch_to h d found c name room s)
  unfolding switch_to
  switch_to-IsFit d found c name room s fit =
      let moved = history-IsFit d found room _ (move-IsFit d c name room s fit) in
      after_history _ _ _ moved (λ hist. switch_end-IsFit c.id name room hist _ moved)

  pub handle_switch_room-IsFit :
      (d : Draw) (found : Result (List Fields)) (cid : Str) (room : Value) (s : Server)
      → IsFit h s
      → EndsFit h (handle_switch_room h d found cid room s)
  unfolding handle_switch_room state_of send_error
  handle_switch_room-IsFit d found cid room s fit =
      option_intro (EndsFit h) (get cid s.clients) (λ _. fit)
        (λ c _.
          option_intro (EndsFit h) (name_of c) (λ _. fit)
            (λ name _.
              if_intro (EndsFit h) (may_switch h c room s)
                (λ _.
                  elim (str-discrete (str_of h.py room) c.room)
                    as (λ x.
                      EndsFit h
                        (ite x (done s) (switch_to h d found c name (str_of h.py room) s))) [
                          | yes _ ↦ fit
                          | no _ ↦ switch_to-IsFit d found c name (str_of h.py room) s fit
                        ])
                (λ _. send-IsFit h cid _ s fit)))

  make_room-IsFit :
      (d : Draw) (name : Str) (s : Server) → IsFit h s → IsFit h (make_room h d name s)
  unfolding make_room
  make_room-IsFit d name s fit =
      let made : IsFit h (record s { rooms = ensure_room d.now name s.rooms }) =
        IsFit-same h refl refl refl fit in
      if_intro (IsFit h) (room_exists name s.rooms) (λ _. made)
        (λ _. broadcast_to_all-IsFit h _ _ made)

  pub handle_create_room-IsFit :
      (d : Draw) (found : Result (List Fields)) (cid : Str) (frame : Fields) (s : Server)
      → IsFit h s
      → EndsFit h (handle_create_room h d found cid frame s)
  unfolding handle_create_room state_of send_error
  handle_create_room-IsFit d found cid frame s fit =
      option_intro (EndsFit h) (get cid s.clients) (λ _. fit)
        (λ c _.
          option_intro (EndsFit h) (name_of c) (λ _. fit)
            (λ _ _.
              if_intro (EndsFit h) (is_valid_room_name (str (clean h (field_of "room" frame))))
                (λ _. handle_switch_room-IsFit d found cid _ _ (make_room-IsFit d _ s fit))
                (λ _. send-IsFit h cid _ s fit)))
