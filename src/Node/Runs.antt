-- ===== src/Node/Runs.antt =====
-- What holds in every run of a node.
use group_chat.Prelude.{
  ℕ, ◌≡◌, refl, Bool, true, false, Option, none, some, List, [], ◌∷◌, Str, codes, get, arith,
  if_intro, Option-cases, inl, inr, keys,
}
use group_chat.App.Defs.{
  post_message, post_body, publish_post, broadcast_value, get_feed_route, msg_text, Response,
  count_in, count_out,
}
use group_chat.App.Routes.{receive_gossip-SameDuties}
use group_chat.Host.{Host, Draw}
use group_chat.Node.Defs.{sender_round, run_one, worker_round}
use group_chat.Node.Steps.{Step, Run}
use group_chat.Python.{Value, Fields, ℤ, truth, str_of}
use group_chat.Server.Defs.{
  Client, Frame, Server, is_empty, close_ws, broadcast_to_all, to_room, send, notify,
}
use group_chat.Server.Handlers.{cache_message, join_begin, join_end, history}
use group_chat.Server.RoomHandlers.{may_switch, move, switch_end}
use group_chat.Server.Session.JoinFrame.{begun}
use group_chat.Server.Session.Joining.{move-IsPlaced}
use group_chat.Server.Session.SwitchFrame.{valid-named}
use group_chat.Store.Cache.Defs.{Message}
use group_chat.Store.Defs.{History, increment_connections}
use group_chat.Result.{Result, raise}
use group_chat.Server.Session.{shutdown, close_all}
use group_chat.Server.Session.Seats.{
  Seated, Seated-refl, Seated-trans, Seated-same, Seated-close_ws, seats-put,
  Seated-broadcast_to_all,
}
use group_chat.Server.Session.Sound.{
  Sound, Placed, Sound-refl, Sound-trans, Sound-of_Seated, begun-Sound, move-Keeps,
}
use group_chat.Server.Session.Rounds.{
  round-Sound, connect-Sound, disconnect-Sound, presence_sweep-Sound,
}

Seated-close_all : (cids : List Str) (s : Server) → Seated s (close_all cids s)
unfolding close_all
Seated-close_all [] s = Seated-refl s
Seated-close_all (cid ∷ cids) s =
    Seated-trans (Seated-close_ws cid 1001 s) (Seated-close_all cids (close_ws cid 1001 s))

Seated-shutdown : (s : Server) → Seated s (shutdown s)
unfolding shutdown
Seated-shutdown s =
    let last : Frame =
      Frame.system_shutdown (codes "Server is shutting down. You will be disconnected.") in
    let s₁ = broadcast_to_all last s in
    Seated-trans (Seated-broadcast_to_all last s) (Seated-close_all (keys s₁.clients) s₁)

Seated-sender_round : (cid : Str) (sent : Bool) (s : Server) → Seated s (sender_round cid sent s).1
unfolding sender_round
Seated-sender_round cid sent s = elim (Option-cases (get cid s.clients)) [
  | inl e ↦ Seated-same (ground arith) (ground arith)
  | inr (c, e) ↦ record {
    rooms = ground arith;
    seats = λ j.
        ground (arith, seats-put cid j c (record c { connected = false }) s.clients e refl refl);
  }
]

module _ (h : Host) where
  publish_post-same :
      (d : Draw) (room : Value) (msg : Fields) (s : Server)
      → ((publish_post h d room msg s).1.clients ≡ s.clients)
        × ((publish_post h d room msg s).1.rooms ≡ s.rooms)
  unfolding publish_post broadcast_value cache_message to_room
  publish_post-same d room msg s = ground arith

  post_body-same :
      (d : Draw) (body query : Fields) (s : Server)
      → ((post_body h d body query s).1.clients ≡ s.clients)
        × ((post_body h d body query s).1.rooms ≡ s.rooms)
  unfolding post_body
  post_body-same d body query s =
      if_intro {A = Response × Server} (λ p. (p.1.clients ≡ s.clients) × (p.1.rooms ≡ s.rooms))
        (truth (msg_text h body query)) (λ _. publish_post-same d _ _ s) (λ _. (refl, refl))

  Seated-post_message :
      (d : Draw) (body query : Fields) (s : Server) → Seated s (post_message h d body query s).1
  unfolding post_message
  Seated-post_message d body query s =
      let same = post_body-same d body query (record s { store = increment_connections s.store }) in
      Seated-same same.0 same.1

  Seated-feed :
      (dumps : List Message → Result Str) (now now' : ℕ) (room : Option Str) (limit : ℤ)
      (s : Server)
      → Seated s (get_feed_route h dumps now now' room limit s).1
  unfolding get_feed_route
  Seated-feed dumps now now' none limit s = Seated-same refl refl
  Seated-feed dumps now now' (some room) limit s = Seated-same refl refl

  Seated-join_end :
      (cid u r : Str) (hist : History) (s : Server) → Seated s (join_end h cid u r hist s)
  unfolding join_end send notify to_room
  Seated-join_end cid u r hist s = Seated-same (ground arith) (ground arith)

  Seated-switch_end :
      (cid name r : Str) (hist : History) (s : Server) → Seated s (switch_end h cid name r hist s)
  unfolding switch_end send notify to_room
  Seated-switch_end cid name r hist s = Seated-same (ground arith) (ground arith)

  Seated-history :
      (d : Draw) (found : Result (List Fields)) (room : Str) (s : Server)
      → Seated s (history h d found room s).1
  unfolding history
  Seated-history d found room s = Seated-same refl refl

  Seated-run_one : (d : Draw) (n : ℕ) (s : Server) → Seated s (run_one h d n s)
  unfolding run_one
  Seated-run_one d n s = Seated-same (ground arith) (ground arith)

  Seated-worker_round :
      (rounds : ℕ) (peer : Str) (s : Server) → Seated s (worker_round rounds peer s).1
  unfolding worker_round
  Seated-worker_round rounds peer s = Seated-same (ground arith) (ground arith)

  join_begin-Sound :
      (d : Draw) (cid : Str) (frame : Fields) (u r : Str) (s s₁ : Server)
      → is_empty h.cfg.first_room ≡ false
      → Placed s
      → join_begin h d cid frame s ≡ some (u, r, s₁)
      → Sound s s₁
  unfolding begun
  join_begin-Sound d cid frame u r s s₁ default placed e =
      let same : begun h d raise cid frame s ≡ s₁ = ground arith in
      rw (← same) (begun-Sound h d raise default cid frame s placed)

  move-Sound :
      (d : Draw) (c : Client) (name : Str) (room : Value) (s : Server)
      → Placed s
      → get c.id s.clients ≡ some c
      → may_switch h c room s ≡ true
      → Sound s (move h d c name (str_of h.py room) s)
  move-Sound d c name room s placed found may = record {
    placed =
        move-IsPlaced h c s placed found d name (str_of h.py room)
          (valid-named h room (unfold may_switch in (ground arith)));
    keeps = move-Keeps h d c name (str_of h.py room) s;
  }

  Step-Sound :
      {s t : Server} → is_empty h.cfg.first_room ≡ false → Placed s → Step h s t → Sound s t
  Step-Sound default placed (Step.connects d room username s new) =
      connect-Sound h d room username s default new placed
  Step-Sound default placed (Step.receives d found cid v s) =
      round-Sound h d found cid v s default placed
  Step-Sound default placed (Step.join_begins d cid frame u r s s₁ e) =
      join_begin-Sound d cid frame u r s s₁ default placed e
  Step-Sound default placed (Step.join_ends cid u r hist s) =
      Sound-of_Seated placed (Seated-join_end cid u r hist s)
  Step-Sound default placed (Step.switch_begins d c name room s found may) =
      move-Sound d c name room s placed found may
  Step-Sound default placed (Step.switch_ends cid name r hist s) =
      Sound-of_Seated placed (Seated-switch_end cid name r hist s)
  Step-Sound default placed (Step.loads d found room s) =
      Sound-of_Seated placed (Seated-history d found room s)
  Step-Sound default placed (Step.closes cid s) = disconnect-Sound h cid s placed
  Step-Sound default placed (Step.sweeps now s) = presence_sweep-Sound h now s placed
  Step-Sound default placed (Step.posts d body query s) =
      Sound-of_Seated placed (Seated-post_message d body query s)
  Step-Sound default placed (Step.gossips d body s) =
      let same = receive_gossip-SameDuties h d body s in
      Sound-of_Seated placed (Seated-same same.clients same.rooms)
  Step-Sound default placed (Step.feeds dumps now now' room limit s) =
      Sound-of_Seated placed (Seated-feed dumps now now' room limit s)
  Step-Sound default placed (Step.sends cid sent s) =
      Sound-of_Seated placed (Seated-sender_round cid sent s)
  Step-Sound default placed (Step.works d n s) = Sound-of_Seated placed (Seated-run_one d n s)
  Step-Sound default placed (Step.spreads rounds peer s) =
      Sound-of_Seated placed (Seated-worker_round rounds peer s)
  Step-Sound default placed (Step.warms now found s) =
      Sound-of_Seated placed (Seated-same refl refl)
  Step-Sound default placed (Step.writer_starts s) = Sound-of_Seated placed (Seated-same refl refl)
  Step-Sound default placed (Step.writes w e s q) = Sound-of_Seated placed (Seated-same refl refl)
  Step-Sound default placed (Step.counts_in s) =
      Sound-of_Seated placed (unfold count_in in (Seated-same refl refl))
  Step-Sound default placed (Step.counts_out s) =
      Sound-of_Seated placed (unfold count_out in (Seated-same refl refl))
  Step-Sound default placed (Step.links l s e) = Sound-of_Seated placed (Seated-same refl refl)
  Step-Sound default placed (Step.unlinks l s e) = Sound-of_Seated placed (Seated-same refl refl)
  Step-Sound default placed (Step.shuts s) = Sound-of_Seated placed (Seated-shutdown s)

  -- In every run of a node, whatever clients, peers and requests do and in whatever order the steps of
  -- different connections come: a member of a room is a client whose room it is, and no room vanishes.
  pub Run-Sound :
      {s t : Server} → is_empty h.cfg.first_room ≡ false → Placed s → Run h s t → Sound s t
  Run-Sound {s} default placed Run.here = Sound-refl s placed
  Run-Sound default placed (Run.next run st) =
      let before = Run-Sound default placed run in
      Sound-trans before (Step-Sound default before.placed st)
