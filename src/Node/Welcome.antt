-- ===== src/Node/Welcome.antt =====
-- What a worker of server/gossip.py posts is taken by app.py's `receive_gossip` without an exception, at every node.
use mathlib.Core.Path.{subst}
use group_chat.Prelude.{
  ℕ, ◌≡◌, ◌∙◌, refl, ap, Bool, true, some, List, [], ◌∷◌, Str, arith, if_intro, All, Bool-cases,
  inl, inr,
}
use group_chat.App.Defs.{
  ok_status, receive_gossip, receive_items, receive_item, accept, accept_value, canonical,
  broadcast_value, is_own,
}
use group_chat.Config.{Config}
use group_chat.Gossip.{Gossip, payload_value, items_of, body_of}
use group_chat.Gossip.Origin.{IsOrigin}
use group_chat.Gossip.Ring.{posted}
use group_chat.Gossip.Welcome.{IsWelcome, is_lookup}
use group_chat.Host.{Host, Draw}
use group_chat.Node.Accepted.{kept_time, kept_time-int_of}
use group_chat.Node.Circulation.{worker_round-IsOrigin}
use group_chat.Node.Defs.{worker_round}
use group_chat.Node.Limits.Runs.{Run-IsFit}
use group_chat.Node.Steps.{Run}
use group_chat.Python.{
  Value, Fields, pos, int, str, arr, obj, truth, int_of, field_of, field_or, ◌orelse◌,
}
use group_chat.Result.{ok}
use group_chat.Server.Defs.{Frame, Server}
use group_chat.Server.Handlers.{cache_message}
use group_chat.Server.Limits.{IsFit}
use group_chat.Store.Cache.Defs.{Cache, cache_put}
use group_chat.Store.Visible.{cache_put-stored}

module _ (h : Host) (d : Draw) where
  -- A value that can be looked up can be, also where the first default room stands for it.
  is_lookup-orelse :
      (room : Value) (r : Str) → is_lookup room ≡ true → is_lookup (room orelse str r) ≡ true
  unfolding is_lookup ◌orelse◌
  is_lookup-orelse room r e = if_intro (λ v. is_lookup v ≡ true) (truth room) (λ _. e) (λ _. refl)

  broadcast_value-taken :
      (room : Value) (frame : Frame) (s : Server)
      → is_lookup room ≡ true
      → (t : Server) × (broadcast_value room frame s ≡ ok t)
  unfolding is_lookup broadcast_value
  broadcast_value-taken (arr l) frame s e = absurd (cc)
  broadcast_value-taken (obj m) frame s e = absurd (cc)
  broadcast_value-taken (str r) frame s e = (_, refl)
  broadcast_value-taken v frame s e = (s, refl)

  cache_put-taken :
      (room v : Value) (msg : Fields) (c : Cache)
      → IsWelcome v msg
      → (c' : Cache) × (cache_put h.py d.now room (canonical h d room msg) c ≡ ok c')
  unfolding canonical field_or
  cache_put-taken room v msg c welcome = elim (Bool-cases (truth (field_of "id" msg))) [
    | inl real ↦
        let (k, hashed) = welcome.hashed real in
        let (ts, timed) = welcome.time in
        let time : int_of h.py (field_or (int (pos d.now)) "timestamp" msg orelse int (pos d.now))
            ≡ some (kept_time h d d.now ts) =
          ap (λ t. int_of h.py (t orelse int (pos d.now))) (timed (int (pos d.now)))
          ∙ kept_time-int_of h d d.now ts in
        (
          _,
          cache_put-stored h d.now room (canonical h d room msg) c k (kept_time h d d.now ts) real
              time hashed,
        )
    | inr unreal ↦ (c, unfold cache_put in (ground arith))
  ]

  accept-taken :
      (room v : Value) (msg : Fields) (s : Server)
      → is_lookup room ≡ true
      → IsWelcome v msg
      → (accept h d room msg s).0 ≡ true
  unfolding accept cache_message
  accept-taken room v msg s found welcome =
      let (c, put_it) = cache_put-taken room v msg s.store.cache welcome in
      let s₁ : Server = record s { store = record s.store { cache = c } } in
      let (t, sent) =
        broadcast_value-taken room (Frame.message (canonical h d room msg)) s₁ found in
      ground arith

  receive_item-taken :
      (g : Gossip) (s : Server)
      → IsWelcome g.room g.msg
      → (receive_item h d (payload_value g) s).0 ≡ true
  unfolding receive_item payload_value field_or accept_value
  receive_item-taken g s welcome =
      if_intro {A = Bool × Server} (λ p. p.0 ≡ true) (is_own h (str g.origin)) (λ _. refl)
        (λ _. taken g.msg welcome)
    where
      taken :
          (msg : Fields)
          → IsWelcome g.room msg
          → (accept_value h d (g.room orelse str h.cfg.first_room) (obj msg) s).0 ≡ true
      taken Fields.end w = refl
      taken (Fields.field k v msg) w =
          accept-taken (g.room orelse str h.cfg.first_room) g.room (Fields.field k v msg) s
            (is_lookup-orelse g.room h.cfg.first_room w.lookup) w

  receive_items-taken :
      (cfg : Config) (gs : List Gossip) (s : Server)
      → All (IsOrigin cfg) gs
      → (receive_items h d (items_of gs) s).0 ≡ ok_status
  unfolding receive_items items_of
  receive_items-taken cfg [] s own = refl
  receive_items-taken cfg (g ∷ gs) s own =
      rw (receive_item-taken g s own.0.welcome) (receive_items-taken cfg gs _ own.1)

  pub receive_gossip-taken :
      (cfg : Config) (gs : List Gossip) (s : Server)
      → All (IsOrigin cfg) gs
      → (receive_gossip h d (some (body_of gs)) s).0 ≡ ok_status
  unfolding receive_gossip body_of payload_value
  receive_gossip-taken cfg [] s own = refl
  receive_gossip-taken cfg (g ∷ []) s own = receive_items-taken cfg (g ∷ []) s own
  receive_gossip-taken cfg (g ∷ g' ∷ gs) s own = receive_items-taken cfg (g ∷ g' ∷ gs) s own

-- In every run of a node that starts within its bounds, whatever its clients send it, each batch that a
-- worker posts is answered with "ok" by every node of the same code, in whatever state: no payload
-- raises there, so that none keeps those behind it in the batch from being taken.
pub worker_round-taken :
    (h : Host) {s t : Server} (rounds : ℕ) (peer : Str) (batch : List Gossip) (h' : Host) (d : Draw)
    (s' : Server)
    → IsFit h s
    → Run h s t
    → (worker_round rounds peer t).0 ≡ some batch
    → (receive_gossip h' d (some (body_of batch)) s').0 ≡ ok_status
unfolding posted
worker_round-taken h {s} {t} rounds peer batch h' d s' fit run e =
    let own = (worker_round-IsOrigin h rounds peer t (Run-IsFit h fit run)).1 in
    receive_gossip-taken h' d h.cfg batch s' (subst (All (IsOrigin h.cfg)) (ap posted e) own)
