-- ===== src/Node/Limits/Runs.antt =====
-- Every step of a node, and so every run of one, keeps the bounds of what the node holds for others.
use mathlib.Core.Path.{subst}
use group_chat.Prelude.{
  ℕ, ◌≡◌, refl, sym, Bool, true, false, Option, none, some, List, [], ◌∷◌, Str, get, put, arith,
  if_intro, option_intro, AllValues, put-AllValues, get-AllValues, if◌then◌else◌,
}
use group_chat.App.Defs.{
  Response, receive_gossip, receive_items, receive_item, accept, accept_value, canonical, is_own,
  get_feed_route, broadcast_value,
}
use group_chat.Gossip.{Gossip}
use group_chat.Gossip.Links.{shutdown_gossip}
use group_chat.Gossip.Origin.{IsOwn, init_gossip-IsOwn, send_round-IsOwn}
use group_chat.Host.{Host, Draw}
use group_chat.Node.Defs.{sender_round, run_task, run_one, worker_round, written, pick}
use group_chat.Node.Limits.{
  IsFit-store, IsTight-of, count_in-IsFit, count_out-IsFit, broadcast_value-IsFit,
  post_message-IsFit, get_feed_bytes-IsBounded,
}
use group_chat.Node.Steps.{Step, Run}
use group_chat.Python.{Value, Items, Fields, ℤ, arr, obj, field_of}
use group_chat.Result.{Result, ok, raise}
use group_chat.Rooms.Bounds.{IsShort}
use group_chat.Server.Defs.{Client, Frame, Task, Server}
use group_chat.Server.Handlers.{cache_message}
use group_chat.Server.Limits.{IsFit, IsFit-same, IsFit-net, cache_message-IsFit}
use group_chat.Server.Limits.Roomed.{
  history-IsFit, join_begin-IsFit, join_end-IsFit, move-IsFit, switch_end-IsFit,
}
use group_chat.Server.Limits.Sessions.{
  connect-IsFit, disconnect-IsFit, round-IsFit, presence_sweep-IsFit, shutdown-IsFit,
}
use group_chat.Store.Cache.Bounds.{warm_cache_from_db-IsBounded}
use group_chat.Store.Cache.Defs.{Message}
use group_chat.Store.Defs.{Store}
use group_chat.Store.Limits.{
  IsTight, IsShortQueue, append_message-IsTight, save_user_public_key-IsTight, length-step,
  init_batch_writer-IsTight,
}

module _ (h : Host) where
  accept-IsFit :
      (d : Draw) (room : Value) (msg : Fields) (s : Server)
      → IsFit h s
      → IsFit h (accept h d room msg s).1
  unfolding accept
  accept-IsFit d room msg s fit = cached (cache_message h d room (canonical h d room msg) s) refl
    where
      sent :
          (s₁ : Server) (r : Result Server)
          → broadcast_value room (Frame.message (canonical h d room msg)) s₁ ≡ r
          → IsFit h s₁
          → IsFit h (elim r as (λ _. Bool × Server) [ raise ↦ (false, s₁) | ok s₂ ↦ (true, s₂) ]).1
      sent s₁ raise e fit₁ = fit₁
      sent s₁ (ok s₂) e fit₁ = broadcast_value-IsFit h room _ s₁ fit₁ e

      cached :
          (r : Result Server)
          → cache_message h d room (canonical h d room msg) s ≡ r
          → IsFit h
              (elim r as (λ _. Bool × Server) [
                | raise ↦ (false, s)
                | ok s₁ ↦
                    elim (broadcast_value room (Frame.message (canonical h d room msg)) s₁)
                      as (λ _. Bool × Server) [ raise ↦ (false, s₁) | ok s₂ ↦ (true, s₂) ]
              ]).1
      cached raise e = fit
      cached (ok s₁) e = sent s₁ _ refl (cache_message-IsFit h d room _ s fit e)

  accept_value-IsFit :
      (d : Draw) (room v : Value) (s : Server) → IsFit h s → IsFit h (accept_value h d room v s).1
  unfolding accept_value
  accept_value-IsFit d room (obj (Fields.field k v msg)) s fit =
      accept-IsFit d room (Fields.field k v msg) s fit
  accept_value-IsFit d room _ s fit = fit

  receive_item-IsFit :
      (d : Draw) (item : Value) (s : Server) → IsFit h s → IsFit h (receive_item h d item s).1
  unfolding receive_item
  receive_item-IsFit d (obj item) s fit =
      if_intro {A = Bool × Server} (λ p. IsFit h p.1) (is_own h (field_of "origin" item)) (λ _. fit)
        (λ _. accept_value-IsFit d _ _ s fit)
  receive_item-IsFit d _ s fit = fit

  receive_items-IsFit :
      (d : Draw) (items : Items) (s : Server) → IsFit h s → IsFit h (receive_items h d items s).1
  unfolding receive_items
  receive_items-IsFit d Items.nil s fit = fit
  receive_items-IsFit d (Items.cons item items) s fit =
      let first = receive_item-IsFit d item s fit in
      if_intro {A = Response × Server} (λ p. IsFit h p.1) (receive_item h d item s).0
        (λ _. receive_items-IsFit d items _ first) (λ _. first)

  receive_gossip-IsFit :
      (d : Draw) (body : Option Value) (s : Server)
      → IsFit h s
      → IsFit h (receive_gossip h d body s).1
  unfolding receive_gossip
  receive_gossip-IsFit d none s fit = fit
  receive_gossip-IsFit d (some (arr items)) s fit = receive_items-IsFit d items s fit
  receive_gossip-IsFit d (some v) s fit = receive_items-IsFit d (Items.cons v Items.nil) s fit

  feed-IsFit :
      (dumps : List Message → Result Str) (now now' : ℕ) (room : Option Str) (limit : ℤ)
      (s : Server)
      → IsFit h s
      → IsFit h (get_feed_route h dumps now now' room limit s).1
  unfolding get_feed_route
  feed-IsFit dumps now now' none limit s fit =
      IsFit-store h _ s
        (record {
          cache = get_feed_bytes-IsBounded dumps now now' s.store.cache fit.cache;
          documents = fit.documents;
        })
        fit
  feed-IsFit dumps now now' (some room) limit s fit = count_out-IsFit h _ (count_in-IsFit h s fit)

  sender_round-IsFit :
      (cid : Str) (sent : Bool) (s : Server) → IsFit h s → IsFit h (sender_round cid sent s).1
  unfolding sender_round
  sender_round-IsFit cid sent s fit =
      option_intro {B = Option Frame × Server} (λ p. IsFit h p.1) (get cid s.clients) (λ _. fit)
        (λ c _.
          option_intro {B = Option Frame × Server} (λ p. IsFit h p.1) (get cid s.net.queues)
            (λ _. fit) (λ q e. taken q c (get-AllValues IsShort cid q s.net.queues fit.frames e)))
    where
      taken :
          (q : List Frame) (c : Client)
          → IsShort q
          → IsFit h
              (elim q as (λ _. Option Frame × Server) [
                | [] ↦ (none, s)
                | frame ∷ rest ↦
                    let s₁ : Server = record s {
                      net = record s.net { queues = put cid rest s.net.queues };
                    } in
                    if sent then (some frame, s₁) else (
                      none,
                      record s₁ { clients = put cid (record c { connected = false }) s₁.clients },
                    )
              ]).1
      taken [] c short = fit
      taken (frame ∷ rest) c short =
          let within =
            put-AllValues IsShort cid rest s.net.queues (omega (arith, short)) fit.frames in
          let fit₁ =
            IsFit-net h (record s.net { queues = put cid rest s.net.queues }) s within fit in
          if_intro {A = Option Frame × Server} (λ p. IsFit h p.1) sent (λ _. fit₁)
            (λ _. IsFit-same h refl refl refl fit₁)

  run_task-IsTight : (d : Draw) (t : Task) (s : Store) → IsTight s → IsTight (run_task h d t s)
  unfolding run_task
  run_task-IsTight d (Task.append room msg key) s tight =
      append_message-IsTight h d room msg key s tight
  run_task-IsTight d (Task.save_public_key username key) s tight =
      save_user_public_key-IsTight h username key s tight

  run_one-IsFit : (d : Draw) (n : ℕ) (s : Server) → IsFit h s → IsFit h (run_one h d n s)
  unfolding run_one
  run_one-IsFit d n s fit =
      option_intro (IsFit h) (pick n s.tasks) (λ _. fit)
        (λ p _. IsFit-same h refl refl refl (
          IsFit-store h (run_task h d p.0 s.store) s
            (run_task-IsTight d p.0 s.store (IsTight-of h s fit)) fit))

  worker_round-IsFit :
      (rounds : ℕ) (peer : Str) (s : Server) → IsFit h s → IsFit h (worker_round rounds peer s).1
  unfolding worker_round
  worker_round-IsFit rounds peer s fit =
      option_intro {B = Option (List Gossip) × Server} (λ p. IsFit h p.1) (get peer s.peers)
        (λ _. fit)
        (λ q e. record {
          cache = fit.cache;
          documents = fit.documents;
          frames = fit.frames;
          payloads =
              put-AllValues (IsOwn h.cfg) peer _ s.peers
                (send_round-IsOwn h.cfg rounds q
                  (get-AllValues (IsOwn h.cfg) peer q s.peers fit.payloads e))
                fit.payloads;
        })

  Step-IsFit : {s t : Server} → Step h s t → IsFit h s → IsFit h t
  Step-IsFit (Step.connects d room username s new) fit = connect-IsFit h d room username s fit
  Step-IsFit (Step.receives d found cid v s) fit = round-IsFit h d found cid v s fit
  Step-IsFit (Step.join_begins d cid frame u r s s₁ e) fit =
      join_begin-IsFit h d cid frame u r s s₁ e fit
  Step-IsFit (Step.join_ends cid u r hist s) fit = join_end-IsFit h cid u r hist s fit
  Step-IsFit (Step.switch_begins d c name room s found may) fit = move-IsFit h d c name _ s fit
  Step-IsFit (Step.switch_ends cid name r hist s) fit = switch_end-IsFit h cid name r hist s fit
  Step-IsFit (Step.loads d found room s) fit = history-IsFit h d found room s fit
  Step-IsFit (Step.closes cid s) fit = disconnect-IsFit h cid s fit
  Step-IsFit (Step.sweeps now s) fit = presence_sweep-IsFit h now s fit
  Step-IsFit (Step.posts d body query s) fit = post_message-IsFit h d body query s fit
  Step-IsFit (Step.gossips d body s) fit = receive_gossip-IsFit d body s fit
  Step-IsFit (Step.feeds dumps now now' room limit s) fit =
      feed-IsFit dumps now now' room limit s fit
  Step-IsFit (Step.sends cid sent s) fit = sender_round-IsFit cid sent s fit
  Step-IsFit (Step.works d n s) fit = run_one-IsFit d n s fit
  Step-IsFit (Step.spreads rounds peer s) fit = worker_round-IsFit rounds peer s fit
  Step-IsFit (Step.warms now found s) fit =
      IsFit-store h _ s
        (record {
          cache = warm_cache_from_db-IsBounded h.py now found s.store.cache fit.cache;
          documents = fit.documents;
        })
        fit
  Step-IsFit (Step.writer_starts s) fit =
      IsFit-store h _ s (init_batch_writer-IsTight s.store (IsTight-of h s fit)) fit
  Step-IsFit (Step.writes w e s q) fit =
      unfold written in
      IsFit-store h _ s
        (record {
          cache = fit.cache;
          documents = length-step e w (subst IsShortQueue q fit.documents);
        })
        fit
  Step-IsFit (Step.counts_in s) fit = count_in-IsFit h s fit
  Step-IsFit (Step.counts_out s) fit = count_out-IsFit h s fit
  Step-IsFit (Step.links l s e) fit = record {
    cache = fit.cache;
    documents = fit.documents;
    frames = fit.frames;
    payloads =
        init_gossip-IsOwn h.cfg h.py l (subst (AllValues (IsOwn h.cfg)) (sym e) fit.payloads);
  }
  Step-IsFit (Step.unlinks l s e) fit = record {
    cache = fit.cache;
    documents = fit.documents;
    frames = fit.frames;
    payloads = unfold shutdown_gossip in tt;
  }
  Step-IsFit (Step.shuts s) fit = shutdown-IsFit h s fit

  -- In every run of a node, whatever clients, peers, requests, timers and the database do and in whatever
  -- order: the feed's cache holds at most 20000 messages, each within its limits, and 22000 ids; the
  -- write queue at most 20000 documents; the queue of a client at most 1000 frames; and the queue to a
  -- peer at most 1000 payloads, all of this node itself. The node starts within these bounds.
  pub Run-IsFit : {s t : Server} → IsFit h s → Run h s t → IsFit h t
  Run-IsFit fit Run.here = fit
  Run-IsFit fit (Run.next run st) = Step-IsFit st (Run-IsFit fit run)
