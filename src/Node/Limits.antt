-- ===== src/Node/Limits.antt =====
-- The routes of app.py keep the bounds of what a node holds for others.
pub mod Runs
use group_chat.Prelude.{
  inl, inr, ℕ, ◌≡◌, refl, true, false, none, some, List, [], Str, codes, arith, if_intro,
  option_intro,
}
use group_chat.App.Defs.{
  post_obj, request_time, Response, server_error, post_message, post_body, publish_post,
  post_cached, answer, broadcast_value, msg_text, count_in, count_out,
}
use group_chat.Gossip.{broadcast_gossip}
use group_chat.Gossip.Welcome.{is_lookup}
use group_chat.Host.{Host, Draw}
use group_chat.Python.{
  Value, Fields, ℤ, truth, str, arr, obj, field_of, Key, int, hash_of, field_or,
}
use group_chat.Result.{Result-cases, Result, ok, raise}
use group_chat.Server.Defs.{Frame, Task, Server, add_task, to_room}
use group_chat.Server.Handlers.{cache_message}
use group_chat.Server.Limits.{
  IsFit, IsFit-same, to_room-IsFit, cache_message-IsFit, broadcast_gossip-IsFit,
}
use group_chat.Store.Cache.Bounds.{cache_put-cases, IsBounded}
use group_chat.Store.Cache.Defs.{
  cache_put, Cache, Message, get_feed_bytes, feed_snapshot, feed_commit,
}
use group_chat.Store.Defs.{Store, increment_connections, decrement_connections}
use group_chat.Store.Limits.{IsTight}

feed_commit-IsBounded :
    (dumps : List Message → Result Str) (now : ℕ) (msgs : List Message) (c : Cache)
    → IsBounded c
    → IsBounded (feed_commit dumps now msgs c)
unfolding feed_commit
feed_commit-IsBounded dumps now msgs c h = go (dumps msgs)
  where
    go :
        (r : Result Str)
        → IsBounded (elim r as (λ _. Cache) [
          | ok bytes ↦ record c { feed_json = bytes; last_serialized = now; dirty = false }
          | raise ↦ record c { feed_json = codes "[]" }
        ])
    go (ok bytes) = record { queue = h.queue; id_set = h.id_set; compacts = h.compacts }
    go raise = record { queue = h.queue; id_set = h.id_set; compacts = h.compacts }

pub get_feed_bytes-IsBounded :
    (dumps : List Message → Result Str) (now now' : ℕ) (c : Cache)
    → IsBounded c
    → IsBounded (get_feed_bytes dumps now now' c).0
unfolding get_feed_bytes
get_feed_bytes-IsBounded dumps now now' c h =
    option_intro {B = Cache × Str} (λ p. IsBounded p.0) (feed_snapshot dumps now c) (λ _. h)
      (λ _ _.
        option_intro {B = Cache × Str} (λ p. IsBounded p.0) (feed_snapshot dumps now' c) (λ _. h)
          (λ msgs _. feed_commit-IsBounded dumps now' msgs c h))

module _ (h : Host) where
  -- With another store within its bounds.
  pub IsFit-store :
      (st : Store) (s : Server) → IsTight st → IsFit h s → IsFit h (record s { store = st })
  IsFit-store st s tight fit = record {
    cache = tight.cache;
    documents = tight.documents;
    frames = fit.frames;
    payloads = fit.payloads;
  }

  pub IsTight-of : (s : Server) → IsFit h s → IsTight s.store
  IsTight-of s fit = record { cache = fit.cache; documents = fit.documents }

  pub count_in-IsFit : (s : Server) → IsFit h s → IsFit h (count_in h s)
  unfolding count_in increment_connections
  count_in-IsFit s fit =
      IsFit-store _ s (record { cache = fit.cache; documents = fit.documents }) fit

  pub count_out-IsFit : (s : Server) → IsFit h s → IsFit h (count_out h s)
  unfolding count_out decrement_connections
  count_out-IsFit s fit =
      IsFit-store _ s (record { cache = fit.cache; documents = fit.documents }) fit

  -- What follows a call that may raise: the state that was there, or the one that it returned.
  pub broadcast_value-IsFit :
      (room : Value) (frame : Frame) (s : Server) {t : Server}
      → IsFit h s
      → broadcast_value room frame s ≡ ok t
      → IsFit h t
  unfolding broadcast_value
  broadcast_value-IsFit (str room) frame s {t} fit e =
      let same : to_room room frame none s ≡ t = cc in
      rw (← same) (to_room-IsFit h room frame none s fit)
  broadcast_value-IsFit (arr l) frame s fit e = absurd (cc)
  broadcast_value-IsFit (obj m) frame s fit e = absurd (cc)
  broadcast_value-IsFit v frame s {t} fit e = let same : s ≡ t = cc in rw (← same) fit

  pub broadcast_value-is_lookup :
      (room : Value) (frame : Frame) (s : Server) {t : Server}
      → broadcast_value room frame s ≡ ok t
      → is_lookup room ≡ true
  unfolding broadcast_value is_lookup
  broadcast_value-is_lookup (arr l) frame s e = absurd (cc)
  broadcast_value-is_lookup (obj m) frame s e = absurd (cc)
  broadcast_value-is_lookup _ frame s e = refl

  -- An id that is not empty and was cached can be hashed.
  cache_message-hash_of :
      (d : Draw) (room : Value) (msg : Fields) (s : Server) {t : Server}
      → cache_message h d room msg s ≡ ok t
      → truth (field_of "id" msg) ≡ true
      → (k : Key) × (hash_of (field_of "id" msg) ≡ some k)
  unfolding cache_message
  cache_message-hash_of d room msg s {t} e real =
      elim (Result-cases (cache_put h.py d.now room msg s.store.cache)) [
        | inr p ↦ absurd (let failed : ◌≡◌ {A = Result Server} raise (ok t) = ground arith in cc)
        | inl (c, p) ↦ elim (cache_put-cases h.py d.now room msg s.store.cache p) [
          | inl (unreal, _) ↦ absurd (cc)
          | inr (k, _, hashed, _) ↦ (k, hashed)
        ]
      ]

  pub post_cached-hash_of :
      (d : Draw) (room : Value) (msg : Fields) (s : Server) {t : Server}
      → cache_message h d room (post_cached h msg) s ≡ ok t
      → truth (field_of "id" msg) ≡ true
      → (k : Key) × (hash_of (field_of "id" msg) ≡ some k)
  unfolding post_cached field_or
  post_cached-hash_of d room msg s e = cache_message-hash_of d room (post_cached h msg) s e

  post_obj-timestamp :
      (i name text room : Value) (ts : ℤ) (v : Value)
      → field_or v "timestamp" (post_obj h i name text room ts) ≡ int ts
  unfolding post_obj field_or
  post_obj-timestamp i name text room ts v = refl

  publish_post-IsFit :
      (d : Draw) (room : Value) (msg : Fields) (ts : ℤ) (s : Server)
      → ((v : Value) → field_or v "timestamp" msg ≡ int ts)
      → IsFit h s
      → IsFit h (publish_post h d room msg s).1
  unfolding publish_post add_task
  publish_post-IsFit d room msg ts s timed fit =
      cached (cache_message h d room (post_cached h msg) s) refl
    where
      sent :
          (s₁ : Server) (r : Result Server)
          → broadcast_value room (Frame.message msg) s₁ ≡ r
          → (truth (field_of "id" msg) ≡ true → (k : Key) × (hash_of (field_of "id" msg) ≡ some k))
          → IsFit h s₁
          → IsFit h
              (elim r as (λ _. Response × Server) [
                | raise ↦ (server_error, s₁)
                | ok s₂ ↦
                    let s₃ = add_task (Task.append room msg none) s₂ in
                    (
                      Response.accepted (answer h msg),
                      record s₃ { peers = broadcast_gossip h.cfg room msg s₃.peers },
                    )
              ]).1
      sent s₁ raise e hashed fit₁ = fit₁
      sent s₁ (ok s₂) e hashed fit₁ =
          broadcast_gossip-IsFit h room msg _
            (record {
              lookup = broadcast_value-is_lookup room (Frame.message msg) s₁ e;
              hashed = hashed;
              time = (ts, timed);
            })
            (IsFit-same h refl refl refl (broadcast_value-IsFit room (Frame.message msg) s₁ fit₁ e))

      cached :
          (r : Result Server)
          → cache_message h d room (post_cached h msg) s ≡ r
          → IsFit h
              (elim r as (λ _. Response × Server) [
                | raise ↦ (server_error, s)
                | ok s₁ ↦
                    elim (broadcast_value room (Frame.message msg) s₁) as (λ _. Response × Server) [
                      | raise ↦ (server_error, s₁)
                      | ok s₂ ↦
                          let s₃ = add_task (Task.append room msg none) s₂ in
                          (
                            Response.accepted (answer h msg),
                            record s₃ { peers = broadcast_gossip h.cfg room msg s₃.peers },
                          )
                    ]
              ]).1
      cached raise e = fit
      cached (ok s₁) e =
          sent s₁ _ refl (post_cached-hash_of d room msg s e)
            (cache_message-IsFit h d room _ s fit e)

  pub post_message-IsFit :
      (d : Draw) (body query : Fields) (s : Server)
      → IsFit h s
      → IsFit h (post_message h d body query s).1
  unfolding post_message post_body
  post_message-IsFit d body query s fit =
      let counted = count_in-IsFit s fit in
      count_out-IsFit _ (
        if_intro {A = Response × Server} (λ p. IsFit h p.1) (truth (msg_text h body query))
          (λ _.
            publish_post-IsFit d _ _ (request_time h d body query) (count_in h s)
              (post_obj-timestamp _ _ _ _ _) counted)
          (λ _. counted))
