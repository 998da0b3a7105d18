-- ===== src/Store/Cache/Feed.antt =====
-- The serialized feed against the cache: when it is current, and how it can stay behind.
use group_chat.Prelude.{
  ℕ, ◌+◌, ◌≤◌, ◌≡◌, false, some, List, Str, arith, Bool-cases, if_intro, inl, inr,
}
use group_chat.Python.{Key, Python, Value, Fields}
use group_chat.Result.{Result, ok}
use group_chat.Store.Cache.Bounds.{cache_put-cases}
use group_chat.Ring.{append_max}
use group_chat.Store.Cache.Defs.{
  Message, Cache, msg_cache_size, contains, insert, feed_snapshot, feed_commit, get_feed_bytes,
  cache_put,
}

module _ (dumps : List Message → Result Str) where
  -- A clean flag means that the bytes are those of the queue.
  abbrev pub IsCurrent : Cache → Type 0
  IsCurrent c = c.dirty ≡ false → dumps c.messages ≡ ok c.feed_json

  insert-IsCurrent : (k : Key) (m : Message) (c : Cache) → IsCurrent c → IsCurrent (insert k m c)
  unfolding insert
  insert-IsCurrent k m c h = if_intro IsCurrent (contains k c.ids) (λ _. h) (λ _ e. cc)

  cache_put-IsCurrent :
      (py : Python) (now : ℕ) (room : Value) (msg : Fields) (c : Cache) {c' : Cache}
      → IsCurrent c
      → cache_put py now room msg c ≡ ok c'
      → IsCurrent c'
  cache_put-IsCurrent py now room msg c h e = elim (cache_put-cases py now room msg c e) [
    | inl (_, same) ↦ rw same h
    | inr (k, ts, _, new) ↦ rw new (insert-IsCurrent k _ c h)
  ]

  -- On a current feed, with no other thread between its two halves, a request that comes a second
  -- or more after the last serialization, of messages that can be serialized, gets the bytes of
  -- the queue as it is, leaves the feed current and the messages as they are.
  pub get_feed_bytes-IsCurrent :
      (now now' : ℕ) (c : Cache) {bytes : Str}
      → IsCurrent c
      → c.last_serialized + 1000 ≤ now
      → c.last_serialized + 1000 ≤ now'
      → dumps c.messages ≡ ok bytes
      → ((get_feed_bytes dumps now now' c).1 ≡ bytes)
        × IsCurrent (get_feed_bytes dumps now now' c).0
        × ((get_feed_bytes dumps now now' c).0.messages ≡ c.messages)
  unfolding get_feed_bytes
  get_feed_bytes-IsCurrent now now' c {bytes} h late late' e = elim (Bool-cases c.dirty) [
    | inl stale ↦ ground arith
    | inr clean ↦ ground (arith, h clean)
  ]

  -- A put of a new id that comes between the two halves of another thread's successful
  -- serialization is lost to the feed: the flag is cleared after it, and a request on the cache
  -- that is left, at any time, gets the bytes without the new message and changes nothing, while
  -- the message is in the queue.
  pub feed_misses_put :
      (now now' : ℕ) (k : Key) (m : Message) (c : Cache) {msgs : List Message} {bytes : Str}
      → contains k c.ids ≡ false
      → feed_snapshot dumps now c ≡ some msgs
      → dumps msgs ≡ ok bytes
      → (t t' : ℕ)
      → let c' = feed_commit dumps now' msgs (insert k m c) in
        (get_feed_bytes dumps t t' c' ≡ (c', bytes))
        × (msgs ≡ c.messages)
        × (c'.messages ≡ append_max msg_cache_size c.messages m)
  unfolding get_feed_bytes insert
  feed_misses_put now now' k m c new started e t t' = ground arith
