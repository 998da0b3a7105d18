-- ===== src/Store/Visible.antt =====
-- What reaches the feed, and which keys sign.
use mathlib.Core.List.{Mem}
use mathlib.Core.Path.{subst}
use group_chat.Prelude.{
  ℕ, ◌+◌, ◌≤◌, ◌≡◌, ◌∙◌, refl, sym, ap, true, false, none, some, List, Str, codes, length, get,
  get-put, arith, str-discrete, if_pos,
}
use group_chat.Python.{Value, Fields, Key, ℤ, pos, int, truth, hash_of, int_of, field_of, ◌orelse◌}
use group_chat.Result.{Result, ok, ok_path}
use group_chat.Crypto.{Bytes, get_or_create_sender_keys, sanitized}
use group_chat.Crypto.Keys.{derived, IsDerived, get_or_create_sender_keys-derived}
use group_chat.Host.{Host, Draw}
use group_chat.Store.Append.{signing_key}
use group_chat.Store.Cache.Bounds.{IsBounded, cache_put-IsBounded}
use group_chat.Store.Cache.Dedup.{insert-messages}
use group_chat.Ring.{mem-append_max}
use group_chat.Store.Cache.Defs.{
  Message, Cache, msg_cache_size, contains, insert, cache_put, compact, cache_get, target,
  get_feed_bytes,
}
use group_chat.Store.Cache.Views.{cache_get-eq-target}
use group_chat.Store.Defs.{Store}

target-general : (ms : List Message) → target (some (codes "general")) ms ≡ ms
unfolding target
target-general ms = if_pos (str-discrete (codes "general") (codes "general")) refl ms _

target-none : (ms : List Message) → target none ms ≡ ms
unfolding target
target-none ms = refl

pub cache_put-stored :
    (h : Host) (now : ℕ) (room : Value) (msg : Fields) (c : Cache) (k : Key) (ts : ℤ)
    → truth (field_of "id" msg) ≡ true
    → int_of h.py (field_of "timestamp" msg orelse int (pos now)) ≡ some ts
    → hash_of (field_of "id" msg) ≡ some k
    → cache_put h.py now room msg c ≡ ok (insert k (compact h.py (field_of "id" msg) room msg ts) c)
unfolding cache_put
cache_put-stored h now room msg c k ts real time hk = rw (real, time, hk)

-- A message of any room, a private conversation's included, that has an id not yet known and is
-- put into a bounded cache is at once in what a reader of the feed without a room gets, and in
-- what a reader of the room "general" gets, with the limit of 100000.
cache_put-in_feed :
    (h : Host) (now : ℕ) (room : Value) (msg : Fields) (c : Cache) (k : Key) (ts : ℤ) {c' : Cache}
    → IsBounded c
    → truth (field_of "id" msg) ≡ true
    → int_of h.py (field_of "timestamp" msg orelse int (pos now)) ≡ some ts
    → hash_of (field_of "id" msg) ≡ some k
    → contains k c.ids ≡ false
    → cache_put h.py now room msg c ≡ ok c'
    → Mem (compact h.py (field_of "id" msg) room msg ts) (cache_get none (pos 100000) c')
      × Mem
          (compact h.py (field_of "id" msg) room msg ts)
          (cache_get (some (codes "general")) (pos 100000) c')
cache_put-in_feed h now room msg c k ts {c'} bounded real time hk new e =
    (rw whole here, rw general here)
  where
    m : Message
    m = compact h.py (field_of "id" msg) room msg ts

    stored : c' ≡ insert k m c
    stored = ok_path (sym e ∙ cache_put-stored h now room msg c k ts real time hk)

    small : length c'.messages ≤ 100000
    small = omega (arith, (cache_put-IsBounded h.py now room msg c bounded e).queue)

    here : Mem m c'.messages
    here =
        rw (stored, insert-messages k m c new)
          (mem-append_max msg_cache_size c.messages m (omega arith))

    whole : cache_get none (pos 100000) c' ≡ c'.messages
    whole =
        cache_get-eq-target none 100000 c' (rw (target-none c'.messages) small)
        ∙ target-none c'.messages

    general : cache_get (some (codes "general")) (pos 100000) c' ≡ c'.messages
    general =
        cache_get-eq-target (some (codes "general")) 100000 c'
          (rw (target-general c'.messages) small)
        ∙ target-general c'.messages

feed-insert :
    (dumps : List Message → Result Str) (now now' : ℕ) (bytes : Str) (k : Key) (m : Message)
    (c : Cache)
    → contains k c.ids ≡ false
    → c.last_serialized + 1000 ≤ now
    → c.last_serialized + 1000 ≤ now'
    → dumps (insert k m c).messages ≡ ok bytes
    → (get_feed_bytes dumps now now' (insert k m c)).1 ≡ bytes
unfolding get_feed_bytes insert
feed-insert dumps now now' bytes k m c new late late' e = ground arith

-- A new message is put into a bounded cache: it is in the queue, and a request for the feed, a second or more
-- after the last serialization, gets the bytes of the queue with the message.
pub in_feed-insert :
    (dumps : List Message → Result Str) (now now' : ℕ) (bytes : Str) (k : Key) (m : Message)
    (c : Cache) {c' : Cache}
    → IsBounded c
    → contains k c.ids ≡ false
    → c' ≡ insert k m c
    → c.last_serialized + 1000 ≤ now
    → c.last_serialized + 1000 ≤ now'
    → dumps c'.messages ≡ ok bytes
    → Mem m c'.messages × ((get_feed_bytes dumps now now' c').1 ≡ bytes)
in_feed-insert dumps now now' bytes k m c {c'} bounded new stored late late' e = (
  rw (stored, insert-messages k m c new) (mem-append_max msg_cache_size c.messages m (omega arith)),
  ap (λ x. (get_feed_bytes dumps now now' x).1) stored
      ∙ feed-insert dumps now now' bytes k m c new late late'
          (ap (λ (x : Cache). dumps x.messages) (sym stored) ∙ e),
)

module _ (h : Host) (d : Draw) where
  signing_key-new :
      (a : Str) (s : Store)
      → get (h.py.lower a) s.priv_keys ≡ none
      → get (h.py.lower a) (signing_key h d none a s).1.priv_keys
        ≡ some (get_or_create_sender_keys h.py h.cr h.disk d.key_bytes a s.keyring).0.0
  unfolding signing_key
  signing_key-new a s new =
      rw (new, signing_key)
        (get-put (h.py.lower a) (h.py.lower a) _ s.priv_keys
          ∙ if_pos (str-discrete (h.py.lower a) (h.py.lower a)) refl _ _)

  signing_key-cached :
      (b : Str) (s : Store) {key : Bytes}
      → get (h.py.lower b) s.priv_keys ≡ some key
      → (signing_key h d none b s).0 ≡ key
  unfolding signing_key
  signing_key-cached b s old = rw (old, signing_key)

-- Two names with the same lower case share one entry of the private key cache. Where neither has
-- one yet and the cached sender keys were derived from the master key, a message of the first
-- fills the entry, and a message of the second that comes next is signed with the key derived from
-- the first name.
pub signing_key_of_other_case :
    (h : Host) (d d' : Draw) (a b : Str) (master : Bytes) (s : Store)
    → IsDerived h.cr h.disk master s.keyring
    → h.py.lower a ≡ h.py.lower b
    → get (h.py.lower a) s.priv_keys ≡ none
    → (signing_key h d' none b (signing_key h d none a s).1).0
      ≡ (derived h.cr h.disk master (sanitized h.py a)).0
signing_key_of_other_case h d d' a b master s kept same new =
    signing_key-cached h d' b (signing_key h d none a s).1 (
      subst
        (λ u.
          get u (signing_key h d none a s).1.priv_keys
          ≡ some (get_or_create_sender_keys h.py h.cr h.disk d.key_bytes a s.keyring).0.0)
        same (signing_key-new h d a s new))
    ∙ ap (λ p. p.0)
        (get_or_create_sender_keys-derived h.cr h.disk master h.py d.key_bytes a s.keyring kept).0
