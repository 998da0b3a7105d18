-- ===== src/Store/Defs.antt =====
-- server/store.py: the module's state beside the cache, the connection counter, the key caches, and
-- the reads of the history.
use group_chat.Prelude.{
  ℕ, ◌+◌, ◌-◌, Bool, true, false, Option, none, some, List, [], ◌∷◌, ◌++◌, Str, codes, Dict, get,
  put, length, map, ltb, if◌then◌else◌,
}
use group_chat.Python.{Python, Value, Fields, pos, int, str, ◌orelse◌, field_or, field_of, str_of}
use group_chat.Result.{Result, ok, raise}
use group_chat.Crypto.{Bytes, Keyring, get_or_create_sender_keys}
use group_chat.Host.{Host, Draw}
use group_chat.Store.Cache.Defs.{Cache, Message, cache_put, cache_get, reversed}

-- A document of the collection `messages`.
pub record Doc : Type 0 where
  pub id : Value
  pub room_id : Value
  pub sender : Str
  pub text_plain : Str
  pub ciphertext : Str
  pub nonce : Str
  pub signature : Str
  pub timestamp : Value

-- What the module asks of MongoDB; the collections themselves are not modelled.
pub data DbWrite : Type 0 where
  insert_one : Doc → DbWrite
  insert_many : List Doc → DbWrite
  set_public_key : Str → Str → DbWrite

pub record Store : Type 0 where
  pub cache : Cache
  pub keyring : Keyring
  pub user_keys : Dict Bytes
  pub priv_keys : Dict Bytes
  pub write_queue : Option (List Doc)
  pub db_writes : List DbWrite
  pub active_connections : ℕ

unfoldable pub increment_connections : Store → Store
increment_connections s = record s { active_connections = s.active_connections + 1 }

-- `max(0, n - 1)`
unfoldable pub decrement_connections : Store → Store
decrement_connections s = record s { active_connections = s.active_connections - 1 }

-- The bound of the two key caches, cleared when it is passed.
pub bounded : Dict Bytes → Dict Bytes
bounded d = if ltb 5000 (length d) then [] else d

module _ (h : Host) where
  unfoldable pub save_user_public_key : Str → Bytes → Store → Store
  save_user_public_key username public_key_bytes s =
      let uname = h.py.lower username in
      elim (get uname s.user_keys) [
        | some _ ↦ s
        | none ↦ record s {
          user_keys =
              if h.cr.valid_public public_key_bytes
              then put uname public_key_bytes s.user_keys
              else s.user_keys;
          db_writes = s.db_writes ++ set_public_key uname (h.cr.to_hex public_key_bytes) ∷ [];
        }
      ]

  unfoldable get_user_public_key : Draw → Str → Store → Bytes × Store
  unfolding bounded
  get_user_public_key d username s =
      let uname = h.py.lower username in
      elim (get uname s.user_keys) [
        | some pub_key ↦ (pub_key, s)
        | none ↦
            let ((_, pub_key), kr) =
              get_or_create_sender_keys h.py h.cr h.disk d.key_bytes username s.keyring in
            (
              pub_key,
              record s { keyring = kr; user_keys = put uname pub_key (bounded s.user_keys) },
            )
      ]

  unfoldable save_user_private_key : Str → Bytes → Store → Store
  unfolding bounded
  save_user_private_key username private_key s = record s {
    priv_keys = put (h.py.lower username) private_key (bounded s.priv_keys);
  }

  unfoldable get_user_private_key : Draw → Str → Store → Bytes × Store
  unfolding bounded
  get_user_private_key d username s =
      let uname = h.py.lower username in
      elim (get uname s.priv_keys) [
        | some priv ↦ (priv, s)
        | none ↦
            let ((priv, pub_key), kr) =
              get_or_create_sender_keys h.py h.cr h.disk d.key_bytes username s.keyring in
            (
              priv,
              record s {
                keyring = kr;
                priv_keys = put uname priv (bounded s.priv_keys);
                user_keys = put uname pub_key s.user_keys;
              },
            )
      ]

-- `_doc_to_msg`
doc_to_msg : Python → Fields → Fields
doc_to_msg py doc =
    let sender = field_or (str (codes "Anonymous")) "sender" doc in
    let text = field_of "text_plain" doc orelse str (codes "[encrypted]") in
    Fields.field "id" (str (str_of py (field_of "_id" doc))) (
      Fields.field "client-name" sender (
        Fields.field "username" sender (
          Fields.field "msg" text (
            Fields.field "text" text (
              Fields.field "room" (field_or (str (codes "general")) "room_id" doc) (
                Fields.field "timestamp" (field_or (int (pos 0)) "timestamp" doc) (
                  Fields.field "verified" (Value.bool true)
                    (Fields.field "tampered" (Value.bool false) Fields.end))))))))

-- What a history is made of: cached messages, or documents that were just read.
pub data History : Type 0 where
  cached : List Message → History
  loaded : List Fields → History

-- The loop over the rows of `get_history`; `false` is an exception, and what was cached stays.
unfoldable pub put_each : Python → ℕ → Str → List Fields → Cache → Bool × Cache
put_each py now room [] c = (true, c)
put_each py now room (m ∷ ms) c = elim (cache_put py now (str room) m c) [
  | raise ↦ (false, c)
  | ok c' ↦ put_each py now room ms c'
]

unfoldable pub load_history :
    Python → ℕ → Result (List Fields) → Str → Cache → Result History × Cache
unfolding put_each doc_to_msg
load_history py now raise room c = (raise, c)
load_history py now (ok cursor) room c =
    let result : List Fields = map (doc_to_msg py) (reversed cursor) in
    let (all, c') = put_each py now room result c in (if all then ok (loaded result) else raise, c')

-- `get_history` and `async_get_history`; `found` is what `find` returns, newest first, where the cache
-- has nothing.
unfoldable pub get_history :
    Python → ℕ → Result (List Fields) → Str → ℕ → Cache → Result History × Cache
unfolding load_history
get_history py now found room limit c = elim (cache_get (some room) (pos limit) c) [
  | [] ↦ load_history py now found room c
  | m ∷ ms ↦ (ok (cached (m ∷ ms)), c)
]
