-- ===== src/Store/Cache/Defs.antt =====
-- server/store.py: `_cache_put`, `_cache_get`, `get_feed_bytes` and `warm_cache_from_db`. The clock
-- is an argument, in milliseconds.
use group_chat.Prelude.{
  ℕ, zero, suc, ◌+◌, ◌-◌, Bool, true, false, not, ◌||◌, Option, none, some, List, [], ◌∷◌, ◌++◌,
  Str, codes, length, take, drop, ite, str-discrete, ltb, leb, if◌then◌else◌,
}
use group_chat.Python.{
  Python, Value, Fields, Key, ℤ, pos, negsuc, int, str, truth, ◌orelse◌, field_of, field_or, str_of,
  int_of, hash_of, key-discrete,
}
use group_chat.Ring.{append_max}
use group_chat.Result.{Result, ok, raise, ◌>>=◌, checked}

abbrev pub msg_cache_size : ℕ
msg_cache_size = 20000

-- The dictionary that a cached message is.
pub record Message : Type 0 where
  pub id : Value
  pub client_name : Str
  pub username : Str
  pub msg : Str
  pub text : Str
  pub room : Str
  pub timestamp : ℤ
  pub verified : Bool
  pub tampered : Bool

-- The module's variables: the queue, the ids, the serialized feed with its flag and its time, and
-- whether the cache was filled from the database.
pub record Cache : Type 0 where
  pub messages : List Message
  pub ids : List Key
  pub feed_json : Str
  pub dirty : Bool
  pub last_serialized : ℕ
  pub warmed : Bool

abbrev pub initial : Cache
initial = record {
  messages = [];
  ids = [];
  feed_json = codes "[]";
  dirty = true;
  last_serialized = 0;
  warmed = false;
}

unfoldable pub contains : Key → List Key → Bool
contains k [] = false
contains k (j ∷ ks) = ite (key-discrete k j) true (contains k ks)

-- `s.add(k)`
unfoldable pub add : Key → List Key → List Key
add k ks = if contains k ks then ks else k ∷ ks

add_id : Option Key → List Key → List Key
add_id none ks = ks
add_id (some k) ks = add k ks

-- The set of the ids of the messages.
unfoldable pub ids_of : List Message → List Key
unfolding add_id add contains
ids_of [] = []
ids_of (m ∷ ms) = add_id (hash_of m.id) (ids_of ms)

-- The set after `add`, made again from the queue when it has grown too large.
unfoldable pub trimmed : List Key → List Message → List Key
trimmed ks ms = if ltb (msg_cache_size + 2000) (length ks) then ids_of ms else ks

-- The block under `_msg_cache_lock`.
unfoldable pub insert : Key → Message → Cache → Cache
insert k m c = if contains k c.ids then c else record c {
  messages = append_max msg_cache_size c.messages m;
  ids = trimmed (add k c.ids) c.messages;
  dirty = true;
}

unfoldable pub compact : Python → Value → Value → Fields → ℤ → Message
compact py msg_id room_id msg ts =
    let u : Str = take 100 (
      str_of py (
        field_of "username" msg
        orelse field_of "client-name" msg
        orelse str (codes "Anonymous"))) in
    let t : Str =
      take 2000 (str_of py (field_of "text" msg orelse field_of "msg" msg orelse str [])) in
    let r : Str =
      take 24 (str_of py (room_id orelse field_of "room" msg orelse str (codes "general"))) in
    record {
      id = msg_id;
      client_name = u;
      username = u;
      msg = t;
      text = t;
      room = r;
      timestamp = ts;
      verified = true;
      tampered = false;
    }

-- `_cache_put`
unfoldable pub cache_put : Python → ℕ → Value → Fields → Cache → Result Cache
cache_put py now room_id msg c =
    let msg_id : Value = field_of "id" msg in
    if truth msg_id
    then (do
      ts ← checked (int_of py (field_of "timestamp" msg orelse int (pos now)))
      k ← checked (hash_of msg_id)
      ok (insert k (compact py msg_id room_id msg ts) c))
    else ok c

-- `l[-limit:]`
unfoldable pub from_end {ℓ} : {A : Type ℓ} → ℤ → List A → List A
from_end (pos zero) l = l
from_end (pos (suc n)) l = drop (length l - suc n) l
from_end (negsuc n) l = drop (suc n) l

-- `limit >= n`
unfoldable pub at_least : ℤ → ℕ → Bool
at_least (pos l) n = leb n l
at_least (negsuc l) n = false

unfoldable pub in_room : Str → List Message → List Message
in_room r [] = []
in_room r (m ∷ ms) = ite (str-discrete m.room r) (m ∷ in_room r ms) (in_room r ms)

-- Every room's messages where no room is asked for, and for "general".
unfoldable pub target : Option Str → List Message → List Message
target none ms = ms
target (some []) ms = ms
target (some (c ∷ r)) ms = ite (str-discrete (c ∷ r) (codes "general")) ms (in_room (c ∷ r) ms)

-- `_cache_get`, which `get_feed` and `async_get_feed` return
unfoldable pub cache_get : Option Str → ℤ → Cache → List Message
cache_get room_id limit c =
    let t = target room_id c.messages in if at_least limit (length t) then t else from_end limit t

-- `list(reversed(l))`
unfoldable pub reversed {ℓ} : {A : Type ℓ} → List A → List A
reversed [] = []
reversed (x ∷ l) = reversed l ++ x ∷ []

-- One document of `warm_cache_from_db`, as the dictionary that it caches.
unfoldable pub warm_msg : Python → Fields → Fields
warm_msg py doc =
    let sender = field_or (str (codes "Anonymous")) "sender" doc in
    let text = field_of "text_plain" doc orelse str [] in
    Fields.field "id" (str (str_of py (field_of "_id" doc))) (
      Fields.field "client-name" sender (
        Fields.field "username" sender (
          Fields.field "msg" text (
            Fields.field "text" text (
              Fields.field "room" (field_or (str (codes "general")) "room_id" doc) (
                Fields.field "timestamp" (field_or (int (pos 0)) "timestamp" doc) (
                  Fields.field "verified" (Value.bool true)
                    (Fields.field "tampered" (Value.bool false) Fields.end))))))))

-- The loop over the rows; an exception ends it, and what was cached stays.
unfoldable pub warm_rows : Python → ℕ → List Fields → Cache → Cache
warm_rows py now [] c = c
warm_rows py now (doc ∷ rows) c =
    elim (cache_put py now (field_or (str (codes "general")) "room_id" doc) (warm_msg py doc) c) [
      | ok c' ↦ warm_rows py now rows c'
      | raise ↦ c
    ]

-- `warm_cache_from_db`: the cursor's documents are the argument, newest first.
unfoldable pub warm_cache_from_db : Python → ℕ → Result (List Fields) → Cache → Cache
warm_cache_from_db py now found c =
    if c.warmed
    then c
    else record (elim found [ ok cursor ↦ warm_rows py now (reversed cursor) c | raise ↦ c ]) {
      warmed = true;
    }

-- `json.dumps(msgs).encode('utf-8')` is the parameter `dumps`.
module _ (dumps : List Message → Result Str) where
  -- The stretch of `get_feed_bytes` up to `msgs = list(_global_msg_cache)`.
  unfoldable pub feed_snapshot : ℕ → Cache → Option (List Message)
  feed_snapshot now c =
      if not c.dirty || ltb now (c.last_serialized + 1000) then none else some c.messages

  -- The stretch below it.
  unfoldable pub feed_commit : ℕ → List Message → Cache → Cache
  feed_commit now msgs c = elim (dumps msgs) [
    | ok bytes ↦ record c { feed_json = bytes; last_serialized = now; dirty = false }
    | raise ↦ record c { feed_json = codes "[]" }
  ]

  -- `get_feed_bytes` in one piece; the clock is read before the lock and under it.
  unfoldable pub get_feed_bytes : ℕ → ℕ → Cache → Cache × Str
  unfolding feed_snapshot feed_commit
  get_feed_bytes now now' c = elim (feed_snapshot now c) [
    | none ↦ (c, c.feed_json)
    | some _ ↦ elim (feed_snapshot now' c) [
      | none ↦ (c, c.feed_json)
      | some msgs ↦ (feed_commit now' msgs c, (feed_commit now' msgs c).feed_json)
    ]
  ]
