-- ===== src/Store/Cache/Bounds.antt =====
-- The sizes of the cache: the queue, the set of ids and the texts of each message.
use group_chat.Prelude.{
  if◌then◌else◌, codes, ℕ, ◌+◌, ◌≤◌, ◌≡◌, refl, Bool, true, false, ◌⊎◌, inl, inr, Option, none,
  some, List, [], ◌∷◌, length, length-take-le, arith, All, Bool-cases, if_intro,
}
use group_chat.Python.{
  int, pos, str, truth, ◌orelse◌, field_of, field_or, int_of, Python, Value, Fields, Key, ℤ,
  hash_of,
}
use group_chat.Result.{Result, ok, raise, Result-cases, ◌>>=◌, checked}
use group_chat.Ring.{length-append_max, All-append_max}
use group_chat.Store.Cache.Defs.{
  warm_msg, Message, Cache, msg_cache_size, contains, ids_of, trimmed, insert, compact, cache_put,
  warm_rows, warm_cache_from_db, reversed,
}

-- A stored message keeps to the limits of `_cache_put`, and its doubled fields agree.
pub record IsCompact (m : Message) : Type 0 where
  pub name_length : length m.username ≤ 100
  pub text_length : length m.text ≤ 2000
  pub room_length : length m.room ≤ 24
  pub names_agree : m.client_name ≡ m.username
  pub texts_agree : m.msg ≡ m.text
  pub trusted : (m.verified ≡ true) × (m.tampered ≡ false)

pub record IsBounded (c : Cache) : Type 0 where
  pub queue : length c.messages ≤ msg_cache_size
  pub id_set : length c.ids ≤ msg_cache_size + 2000
  pub compacts : All IsCompact c.messages

length-ids_of : (ms : List Message) → length (ids_of ms) ≤ length ms
unfolding ids_of
length-ids_of [] = omega arith
length-ids_of (m ∷ ms) = ground (arith, length-ids_of ms)

length-trimmed :
    (ks : List Key) (ms : List Message)
    → length ms ≤ msg_cache_size
    → length (trimmed ks ms) ≤ msg_cache_size + 2000
unfolding trimmed
length-trimmed ks ms h = ground (arith, length-ids_of ms)

compact-IsCompact :
    (py : Python) (i r : Value) (msg : Fields) (ts : ℤ) → IsCompact (compact py i r msg ts)
unfolding compact
compact-IsCompact py i r msg ts = record {
  name_length = length-take-le 100 _;
  text_length = length-take-le 2000 _;
  room_length = length-take-le 24 _;
  names_agree = refl;
  texts_agree = refl;
  trusted = (refl, refl);
}

insert-IsBounded :
    (k : Key) (m : Message) (c : Cache) → IsCompact m → IsBounded c → IsBounded (insert k m c)
unfolding insert
insert-IsBounded k m c hm h = elim (Bool-cases (contains k c.ids)) [
  | inl old ↦ rw (old, insert) h
  | inr new ↦
      rw (new, insert)
        (record {
          queue = length-append_max msg_cache_size c.messages m;
          id_set = length-trimmed _ c.messages h.queue;
          compacts = All-append_max IsCompact msg_cache_size c.messages m h.compacts hm;
        })
]

-- A put that does not raise leaves the cache alone or stores the compact message.
pub cache_put-cases :
    (py : Python) (now : ℕ) (room : Value) (msg : Fields) (c : Cache) {c' : Cache}
    → cache_put py now room msg c ≡ ok c'
    → (truth (field_of "id" msg) ≡ false) × (c' ≡ c)
      ⊎ ((k : Key) × (ts : ℤ) × (hash_of (field_of "id" msg) ≡ some k)
          × (c' ≡ insert k (compact py (field_of "id" msg) room msg ts) c))
unfolding cache_put
cache_put-cases py now room msg c {c'} h =
    go (truth (field_of "id" msg)) (int_of py (field_of "timestamp" msg orelse int (pos now)))
      (hash_of (field_of "id" msg)) refl refl h
  where
    go :
        (b : Bool) (t : Option ℤ) (i : Option Key)
        → truth (field_of "id" msg) ≡ b
        → hash_of (field_of "id" msg) ≡ i
        → (if b
            then (do
              ts ← checked t
              k ← checked i
              ok (insert k (compact py (field_of "id" msg) room msg ts) c))
            else ok c)
          ≡ ok c'
        → (truth (field_of "id" msg) ≡ false) × (c' ≡ c)
          ⊎ ((k : Key) × (ts : ℤ) × (hash_of (field_of "id" msg) ≡ some k)
              × (c' ≡ insert k (compact py (field_of "id" msg) room msg ts) c))
    go false t i f e q = inl (f, cc)
    go true none i f e q = cc
    go true (some ts) none f e q = cc
    go true (some ts) (some k) f e q = inr (k, ts, e, cc)

-- Whatever the dictionary holds, a put that does not raise keeps the bounds.
pub cache_put-IsBounded :
    (py : Python) (now : ℕ) (room : Value) (msg : Fields) (c : Cache) {c' : Cache}
    → IsBounded c
    → cache_put py now room msg c ≡ ok c'
    → IsBounded c'
cache_put-IsBounded py now room msg c h e = elim (cache_put-cases py now room msg c e) [
  | inl (_, same) ↦ rw same h
  | inr (k, ts, _, new) ↦ rw new (insert-IsBounded k _ c (compact-IsCompact py _ room msg ts) h)
]

warm_rows-IsBounded :
    (py : Python) (now : ℕ) (rows : List Fields) (c : Cache)
    → IsBounded c
    → IsBounded (warm_rows py now rows c)
unfolding warm_rows
warm_rows-IsBounded py now [] c h = h
warm_rows-IsBounded py now (doc ∷ rows) c h =
    elim (Result-cases
      (cache_put py now (field_or (str (codes "general")) "room_id" doc) (warm_msg py doc) c)) [
        | inl (c', e) ↦
            rw (e, warm_rows)
              (warm_rows-IsBounded py now rows c' (cache_put-IsBounded py now _ _ c h e))
        | inr e ↦ rw (e, warm_rows) h
      ]

warmed-IsBounded : (c : Cache) → IsBounded c → IsBounded (record c { warmed = true })
warmed-IsBounded c h = record { queue = h.queue; id_set = h.id_set; compacts = h.compacts }

-- Filling the cache from the database keeps the bounds, whatever the query returns and also where it
-- or a row raises.
pub warm_cache_from_db-IsBounded :
    (py : Python) (now : ℕ) (found : Result (List Fields)) (c : Cache)
    → IsBounded c
    → IsBounded (warm_cache_from_db py now found c)
unfolding warm_cache_from_db
warm_cache_from_db-IsBounded py now found c h =
    if_intro IsBounded c.warmed (λ _. h) (λ _. fill found)
  where
    fill :
        (r : Result (List Fields))
        → IsBounded
            (record (elim r [ ok cursor ↦ warm_rows py now (reversed cursor) c | raise ↦ c ]) {
              warmed = true;
            })
    fill (ok cursor) = warmed-IsBounded _ (warm_rows-IsBounded py now (reversed cursor) c h)
    fill raise = warmed-IsBounded c h
