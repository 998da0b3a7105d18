-- ===== src/Store/Cache/Dedup.antt =====
-- Duplicates: the ids that the cache remembers, and what happens when it makes the set anew.
use group_chat.Prelude.{
  ℕ, ◌+◌, ◌≤◌, ◌<◌, ◌≡◌, ◌∙◌, refl, ap, true, false, ◌⊎◌, inl, inr, some, List, ◌∷◌, length, arith,
  if_intro, if_pos,
}
use group_chat.Python.{ℤ, Python, Value, Fields, Key, truth, field_of, hash_of, key-discrete}
use group_chat.Result.{ok}
use group_chat.Store.Cache.Bounds.{cache_put-cases}
use group_chat.Ring.{append_max}
use group_chat.Store.Cache.Defs.{
  Message, Cache, msg_cache_size, contains, add, ids_of, trimmed, insert, compact, cache_put,
}

contains-cons_self : (k : Key) (ks : List Key) → contains k (k ∷ ks) ≡ true
unfolding contains
contains-cons_self k ks = if_pos (key-discrete k k) refl _ _

contains-add_self : (k : Key) (ks : List Key) → contains k (add k ks) ≡ true
unfolding add
contains-add_self k ks =
    if_intro (λ l. contains k l ≡ true) (contains k ks) (λ old. old) (λ _. contains-cons_self k ks)

contains-add : (k j : Key) (ks : List Key) → contains j ks ≡ true → contains j (add k ks) ≡ true
unfolding add contains
contains-add k j ks h = ground arith

length-add : (k : Key) (ks : List Key) → length (add k ks) ≤ length ks + 1
unfolding add
length-add k ks = ground arith

trimmed-small :
    (ks : List Key) (ms : List Message) → length ks ≤ msg_cache_size + 2000 → trimmed ks ms ≡ ks
unfolding trimmed
trimmed-small ks ms h = ground arith

-- What the set remembers is not stored again.
pub insert-known : (k : Key) (m : Message) (c : Cache) → contains k c.ids ≡ true → insert k m c ≡ c
unfolding insert
insert-known k m c h = rw h

-- While the set has room, a stored id is remembered.
contains-insert :
    (k : Key) (m : Message) (c : Cache)
    → length c.ids < msg_cache_size + 2000
    → contains k (insert k m c).ids ≡ true
unfolding insert
contains-insert k m c h =
    if_intro (λ (d : Cache). contains k d.ids ≡ true) (contains k c.ids) (λ old. old)
      (λ _.
        rw (trimmed-small (add k c.ids) c.messages (omega (arith, length-add k c.ids)))
          (contains-add_self k c.ids))

-- What a put returns once the id is known.
cache_put-known :
    (py : Python) (now : ℕ) (room : Value) (msg : Fields) (c : Cache) {c' : Cache} {k : Key}
    → hash_of (field_of "id" msg) ≡ some k
    → contains k c.ids ≡ true
    → cache_put py now room msg c ≡ ok c'
    → c' ≡ c
cache_put-known py now room msg c {c'} {k} hk known e = elim (cache_put-cases py now room msg c e) [
  | inl (_, same) ↦ same
  | inr (j, ts, hj, new) ↦ let same : j ≡ k = cc in new ∙ insert-known j _ c (rw same known)
]

-- While the set of ids is not full, a message that was just put is not cached again: where neither
-- put raises, the next put of a dictionary whose id has the same key does not change the cache,
-- whatever the room, the clock and the other fields are.
cache_put-duplicate :
    (py : Python) (now now' : ℕ) (room room' : Value) (msg msg' : Fields) (c : Cache)
    {c' c'' : Cache}
    → length c.ids < msg_cache_size + 2000
    → hash_of (field_of "id" msg') ≡ hash_of (field_of "id" msg)
    → truth (field_of "id" msg) ≡ true
    → cache_put py now room msg c ≡ ok c'
    → cache_put py now' room' msg' c' ≡ ok c''
    → c'' ≡ c'
cache_put-duplicate py now now' room room' msg msg' c {c'} {c''} free same real e e' =
    elim (cache_put-cases py now room msg c e) [
      | inl (no_id, _) ↦ cc
      | inr (k, ts, hk, new) ↦
          cache_put-known py now' room' msg' c' (same ∙ hk) (rw new (contains-insert k _ c free)) e'
    ]

insert_forgets :
    (k : Key) (m : Message) (c : Cache)
    → length c.ids ≡ msg_cache_size + 2000
    → contains k c.ids ≡ false
    → contains k (ids_of c.messages) ≡ false
    → (insert k m c).ids ≡ ids_of c.messages
unfolding insert trimmed add
insert_forgets k m c full new absent = rw new (ground arith)

pub insert-messages :
    (k : Key) (m : Message) (c : Cache)
    → contains k c.ids ≡ false
    → (insert k m c).messages ≡ append_max msg_cache_size c.messages m
unfolding insert
insert-messages k m c new = rw new

pub ids-insert :
    (k : Key) (m : Message) (c : Cache)
    → length c.ids < msg_cache_size + 2000
    → contains k c.ids ≡ false
    → (insert k m c).ids ≡ k ∷ c.ids
unfolding insert add
ids-insert k m c free new = rw (new, trimmed-small (k ∷ c.ids) c.messages free)

insert_twice_when_full :
    (k : Key) (m m' : Message) (c : Cache)
    → length c.ids ≡ msg_cache_size + 2000
    → contains k c.ids ≡ false
    → contains k (ids_of c.messages) ≡ false
    → (insert k m' (insert k m c)).messages
      ≡ append_max msg_cache_size (append_max msg_cache_size c.messages m) m'
insert_twice_when_full k m m' c full new absent =
    insert-messages k m' (insert k m c) (rw (insert_forgets k m c full new absent) absent)
    ∙ ap (λ ms. append_max msg_cache_size ms m') (insert-messages k m c new)

-- Where the set of ids is full, a new message, whose id no cached message has, is stored twice by
-- two puts of the same dictionary: the set is made again from the queue before the message is in
-- it, and forgets the id.
pub cache_put_twice_when_full :
    (py : Python) (now now' : ℕ) (room room' : Value) (msg : Fields) (c : Cache) {c' c'' : Cache}
    (k : Key)
    → truth (field_of "id" msg) ≡ true
    → hash_of (field_of "id" msg) ≡ some k
    → length c.ids ≡ msg_cache_size + 2000
    → contains k c.ids ≡ false
    → contains k (ids_of c.messages) ≡ false
    → cache_put py now room msg c ≡ ok c'
    → cache_put py now' room' msg c' ≡ ok c''
    → (m : Message) × (m' : Message) × (m.id ≡ field_of "id" msg)
      × (m'.id ≡ field_of "id" msg)
      × (c''.messages ≡ append_max msg_cache_size (append_max msg_cache_size c.messages m) m')
unfolding compact
cache_put_twice_when_full py now now' room room' msg c {c'} {c''} k real hk full new absent e e' =
    go (cache_put-cases py now room msg c e) (cache_put-cases py now' room' msg c' e')
  where
    id : Value
    id = field_of "id" msg

    Stored : ℕ → Value → Cache → Cache → Type 0
    Stored t r d d' =
        (truth id ≡ false) × (d' ≡ d)
        ⊎ ((j : Key) × (ts : ℤ) × (hash_of id ≡ some j)
            × (d' ≡ insert j (compact py id r msg ts) d))

    go :
        Stored now room c c'
        → Stored now' room' c' c''
        → (m : Message) × (m' : Message) × (m.id ≡ id)
          × (m'.id ≡ id)
          × (c''.messages ≡ append_max msg_cache_size (append_max msg_cache_size c.messages m) m')
    go (inl (none_here, _)) _ = cc
    go _ (inl (none_here, _)) = cc
    go (inr (j, ts, hj, d)) (inr (j', ts', hj', d')) =
        let a : j ≡ k = cc in
        let b : j' ≡ k = cc in
        (
          compact py id room msg ts,
          compact py id room' msg ts',
          refl,
          refl,
          rw (d', d, a, b) (insert_twice_when_full k _ _ c full new absent),
        )
