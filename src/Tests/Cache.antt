-- ===== src/Tests/Cache.antt =====
-- Examples for the message cache and the feed.
use group_chat.Prelude.{
  ℕ, suc, ◌≤◌, ◌≡◌, ◌≢◌, refl, false, some, List, [], ◌∷◌, Str, codes, length, map, arith,
  str-discrete, ap, zero,
}
use group_chat.Python.{
  Value, Key, pos, str, word, number, truth, ◌orelse◌, field_or, str_of, int_of, hash_of,
  key-discrete,
}
use group_chat.Result.{Result, ok, or_else}
use group_chat.Ring.{append_max, newest}
use group_chat.Store.Cache.Defs.{
  Message, Cache, initial, msg_cache_size, contains, add, ids_of, trimmed, insert, compact,
  cache_put, target, in_room, get_feed_bytes, feed_snapshot, feed_commit,
}
use group_chat.Store.Cache.Bounds.{IsBounded}
use group_chat.Store.Cache.Dedup.{cache_put_twice_when_full}
use group_chat.Store.Cache.Feed.{IsCurrent, get_feed_bytes-IsCurrent, feed_misses_put}
use group_chat.Store.Cache.Log.{Put, puts, firsts, puts-log}
use group_chat.Tests.{ascii, text_of}

abbrev room : Value
room = str (codes "general")

abbrev two_puts : List Put
two_puts =
    record { now = 1; room = room; msg = text_of "m1" "hi" }
    ∷ record { now = 2; room = room; msg = text_of "m2" "ho" }
    ∷ []

puts-log_example :
    (puts ascii two_puts initial).messages ≡ newest msg_cache_size (firsts ascii [] two_puts)
puts-log_example = puts-log ascii two_puts (omega arith)

initial-IsBounded : IsBounded initial
initial-IsBounded = record { queue = omega arith; id_set = omega arith; compacts = tt }

abbrev one : Message
one = compact ascii (str (codes "m1")) room (text_of "m1" "hi") (pos 1)

-- A cache with one message.
abbrev with_one : Cache
with_one = record initial { messages = one ∷ []; ids = word (codes "m1") ∷ [] }

put_one : cache_put ascii 1 room (text_of "m1" "hi") initial ≡ ok with_one
unfolding cache_put truth int_of hash_of insert contains append_max trimmed add field_or ◌orelse◌
put_one = refl

-- The cache after a second put, where it does not raise.
abbrev again : Cache → Cache
again c = or_else (cache_put ascii 2 room (text_of "m1" "other") c) initial

put_again : cache_put ascii 2 room (text_of "m1" "other") with_one ≡ ok (again with_one)
unfolding cache_put truth int_of hash_of field_or ◌orelse◌
put_again = refl

numbered : ℕ → List Key
numbered zero = []
numbered (suc n) = number (pos n) ∷ numbered n

length-numbered : (n : ℕ) → length (numbered n) ≡ n
unfolding numbered
length-numbered zero = refl
length-numbered (suc n) = ap suc (length-numbered n)

contains-numbered : (n : ℕ) → contains (word (codes "m1")) (numbered n) ≡ false
unfolding numbered contains key-discrete
contains-numbered zero = refl
contains-numbered (suc n) = contains-numbered n

-- A cache whose set of ids is full.
abbrev full : Cache
full = record initial { ids = numbered 22000 }

abbrev put_in : ℕ → Cache → Cache
put_in now c = or_else (cache_put ascii now room (text_of "m1" "hi") c) initial

put_in-ok :
    (now : ℕ) (c : Cache) → cache_put ascii now room (text_of "m1" "hi") c ≡ ok (put_in now c)
unfolding cache_put truth int_of hash_of field_or ◌orelse◌
put_in-ok now c = refl

cache_put_twice_when_full_example :
    (m : Message) × (m' : Message) × (m.id ≡ str (codes "m1"))
    × (m'.id ≡ str (codes "m1"))
    × ((put_in 2 (put_in 1 full)).messages
        ≡ append_max msg_cache_size (append_max msg_cache_size [] m) m')
unfolding field_or
cache_put_twice_when_full_example =
    cache_put_twice_when_full ascii 1 2 room room (text_of "m1" "hi") full (word (codes "m1"))
      (unfold truth in refl) (unfold hash_of in refl) (length-numbered 22000)
      (contains-numbered 22000) (unfold ids_of contains in refl) (put_in-ok 1 full)
      (put_in-ok 2 (put_in 1 full))

random_not_general : codes "random" ≢ codes "general"
random_not_general e = cc

abbrev elsewhere : Message
elsewhere = compact ascii (str (codes "m2")) (str (codes "random")) (text_of "m2" "ho") (pos 2)

abbrev with_two : Cache
with_two = record initial { messages = one ∷ elsewhere ∷ [] }

few_elsewhere : length (target (some (codes "random")) with_two.messages) ≤ 5
unfolding target in_room compact truth field_or ◌orelse◌ str-discrete str_of
few_elsewhere = omega arith

-- A serializer that never fails.
abbrev dumps : List Message → Result Str
dumps ms = ok (map (λ m. length m.text) ms)

initial-IsCurrent : IsCurrent dumps initial
initial-IsCurrent e = cc

get_feed_bytes-IsCurrent_example :
    ((get_feed_bytes dumps 2000 2000 initial).1 ≡ [])
    × IsCurrent dumps (get_feed_bytes dumps 2000 2000 initial).0
    × ((get_feed_bytes dumps 2000 2000 initial).0.messages ≡ [])
get_feed_bytes-IsCurrent_example =
    get_feed_bytes-IsCurrent dumps 2000 2000 initial initial-IsCurrent (omega arith) (omega arith)
      refl

-- What is left of the feed once the put came too late.
abbrev late : Cache
late = feed_commit dumps 2000 [] (insert (word (codes "m1")) one initial)

feed_misses_put_example :
    (get_feed_bytes dumps 9000 9000 late ≡ (late, []))
    × ([] ≡ initial.messages)
    × (late.messages ≡ append_max msg_cache_size [] one)
feed_misses_put_example =
    feed_misses_put dumps 2000 2000 (word (codes "m1")) one initial {msgs = []} {bytes = []}
      (unfold contains in refl) (unfold feed_snapshot in refl) refl 9000 9000
