-- ===== src/Store/Cache/Views.antt =====
-- What a read of the cache returns.
use mathlib.Core.List.{filter, mem-filter, Mem}
use group_chat.Prelude.{
  ℕ, zero, suc, ◌-◌, ◌≤◌, ◌≡◌, ◌≢◌, ◌↔◌, inl, inr, refl, sym, Option, some, List, [], ◌∷◌, Str,
  codes, length, drop, arith, Bool-cases, length-drop, if_neg, str-discrete, leb,
}
use group_chat.Python.{pos, negsuc}
use group_chat.Store.Cache.Defs.{Message, Cache, at_least, from_end, in_room, target, cache_get}
use group_chat.Ring.{newest}

drop_zero : {A : Type 0} (n : ℕ) (xs : List A) → n ≡ 0 → drop n xs ≡ xs
drop_zero zero xs h = refl
drop_zero (suc n) xs h = absurd (omega arith)

-- With a positive limit a read returns the newest messages of the room, at most that many.
cache_get_positive :
    (r : Option Str) (n : ℕ) (c : Cache)
    → (cache_get r (pos (suc n)) c ≡ newest (suc n) (target r c.messages))
      × (length (cache_get r (pos (suc n)) c) ≤ suc n)
unfolding cache_get at_least from_end newest
cache_get_positive r n c = elim (Bool-cases (leb (length t) (suc n))) [
  | inl short ↦ (
    rw (short, cache_get) (sym (drop_zero (length t - suc n) t (ground arith))),
    rw (short, cache_get) (ground arith),
  )
  | inr long ↦
      (rw (long, cache_get), rw (long, cache_get) (omega (arith, length-drop (length t - suc n) t)))
]
  where
    t : List Message
    t = target r c.messages

-- A limit that is not positive does not limit: 0 returns the whole list, as `target[-0:]` does, and
-- -n all but the n oldest messages.
cache_get_not_positive :
    (r : Option Str) (n : ℕ) (c : Cache)
    → (cache_get r (pos 0) c ≡ target r c.messages)
      × (cache_get r (negsuc n) c ≡ drop (suc n) (target r c.messages))
unfolding cache_get at_least from_end
cache_get_not_positive r n c = (ground arith, refl)

target-room :
    (ch : ℕ) (name : Str) (ms : List Message)
    → ch ∷ name ≢ codes "general"
    → target (some (ch ∷ name)) ms ≡ in_room (ch ∷ name) ms
unfolding target
target-room ch name ms other = if_neg (str-discrete (ch ∷ name) (codes "general")) other ms _

pub cache_get-eq-target :
    (r : Option Str) (n : ℕ) (c : Cache)
    → length (target r c.messages) ≤ n
    → cache_get r (pos n) c ≡ target r c.messages
unfolding cache_get at_least
cache_get-eq-target r n c enough = ground arith

in_room-eq-filter :
    (r : Str) (ms : List Message) → in_room r ms ≡ filter (λ m. str-discrete m.room r) ms
unfolding in_room
in_room-eq-filter r [] = refl
in_room-eq-filter r (m ∷ ms) = ground (arith, in_room-eq-filter r ms)

mem-in_room :
    (r : Str) (m : Message) (ms : List Message) → Mem m (in_room r ms) ↔ (Mem m ms × (m.room ≡ r))
mem-in_room r m ms =
    rw (in_room-eq-filter r ms) (mem-filter (λ (x : Message). str-discrete x.room r))

-- A read of a room with a name other than "general" that asks for at least as many messages as the
-- room has returns exactly the cached messages of that room.
cache_get_room :
    (ch : ℕ) (name : Str) (n : ℕ) (c : Cache) (m : Message)
    → ch ∷ name ≢ codes "general"
    → length (target (some (ch ∷ name)) c.messages) ≤ n
    → Mem m (cache_get (some (ch ∷ name)) (pos n) c) ↔ (Mem m c.messages × (m.room ≡ ch ∷ name))
cache_get_room ch name n c m other enough =
    rw (cache_get-eq-target (some (ch ∷ name)) n c enough, target-room ch name c.messages other)
      (mem-in_room (ch ∷ name) m c.messages)
