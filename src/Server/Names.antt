-- ===== src/Server/Names.antt =====
-- server/ws_server.py: ROOM_NAME_RE, `_is_valid_room_name` and `_unique_username`.
pub mod RoomNames
pub mod Unique
use group_chat.Prelude.{
  ℕ, zero, suc, ◌+◌, Bool, true, false, ◌&&◌, ◌||◌, Option, none, some, List, [], ◌∷◌, ◌++◌, Str,
  codes, Dict, get, length, leb, ◌==◌, if◌then◌else◌,
}
use group_chat.Python.{Python, Value, str, pos}

-- [a-zA-Z0-9_-]
pub is_word : ℕ → Bool
is_word c =
    (leb b'a' c && leb c b'z')
    || (leb b'A' c && leb c b'Z')
    || (leb b'0' c && leb c b'9')
    || c == b'_'
    || c == b'-'

-- `$`: the end, or a line feed that is the last character.
pub at_end : Str → Bool
at_end [] = true
at_end (c ∷ []) = c == 10
at_end (c ∷ d ∷ s) = false

-- Up to `n` characters of the class, and then the end. The class has no line feed, so the match is
-- the greedy one.
pub match_up_to : ℕ → Str → Bool
unfolding at_end is_word
match_up_to n [] = true
match_up_to zero (c ∷ s) = at_end (c ∷ s)
match_up_to (suc n) (c ∷ s) = if is_word c then match_up_to n s else at_end (c ∷ s)

-- ^[a-zA-Z0-9_-]{1,24}$
unfoldable pub match_room_name : Str → Bool
unfolding match_up_to
match_room_name [] = false
match_room_name (c ∷ s) = is_word c && match_up_to 23 s

unfoldable pub is_valid_room_name : Value → Bool
unfolding match_room_name
is_valid_room_name (str s) = match_room_name s
is_valid_room_name _ = false

module _ (py : Python) (base : Str) where
  -- The names that the loop tries: the requested one, and then with "(1)", "(2)", …
  pub candidate : ℕ → Str
  candidate zero = base
  candidate (suc n) = base ++ (codes "(" ++ (py.str_of_int (pos (suc n)) ++ codes ")"))

  -- The loop, from the n-th name on. `none` means that the fuel is used up.
  pub unique_from : ℕ → ℕ → Dict Str → Option Str
  unfolding candidate
  unique_from zero n taken = none
  unique_from (suc fuel) n taken =
      let rest = unique_from fuel (suc n) taken in
      elim (get (py.lower (candidate n)) taken) [ none ↦ some (candidate n) | some _ ↦ rest ]

  -- `_unique_username`: one try more than there are names taken.
  pub unique_username : Dict Str → Option Str
  unfolding unique_from
  unique_username taken = unique_from (suc (length taken)) 0 taken
