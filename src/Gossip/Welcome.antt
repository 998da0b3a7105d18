-- ===== src/Gossip/Welcome.antt =====
-- The payloads that a node of the same code takes without an exception.
use group_chat.Prelude.{◌≡◌, Bool, true, false, some}
use group_chat.Python.{Value, Fields, Key, ℤ, int, arr, obj, truth, hash_of, field_of, field_or}

-- A value that can be looked up among the rooms.
unfoldable pub is_lookup : Value → Bool
is_lookup (arr l) = false
is_lookup (obj d) = false
is_lookup _ = true

-- The room can be looked up, an id that is not empty can be hashed, and the time is an integer.
pub record IsWelcome (room : Value) (msg : Fields) : Type 0 where
  pub lookup : is_lookup room ≡ true
  pub hashed : truth (field_of "id" msg) ≡ true → (k : Key) × (hash_of (field_of "id" msg) ≡ some k)
  pub time : (t : ℤ) × ((v : Value) → field_or v "timestamp" msg ≡ int t)
