-- ===== src/Config.antt =====
-- server/config.py: the settings that the other modules read, and the list settings' parser.
pub mod Env
pub mod Lists
pub mod Load
use group_chat.Prelude.{ℕ, ◌==◌, Option, none, some, List, [], ◌∷◌, Str, codes, map, if◌then◌else◌}
use group_chat.Python.{Python}
use group_chat.Python.Text.{strip}

abbrev pub max_username_len : ℕ
max_username_len = 100

abbrev pub max_message_len : ℕ
max_message_len = 2000

-- The values read from the environment; `default_rooms` has at least its fallback's first room.
pub record Config : Type 0 where
  pub server_id : Str
  pub port : Str
  pub peers : List Str
  pub first_room : Str
  pub other_rooms : List Str
  pub admin_usernames : List Str
  pub history_limit : ℕ
  pub idle_timeout_ms : ℕ

abbrev pub default_rooms : Config → List Str
default_rooms cfg = cfg.first_room ∷ cfg.other_rooms

pub cons_first : ℕ → List Str → List Str
cons_first c [] = (c ∷ []) ∷ []
cons_first c (s ∷ l) = (c ∷ s) ∷ l

-- `s.split(sep)` for one character
pub split : ℕ → Str → List Str
unfolding cons_first
split sep [] = [] ∷ []
split sep (c ∷ s) = if c == sep then [] ∷ split sep s else cons_first c (split sep s)

pub nonempty : List Str → List Str
nonempty [] = []
nonempty ([] ∷ l) = nonempty l
nonempty ((c ∷ s) ∷ l) = (c ∷ s) ∷ nonempty l

-- `csv`: the value of the environment variable, if it is set
pub csv : Python → Option Str → List Str → List Str
unfolding split nonempty
csv py none fallback = fallback
csv py (some []) fallback = fallback
csv py (some (c ∷ raw)) fallback = nonempty (map (strip py.is_space) (split b',' (c ∷ raw)))

-- `csv('PEERS', []) or csv('BACKENDS', [])`
unfoldable peers_of : Python → Option Str → Option Str → List Str
unfolding csv
peers_of py peers backends = elim (csv py peers []) [ [] ↦ csv py backends [] | p ∷ l ↦ p ∷ l ]

-- `[s.lower() for s in csv('ADMIN_USERNAMES', ['admin'])]`
unfoldable admins_of : Python → Option Str → List Str
unfolding csv
admins_of py admins = map py.lower (csv py admins (codes "admin" ∷ []))
