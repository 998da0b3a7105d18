-- ===== src/Server/Session/Registry.antt =====
-- The registry of names: what a connection that never joined can do to it.
use group_chat.Prelude.{ℕ, ◌≡◌, ◌≢◌, false, none, some, ◌∷◌, Str, get, get-pop, arith}
use group_chat.Host.{Host}
use group_chat.Server.Defs.{Client, Server}
use group_chat.Server.Session.{disconnect}

-- A connection that gave a name in its query and never joined takes the entry of that name out of
-- the registry when it closes, also where the entry belongs to another client, which is still
-- connected afterwards.
pub disconnect-unregisters :
    (h : Host) (cid other : Str) (c c' : Client) (ch : ℕ) (name : Str) (s : Server)
    → get cid s.clients ≡ some c
    → c.id ≡ cid
    → c.username ≡ some (ch ∷ name)
    → c.explicitly_joined ≡ false
    → get (h.py.lower (ch ∷ name)) s.usernames ≡ some other
    → get other s.clients ≡ some c'
    → cid ≢ other
    → (get (h.py.lower (ch ∷ name)) (disconnect h cid s).usernames ≡ none)
      × (get other (disconnect h cid s).clients ≡ some c')
unfolding disconnect
disconnect-unregisters h cid other c c' ch name s here own named unjoined taken there differ =
    ground (
      arith,
      get-pop (h.py.lower (ch ∷ name)) (h.py.lower (ch ∷ name)) s.usernames,
      get-pop cid other s.clients,
    )
