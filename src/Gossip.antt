-- ===== src/Gossip.antt =====
-- server/gossip.py: the peers, their bounded queues, and the worker of each.
pub mod Ring
pub mod Links
pub mod Origin
pub mod Welcome
use group_chat.Prelude.{
  ℕ, suc, ◌≡◌, Bool, true, false, not, ◌&&◌, ◌||◌, Option, none, some, List, [], ◌∷◌, ◌++◌, Str,
  codes, Dict, get, put, keys, length, ◌==◌, ltb, ite, str-discrete, if◌then◌else◌,
}
use group_chat.Batch.{gather}
use group_chat.Config.{Config}
use group_chat.Python.{Python, Value, Items, Fields}
use group_chat.Python.Text.{strip}

-- What goes to a peer: the origin, the room and the message.
pub record Gossip : Type 0 where
  pub origin : Str
  pub room : Value
  pub msg : Fields

-- `p.rstrip('/')`
rstrip_slash : Str → Str
rstrip_slash [] = []
rstrip_slash (c ∷ s) = elim (rstrip_slash s) [
  | [] ↦ if c == b'/' then [] else c ∷ []
  | d ∷ t ↦ c ∷ d ∷ t
]

unfoldable pub starts_with : Str → Str → Bool
starts_with [] s = true
starts_with (a ∷ p) [] = false
starts_with (a ∷ p) (b ∷ s) = (a == b) && starts_with p s

-- `p in s`
is_in : Str → Str → Bool
unfolding starts_with
is_in p [] = starts_with p []
is_in p (c ∷ s) = starts_with p (c ∷ s) || is_in p s

is_empty : Str → Bool
is_empty [] = true
is_empty (c ∷ s) = false

-- The test that leaves a node's own address out.
is_self : Config → Str → Bool
unfolding is_in
is_self cfg peer =
    is_in (codes ":" ++ cfg.port) peer
    && (is_in (codes "localhost") peer || is_in (codes "127.0.0.1") peer)

valid_from : Python → Config → List Str → List Str
valid_from py cfg [] = []
valid_from py cfg (p ∷ ps) =
    let rest = valid_from py cfg ps in
    if is_empty (strip py.is_space p) || is_self cfg (rstrip_slash p)
    then rest
    else rstrip_slash p ∷ rest

-- `_get_valid_peers`
unfoldable pub get_valid_peers : Python → Config → List Str
unfolding valid_from is_empty is_self rstrip_slash
get_valid_peers py cfg = valid_from py cfg cfg.peers

abbrev pub peer_queue_size : ℕ
peer_queue_size = 1000

-- `q.get_nowait()`, which raises on an empty queue
drop_oldest : {P : Type 0} → List P → List P
drop_oldest [] = []
drop_oldest (oldest ∷ rest) = rest

unfoldable pub put_nowait : {P : Type 0} → P → List P → List P
put_nowait payload q = if ltb (length q) peer_queue_size then q ++ payload ∷ [] else q

-- `put_nowait`, and on a full queue the oldest payload out and the new one in.
unfoldable pub publish : {P : Type 0} → P → List P → List P
unfolding drop_oldest put_nowait
publish payload q =
    if ltb (length q) peer_queue_size then q ++ payload ∷ [] else put_nowait payload (drop_oldest q)

pub publish_all : Gossip → Dict (List Gossip) → Dict (List Gossip)
unfolding publish
publish_all payload [] = []
publish_all payload ((peer, q) ∷ rest) = (peer, publish payload q) ∷ publish_all payload rest

-- `broadcast_gossip`
pub broadcast_gossip : Config → Value → Fields → Dict (List Gossip) → Dict (List Gossip)
unfolding publish_all
broadcast_gossip cfg room msg queues =
    publish_all (record { origin = cfg.server_id; room = room; msg = msg }) queues

-- A round of `_peer_sender_loop`: the batch that is posted, and the queue that stays. An empty queue
-- keeps the worker at its `get`.
pub send_round : {P : Type 0} → ℕ → List P → Option (List P) × List P
send_round rounds [] = (none, [])
send_round rounds (item ∷ q) =
    let (batch, rest) = gather rounds 100 (item ∷ []) q in (some batch, rest)

-- `payload`, as the JSON object that it is sent as.
unfoldable pub payload_value : Gossip → Value
payload_value g = Value.obj (
    Fields.field "origin" (Value.str g.origin)
      (Fields.field "room" g.room (Fields.field "msg" (Value.obj g.msg) Fields.end)))

unfoldable pub items_of : List Gossip → Items
unfolding payload_value
items_of [] = Items.nil
items_of (g ∷ gs) = Items.cons (payload_value g) (items_of gs)

-- `batch if len(batch) > 1 else batch[0]`; a batch is never empty
unfoldable pub body_of : List Gossip → Value
unfolding items_of payload_value
body_of [] = Value.arr Items.nil
body_of (g ∷ []) = payload_value g
body_of (g ∷ g' ∷ gs) = Value.arr (items_of (g ∷ g' ∷ gs))
