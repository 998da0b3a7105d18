-- ===== src/Net.antt =====
-- The frames on their way to the clients: each connection's bounded `asyncio.Queue`, which its
-- sender task empties, and the sends that are scheduled on the socket itself.
use group_chat.Prelude.{
  ℕ, none, some, List, [], ◌∷◌, ◌++◌, Str, Dict, get, put, length, ltb, if◌then◌else◌,
}

-- `client` and every `member` made for a connection share its queue, so a queue goes by client id.
pub record Net (P : Type 0) : Type 0 where
  pub queues : Dict (List P)
  pub direct : List (Str × P)

abbrev pub send_queue_size : ℕ
send_queue_size = 1000

module _ {P : Type 0} where
  -- `q.put_nowait(payload)`; a full queue raises, and the payload is dropped
  unfoldable pub offer : P → List P → List P
  offer payload q = if ltb (length q) send_queue_size then q ++ payload ∷ [] else q

  unfoldable pub enqueue : Str → P → Net P → Net P
  enqueue cid payload net = elim (get cid net.queues) [
    | none ↦ net
    | some q ↦ record net { queues = put cid (offer payload q) net.queues }
  ]

  -- `run_coroutine_threadsafe(ws.send_text(payload), loop)`
  unfoldable pub send_direct : Str → P → Net P → Net P
  send_direct cid payload net = record net { direct = net.direct ++ (cid, payload) ∷ [] }
