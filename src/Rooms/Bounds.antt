-- ===== src/Rooms/Bounds.antt =====
-- The bound of the clients' queues: nothing that sends a frame passes it.
use group_chat.Prelude.{
  ◌≤◌, none, some, List, [], ◌∷◌, Str, Dict, get, length, length-append, arith, if_intro,
  option_intro, AllValues, put-AllValues, get-AllValues, Option, ite, str-discrete,
}
use group_chat.Net.{Net, send_queue_size, offer, enqueue, send_direct}
use group_chat.Rooms.Defs.{Member, Rooms, safe_send, send_one, send_all, broadcast}

module _ {P : Type 0} where
  abbrev pub IsShort : List P → Type 0
  IsShort q = length q ≤ send_queue_size

  -- Every client's queue is within its bound.
  abbrev pub IsWithin : Net P → Type 0
  IsWithin net = AllValues IsShort net.queues

  offer-IsShort : (payload : P) (q : List P) → IsShort q → IsShort (offer payload q)
  unfolding offer
  offer-IsShort payload q h = ground (arith, length-append q (payload ∷ []))

  pub enqueue-IsWithin :
      (cid : Str) (payload : P) (net : Net P) → IsWithin net → IsWithin (enqueue cid payload net)
  unfolding enqueue
  enqueue-IsWithin cid payload net h =
      option_intro IsWithin (get cid net.queues) (λ e. h)
        (λ q e.
          put-AllValues IsShort cid (offer payload q) net.queues
            (offer-IsShort payload q (get-AllValues IsShort cid q net.queues h e)) h)

  safe_send-IsWithin :
      (cid : Str) (m : Member) (payload : P) (net : Net P)
      → IsWithin net
      → IsWithin (safe_send cid m payload net)
  unfolding safe_send send_direct
  safe_send-IsWithin cid m payload net h =
      if_intro IsWithin m.connected
        (λ _. if_intro IsWithin m.has_queue (λ _. enqueue-IsWithin cid payload net h) (λ _. h))
        (λ _. h)

  send_one-IsWithin :
      (exclude : Option Str) (payload : P) (cid : Str) (m : Member) (net : Net P)
      → IsWithin net
      → IsWithin (send_one exclude payload cid m net)
  unfolding send_one
  send_one-IsWithin none payload cid m net h = safe_send-IsWithin cid m payload net h
  send_one-IsWithin (some x) payload cid m net h =
      elim (str-discrete cid x) as (λ y. IsWithin (ite y net (safe_send cid m payload net))) [
        | yes _ ↦ h
        | no _ ↦ safe_send-IsWithin cid m payload net h
      ]

  send_all-IsWithin :
      (exclude : Option Str) (payload : P) (members : Dict Member) (net : Net P)
      → IsWithin net
      → IsWithin (send_all exclude payload members net)
  unfolding send_all
  send_all-IsWithin exclude payload [] net h = h
  send_all-IsWithin exclude payload ((cid, m) ∷ rest) net h =
      send_all-IsWithin exclude payload rest (send_one exclude payload cid m net)
        (send_one-IsWithin exclude payload cid m net h)

  pub broadcast-IsWithin :
      (name : Str) (payload : P) (exclude : Option Str) (rooms : Rooms) (net : Net P)
      → IsWithin net
      → IsWithin (broadcast name payload exclude rooms net)
  unfolding broadcast
  broadcast-IsWithin name payload exclude rooms net h =
      option_intro IsWithin (get name rooms) (λ _. h)
        (λ room _. send_all-IsWithin exclude payload room.members net h)
