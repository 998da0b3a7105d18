-- ===== src/Rooms/Broadcast.antt =====
-- Who gets a broadcast.
use group_chat.Prelude.{
  ◌≡◌, ◌∙◌, refl, Bool, true, false, Option, none, some, List, [], ◌∷◌, Str, Dict, get, get-put,
  get-cons_self, get-cons_ne, arith, ite, str-discrete, IsDict, Option-cases, inl, inr,
  if◌then◌else◌,
}
use mathlib.Core.Option
use group_chat.Net.{Net, offer}
use group_chat.Rooms.Defs.{Member, Room, Rooms, send_one, send_all, broadcast, members_of}

-- Whether a broadcast reaches the queue of this client.
pub reaches : Option Str → Str → Member → Bool
reaches exclude cid m =
    if m.connected
    then (if m.has_queue
        then elim exclude [ none ↦ true | some x ↦ ite (str-discrete cid x) false true ]
        else false)
    else false

module _ {P : Type 0} (exclude : Option Str) (payload : P) where
  -- The queue of client `j`, where `o` is its member entry in the room.
  pub queue_after : Option Member → Str → Net P → Option (List P)
  queue_after none j net = get j net.queues
  queue_after (some m) j net =
      if reaches exclude j m
      then Option.map (offer payload) (get j net.queues)
      else get j net.queues

  queue-send_one_self :
      (j : Str) (m : Member) (net : Net P)
      → get j (send_one exclude payload j m net).queues ≡ queue_after (some m) j net
  unfolding send_one queue_after reaches
  queue-send_one_self j m net = elim (Option-cases (get j net.queues)) [
    | inl e ↦ ground arith
    | inr (q, e) ↦ ground (arith, get-put j j (offer payload q) net.queues)
  ]

  queue-send_one_ne :
      (j cid : Str) (m : Member) (net : Net P)
      → (cid ≡ j → ⊥)
      → get j (send_one exclude payload cid m net).queues ≡ get j net.queues
  unfolding send_one
  queue-send_one_ne j cid m net other = elim (Option-cases (get cid net.queues)) [
    | inl e ↦ ground arith
    | inr (q, e) ↦ ground (arith, get-put cid j (offer payload q) net.queues)
  ]

  queue_after-same :
      (o : Option Member) (j : Str) (net net' : Net P)
      → get j net.queues ≡ get j net'.queues
      → queue_after o j net ≡ queue_after o j net'
  unfolding queue_after
  queue_after-same none j net net' h = h
  queue_after-same (some m) j net net' h = rw h

  queue_after-absent : (j : Str) (net : Net P) → queue_after none j net ≡ get j net.queues
  unfolding queue_after
  queue_after-absent j net = refl

  queue-send_all :
      (members : Dict Member) (j : Str) (net : Net P)
      → IsDict members
      → get j (send_all exclude payload members net).queues ≡ queue_after (get j members) j net
  unfolding send_all
  queue-send_all [] j net h = unfold get queue_after in refl
  queue-send_all ((cid, m) ∷ rest) j net h =
      queue-send_all rest j (send_one exclude payload cid m net) h.1 ∙ elim (str-discrete cid j) [
        | yes p ↦
            rw (← p, h.0, queue_after-absent, get-cons_self cid m rest)
              (queue-send_one_self cid m net)
        | no p ↦ rw (get-cons_ne cid j m rest p) (
            queue_after-same (get j rest) j (send_one exclude payload cid m net) net
              (queue-send_one_ne j cid m net p))
      ]

  -- In a room whose member ids differ, a broadcast puts the payload at the end of the queue of
  -- every member of the room that is marked connected, has a queue with room for it, and is not
  -- the excluded client; every other queue, of other members or of clients elsewhere, stays as it
  -- was.
  pub queue-broadcast :
      (name : Str) (rooms : Rooms) (j : Str) (net : Net P)
      → IsDict (members_of name rooms)
      → get j (broadcast name payload exclude rooms net).queues
        ≡ queue_after (get j (members_of name rooms)) j net
  unfolding broadcast members_of
  queue-broadcast name rooms j net h = go (get name rooms) h
    where
      go :
          (o : Option Room)
          → IsDict (elim o as (λ _. Dict Member) [ none ↦ [] | some room ↦ room.members ])
          → get j
              (elim o as (λ _. Net P) [
                | none ↦ net
                | some room ↦ send_all exclude payload room.members net
              ]).queues
            ≡ queue_after
                (get j (elim o as (λ _. Dict Member) [ none ↦ [] | some room ↦ room.members ]))
                j
                net
      go none d = unfold get queue_after in refl
      go (some room) d = queue-send_all room.members j net d
