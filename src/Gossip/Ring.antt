-- ===== src/Gossip/Ring.antt =====
-- A peer's queue keeps the newest payloads, and its worker sends them in order.
use mathlib.Core.List.{append_assoc, append-nil}
use group_chat.Prelude.{
  ℕ, zero, suc, Str, Dict, get, ite, str-discrete, ◌-◌, ◌≤◌, ◌≡◌, ◌∙◌, refl, ap, true, Option, none,
  some, List, [], ◌∷◌, ◌++◌, length, length-append, arith, ltb, Bool-cases, ◌⊎◌, inl, inr,
}
use mathlib.Core.Option
use group_chat.Batch.{gather, gather-append, gather_bounds}
use group_chat.Config.{Config}
use group_chat.Python.{Value, Fields}
use group_chat.Gossip.{Gossip, peer_queue_size, publish, publish_all, broadcast_gossip, send_round}
use group_chat.Ring.{append_max, newest, append_max-newest, length-newest}

module _ {P : Type 0} where
  -- On a queue within its bound, publishing is an append to a bounded ring.
  publish-append_max :
      (x : P) (q : List P)
      → length q ≤ peer_queue_size
      → publish x q ≡ append_max peer_queue_size q x
  unfolding publish append_max
  publish-append_max x [] h = refl
  publish-append_max x (y ∷ q) h = elim (Bool-cases (ltb (length (y ∷ q)) peer_queue_size)) [
    | inl room ↦
        let none_over : length (y ∷ q ++ x ∷ []) - peer_queue_size ≡ 0 =
          ground (arith, length-append (y ∷ q) (x ∷ [])) in
        rw (room, none_over)
    | inr full ↦
        let one_over : length (y ∷ q ++ x ∷ []) - peer_queue_size ≡ 1 =
          ground (arith, length-append (y ∷ q) (x ∷ [])) in
        let fits : ltb (length q) peer_queue_size ≡ true = ground arith in rw (full, fits, one_over)
  ]

  -- The payloads one after the other.
  pub publishes : List P → List P → List P
  publishes [] q = q
  publishes (x ∷ xs) q = publishes xs (publish x q)

  publishes-newest :
      (xs q history : List P)
      → q ≡ newest peer_queue_size history
      → publishes xs q ≡ newest peer_queue_size (history ++ xs)
  unfolding publishes
  publishes-newest [] q history h = rw (append-nil history) h
  publishes-newest (x ∷ xs) q history h = rw (← append_assoc history (x ∷ []) xs) (
      publishes-newest xs (publish x q) (history ++ x ∷ []) (
        publish-append_max x q (rw h (length-newest peer_queue_size history))
        ∙ ap (λ l. append_max peer_queue_size l x) h
        ∙ append_max-newest peer_queue_size history x))

  -- After any payloads a peer's queue holds exactly the newest 1000 of what it was given, in order:
  -- nothing else is dropped, and the queue never grows past its bound.
  pub publishes-ring :
      (xs : List P)
      → (publishes xs [] ≡ newest peer_queue_size xs) × (length (publishes xs []) ≤ peer_queue_size)
  publishes-ring xs =
      let same : publishes xs [] ≡ newest peer_queue_size xs =
        publishes-newest xs [] [] (unfold newest in refl) in
      (same, rw same (length-newest peer_queue_size xs))

  -- What a round posts.
  unfoldable pub posted : Option (List P) → List P
  posted none = []
  posted (some batch) = batch

  -- A round of the worker takes a batch of 1 to 100 payloads off the front of the queue and leaves the
  -- rest; on an empty queue it posts nothing.
  pub send_round-batch :
      (rounds : ℕ) (q : List P)
      → (posted (send_round rounds q).0 ++ (send_round rounds q).1 ≡ q)
        × (length (posted (send_round rounds q).0) ≤ 100)
        × ((q ≡ []) ⊎ (1 ≤ length (posted (send_round rounds q).0)))
  unfolding send_round posted
  send_round-batch rounds [] = (refl, omega arith, inl refl)
  send_round-batch rounds (item ∷ q) =
      let b = gather_bounds rounds 100 (item ∷ []) q (omega arith) in
      (gather-append rounds 100 (item ∷ []) q, b.0, inr b.1)

-- A publication reaches the queue of every peer.
pub get-broadcast_gossip :
    (cfg : Config) (room : Value) (msg : Fields) (peer : Str) (queues : Dict (List Gossip))
    → get peer (broadcast_gossip cfg room msg queues)
      ≡ Option.map
          (publish (record { origin = cfg.server_id; room = room; msg = msg }))
          (get peer queues)
unfolding broadcast_gossip get publish_all
get-broadcast_gossip cfg room msg peer [] = refl
get-broadcast_gossip cfg room msg peer ((p, q) ∷ rest) =
    elim (str-discrete p peer)
      as (λ x.
        ite x (some (publish (record { origin = cfg.server_id; room = room; msg = msg }) q))
          (get peer (broadcast_gossip cfg room msg rest))
        ≡ Option.map (publish (record { origin = cfg.server_id; room = room; msg = msg }))
            (ite x (some q) (get peer rest))) [
              | yes e ↦ refl
              | no e ↦ get-broadcast_gossip cfg room msg peer rest
            ]

-- The only payload in a queue is the batch of the next round.
pub send_round_single :
    {P : Type 0} (rounds : ℕ) (x : P) → send_round rounds (x ∷ []) ≡ (some (x ∷ []), [])
unfolding send_round gather
send_round_single zero x = refl
send_round_single (suc n) x = refl
