-- ===== src/Node/Circulation.antt =====
-- What a worker of server/gossip.py posts is of its own node, and does nothing where it comes back to that node.
use mathlib.Core.Path.{subst}
use group_chat.Prelude.{
  ℕ, ◌≡◌, ◌≤◌, refl, ap, true, false, Option, some, List, [], ◌∷◌, Str, get, length, arith,
  option_intro, All, get-AllValues, if_pos, str-discrete,
}
use group_chat.App.Defs.{ok_status, receive_gossip, receive_items, receive_item, is_own}
use group_chat.Gossip.{Gossip, payload_value, items_of, body_of}
use group_chat.Gossip.Origin.{IsOwn, IsOrigin, posted-IsOrigin}
use group_chat.Gossip.Ring.{posted, send_round-batch}
use group_chat.Host.{Host, Draw}
use group_chat.Node.Defs.{worker_round}
use group_chat.Node.Steps.{Run}
use group_chat.Python.{str, field_or}
use group_chat.Server.Defs.{Server}
use group_chat.Server.Limits.{IsFit}
use group_chat.Node.Limits.Runs.{Run-IsFit}

module _ (h : Host) where
  pub worker_round-IsOrigin :
      (rounds : ℕ) (peer : Str) (s : Server)
      → IsFit h s
      → (length (posted (worker_round rounds peer s).0) ≤ 100)
        × All (IsOrigin h.cfg) (posted (worker_round rounds peer s).0)
  unfolding worker_round posted
  worker_round-IsOrigin rounds peer s fit =
      option_intro {B = Option (List Gossip) × Server}
        (λ p. (length (posted p.0) ≤ 100) × All (IsOrigin h.cfg) (posted p.0)) (get peer s.peers)
        (λ _. (omega arith, tt))
        (λ q e.
          let own = get-AllValues (IsOwn h.cfg) peer q s.peers fit.payloads e in
          ((send_round-batch rounds q).1, (posted-IsOrigin h.cfg rounds q own.own).0))

  is_own-origin : (g : Gossip) → g.origin ≡ h.cfg.server_id → is_own h (str g.origin) ≡ true
  unfolding is_own
  is_own-origin g e = if_pos (str-discrete g.origin h.cfg.server_id) e true false

  receive_items-own :
      (d : Draw) (gs : List Gossip) (s : Server)
      → All (IsOrigin h.cfg) gs
      → receive_items h d (items_of gs) s ≡ (ok_status, s)
  unfolding receive_items receive_item items_of payload_value field_or
  receive_items-own d [] s own = refl
  receive_items-own d (g ∷ gs) s own =
      rw (is_own-origin g own.0.named) (receive_items-own d gs s own.1)

  receive_gossip-own :
      (d : Draw) (gs : List Gossip) (s : Server)
      → All (IsOrigin h.cfg) gs
      → receive_gossip h d (some (body_of gs)) s ≡ (ok_status, s)
  unfolding receive_gossip body_of payload_value
  receive_gossip-own d [] s own = refl
  receive_gossip-own d (g ∷ []) s own = receive_items-own d (g ∷ []) s own
  receive_gossip-own d (g ∷ g' ∷ gs) s own = receive_items-own d (g ∷ g' ∷ gs) s own

  -- In every run of a node that starts within its bounds, a worker posts at most 100 payloads in a
  -- request; and a request that comes back to the node itself, at whatever time and in whatever state,
  -- is answered with "ok" and leaves the node as it is: no message circulates.
  pub worker_round-own :
      {s t : Server} (rounds : ℕ) (peer : Str) (batch : List Gossip) (d : Draw) (later : Server)
      → IsFit h s
      → Run h s t
      → (worker_round rounds peer t).0 ≡ some batch
      → (length batch ≤ 100)
        × (receive_gossip h d (some (body_of batch)) later ≡ (ok_status, later))
  unfolding posted
  worker_round-own {s} {t} rounds peer batch d later fit run e =
      let (short, own) = worker_round-IsOrigin rounds peer t (Run-IsFit h fit run) in
      let same : posted (worker_round rounds peer t).0 ≡ batch = ap posted e in
      (
        subst (λ l. length l ≤ 100) same short,
        receive_gossip-own d batch later (subst (All (IsOrigin h.cfg)) same own),
      )
