-- ===== src/Gossip/Origin.antt =====
-- What waits in the queues of the peers: payloads of the node itself that any node takes, within the bound.
use mathlib.Core.Path.{subst}
use group_chat.Prelude.{
  ℕ, ap, sym, ◌≡◌, ◌≤◌, refl, List, [], ◌∷◌, ◌++◌, Str, Dict, get, length, arith, All, All-append,
  AllValues, put-AllValues, option_intro, ltb, if_intro, length-append,
}
use group_chat.Config.{Config}
use group_chat.Gossip.{
  Gossip, peer_queue_size, publish, put_nowait, drop_oldest, publish_all, broadcast_gossip,
  send_round, get_valid_peers,
}
use group_chat.Gossip.Links.{Links, start_worker, start_workers, init_gossip}
use group_chat.Gossip.Ring.{send_round-batch, posted}
use group_chat.Gossip.Welcome.{IsWelcome}
use group_chat.Python.{Python, Value, Fields}

module _ (cfg : Config) where
  -- A payload of the node itself, which any node takes.
  pub record IsOrigin (g : Gossip) : Type 0 where
    pub named : g.origin ≡ cfg.server_id
    pub welcome : IsWelcome g.room g.msg

  -- A queue within its bound that holds such payloads only.
  pub record IsOwn (q : List Gossip) : Type 0 where
    pub short : length q ≤ peer_queue_size
    pub own : All IsOrigin q

  nil-IsOwn : IsOwn []
  nil-IsOwn = record { short = omega arith; own = tt }

  All-drop_oldest : (q : List Gossip) → All IsOrigin q → All IsOrigin (drop_oldest q)
  unfolding drop_oldest
  All-drop_oldest [] h = h
  All-drop_oldest (g ∷ q) h = h.1

  put_nowait-IsOrigin :
      (g : Gossip) (q : List Gossip) → IsOrigin g → All IsOrigin q → All IsOrigin (put_nowait g q)
  unfolding put_nowait
  put_nowait-IsOrigin g q hg h =
      if_intro (All IsOrigin) (ltb (length q) peer_queue_size)
        (λ _. All-append IsOrigin q (g ∷ []) h (hg, tt)) (λ _. h)

  length-drop_oldest : (q : List Gossip) → length (drop_oldest q) ≤ length q
  unfolding drop_oldest
  length-drop_oldest [] = omega arith
  length-drop_oldest (g ∷ q) = omega arith

  length-publish :
      (g : Gossip) (q : List Gossip)
      → length q ≤ peer_queue_size
      → length (publish g q) ≤ peer_queue_size
  unfolding publish put_nowait
  length-publish g q h = ground (
    arith,
    length-append q (g ∷ []),
    length-append (drop_oldest q) (g ∷ []),
    length-drop_oldest q,
  )

  publish-IsOwn : (g : Gossip) (q : List Gossip) → IsOrigin g → IsOwn q → IsOwn (publish g q)
  unfolding publish
  publish-IsOwn g q hg h = record {
    short = length-publish g q h.short;
    own =
        if_intro (All IsOrigin) (ltb (length q) peer_queue_size)
          (λ _. All-append IsOrigin q (g ∷ []) h.own (hg, tt))
          (λ _. put_nowait-IsOrigin g (drop_oldest q) hg (All-drop_oldest q h.own));
  }

  publish_all-IsOwn :
      (g : Gossip) (queues : Dict (List Gossip))
      → IsOrigin g
      → AllValues IsOwn queues
      → AllValues IsOwn (publish_all g queues)
  unfolding publish_all
  publish_all-IsOwn g [] hg h = tt
  publish_all-IsOwn g ((peer, q) ∷ rest) hg h =
      (publish-IsOwn g q hg h.0, publish_all-IsOwn g rest hg h.1)

  pub broadcast_gossip-IsOwn :
      (room : Value) (msg : Fields) (queues : Dict (List Gossip))
      → IsWelcome room msg
      → AllValues IsOwn queues
      → AllValues IsOwn (broadcast_gossip cfg room msg queues)
  unfolding broadcast_gossip
  broadcast_gossip-IsOwn room msg queues welcome h =
      publish_all-IsOwn (record { origin = cfg.server_id; room = room; msg = msg }) queues
        (record { named = refl; welcome = welcome }) h

  start_worker-IsOwn :
      (peer : Str) (l : Links)
      → AllValues IsOwn l.queues
      → AllValues IsOwn (start_worker peer l).queues
  unfolding start_worker
  start_worker-IsOwn peer l h =
      option_intro (λ (t : Links). AllValues IsOwn t.queues) (get peer l.queues)
        (λ _. put-AllValues IsOwn peer [] l.queues nil-IsOwn h) (λ _ _. h)

  start_workers-IsOwn :
      (peers : List Str) (l : Links)
      → AllValues IsOwn l.queues
      → AllValues IsOwn (start_workers peers l).queues
  unfolding start_workers
  start_workers-IsOwn [] l h = h
  start_workers-IsOwn (peer ∷ peers) l h =
      start_workers-IsOwn peers (start_worker peer l) (start_worker-IsOwn peer l h)

  pub init_gossip-IsOwn :
      (py : Python) (l : Links)
      → AllValues IsOwn l.queues
      → AllValues IsOwn (init_gossip py cfg l).queues
  unfolding init_gossip
  init_gossip-IsOwn py l h = start_workers-IsOwn (get_valid_peers py cfg) l h

  pub All-append_left :
      (xs ys : List Gossip) → All IsOrigin (xs ++ ys) → All IsOrigin xs × All IsOrigin ys
  All-append_left [] ys h = (tt, h)
  All-append_left (x ∷ xs) ys h = let (hx, hy) = All-append_left xs ys h.1 in ((h.0, hx), hy)

  -- A batch and what stays behind it are payloads of the node itself.
  pub posted-IsOrigin :
      (rounds : ℕ) (q : List Gossip)
      → All IsOrigin q
      → All IsOrigin (posted (send_round rounds q).0) × All IsOrigin (send_round rounds q).1
  posted-IsOrigin rounds q h =
      All-append_left _ _ (subst (All IsOrigin) (sym (send_round-batch rounds q).0) h)

  pub send_round-IsOwn : (rounds : ℕ) (q : List Gossip) → IsOwn q → IsOwn (send_round rounds q).1
  send_round-IsOwn rounds q h =
      let (batch, rest) = send_round rounds q in
      let all : length (posted batch ++ rest) ≡ length q =
        ap length (send_round-batch rounds q).0 in
      record {
        short = omega (arith, length-append (posted batch) rest, h.short);
        own = (posted-IsOrigin rounds q h.own).1;
      }
