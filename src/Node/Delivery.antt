-- ===== src/Node/Delivery.antt =====
-- What waits for a peer reaches it: the rounds of the worker of server/gossip.py, and app.py's `receive_gossip` on what they
-- post.
use mathlib.Core.Path.{subst}
use group_chat.Prelude.{
  ℕ, ◌+◌, ◌≡◌, ◌≤◌, ◌∙◌, refl, sym, ap, Option, none, some, List, [], ◌∷◌, ◌++◌, Str, get, put,
  get-put, length, length-append, arith, All, if_pos, str-discrete, inl, inr, get-AllValues,
}
use group_chat.App.Defs.{Response, ok_status, receive_gossip, receive_items}
use group_chat.Config.{Config}
use group_chat.Gossip.{Gossip, send_round, payload_value, body_of}
use group_chat.Gossip.Origin.{IsOwn, IsOrigin, All-append_left}
use group_chat.Gossip.Ring.{posted, send_round-batch}
use group_chat.Host.{Host, Draw}
use group_chat.Node.Batches.{one_by_one, go_on, receive_gossip-one_by_one}
use group_chat.Node.Defs.{worker_round}
use group_chat.Node.Limits.Runs.{Run-IsFit}
use group_chat.Node.Steps.{Run}
use group_chat.Node.Welcome.{receive_gossip-taken}
use group_chat.Server.Defs.{Server}
use group_chat.Server.Limits.{IsFit}

-- A round that posts nothing adds no batch.
and_batch : Option (List Gossip) → List (List Gossip) → List (List Gossip)
and_batch none bs = bs
and_batch (some b) bs = b ∷ bs

-- The batches of several rounds of the worker of a peer, each with what its clock allows.
pub worker_rounds : List ℕ → Str → Server → List (List Gossip) × Server
unfolding and_batch
worker_rounds [] peer s = ([], s)
worker_rounds (n ∷ ns) peer s =
    let (b, s₁) = worker_round n peer s in
    let (bs, s₂) = worker_rounds ns peer s₁ in (and_batch b bs, s₂)

-- The payloads of the batches, one after the other.
all_of : List (List Gossip) → List Gossip
all_of [] = []
all_of (b ∷ bs) = b ++ all_of bs

all_of-and_batch :
    (o : Option (List Gossip)) (bs : List (List Gossip))
    → all_of (and_batch o bs) ≡ posted o ++ all_of bs
unfolding all_of and_batch posted
all_of-and_batch none bs = refl
all_of-and_batch (some b) bs = refl

worker_round-parts :
    (n : ℕ) (peer : Str) (q : List Gossip) (s : Server)
    → get peer s.peers ≡ some q
    → ((worker_round n peer s).0 ≡ (send_round n q).0)
      × (get peer (worker_round n peer s).1.peers ≡ some (send_round n q).1)
unfolding worker_round
worker_round-parts n peer q s e =
    let same : get peer (put peer (send_round n q).1 s.peers) ≡ some (send_round n q).1 =
      get-put peer peer (send_round n q).1 s.peers ∙ if_pos (str-discrete peer peer) refl _ _ in
    ground arith

-- A round leaves less, unless nothing was there.
length-send_round : (n k : ℕ) (q : List Gossip) → length q ≤ k + 1 → length (send_round n q).1 ≤ k
length-send_round n k q h =
    let (all, _, some_out) = send_round-batch n q in
    let sizes : length (posted (send_round n q).0 ++ (send_round n q).1) ≡ length q =
      ap length all in
    elim some_out [
      | inl nothing ↦
          let empty : length q ≡ 0 = ap length nothing in
          omega (arith, sizes, length-append (posted (send_round n q).0) (send_round n q).1)
      | inr out ↦
          omega (arith, sizes, out, length-append (posted (send_round n q).0) (send_round n q).1)
    ]

-- As many rounds as payloads post them all, once and in order, and leave nothing.
worker_rounds-all :
    (ns : List ℕ) (peer : Str) (q : List Gossip) (s : Server)
    → get peer s.peers ≡ some q
    → length q ≤ length ns
    → (all_of (worker_rounds ns peer s).0 ≡ q)
      × (get peer (worker_rounds ns peer s).1.peers ≡ some [])
unfolding worker_rounds all_of
worker_rounds-all [] peer [] s e h = (refl, e)
worker_rounds-all [] peer (g ∷ q) s e h = absurd (omega arith)
worker_rounds-all (n ∷ ns) peer q s e h =
    let (post, left) = worker_round-parts n peer q s e in
    let (rest, empty) =
      worker_rounds-all ns peer (send_round n q).1 (worker_round n peer s).1 left
        (length-send_round n (length ns) q (omega (arith, h))) in
    (
      all_of-and_batch (worker_round n peer s).0 (worker_rounds ns peer (worker_round n peer s).1).0
          ∙ ap (λ o. posted o ++ all_of (worker_rounds ns peer (worker_round n peer s).1).0) post
          ∙ ap (◌++◌ (posted (send_round n q).0)) rest
          ∙ (send_round-batch n q).0,
      empty,
    )

module _ (h : Host) (d : Draw) where
  -- A node after the batches, each in a request.
  pub deliver : List (List Gossip) → Server → Server
  deliver [] s = s
  deliver (b ∷ bs) s = deliver bs (receive_gossip h d (some (body_of b)) s).1

  -- A node after the payloads, each in a request of its own.
  pub take_each : List Gossip → Server → Server
  take_each [] s = s
  take_each (g ∷ gs) s = take_each gs (receive_gossip h d (some (payload_value g)) s).1

  take_each-append :
      (xs ys : List Gossip) (s : Server) → take_each (xs ++ ys) s ≡ take_each ys (take_each xs s)
  unfolding take_each
  take_each-append [] ys s = refl
  take_each-append (x ∷ xs) ys s = take_each-append xs ys _

  go_on-ok :
      (p : Response × Server) (rest : Server → Response × Server)
      → p.0 ≡ ok_status
      → go_on h d p rest ≡ rest p.1
  unfolding go_on
  go_on-ok (ok_status, s) rest e = refl
  go_on-ok (Response.server_error, s) rest e = absurd (cc)
  go_on-ok (Response.bad_request, s) rest e = absurd (cc)
  go_on-ok (Response.accepted m, s) rest e = absurd (cc)

  module _ (cfg : Config) where
    one_by_one-taken :
        (gs : List Gossip) (s : Server)
        → All (IsOrigin cfg) gs
        → one_by_one h d gs s ≡ (ok_status, take_each gs s)
    unfolding one_by_one take_each body_of
    one_by_one-taken [] s own = refl
    one_by_one-taken (g ∷ gs) s own =
        go_on-ok (receive_gossip h d (some (payload_value g)) s) (one_by_one h d gs)
          (receive_gossip-taken h d cfg (g ∷ []) s (own.0, tt))
        ∙ one_by_one-taken gs _ own.1

    receive_gossip-take_each :
        (b : List Gossip) (s : Server)
        → All (IsOrigin cfg) b
        → (receive_gossip h d (some (body_of b)) s).1 ≡ take_each b s
    unfolding take_each body_of
    receive_gossip-take_each [] s own = unfold receive_gossip receive_items in refl
    receive_gossip-take_each (g ∷ gs) s own =
        ap (λ p. p.1) (receive_gossip-one_by_one h d g gs s ∙ one_by_one-taken (g ∷ gs) s own)

    deliver-take_each :
        (bs : List (List Gossip)) (s : Server)
        → All (IsOrigin cfg) (all_of bs)
        → deliver bs s ≡ take_each (all_of bs) s
    unfolding deliver all_of take_each
    deliver-take_each [] s own = refl
    deliver-take_each (b ∷ bs) s own =
        let (first, later) = All-append_left cfg b (all_of bs) own in
        ap (deliver bs) (receive_gossip-take_each b s first)
        ∙ deliver-take_each bs (take_each b s) later
        ∙ sym (take_each-append b (all_of bs) s)

-- In every run of a node that starts within its bounds, as many rounds of a worker as payloads wait for
-- its peer, whatever the clock of each allows, leave none waiting; and the peer, a node of the same
-- code in whatever state, is after the batches what it would be after the payloads in requests of
-- their own, each once and in the order in which they were published.
pub worker_rounds-delivers :
    (h : Host) {s t : Server} (ns : List ℕ) (peer : Str) (q : List Gossip) (h' : Host) (d : Draw)
    (s' : Server)
    → IsFit h s
    → Run h s t
    → get peer t.peers ≡ some q
    → length q ≤ length ns
    → (get peer (worker_rounds ns peer t).1.peers ≡ some [])
      × (deliver h' d (worker_rounds ns peer t).0 s' ≡ take_each h' d q s')
worker_rounds-delivers h {s} {t} ns peer q h' d s' fit run waits enough =
    let (all, empty) = worker_rounds-all ns peer q t waits enough in
    let own =
      (get-AllValues (IsOwn h.cfg) peer q t.peers (Run-IsFit h fit run).payloads waits).own in
    (
      empty,
      deliver-take_each h' d h.cfg (worker_rounds ns peer t).0 s'
            (subst (All (IsOrigin h.cfg)) (sym all) own)
          ∙ ap (λ gs. take_each h' d gs s') all,
    )
