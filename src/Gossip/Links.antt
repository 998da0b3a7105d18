-- ===== src/Gossip/Links.antt =====
-- server/gossip.py: the life cycle of the links to the peers, `init_gossip`, `_get_client` and `shutdown_gossip`.
use group_chat.Prelude.{
  ◌≡◌, ◌≢◌, ◌∙◌, refl, sym, ap, Bool, true, false, ◌&&◌, not, none, some, List, [], ◌∷◌, ◌++◌, Str,
  Dict, get, put, get-put, IsDict, put-IsDict, keys, arith, Option-cases, All, inl, inr, ite,
  str-discrete, if_pos, if_neg, if◌then◌else◌,
}
use group_chat.Config.{Config}
use group_chat.Gossip.{Gossip, get_valid_peers}
use group_chat.Python.{Python}

-- `_peer_queues`, the peers of `_peer_workers`, and whether `_async_client` is open.
pub record Links : Type 0 where
  pub queues : Dict (List Gossip)
  pub workers : List Str
  pub client : Bool

-- `_get_client`, where `has_httpx` says whether the library is installed: whether there is a client.
unfoldable get_client : Bool → Links → Bool × Links
get_client has_httpx l =
    let opened : Bool = if not l.client && has_httpx then true else l.client in
    (opened, record l { client = opened })

-- A peer without a queue gets one, and a worker.
unfoldable pub start_worker : Str → Links → Links
start_worker peer l = elim (get peer l.queues) [
  | none ↦ record l { queues = put peer [] l.queues; workers = l.workers ++ peer ∷ [] }
  | some _ ↦ l
]

unfoldable pub start_workers : List Str → Links → Links
unfolding start_worker
start_workers [] l = l
start_workers (peer ∷ peers) l = start_workers peers (start_worker peer l)

-- `init_gossip`, in a running event loop
unfoldable pub init_gossip : Python → Config → Links → Links
unfolding start_workers
init_gossip py cfg l = start_workers (get_valid_peers py cfg) l

-- `shutdown_gossip`, once the cancelled workers have ended.
unfoldable pub shutdown_gossip : Links → Links
shutdown_gossip l = record { queues = []; workers = []; client = false }

-- Each queue has a worker, and only one.
pub record IsLinked (l : Links) : Type 0 where
  pub worked : l.workers ≡ keys l.queues
  pub dict : IsDict l.queues

-- A peer that has a queue.
pub IsFound : Links → Str → Type 0
IsFound l p = (q : List Gossip) × (get p l.queues ≡ some q)

keys-put_new :
    {V : Type 0} (k : Str) (v : V) (d : Dict V)
    → get k d ≡ none
    → keys (put k v d) ≡ keys d ++ k ∷ []
unfolding keys put
keys-put_new k v [] new = refl
keys-put_new k v ((j, w) ∷ d) new =
    elim (str-discrete j k)
        as (λ x.
          ite x (some w) (get k d) ≡ none
          → keys (ite x ((k, v) ∷ d) ((j, w) ∷ put k v d)) ≡ j ∷ (keys d ++ k ∷ [])) [
            | yes e ↦ λ n. cc
            | no e ↦ λ n. ap (λ l. j ∷ l) (keys-put_new k v d n)
          ]
      (unfold get in new)

start_worker-new :
    (peer : Str) (l : Links)
    → get peer l.queues ≡ none
    → start_worker peer l
      ≡ record l { queues = put peer [] l.queues; workers = l.workers ++ peer ∷ [] }
unfolding start_worker
start_worker-new peer l new = ground arith

start_worker-again :
    (peer : Str) (l : Links) {q : List Gossip}
    → get peer l.queues ≡ some q
    → start_worker peer l ≡ l
unfolding start_worker
start_worker-again peer l found = ground arith

start_worker-IsLinked : (peer : Str) (l : Links) → IsLinked l → IsLinked (start_worker peer l)
start_worker-IsLinked peer l linked = elim (Option-cases (get peer l.queues)) [
  | inl new ↦ rw (start_worker-new peer l new) (record {
    worked = ap (λ ws. ws ++ peer ∷ []) linked.worked ∙ sym (keys-put_new peer [] l.queues new);
    dict = put-IsDict peer [] l.queues linked.dict;
  })
  | inr (q, e) ↦ rw (start_worker-again peer l e) linked
]

-- A queue that is there stays, with what waits in it.
start_worker-keeps :
    (peer p : Str) (q : List Gossip) (l : Links)
    → get p l.queues ≡ some q
    → get p (start_worker peer l).queues ≡ some q
start_worker-keeps peer p q l found = elim (Option-cases (get peer l.queues)) [
  | inl new ↦
      let other : peer ≢ p =
        λ e. (let twice : none ≡ some q = sym new ∙ ap (λ x. get x l.queues) e ∙ found in cc) in
      rw (start_worker-new peer l new)
        (get-put peer p [] l.queues ∙ if_neg (str-discrete peer p) other _ _ ∙ found)
  | inr (r, e) ↦ rw (start_worker-again peer l e) found
]

start_worker-found :
    (peer : Str) (l : Links) → (q : List Gossip) × (get peer (start_worker peer l).queues ≡ some q)
start_worker-found peer l = elim (Option-cases (get peer l.queues)) [
  | inl new ↦
      rw (start_worker-new peer l new)
        (([], get-put peer peer [] l.queues ∙ if_pos (str-discrete peer peer) refl _ _))
  | inr (r, e) ↦ rw (start_worker-again peer l e) ((r, e))
]

start_workers-IsLinked :
    (peers : List Str) (l : Links) → IsLinked l → IsLinked (start_workers peers l)
unfolding start_workers
start_workers-IsLinked [] l linked = linked
start_workers-IsLinked (peer ∷ peers) l linked =
    start_workers-IsLinked peers (start_worker peer l) (start_worker-IsLinked peer l linked)

start_workers-keeps :
    (peers : List Str) (p : Str) (q : List Gossip) (l : Links)
    → get p l.queues ≡ some q
    → get p (start_workers peers l).queues ≡ some q
unfolding start_workers
start_workers-keeps [] p q l found = found
start_workers-keeps (peer ∷ peers) p q l found =
    start_workers-keeps peers p q (start_worker peer l) (start_worker-keeps peer p q l found)

start_workers-IsFound : (peers : List Str) (l : Links) → All (IsFound (start_workers peers l)) peers
unfolding start_workers IsFound
start_workers-IsFound [] l = tt
start_workers-IsFound (peer ∷ peers) l =
    let (q, e) = start_worker-found peer l in
    (
      (q, start_workers-keeps peers peer q (start_worker peer l) e),
      start_workers-IsFound peers (start_worker peer l),
    )

start_workers-again :
    (peers : List Str) (l : Links) → All (IsFound l) peers → start_workers peers l ≡ l
unfolding start_workers IsFound
start_workers-again [] l all = refl
start_workers-again (peer ∷ peers) l all =
    ap (start_workers peers) (start_worker-again peer l all.0.1) ∙ start_workers-again peers l all.1

-- Whatever peers are linked already, `init_gossip` leaves every queue that there was with what waits in
-- it, and gives every valid peer a queue. Where each queue had exactly one worker before, this holds
-- after it, and a second call changes nothing.
pub init_gossip-IsLinked :
    (py : Python) (cfg : Config) (l : Links)
    → IsLinked l
    → IsLinked (init_gossip py cfg l)
      × ((p : Str) (q : List Gossip)
          → get p l.queues ≡ some q
          → get p (init_gossip py cfg l).queues ≡ some q)
      × All (IsFound (init_gossip py cfg l)) (get_valid_peers py cfg)
      × (init_gossip py cfg (init_gossip py cfg l) ≡ init_gossip py cfg l)
unfolding init_gossip
init_gossip-IsLinked py cfg l linked =
    let peers = get_valid_peers py cfg in
    (
      start_workers-IsLinked peers l linked,
      λ p q found. start_workers-keeps peers p q l found,
      start_workers-IsFound peers l,
      start_workers-again peers (start_workers peers l) (start_workers-IsFound peers l),
    )
