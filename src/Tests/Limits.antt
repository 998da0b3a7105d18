-- ===== src/Tests/Limits.antt =====
-- Examples for what a node holds in memory, and for what goes round between nodes.
use group_chat.Prelude.{
  ◌≡◌, ◌≤◌, refl, true, some, List, [], ◌∷◌, Str, codes, get, All, length, arith, str-discrete,
  keys,
}
use group_chat.App.Defs.{ok_status, receive_gossip, post_message, count_in}
use group_chat.Gossip.{Gossip, body_of, get_valid_peers}
use group_chat.Gossip.Links.{Links, IsLinked, IsFound, init_gossip, init_gossip-IsLinked}
use group_chat.Host.{Host}
use group_chat.Node.Circulation.{worker_round-own}
use group_chat.Node.Delivery.{worker_rounds, deliver, take_each, worker_rounds-delivers}
use group_chat.Node.Limits.Runs.{Run-IsFit}
use group_chat.Node.Spread.{worker_round_single}
use group_chat.Node.Steps.{Step, Run}
use group_chat.Gossip.Welcome.{IsWelcome, is_lookup}
use group_chat.Node.Accepted.{wire}
use group_chat.Node.Welcome.{worker_round-taken}
use group_chat.Python.{Fields, Key, pos, str, hash_of, field_or}
use group_chat.Server.Defs.{Server}
use group_chat.Server.Limits.{IsFit}
use group_chat.Tests.{host, draw}
use group_chat.Tests.Node.{node, peer, body, initial-IsBounded, general}

node-IsFit : IsFit host node
node-IsFit = record {
  cache = initial-IsBounded;
  documents = omega arith;
  frames = (omega arith, tt);
  payloads = (record { short = omega arith; own = tt }, tt);
}

abbrev posted_node : Server
posted_node = (post_message host draw body Fields.end node).1

-- A message is posted.
posted-Run : Run host node posted_node
posted-Run = Run.next Run.here (Step.posts draw body Fields.end node)

Run-IsFit_example : IsFit host posted_node
Run-IsFit_example = Run-IsFit host node-IsFit posted-Run

-- A message as a node publishes it.
abbrev own_message : Fields
own_message = wire (str (codes "m1")) (codes "ann") (codes "hi") general (pos 5000)

own_message-IsWelcome : IsWelcome (str general) own_message
unfolding is_lookup hash_of field_or
own_message-IsWelcome = record {
  lookup = refl;
  hashed = λ _. (Key.word (codes "m1"), refl);
  time = (pos 5000, λ v. refl);
}

abbrev own_payload : Gossip
own_payload = record { origin = codes "s1"; room = str general; msg = own_message }

-- A payload waits for the peer, and a connection is counted.
abbrev waiting_node : Server
waiting_node = record node { peers = (peer, own_payload ∷ []) ∷ [] }

waiting-IsFit : IsFit host waiting_node
waiting-IsFit = record {
  cache = initial-IsBounded;
  documents = omega arith;
  frames = (omega arith, tt);
  payloads = (
    record {
      short = omega arith;
      own = (record { named = refl; welcome = own_message-IsWelcome }, tt);
    },
    tt,
  );
}

abbrev counted : Server
counted = count_in host waiting_node

counted-Run : Run host waiting_node counted
counted-Run = Run.next Run.here (Step.counts_in waiting_node)

worker_round-own_example :
    (length (own_payload ∷ []) ≤ 100)
    × (receive_gossip host draw (some (body_of (own_payload ∷ []))) node ≡ (ok_status, node))
unfolding get count_in str-discrete
worker_round-own_example =
    worker_round-own host 7 peer (own_payload ∷ []) draw node waiting-IsFit counted-Run
      (worker_round_single 7 peer own_payload counted refl)

-- A peer of the same code with another id.
abbrev peer_host : Host
peer_host = record host { cfg = record host.cfg { server_id = codes "s2" } }

worker_round-taken_example :
    (receive_gossip peer_host draw (some (body_of (own_payload ∷ []))) node).0 ≡ ok_status
unfolding get count_in str-discrete
worker_round-taken_example =
    worker_round-taken host 7 peer (own_payload ∷ []) peer_host draw node waiting-IsFit counted-Run
      (worker_round_single 7 peer own_payload counted refl)

-- Two payloads wait, and the worker has two rounds.
abbrev pair_node : Server
pair_node = record node { peers = (peer, own_payload ∷ own_payload ∷ []) ∷ [] }

pair-IsFit : IsFit host pair_node
pair-IsFit = record {
  cache = initial-IsBounded;
  documents = omega arith;
  frames = (omega arith, tt);
  payloads = (
    record {
      short = omega arith;
      own = (
        record { named = refl; welcome = own_message-IsWelcome },
        (record { named = refl; welcome = own_message-IsWelcome }, tt),
      );
    },
    tt,
  );
}

worker_rounds-delivers_example :
    (get peer (worker_rounds (0 ∷ 9 ∷ []) peer (count_in host pair_node)).1.peers ≡ some [])
    × (deliver peer_host draw (worker_rounds (0 ∷ 9 ∷ []) peer (count_in host pair_node)).0 node
        ≡ take_each peer_host draw (own_payload ∷ own_payload ∷ []) node)
unfolding get count_in str-discrete
worker_rounds-delivers_example =
    worker_rounds-delivers host (0 ∷ 9 ∷ []) peer (own_payload ∷ own_payload ∷ []) peer_host draw
      node pair-IsFit (Run.next Run.here (Step.counts_in pair_node)) refl (omega arith)

-- A node with one peer beside itself.
abbrev pub linked_host : Host
linked_host = record host {
  cfg = record host.cfg {
    peers = codes "http://localhost:5000" ∷ codes "http://b:1/" ∷ codes "http://c:1" ∷ [];
  };
}

abbrev b_linked : Links
b_linked = record {
  queues = (codes "http://b:1", own_payload ∷ []) ∷ [];
  workers = codes "http://b:1" ∷ [];
  client = true;
}

b_linked-IsLinked : IsLinked b_linked
unfolding keys get
b_linked-IsLinked = record { worked = refl; dict = (refl, tt) }

init_gossip-IsLinked_example :
    IsLinked (init_gossip linked_host.py linked_host.cfg b_linked)
    × ((p : Str) (q : List Gossip)
        → get p b_linked.queues ≡ some q
        → get p (init_gossip linked_host.py linked_host.cfg b_linked).queues ≡ some q)
    × All
        (IsFound (init_gossip linked_host.py linked_host.cfg b_linked))
        (get_valid_peers linked_host.py linked_host.cfg)
    × (init_gossip linked_host.py linked_host.cfg
          (init_gossip linked_host.py linked_host.cfg b_linked)
        ≡ init_gossip linked_host.py linked_host.cfg b_linked)
init_gossip-IsLinked_example =
    init_gossip-IsLinked linked_host.py linked_host.cfg b_linked b_linked-IsLinked
