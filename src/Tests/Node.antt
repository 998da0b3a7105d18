-- ===== src/Tests/Node.antt =====
-- Examples for a request's way through a node and to its peers.
use mathlib.Core.List.{Mem}
use mathlib.Core.Option
use group_chat.Prelude.{
  IsDict, put, str-discrete, ℕ_discrete, ◌≡◌, refl, true, false, none, some, List, [], ◌∷◌, Str,
  codes, get, arith, take, length, map, ap,
}
use group_chat.App.Defs.{
  accepted, answer, post_message, receive_gossip, client_name, msg_text, request_id, request_room,
  request_time,
}
use group_chat.Config.{Config, max_username_len, max_message_len}
use group_chat.Gossip.{Gossip, publish, body_of}
use group_chat.Node.Accepted.{IsRequest, message_of, kept, post_message-reaches}
use group_chat.Node.Defs.{run_one, pick, worker_round}
use group_chat.Node.Durable.{IsEncodable, signed_name, post_message-Queued}
use group_chat.Node.Unstored.{IsUnstored, post_message-IsUnstored}
use group_chat.Node.Typed.{IsTyped, post_message-IsTyped}
use group_chat.Node.Spread.{other_node, own_batch, post_message-spreads}
use group_chat.Python.{Fields, Key, int, str, truth, hash_of, str_of, int_of, field_or, ◌orelse◌}
use group_chat.Python.Text.{strip}
use group_chat.Result.{Result, ok}
use group_chat.Rooms.Broadcast.{queue_after}
use group_chat.Rooms.Defs.{members_of, join}
use group_chat.Server.Defs.{Frame, Server, Task}
use group_chat.Store.Append.{signing_key, ack_of}
use group_chat.Store.Cache.Bounds.{IsBounded}
use group_chat.Store.Cache.Defs.{Message, get_feed_bytes, contains, insert, initial}
use group_chat.Store.Sealed.{Queued}
use group_chat.Crypto.{Bytes}
use group_chat.Crypto.Messages.{header}
use group_chat.Crypto.Sizes.{IsSized}
use group_chat.Tests.{
  transparent, keyring, master, host, disk, draw, store, text_of, transparent-CryptoLaws,
}

abbrev pub general : Str
general = codes "general"

abbrev pub peer : Str
peer = codes "http://peer"

-- A node with a member in a room, and a peer.
abbrev pub node : Server
node = record {
  clients = [];
  usernames = [];
  rooms =
      join 1 general (codes "c1")
        (record { username = codes "ann"; connected = true; has_queue = true }) [];
  net = record { queues = (codes "c1", []) ∷ []; direct = [] };
  closing = [];
  store = store;
  peers = (peer, []) ∷ [];
  tasks = [];
}

abbrev pub body : Fields
body = text_of "m1" "hi"

abbrev key : Key
key = Key.word (codes "m1")

body-IsRequest : IsRequest host draw body Fields.end general key
unfolding msg_text request_room request_id truth ◌orelse◌ field_or hash_of
body-IsRequest = record { text = refl; room = refl; named = refl; key = refl }

pub initial-IsBounded : IsBounded initial
initial-IsBounded = record { queue = omega arith; id_set = omega arith; compacts = tt }

abbrev gossip_of_peer : Gossip
gossip_of_peer = record { origin = codes "s2"; room = str general; msg = body }

members-IsDict : IsDict (members_of general node.rooms)
unfolding members_of join get put str-discrete
members-IsDict = (refl, tt)

-- A serializer that writes the lengths of the texts.
abbrev pub dumps : List Message → Result Str
dumps ms = ok (map (λ m. length m.text) ms)

abbrev after_post : Server
after_post = (post_message host draw body Fields.end node).1

post_message-reaches_example :
    ((post_message host draw body Fields.end node).0
      ≡ accepted (answer host (message_of host draw body Fields.end)))
    × Mem (kept host draw body Fields.end general) after_post.store.cache.messages
    × ((get_feed_bytes dumps 6000 6000 after_post.store.cache).1
        ≡ map (λ m. length m.text) after_post.store.cache.messages)
    × ((j : Str)
        → get j after_post.net.queues
          ≡ queue_after none
              (Frame.message (message_of host draw body Fields.end))
              (get j (members_of general node.rooms))
              j
              node.net)
    × ((peer : Str)
        → get peer after_post.peers
          ≡ Option.map
              (publish (record {
                origin = codes "s1";
                room = str general;
                msg = message_of host draw body Fields.end;
              }))
              (get peer node.peers))
post_message-reaches_example =
    post_message-reaches host draw body Fields.end general key node dumps 6000 6000
      (map (λ m. length m.text) after_post.store.cache.messages) initial-IsBounded members-IsDict
      body-IsRequest (unfold contains in refl) (omega arith) (omega arith) refl

abbrev peer_config : Config
peer_config = record host.cfg { server_id = codes "node-2" }

abbrev received : Server
received =
    (receive_gossip (other_node host draw peer_config disk) draw
      (some (body_of (own_batch host draw peer_config disk body Fields.end (str general)))) node).1

post_message-spreads_example :
    ((worker_round 7 peer after_post).0
      ≡ some (own_batch host draw peer_config disk body Fields.end (str general)))
    × Mem (kept host draw body Fields.end general) after_post.store.cache.messages
    × ((get_feed_bytes dumps 6000 6000 after_post.store.cache).1
        ≡ map (λ m. length m.text) after_post.store.cache.messages)
    × Mem (kept host draw body Fields.end general) received.store.cache.messages
    × ((get_feed_bytes dumps 6000 6000 received.store.cache).1
        ≡ map (λ m. length m.text) received.store.cache.messages)
unfolding request_time truth field_or ◌orelse◌ int_of get contains ℕ_discrete str-discrete
post_message-spreads_example =
    post_message-spreads host draw peer_config disk body Fields.end b'g' (codes "eneral") key node
      node draw 7 peer dumps 6000 6000 (map (λ m. length m.text) after_post.store.cache.messages)
      (map (λ m. length m.text) received.store.cache.messages) initial-IsBounded initial-IsBounded
      body-IsRequest refl refl refl (λ e. cc) refl (omega arith) (omega arith) (omega arith)
      (omega arith) refl refl

abbrev append_task : Task
append_task = Task.append (str general) (message_of host draw body Fields.end) none

-- The task is the only one that was started.
abbrev later : Server
later = record node { tasks = append_task ∷ [] }

keyring-IsSized : IsSized keyring
keyring-IsSized = record { size = λ key e. ap length (some-injective key e) }
  where
    some-injective : (key : Bytes) → some master ≡ some key → key ≡ master
    some-injective key e = cc

body-IsEncodable :
    IsEncodable host draw
      (request_id host draw body Fields.end)
      (str general)
      (signed_name host draw (
        take max_username_len
          (strip host.py.is_space (str_of host.py (client_name host body Fields.end)))))
      (take max_message_len
        (strip host.py.is_space (str_of host.py (msg_text host body Fields.end))))
      (int (request_time host draw body Fields.end))
unfolding request_id request_time client_name msg_text strip header str_of transparent ◌orelse◌
    field_or int_of
body-IsEncodable = record { body = refl; start = refl }

post_message-Queued_example :
    ((post_message host draw body Fields.end node).1.tasks ≡ append_task ∷ [])
    × Queued host draw transparent-CryptoLaws
        (signing_key host draw none
          (signed_name host draw (
            take max_username_len
              (strip host.py.is_space (str_of host.py (client_name host body Fields.end)))))
          later.store).0
        []
        (ack_of host draw
          (request_id host draw body Fields.end)
          (str general)
          (signed_name host draw (
            take max_username_len
              (strip host.py.is_space (str_of host.py (client_name host body Fields.end)))))
          (take max_message_len
            (strip host.py.is_space (str_of host.py (msg_text host body Fields.end))))
          (int (request_time host draw body Fields.end)))
        (run_one host draw 0 later).store
unfolding pick
post_message-Queued_example =
    post_message-Queued host transparent-CryptoLaws draw draw body Fields.end general key node later
      0 [] [] body-IsRequest refl refl (omega arith) keyring-IsSized refl body-IsEncodable

post_message-IsTyped_example :
    IsTyped (message_of host draw body Fields.end)
    × IsTyped (answer host (message_of host draw body Fields.end))
    × (answer host (message_of host draw body Fields.end)
        ≡ answer host (message_of host draw body Fields.end))
post_message-IsTyped_example =
    post_message-IsTyped host draw body Fields.end node
      (answer host (message_of host draw body Fields.end)) post_message-reaches_example.0

-- A text with a lone surrogate.
abbrev broken : Fields
broken =
    Fields.field "id" (str (codes "m1")) (Fields.field "text" (str (b'h' ∷ 55296 ∷ [])) Fields.end)

broken-IsRequest : IsRequest host draw broken Fields.end general key
unfolding msg_text request_room request_id truth ◌orelse◌ field_or hash_of
broken-IsRequest = record { text = refl; room = refl; named = refl; key = refl }

broken_text :
    host.cr.encodable (
      take max_message_len
        (strip host.py.is_space (str_of host.py (msg_text host broken Fields.end))))
    ≡ false
unfolding msg_text strip str_of transparent ◌orelse◌ field_or
broken_text = refl

abbrev broken_later : Server
broken_later = record node {
  tasks = Task.append (str general) (message_of host draw broken Fields.end) none ∷ [];
}

post_message-IsUnstored_example :
    ((post_message host draw broken Fields.end node).0
      ≡ accepted (answer host (message_of host draw broken Fields.end)))
    × ((post_message host draw broken Fields.end node).1.store.cache
        ≡ insert key (kept host draw broken Fields.end general) node.store.cache)
    × IsUnstored broken_later.store (run_one host draw 0 broken_later).store
unfolding pick
post_message-IsUnstored_example =
    post_message-IsUnstored host draw draw broken Fields.end general key node broken_later 0 []
      broken-IsRequest broken_text refl
