-- ===== src/Tests/Routes.antt =====
-- Examples for the routes.
use group_chat.Prelude.{some, [], ◌∷◌, codes}
use group_chat.App.Defs.{receive_gossip}
use group_chat.App.Routes.{SameDuties, receive_gossip-SameDuties}
use group_chat.Python.{Value, Items, Fields, str, obj, arr}
use group_chat.Server.Defs.{Server}
use group_chat.Tests.{host, draw, store, text_of}

abbrev server : Server
server = record {
  clients = [];
  usernames = [];
  rooms = [];
  net = record { queues = []; direct = [] };
  closing = [];
  store = store;
  peers = (codes "http://peer", []) ∷ [];
  tasks = [];
}

-- A batch with one payload of another node.
abbrev payloads : Value
payloads = arr (
    Items.cons
      (obj (
        Fields.field "origin" (str (codes "s2")) (
          Fields.field "room" (str (codes "general"))
            (Fields.field "msg" (obj (text_of "m1" "hi")) Fields.end))))
      Items.nil)

receive_gossip-SameDuties_example :
    SameDuties server (receive_gossip host draw (some payloads) server).1
receive_gossip-SameDuties_example = receive_gossip-SameDuties host draw (some payloads) server
