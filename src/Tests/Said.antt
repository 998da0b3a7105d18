-- ===== src/Tests/Said.antt =====
-- Examples for messages and private messages of a connection.
use mathlib.Core.List.{Mem}
use mathlib.Core.Option
use group_chat.Prelude.{
  length, map, arith, ◌≡◌, refl, true, false, none, some, [], ◌∷◌, Str, codes, get, put,
  str-discrete, IsDict,
}
use group_chat.Gossip.{publish}
use group_chat.Node.Direct.{target_of, text_of as dm_text, handle_private_message-delivers}
use group_chat.Node.Said.{IsSaid, said, kept_said, frame_id, sent_to, handle_message-reaches}
use group_chat.Python.{Fields, pos, str, truth, field_or, str_of, int_of, ◌orelse◌}
use group_chat.Python.Text.{strip}
use group_chat.Rooms.Broadcast.{queue_after}
use group_chat.Rooms.Defs.{members_of, join}
use group_chat.Server.Defs.{Client, Frame, Task, Server, done, state_of, name_of, is_empty}
use group_chat.Server.Handlers.{handle_message, message_text, private_key, clean, queue_member}
use group_chat.Server.RoomHandlers.{handle_private_message, dm_of, dm_room}
use group_chat.Store.Cache.Defs.{get_feed_bytes, contains}
use group_chat.Tests.{host, draw, store, text_of}
use group_chat.Tests.Node.{initial-IsBounded, peer, general, dumps}
use group_chat.Tests.Session.{client}

abbrev pub ann : Client
ann = client (codes "c1") (codes "ann") true

abbrev pub bob : Client
bob = client (codes "c2") (codes "bob") true

-- Two clients in a room, and a peer.
abbrev pub two_seated : Server
two_seated = record {
  clients = (codes "c1", ann) ∷ (codes "c2", bob) ∷ [];
  usernames = (codes "ann", codes "c1") ∷ (codes "bob", codes "c2") ∷ [];
  rooms =
      join 1 general (codes "c2") (queue_member host (codes "bob"))
        (join 1 general (codes "c1") (queue_member host (codes "ann")) []);
  net = record { queues = (codes "c1", []) ∷ (codes "c2", []) ∷ []; direct = [] };
  closing = [];
  store = store;
  peers = (peer, []) ∷ [];
  tasks = [];
}

abbrev hello : Fields
hello = text_of "m1" "hello"

hello-IsSaid : IsSaid host draw ann (codes "ann") hello (pos 5000)
unfolding name_of is_empty message_text clean field_or truth ◌orelse◌ strip str_of int_of
hello-IsSaid = record { named = refl; text = refl; time = refl; real = refl }

two_seated-IsDict : IsDict (members_of general two_seated.rooms)
unfolding members_of join get put str-discrete
two_seated-IsDict = (refl, (refl, tt))

abbrev after_hello : Server
after_hello = state_of (handle_message host draw (codes "c1") hello two_seated)

handle_message-reaches_example :
    (handle_message host draw (codes "c1") hello two_seated
      ≡ done (state_of (handle_message host draw (codes "c1") hello two_seated)))
    × Mem (kept_said host draw ann (codes "ann") hello (pos 5000)) after_hello.store.cache.messages
    × ((get_feed_bytes dumps 6000 6000 after_hello.store.cache).1
        ≡ map (λ m. length m.text) after_hello.store.cache.messages)
    × ((j : Str)
        → get j (state_of (handle_message host draw (codes "c1") hello two_seated)).net.queues
          ≡ sent_to ann (Frame.delivered (frame_id host draw hello)) j (
              queue_after none
                (Frame.message (said host draw ann (codes "ann") hello (pos 5000)))
                (get j (members_of general two_seated.rooms))
                j
                two_seated.net))
    × ((p : Str)
        → get p (state_of (handle_message host draw (codes "c1") hello two_seated)).peers
          ≡ Option.map
              (publish (record {
                origin = codes "s1";
                room = str general;
                msg = said host draw ann (codes "ann") hello (pos 5000);
              }))
              (get p two_seated.peers))
    × ((state_of (handle_message host draw (codes "c1") hello two_seated)).tasks
        ≡ Task.append
            (str general)
            (said host draw ann (codes "ann") hello (pos 5000))
            (private_key host ann)
          ∷ [])
unfolding get str-discrete contains
handle_message-reaches_example =
    handle_message-reaches host draw ann (codes "ann") hello (pos 5000) two_seated dumps 6000 6000
      (map (λ m. length m.text) after_hello.store.cache.messages) refl hello-IsSaid
      initial-IsBounded two_seated-IsDict refl (omega arith) (omega arith) refl

abbrev psst : Fields
psst = Fields.field "to" (str (codes "Bob")) (Fields.field "text" (str (codes "psst")) Fields.end)

bob_there : get (host.py.lower (target_of host draw psst)) two_seated.usernames ≡ some (codes "c2")
unfolding get str-discrete clean field_or truth ◌orelse◌ strip str_of
bob_there = refl

psst_text : is_empty (dm_text host draw psst) ≡ false
unfolding is_empty clean field_or truth ◌orelse◌ strip str_of
psst_text = refl

handle_private_message-delivers_example :
    (handle_private_message host draw (codes "c1") psst two_seated
      ≡ done (state_of (handle_private_message host draw (codes "c1") psst two_seated)))
    × ((j : Str)
        → get j
            (state_of (handle_private_message host draw (codes "c1") psst two_seated)).net.queues
          ≡ sent_to ann
              (Frame.private_message
                (dm_of host draw (codes "ann") (target_of host draw psst) (dm_text host draw psst)))
              j
              (sent_to bob
                (Frame.private_message (
                  dm_of host draw
                    (codes "ann")
                    (target_of host draw psst)
                    (dm_text host draw psst)))
                j
                (get j two_seated.net.queues)))
    × ((state_of (handle_private_message host draw (codes "c1") psst two_seated)).tasks
        ≡ Task.append
            (str (dm_room host (codes "ann") (target_of host draw psst)))
            (dm_of host draw (codes "ann") (target_of host draw psst) (dm_text host draw psst))
            (private_key host ann)
          ∷ [])
unfolding get str-discrete name_of
handle_private_message-delivers_example =
    handle_private_message-delivers host draw ann bob (codes "ann") psst two_seated refl refl
      bob_there refl psst_text
