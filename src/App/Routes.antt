-- ===== src/App/Routes.antt =====
-- What the routes leave of the node: the counter, the queues to the peers, the tasks.
use group_chat.Prelude.{◌≡◌, refl, false, Option, none, some, arith, if_intro}
use group_chat.App.Defs.{
  Response, bad_request, publish_post, post_body, post_message, accept, accept_value, receive_item,
  receive_items, receive_gossip, msg_text,
}
use group_chat.Host.{Host, Draw}
use group_chat.Python.{Value, Items, Fields, truth, str, field_of, ◌orelse◌}
use group_chat.Server.Defs.{Server}
use group_chat.Server.Handlers.{cache_message}
use group_chat.Store.Defs.{increment_connections}

-- What a node has to send to others or to write later, and who is connected to it.
pub record SameDuties (s t : Server) : Type 0 where
  pub peers : t.peers ≡ s.peers
  pub tasks : t.tasks ≡ s.tasks
  pub clients : t.clients ≡ s.clients
  pub usernames : t.usernames ≡ s.usernames
  pub rooms : t.rooms ≡ s.rooms
  pub queue : t.store.write_queue ≡ s.store.write_queue
  pub writes : t.store.db_writes ≡ s.store.db_writes
  pub connections : t.store.active_connections ≡ s.store.active_connections

module _ (h : Host) (d : Draw) where
  SameDuties-refl : (s : Server) → SameDuties s s
  SameDuties-refl s = ground arith

  accept-SameDuties :
      (room : Value) (msg : Fields) (s : Server) → SameDuties s (accept h d room msg s).1
  unfolding accept cache_message
  accept-SameDuties room msg s = ground arith

  accept_value-SameDuties :
      (room v : Value) (s : Server) → SameDuties s (accept_value h d room v s).1
  unfolding accept_value
  accept_value-SameDuties room (Value.obj (Fields.field k v msg)) s =
      accept-SameDuties room (Fields.field k v msg) s
  accept_value-SameDuties room _ s = SameDuties-refl s

  receive_item-SameDuties : (item : Value) (s : Server) → SameDuties s (receive_item h d item s).1
  unfolding receive_item
  receive_item-SameDuties (Value.obj item) s = ground (
    arith,
    accept_value-SameDuties (field_of "room" item orelse str h.cfg.first_room) (field_of "msg" item)
        s,
  )
  receive_item-SameDuties _ s = SameDuties-refl s

  SameDuties-trans : {s t u : Server} → SameDuties s t → SameDuties t u → SameDuties s u
  SameDuties-trans a b = ground arith

  receive_items-SameDuties :
      (items : Items) (s : Server) → SameDuties s (receive_items h d items s).1
  unfolding receive_items
  receive_items-SameDuties Items.nil s = SameDuties-refl s
  receive_items-SameDuties (Items.cons item items) s =
      if_intro {A = Response × Server} (λ p. SameDuties s p.1) (receive_item h d item s).0
        (λ _.
          SameDuties-trans (receive_item-SameDuties item s)
            (receive_items-SameDuties items (receive_item h d item s).1))
        (λ _. receive_item-SameDuties item s)

  -- Whatever a peer sends, also where an item raises, a node that receives gossip queues nothing for any
  -- peer, starts no task and writes nothing to the database: a message is never passed on a second time.
  -- Its clients, rooms and names stay too.
  pub receive_gossip-SameDuties :
      (body : Option Value) (s : Server) → SameDuties s (receive_gossip h d body s).1
  unfolding receive_gossip
  receive_gossip-SameDuties none s = SameDuties-refl s
  receive_gossip-SameDuties (some (Value.arr items)) s = receive_items-SameDuties items s
  receive_gossip-SameDuties (some v) s = receive_items-SameDuties (Items.cons v Items.nil) s

  publish_post-connections :
      (room : Value) (msg : Fields) (s : Server)
      → (publish_post h d room msg s).1.store.active_connections ≡ s.store.active_connections
  unfolding publish_post cache_message
  publish_post-connections room msg s = ground arith

  post_body-connections :
      (body query : Fields) (s : Server)
      → (post_body h d body query s).1.store.active_connections ≡ s.store.active_connections
  unfolding post_body
  post_body-connections body query s =
      if_intro {A = Response × Server}
        (λ p. p.1.store.active_connections ≡ s.store.active_connections)
        (truth (msg_text h body query)) (λ _. publish_post-connections _ _ s) (λ _. refl)

  -- Every request leaves the number of connections as it was, whatever its body and its query are and
  -- also where it raises.
  post_message-connections :
      (body query : Fields) (s : Server)
      → (post_message h d body query s).1.store.active_connections ≡ s.store.active_connections
  unfolding post_message
  post_message-connections body query s =
      ground (
        arith,
        post_body-connections body query (record s { store = increment_connections s.store }),
      )

  -- A request without a text is refused with 400, and leaves the node as it was.
  post_message-empty :
      (body query : Fields) (s : Server)
      → truth (msg_text h body query) ≡ false
      → post_message h d body query s ≡ (bad_request, s)
  unfolding post_message
  post_message-empty body query s e = ground arith
