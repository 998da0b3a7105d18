-- ===== src/Node/Batches.antt =====
-- A batch of gossip at the node that receives it: app.py's `receive_gossip` on what a worker of gossip.py posts.
use group_chat.Prelude.{◌≡◌, ◌∙◌, refl, ap, Bool, true, false, some, List, [], ◌∷◌, if◌then◌else◌}
use group_chat.App.Defs.{
  Response, ok_status, server_error, receive_item, receive_items, receive_gossip,
}
use group_chat.Gossip.{Gossip, payload_value, items_of, body_of}
use group_chat.Host.{Host, Draw}
use group_chat.Server.Defs.{Server}

module _ (h : Host) (d : Draw) where
  -- What follows a payload: the other ones, unless it raised.
  unfoldable pub go_on : Response × Server → (Server → Response × Server) → Response × Server
  go_on (server_error, s) rest = (server_error, s)
  go_on (Response.bad_request, s) rest = rest s
  go_on (Response.accepted m, s) rest = rest s
  go_on (ok_status, s) rest = rest s

  -- The payloads in requests of their own, up to the first that the node answers with an error.
  unfoldable pub one_by_one : List Gossip → Server → Response × Server
  one_by_one [] s = (ok_status, s)
  one_by_one (g ∷ gs) s = go_on (receive_gossip h d (some (payload_value g)) s) (one_by_one gs)

  go_on-item :
      (p : Bool × Server) (rest : Server → Response × Server)
      → (if p.0 then rest p.1 else (server_error, p.1))
        ≡ go_on (if p.0 then (ok_status, p.1) else (server_error, p.1)) rest
  unfolding go_on
  go_on-item (true, s) rest = refl
  go_on-item (false, s) rest = refl

  receive_items-one_by_one :
      (gs : List Gossip) (s : Server) → receive_items h d (items_of gs) s ≡ one_by_one gs s
  unfolding receive_items one_by_one items_of receive_gossip payload_value
  receive_items-one_by_one [] s = refl
  receive_items-one_by_one (g ∷ gs) s =
      let p = receive_item h d (payload_value g) s in
      ap (λ rest. if p.0 then rest else (server_error, p.1)) (receive_items-one_by_one gs p.1)
      ∙ go_on-item p (one_by_one gs)

  -- A batch of gossip that a worker posts in one request does to the node that receives it what the
  -- payloads do in requests of their own and in order, up to the first that is answered with an error,
  -- whose answer is also that of the batch.
  pub receive_gossip-one_by_one :
      (g : Gossip) (gs : List Gossip) (s : Server)
      → receive_gossip h d (some (body_of (g ∷ gs))) s ≡ one_by_one (g ∷ gs) s
  unfolding receive_gossip body_of one_by_one payload_value
  receive_gossip-one_by_one g [] s = receive_items-one_by_one (g ∷ []) s
  receive_gossip-one_by_one g (g' ∷ gs) s = receive_items-one_by_one (g ∷ g' ∷ gs) s
