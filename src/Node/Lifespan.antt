-- ===== src/Node/Lifespan.antt =====
-- The start of a process, app.py's `lifespan` up to its `yield`, and the runs that follow.
use mathlib.Core.Path.{subst}
use group_chat.Prelude.{
  ◌≡◌, ◌∙◌, refl, sym, ap, none, some, [], keys, arith, All, IsDict, AllValues,
}
use group_chat.App.Lifespan.{Process, links_of, set_links, start_writer, start_up}
use group_chat.Gossip.{get_valid_peers}
use group_chat.Gossip.Links.{IsLinked, IsFound, init_gossip, init_gossip-IsLinked}
use group_chat.Gossip.Origin.{IsOwn, init_gossip-IsOwn}
use group_chat.Rooms.Bounds.{IsShort}
use group_chat.Host.{Host}
use group_chat.Node.Limits.Runs.{Run-IsFit}
use group_chat.Node.Steps.{Run}
use group_chat.Server.Defs.{Server}
use group_chat.Server.Limits.{IsFit}
use group_chat.Store.Cache.Bounds.{IsBounded}
use group_chat.Store.Cache.Defs.{initial}
use group_chat.Store.Writer.{waiting, init_batch_writer}

-- A process whose modules have just been imported: no connection, no peer, an empty cache, no queue of writes.
pub record IsFresh (p : Process) : Type 0 where
  pub peers : p.server.peers ≡ []
  pub workers : p.workers ≡ []
  pub queues : p.server.net.queues ≡ []
  pub cache : p.server.store.cache ≡ initial
  pub write_queue : p.server.store.write_queue ≡ none

fresh-IsLinked : (p : Process) → IsFresh p → IsLinked (links_of p)
unfolding links_of keys
fresh-IsLinked p fresh = record {
  worked = fresh.workers ∙ sym (ap keys fresh.peers);
  dict = subst IsDict (sym fresh.peers) tt;
}

-- The process with its batch writer at an empty queue.
abbrev with_writer : Process → Process
with_writer p = record p {
  server = record p.server { store = record p.server.store { write_queue = some [] } };
  phase = waiting;
}

start_writer-fresh : (p : Process) → IsFresh p → start_writer p ≡ with_writer p
unfolding start_writer init_batch_writer
start_writer-fresh p fresh = let new = fresh.write_queue in ground arith

fresh-IsBounded : (p : Process) → IsFresh p → IsBounded p.server.store.cache
fresh-IsBounded p fresh =
    rw fresh.cache (record { queue = omega arith; id_set = omega arith; compacts = tt })

module _ (h : Host) where
  start_up-fresh :
      (p : Process)
      → IsFresh p
      → start_up h p ≡ set_links (init_gossip h.py h.cfg (links_of p)) (with_writer p)
  unfolding start_up links_of
  start_up-fresh p fresh =
      ap (λ p₁. set_links (init_gossip h.py h.cfg (links_of p₁)) p₁) (start_writer-fresh p fresh)

  ready-IsFit :
      (p : Process)
      → IsFresh p
      → IsFit h (set_links (init_gossip h.py h.cfg (links_of p)) (with_writer p)).server
  unfolding set_links
  ready-IsFit p fresh = record {
    cache = fresh-IsBounded p fresh;
    documents = omega arith;
    frames = subst (AllValues IsShort) (sym fresh.queues) tt;
    payloads =
        init_gossip-IsOwn h.cfg h.py (links_of p)
          (unfold links_of in (subst (AllValues (IsOwn h.cfg)) (sym fresh.peers) tt));
  }

  -- A fresh process that has started up has an empty queue of writes with the batch writer at it, one worker and one
  -- queue for each valid peer, which are all there; and whatever happens to the node from then on, what it
  -- holds in memory for others stays within its bounds.
  pub start_up-IsReady :
      (p : Process) {t : Server}
      → IsFresh p
      → Run h (start_up h p).server t
      → ((start_up h p).server.store.write_queue ≡ some [])
        × ((start_up h p).phase ≡ waiting)
        × IsLinked (links_of (start_up h p))
        × All (IsFound (links_of (start_up h p))) (get_valid_peers h.py h.cfg)
        × IsFit h t
  unfolding set_links
  start_up-IsReady p {t} fresh run =
      let l = init_gossip h.py h.cfg (links_of p) in
      let same : start_up h p ≡ set_links l (with_writer p) = start_up-fresh p fresh in
      let (linked, _, found, _) =
        init_gossip-IsLinked h.py h.cfg (links_of p) (fresh-IsLinked p fresh) in
      let fit : IsFit h (start_up h p).server = rw same (ready-IsFit p fresh) in
      (
        rw (same, set_links) refl,
        rw (same, set_links) refl,
        unfold links_of set_links in (rw same linked),
        unfold links_of set_links in (rw same found),
        Run-IsFit h fit run,
      )
