-- ===== src/Node/Unstored.antt =====
-- An accepted POST /message whose text cannot be encoded: what the pool's run of its task leaves.
use group_chat.Prelude.{ℕ, ◌≡◌, ◌∙◌, false, none, some, List, [], ◌∷◌, Str, codes, take, arith}
use group_chat.App.Defs.{accepted, answer, post_message, msg_text, request_id, request_time}
use group_chat.Config.{max_message_len}
use group_chat.Crypto.{Bytes, get_master_key}
use group_chat.Crypto.Messages.{encrypt_message-raises}
use group_chat.Host.{Host, Draw}
use group_chat.Node.Accepted.{
  wire, message_of-wire, message_of, kept, IsRequest, post_message-IsPublished,
  cache_put-message_of,
}
use group_chat.Node.Defs.{pick, run_one}
use group_chat.Node.Durable.{run_one-picked}
use group_chat.Python.{Value, Fields, Key, ℤ, int, str, truth, field_or, ◌orelse◌, str_of}
use group_chat.Python.Text.{strip}
use group_chat.Result.{raise}
use group_chat.Server.Defs.{Task, Server}
use group_chat.Store.Append.{
  signing_key, sealed, append_text, append_parts, append_message, as_text,
}
use group_chat.Store.Cache.Defs.{insert}
use group_chat.Store.Defs.{Store}

-- Nothing is written, queued or cached.
pub record IsUnstored (s t : Store) : Type 0 where
  pub write_queue : t.write_queue ≡ s.write_queue
  pub db_writes : t.db_writes ≡ s.db_writes
  pub cache : t.cache ≡ s.cache

module _ (h : Host) (d : Draw) where
  sealed-raises :
      (i r : Value) (sender text : Str) (ts : Value) (master priv : Bytes)
      → h.cr.encodable text ≡ false
      → sealed h d i r sender text ts master priv ≡ none
  unfolding sealed
  sealed-raises i r sender text ts master priv bad =
      let failed = encrypt_message-raises h.cr master d.nonce text bad in ground arith

  signing_key-IsUnstored :
      (sender : Str) (s : Store) → IsUnstored s (signing_key h d none sender s).1
  unfolding signing_key
  signing_key-IsUnstored sender s = record {
    write_queue = ground arith;
    db_writes = ground arith;
    cache = ground arith;
  }

  append_text-IsUnstored :
      (i r : Value) (sender text : Str) (ts : Value) (priv : Bytes) (s : Store)
      → h.cr.encodable text ≡ false
      → ((append_text h d i r sender text ts priv s).0 ≡ raise)
        × IsUnstored s (append_text h d i r sender text ts priv s).1
  unfolding append_text
  append_text-IsUnstored i r sender text ts priv s bad =
      let failed =
        sealed-raises i r sender text ts (get_master_key h.py h.cr h.disk d.key_bytes s.keyring).0
          priv bad in
      (
        ground arith,
        record { write_queue = ground arith; db_writes = ground arith; cache = ground arith },
      )

  signed_text :
      (i r : Value) (sender text : Str) (ts : Value) (s : Store)
      → h.cr.encodable text ≡ false
      → IsUnstored s
          (append_text h d i r sender text ts
            (signing_key h d none sender s).0
            (signing_key h d none sender s).1).1
  signed_text i r sender text ts s bad =
      let before = signing_key-IsUnstored sender s in
      let (_, after) = append_text-IsUnstored i r sender text ts _ _ bad in
      record {
        write_queue = after.write_queue ∙ before.write_queue;
        db_writes = after.db_writes ∙ before.db_writes;
        cache = after.cache ∙ before.cache;
      }

  append_message-IsUnstored :
      (i : Value) (u t r : Str) (ts : ℤ) (s : Store)
      → h.cr.encodable t ≡ false
      → IsUnstored s (append_message h d (str r) (wire i u t r ts) none s).1
  unfolding append_message append_parts field_or truth ◌orelse◌ as_text
  append_message-IsUnstored i [] [] r ts s bad =
      signed_text i (str r) (codes "Anonymous") [] (int ts) s bad
  append_message-IsUnstored i [] (c ∷ t) r ts s bad =
      signed_text i (str r) (codes "Anonymous") (c ∷ t) (int ts) s bad
  append_message-IsUnstored i (b ∷ u) [] r ts s bad =
      signed_text i (str r) (b ∷ u) [] (int ts) s bad
  append_message-IsUnstored i (b ∷ u) (c ∷ t) r ts s bad =
      signed_text i (str r) (b ∷ u) (c ∷ t) (int ts) s bad

-- For a POST /message with a text, a room and an id that are not empty, whose text cannot be encoded, as one
-- with a lone surrogate cannot, the handler returns the answer of an accepted message and has cached it. But
-- whenever the pool runs the task of this message, nothing is put into the batch writer's queue, asked of
-- the database or cached.
pub post_message-IsUnstored :
    (h : Host) (d d' : Draw) (body query : Fields) (r : Str) (k : Key) (s s' : Server) (n : ℕ)
    (rest : List Task)
    → IsRequest h d body query r k
    → h.cr.encodable
        (take max_message_len (strip h.py.is_space (str_of h.py (msg_text h body query))))
      ≡ false
    → pick n s'.tasks ≡ some (Task.append (str r) (message_of h d body query) none, rest)
    → ((post_message h d body query s).0 ≡ accepted (answer h (message_of h d body query)))
      × ((post_message h d body query s).1.store.cache
          ≡ insert k (kept h d body query r) s.store.cache)
      × IsUnstored s'.store (run_one h d' n s').store
post_message-IsUnstored h d d' body query r k s s' n rest request bad picked =
    let put_it = cache_put-message_of h d body query r k s.store.cache request in
    let (answer', published) = post_message-IsPublished h d body query r k s request put_it in
    let same = message_of-wire h d body query r k request in
    (
      answer',
      published.cache,
      rw (run_one-picked h d' n (str r) (message_of h d body query) rest s' picked, same)
          (append_message-IsUnstored h d' (request_id h d body query) _ _ r
            (request_time h d body query) s'.store bad),
    )
