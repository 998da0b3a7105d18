-- ===== src/Node/Durable.antt =====
-- The document of an accepted POST /message: the task that the request starts, run by the pool at any later
-- time, puts it into the batch writer's queue.
use group_chat.Prelude.{
  ℕ, ◌<◌, ◌≡◌, ◌∙◌, ap, true, none, some, List, [], ◌∷◌, ◌++◌, Str, codes, length, arith, take, get,
  option_intro,
}
use group_chat.App.Defs.{post_message, client_name, msg_text, request_id, request_time}
use group_chat.Config.{max_username_len, max_message_len}
use group_chat.Crypto.{Bytes, get_master_key}
use group_chat.Crypto.Messages.{
  CryptoLaws, encrypt_message-returns, make_signable_payload-returns, header, is_aes_key,
}
use group_chat.Crypto.Sizes.{IsSized, get_master_key-is_aes_key, get_or_create_sender_keys-IsSized}
use group_chat.Host.{Host, Draw}
use group_chat.Node.Accepted.{
  wire, message_of-wire, message_of, IsRequest, post_message-IsPublished, cache_put-message_of,
  kept_time, kept_time-int_of,
}
use group_chat.Node.Defs.{pick, run_one, run_task}
use group_chat.Python.{Value, Fields, Key, ℤ, int, str, truth, hash_of, field_or, ◌orelse◌, str_of}
use group_chat.Python.Text.{strip}
use group_chat.Result.{ok}
use group_chat.Server.Defs.{Task, Server}
use group_chat.Store.Append.{
  write_queue_size, signing_key, doc_of, sealed, ack_of, finish_append, append_text, append_parts,
  append_message, as_text, cached_msg,
}
use group_chat.Store.Cache.Defs.{Cache, cache_put}
use group_chat.Store.Defs.{Doc, Store}
use group_chat.Store.Sealed.{Queued, append_message-Queued}
use group_chat.Store.Visible.{cache_put-stored}

module _ (h : Host) (d : Draw) where
  -- The name that a document has: an empty one is replaced.
  abbrev pub signed_name : Str → Str
  signed_name [] = codes "Anonymous"
  signed_name (c ∷ u) = c ∷ u

  signing_key-IsSized :
      (sender : Str) (s : Store)
      → IsSized s.keyring
      → length d.key_bytes ≡ 32
      → IsSized (signing_key h d none sender s).1.keyring
  unfolding signing_key
  signing_key-IsSized sender s sized new =
      option_intro {B = Bytes × Store} (λ p. IsSized p.1.keyring)
        (get (h.py.lower sender) s.priv_keys)
        (λ _.
          get_or_create_sender_keys-IsSized h.py h.cr h.disk d.key_bytes sender s.keyring sized new)
        (λ _ _. sized)

  -- What has to be encoded of a message can be.
  pub record IsEncodable (i r : Value) (sender text : Str) (ts : Value) : Type 0 where
    pub body : h.cr.encodable text ≡ true
    pub start : h.cr.encodable (header h.py i r sender ts) ≡ true

  sealed-returns :
      (i r : Value) (sender text : Str) (ts : Value) (master priv : Bytes)
      → is_aes_key master ≡ true
      → IsEncodable i r sender text ts
      → (doc : Doc) × (sealed h d i r sender text ts master priv ≡ some doc)
  unfolding sealed
  sealed-returns i r sender text ts master priv size enc =
      let c = h.cr.encrypt master d.nonce (h.cr.encode text) in
      let start = h.cr.encode (header h.py i r sender ts) in
      (
        doc_of h d i r sender text ts priv c d.nonce (start ++ d.nonce ++ codes "|" ++ c),
        (let e = encrypt_message-returns h.cr master d.nonce text size enc.body in
            let p = make_signable_payload-returns h.py h.cr i r sender ts d.nonce c enc.start in
            ground arith),
      )

  append_text-sealed :
      (i r : Value) (sender text : Str) (ts : Value) (priv : Bytes) (s : Store) {doc : Doc}
      {c : Cache}
      → sealed h d i r sender text ts (get_master_key h.py h.cr h.disk d.key_bytes s.keyring).0 priv
        ≡ some doc
      → cache_put h.py d.now r (cached_msg h d i r sender text ts) s.cache ≡ ok c
      → (append_text h d i r sender text ts priv s).0 ≡ ok (ack_of h d i r sender text ts)
  unfolding append_text finish_append
  append_text-sealed i r sender text ts priv s made put_it = ground arith

  append_text-returns :
      (i : Value) (r : Str) (sender text : Str) (ts : ℤ) (priv : Bytes) (k : Key) (s : Store)
      → truth i ≡ true
      → hash_of i ≡ some k
      → IsSized s.keyring
      → length d.key_bytes ≡ 32
      → IsEncodable i (str r) sender text (int ts)
      → (append_text h d i (str r) sender text (int ts) priv s).0
        ≡ ok (ack_of h d i (str r) sender text (int ts))
  unfolding cached_msg field_or
  append_text-returns i r sender text ts priv k s named key sized new enc =
      let master = (get_master_key h.py h.cr h.disk d.key_bytes s.keyring).0 in
      let (doc, made) =
        sealed-returns i (str r) sender text (int ts) master priv
          (get_master_key-is_aes_key h.py h.cr h.disk d.key_bytes s.keyring sized new) enc in
      append_text-sealed i (str r) sender text (int ts) priv s made (
        cache_put-stored h d.now (str r) (cached_msg h d i (str r) sender text (int ts)) s.cache k
          (kept_time h d d.now ts) named (kept_time-int_of h d d.now ts) key)

  append_message-returns :
      (i : Value) (u t r : Str) (ts : ℤ) (k : Key) (s : Store)
      → truth i ≡ true
      → hash_of i ≡ some k
      → IsSized s.keyring
      → length d.key_bytes ≡ 32
      → IsEncodable i (str r) (signed_name u) t (int ts)
      → (append_message h d (str r) (wire i u t r ts) none s).0
        ≡ ok (ack_of h d i (str r) (signed_name u) t (int ts))
  unfolding append_message append_parts field_or truth ◌orelse◌ as_text
  append_message-returns i [] [] r ts k s named key sized new enc =
      append_text-returns i r (codes "Anonymous") [] ts _ k _ named key
        (signing_key-IsSized (codes "Anonymous") s sized new) new enc
  append_message-returns i [] (c ∷ t) r ts k s named key sized new enc =
      append_text-returns i r (codes "Anonymous") (c ∷ t) ts _ k _ named key
        (signing_key-IsSized (codes "Anonymous") s sized new) new enc
  append_message-returns i (b ∷ u) [] r ts k s named key sized new enc =
      append_text-returns i r (b ∷ u) [] ts _ k _ named key
        (signing_key-IsSized (b ∷ u) s sized new) new enc
  append_message-returns i (b ∷ u) (c ∷ t) r ts k s named key sized new enc =
      append_text-returns i r (b ∷ u) (c ∷ t) ts _ k _ named key
        (signing_key-IsSized (b ∷ u) s sized new) new enc

  pub run_one-picked :
      (n : ℕ) (room : Value) (msg : Fields) (rest : List Task) (s : Server)
      → pick n s.tasks ≡ some (Task.append room msg none, rest)
      → (run_one h d n s).store ≡ (append_message h d room msg none s.store).1
  unfolding run_one run_task
  run_one-picked n room msg rest s e = ground arith

  -- What the pool's run of an append task does to a queue that has room.
  run_one-Queued :
      (laws : CryptoLaws h.cr) (n : ℕ) (i : Value) (u t r : Str) (ts : ℤ) (k : Key)
      (rest : List Task) (q : List Doc) (s : Server)
      → truth i ≡ true
      → hash_of i ≡ some k
      → pick n s.tasks ≡ some (Task.append (str r) (wire i u t r ts) none, rest)
      → s.store.write_queue ≡ some q
      → length q < write_queue_size
      → IsSized s.store.keyring
      → length d.key_bytes ≡ 32
      → IsEncodable i (str r) (signed_name u) t (int ts)
      → Queued h d laws
          (signing_key h d none (signed_name u) s.store).0
          q
          (ack_of h d i (str r) (signed_name u) t (int ts))
          (run_one h d n s).store
  run_one-Queued laws n i u t r ts k rest q s named key picked queue room sized fresh enc =
      let returned = append_message-returns i u t r ts k s.store named key sized fresh enc in
      rw (run_one-picked n (str r) (wire i u t r ts) rest s picked) (
        append_message-Queued h d laws (str r) (wire i u t r ts) none s.store q queue room
          (ap (λ a. (a, (append_message h d (str r) (wire i u t r ts) none s.store).1)) returned))

-- A POST /message with a text, and with a room and an id that are not empty, starts a task, behind
-- those that were started before. Whenever the pool runs this task, on whatever node state the
-- steps in between have left, and under the documented laws of the encryption, the signatures and
-- the codec: if the batch writer's queue has room, the master key, if it is loaded, and a new one have
-- 32 bytes, and the text and the payload's header (the id, room, name and time) can be encoded, which
-- a lone surrogate cannot, exactly one document is put behind those in the queue. It has the id, room, time and text of the request and its name, or "Anonymous" where that
-- is empty; its ciphertext decrypts to the text and its signature is valid under the public key of
-- the key that signed.
pub post_message-Queued :
    (h : Host) (laws : CryptoLaws h.cr) (d d' : Draw) (body query : Fields) (r : Str) (k : Key)
    (s s' : Server) (n : ℕ) (rest : List Task) (q : List Doc)
    → IsRequest h d body query r k
    → pick n s'.tasks ≡ some (Task.append (str r) (message_of h d body query) none, rest)
    → s'.store.write_queue ≡ some q
    → length q < write_queue_size
    → IsSized s'.store.keyring
    → length d'.key_bytes ≡ 32
    → IsEncodable h d'
        (request_id h d body query)
        (str r)
        (signed_name h d'
          (take max_username_len (strip h.py.is_space (str_of h.py (client_name h body query)))))
        (take max_message_len (strip h.py.is_space (str_of h.py (msg_text h body query))))
        (int (request_time h d body query))
    → ((post_message h d body query s).1.tasks
        ≡ s.tasks ++ Task.append (str r) (message_of h d body query) none ∷ [])
      × Queued h d' laws
          (signing_key h d' none
            (signed_name h d' (
              take max_username_len (strip h.py.is_space (str_of h.py (client_name h body query)))))
            s'.store).0
          q
          (ack_of h d'
            (request_id h d body query)
            (str r)
            (signed_name h d' (
              take max_username_len (strip h.py.is_space (str_of h.py (client_name h body query)))))
            (take max_message_len (strip h.py.is_space (str_of h.py (msg_text h body query))))
            (int (request_time h d body query)))
          (run_one h d' n s').store
post_message-Queued h laws d d' body query r k s s' n rest q request picked queue room sized fresh
      enc =
    let put_it = cache_put-message_of h d body query r k s.store.cache request in
    let published = (post_message-IsPublished h d body query r k s request put_it).1 in
    let same = message_of-wire h d body query r k request in
    (
      published.tasks,
      run_one-Queued h d' laws n (request_id h d body query) _ _ r (request_time h d body query) k
          rest q s' request.named request.key
          (picked ∙ ap (λ msg. some (Task.append (str r) msg none, rest)) same) queue room sized
          fresh enc,
    )
