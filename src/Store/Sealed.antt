-- ===== src/Store/Sealed.antt =====
-- Every stored document can be read back and verified.
use mathlib.Core.Path.{subst, subst₂}
use group_chat.Prelude.{
  Option-cases, inl, inr, none, ap, ◌<◌, ◌≡◌, ◌∙◌, refl, sym, true, Option, some, List, [], ◌∷◌,
  ◌++◌, Str, length, arith,
}
use group_chat.Python.{Value, Fields}
use group_chat.Result.{Result, ok, raise, ok_path}
use group_chat.Crypto.{Bytes, get_master_key}
use group_chat.Crypto.Messages.{
  CryptoLaws, decrypt_message, encrypt_message, make_signable_payload, sign_message,
  verify_signature, decrypt_message-encrypt_message, get_master_key-loaded,
}
use group_chat.Host.{Host, Draw}
use group_chat.Store.Append.{
  Ack, write_queue_size, offer_doc, signing_key, doc_of, sealed, cached_msg, ack_of, finish_append,
  append_text, append_parts, append_message,
}
use group_chat.Store.Cache.Defs.{Cache, cache_put}
use group_chat.Store.Defs.{Doc, Store}

-- The document holds the acknowledged message: its fields are those of the acknowledgement, its
-- ciphertext decrypts under the master key to the text, and its signature is valid for the payload
-- made of its fields, under the public key of `priv`.
pub record Holds (h : Host) (master priv : Bytes) (ack : Ack) (doc : Doc) : Type 0 where
  pub ids : (doc.id ≡ ack.id) × (doc.room_id ≡ ack.room)
  pub names : (doc.sender ≡ ack.username) × (doc.text_plain ≡ ack.text)
  pub times : doc.timestamp ≡ ack.timestamp
  pub ciphertext : Bytes
  pub nonce : Bytes
  pub signature : Bytes
  pub in_hex :
      (h.cr.from_hex doc.ciphertext ≡ some ciphertext)
      × (h.cr.from_hex doc.nonce ≡ some nonce)
      × (h.cr.from_hex doc.signature ≡ some signature)
  pub readable : decrypt_message h.cr master ciphertext nonce ≡ some ack.text
  pub payload : Bytes
  pub made :
      make_signable_payload h.py h.cr ack.id ack.room ack.username ack.timestamp nonce ciphertext
      ≡ some payload
  pub signed : verify_signature h.cr (h.cr.public_of priv) signature payload ≡ true

module _ (h : Host) (d : Draw) (laws : CryptoLaws h.cr) where
  doc_of-Holds :
      (i r : Value) (sender text : Str) (ts : Value) (master priv ciphertext nonce payload : Bytes)
      → encrypt_message h.cr master d.nonce text ≡ some (ciphertext, nonce)
      → make_signable_payload h.py h.cr i r sender ts nonce ciphertext ≡ some payload
      → Holds h master priv
          (ack_of h d i r sender text ts)
          (doc_of h d i r sender text ts priv ciphertext nonce payload)
  unfolding doc_of verify_signature sign_message
  doc_of-Holds i r sender text ts master priv ciphertext nonce payload sealed' made = record {
    ids = (refl, refl);
    names = (refl, refl);
    times = refl;
    ciphertext = ciphertext;
    nonce = nonce;
    signature = _;
    in_hex = (laws.from_hex-to_hex _, laws.from_hex-to_hex _, laws.from_hex-to_hex _);
    readable = decrypt_message-encrypt_message h.cr master d.nonce text laws sealed';
    payload = payload;
    made = made;
    signed = laws.verify-sign priv _;
  }

  sealed-Holds :
      (i r : Value) (sender text : Str) (ts : Value) (master priv : Bytes) {doc : Doc}
      → sealed h d i r sender text ts master priv ≡ some doc
      → Holds h master priv (ack_of h d i r sender text ts) doc
  unfolding sealed
  sealed-Holds i r sender text ts master priv {doc} e =
      elim (Option-cases (encrypt_message h.cr master d.nonce text)) [
        | inl p ↦ absurd (ground arith)
        | inr ((ciphertext, nonce), p) ↦
            elim (Option-cases (make_signable_payload h.py h.cr i r sender ts nonce ciphertext)) [
              | inl q ↦ absurd (ground arith)
              | inr (payload, q) ↦
                  let same : doc_of h d i r sender text ts priv ciphertext nonce payload ≡ doc =
                    ground arith in
                  subst (λ x. Holds h master priv (ack_of h d i r sender text ts) x) same
                    (doc_of-Holds i r sender text ts master priv ciphertext nonce payload p q)
            ]
      ]

  write_queue-signing_key :
      (key : Option Bytes) (sender : Str) (s : Store)
      → (signing_key h d key sender s).1.write_queue ≡ s.write_queue
  unfolding signing_key
  write_queue-signing_key key sender s = ground arith

  -- The queue has one document more, and it holds the acknowledged message.
  abbrev pub Queued : Bytes → List Doc → Ack → Store → Type 0
  Queued priv q ack s =
      (master : Bytes) × (doc : Doc) × (s.keyring.master ≡ some master)
      × (s.write_queue ≡ some (q ++ doc ∷ []))
      × Holds h master priv ack doc

  finish_append-Queued :
      (i r : Value) (sender text : Str) (ts : Value) (master priv : Bytes) (doc : Doc) (s : Store)
      (c : Result Cache) (q : List Doc) {ack : Ack} {s' : Store}
      → sealed h d i r sender text ts master priv ≡ some doc
      → s.keyring.master ≡ some master
      → s.write_queue ≡ some q
      → length q < write_queue_size
      → finish_append h d i r sender text ts doc s c ≡ (ok ack, s')
      → (ack.username ≡ sender) × Queued priv q ack s'
  unfolding finish_append offer_doc
  finish_append-Queued i r sender text ts master priv doc s raise q hd hm hq room e =
      cc (ap (λ p. p.0) e)
  finish_append-Queued i r sender text ts master priv doc s (ok c) q hd hm hq room e =
      subst₂ (λ a t. (a.username ≡ sender) × Queued priv q a t) (ok_path (ap (λ p. p.0) e))
        (ap (λ p. p.1) e)
        (
          refl,
          (master, doc, ground arith, ground arith, sealed-Holds i r sender text ts master priv hd),
        )

  append_text-Queued :
      (i r : Value) (sender text : Str) (ts : Value) (priv : Bytes) (s : Store) (q : List Doc)
      {ack : Ack} {s' : Store}
      → s.write_queue ≡ some q
      → length q < write_queue_size
      → append_text h d i r sender text ts priv s ≡ (ok ack, s')
      → (ack.username ≡ sender) × Queued priv q ack s'
  unfolding append_text
  append_text-Queued i r sender text ts priv s q {ack} {s'} hq room e = go _ refl e
    where
      master : Bytes
      master = (get_master_key h.py h.cr h.disk d.key_bytes s.keyring).0

      s₁ : Store
      s₁ = record s { keyring = (get_master_key h.py h.cr h.disk d.key_bytes s.keyring).1 }

      put_it : Result Cache
      put_it = cache_put h.py d.now r (cached_msg h d i r sender text ts) s.cache

      go :
          (o : Option Doc)
          → sealed h d i r sender text ts master priv ≡ o
          → elim o as (λ _. Result Ack × Store) [
            | none ↦ (raise, s₁)
            | some doc ↦ finish_append h d i r sender text ts doc s₁ put_it
          ]
            ≡ (ok ack, s')
          → (ack.username ≡ sender) × Queued priv q ack s'
      go none p failed = cc (ap (λ x. x.0) failed)
      go (some doc) p done =
          finish_append-Queued i r sender text ts master priv doc s₁ put_it q p
            (get_master_key-loaded h.py h.cr h.disk d.key_bytes s.keyring) hq room done

  append_parts-Queued :
      (i r ts : Value) (key : Option Bytes) (sender text : Result Str) (s : Store) (q : List Doc)
      {ack : Ack} {s' : Store}
      → s.write_queue ≡ some q
      → length q < write_queue_size
      → append_parts h d i r ts key sender text s ≡ (ok ack, s')
      → Queued (signing_key h d key ack.username s).0 q ack s'
  unfolding append_parts
  append_parts-Queued i r ts key raise text s q hq room e = cc (ap (λ p. p.0) e)
  append_parts-Queued i r ts key (ok sender) raise s q hq room e = cc (ap (λ p. p.0) e)
  append_parts-Queued i r ts key (ok sender) (ok text) s q {ack} {s'} hq room e =
      let (named, queued) =
        append_text-Queued i r sender text ts _ _ q (write_queue-signing_key key sender s ∙ hq) room
          e in
      subst (λ u. Queued (signing_key h d key u s).0 q ack s') (sym named) queued

  -- Under the documented laws of the encryption, the signatures and the hexadecimal codec:
  -- whatever message it is given, and with a key or without one, an `append_message` that returns
  -- while the batch writer's queue has room puts exactly one document behind the queued ones. The
  -- document has the acknowledged fields, its ciphertext decrypts under the node's master key to the
  -- acknowledged text, and its signature is valid under the public key of the signing key.
  pub append_message-Queued :
      (room : Value) (msg : Fields) (key : Option Bytes) (s : Store) (q : List Doc) {ack : Ack}
      {s' : Store}
      → s.write_queue ≡ some q
      → length q < write_queue_size
      → append_message h d room msg key s ≡ (ok ack, s')
      → Queued (signing_key h d key ack.username s).0 q ack s'
  unfolding append_message
  append_message-Queued room msg key s q hq space e =
      append_parts-Queued _ room _ key _ _ s q hq space e
