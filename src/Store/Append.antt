-- ===== src/Store/Append.antt =====
-- server/store.py: `append_message`.
use group_chat.Prelude.{
  ℕ, Bool, true, false, Option, none, some, List, [], ◌∷◌, ◌++◌, Str, codes, get, put, length, ltb,
  if◌then◌else◌,
}
use group_chat.Python.{Value, Fields, pos, int, str, ◌orelse◌, field_or, field_of}
use group_chat.Result.{Result, ok, raise}
use group_chat.Crypto.{Bytes, get_master_key, get_or_create_sender_keys}
use group_chat.Crypto.Messages.{encrypt_message, make_signable_payload, sign_message}
use group_chat.Host.{Host, Draw}
use group_chat.Store.Cache.Defs.{Cache, cache_put}
use group_chat.Store.Defs.{Doc, Store, insert_one}

-- What `append_message` returns.
pub record Ack : Type 0 where
  pub id : Value
  pub room : Value
  pub username : Str
  pub text : Str
  pub timestamp : Value
  pub verified : Bool
  pub duplicate : Bool

-- A method of text: on any other value it raises.
unfoldable pub as_text : Value → Result Str
as_text (str s) = ok s
as_text _ = raise

abbrev pub write_queue_size : ℕ
write_queue_size = 20000

-- `_write_queue.put_nowait(doc)`; a full queue raises, and the document is dropped
unfoldable pub offer_doc : Doc → List Doc → List Doc
offer_doc doc q = if ltb (length q) write_queue_size then q ++ doc ∷ [] else q

unfoldable pub enqueue_doc : Doc → Store → Store
unfolding offer_doc
enqueue_doc doc s = elim s.write_queue [
  | some q ↦ record s { write_queue = some (offer_doc doc q) }
  | none ↦ record s { db_writes = s.db_writes ++ insert_one doc ∷ [] }
]

module _ (h : Host) (d : Draw) where
  -- The key that signs: the given one, the cached one, or a new one.
  unfoldable pub signing_key : Option Bytes → Str → Store → Bytes × Store
  signing_key (some key) sender s = (key, s)
  signing_key none sender s = elim (get (h.py.lower sender) s.priv_keys) [
    | some priv ↦ (priv, s)
    | none ↦
        let ((priv, pub_key), kr) =
          get_or_create_sender_keys h.py h.cr h.disk d.key_bytes sender s.keyring in
        (
          priv,
          record s {
            keyring = kr;
            priv_keys = put (h.py.lower sender) priv s.priv_keys;
            user_keys = put (h.py.lower sender) pub_key s.user_keys;
          },
        )
  ]

  -- The document of a ciphertext, its nonce and the signed payload.
  unfoldable pub doc_of : Value → Value → Str → Str → Value → Bytes → Bytes → Bytes → Bytes → Doc
  unfolding sign_message
  doc_of msg_id room_id sender text timestamp priv ciphertext nonce payload = record {
    id = msg_id;
    room_id = room_id;
    sender = sender;
    text_plain = text;
    ciphertext = h.cr.to_hex ciphertext;
    nonce = h.cr.to_hex nonce;
    signature = h.cr.to_hex (sign_message h.cr priv payload);
    timestamp = timestamp;
  }

  -- The document: encrypted under the master key, and signed; `none` is an exception.
  unfoldable pub sealed : Value → Value → Str → Str → Value → Bytes → Bytes → Option Doc
  unfolding encrypt_message make_signable_payload doc_of
  sealed msg_id room_id sender text timestamp master priv =
      elim (encrypt_message h.cr master d.nonce text) [
        | none ↦ none
        | some (ciphertext, nonce) ↦
            elim (make_signable_payload h.py h.cr msg_id room_id sender timestamp nonce
              ciphertext) [
                | none ↦ none
                | some payload ↦
                    some (doc_of msg_id room_id sender text timestamp priv ciphertext nonce payload)
              ]
      ]

  unfoldable pub cached_msg : Value → Value → Str → Str → Value → Fields
  cached_msg msg_id room_id sender text timestamp = Fields.field "id" msg_id (
      Fields.field "username" (str sender) (
        Fields.field "client-name" (str sender) (
          Fields.field "text" (str text) (
            Fields.field "msg" (str text) (
              Fields.field "room" room_id (
                Fields.field "timestamp" timestamp (
                  Fields.field "verified" (Value.bool true)
                    (Fields.field "tampered" (Value.bool false) Fields.end))))))))

  abbrev pub ack_of : Value → Value → Str → Str → Value → Ack
  ack_of msg_id room_id sender text timestamp = record {
    id = msg_id;
    room = room_id;
    username = sender;
    text = text;
    timestamp = timestamp;
    verified = true;
    duplicate = false;
  }

  -- From the call of `_cache_put` on, with its result.
  unfoldable pub finish_append :
      Value → Value → Str → Str → Value → Doc → Store → Result Cache → Result Ack × Store
  unfolding enqueue_doc
  finish_append msg_id room_id sender text timestamp doc s raise = (raise, s)
  finish_append msg_id room_id sender text timestamp doc s (ok c) =
      (ok (ack_of msg_id room_id sender text timestamp), enqueue_doc doc (record s { cache = c }))

  -- From the encryption on, with the texts at hand.
  unfoldable pub append_text :
      Value → Value → Str → Str → Value → Bytes → Store → Result Ack × Store
  unfolding cached_msg finish_append sealed
  append_text msg_id room_id sender text timestamp priv s =
      let (master, kr) = get_master_key h.py h.cr h.disk d.key_bytes s.keyring in
      elim (sealed msg_id room_id sender text timestamp master priv) as (λ _. Result Ack × Store) [
        | none ↦ (raise, record s { keyring = kr })
        | some doc ↦
            finish_append msg_id room_id sender text timestamp doc (record s { keyring = kr })
              (cache_put h.py d.now room_id (cached_msg msg_id room_id sender text timestamp)
                s.cache)
      ]

  -- The body, with what `sender.lower()` and `plaintext.encode` make of the two texts.
  unfoldable pub append_parts :
      Value → Value → Value → Option Bytes → Result Str → Result Str → Store → Result Ack × Store
  unfolding signing_key append_text
  append_parts msg_id room_id timestamp key raise text s = (raise, s)
  append_parts msg_id room_id timestamp key (ok sender) raise s =
      let (priv, s') = signing_key key sender s in
      (raise, record s' { keyring = (get_master_key h.py h.cr h.disk d.key_bytes s'.keyring).1 })
  append_parts msg_id room_id timestamp key (ok sender) (ok text) s =
      let (priv, s') = signing_key key sender s in
      append_text msg_id room_id sender text timestamp priv s'

  -- `append_message`. The message always has an id. What was done before an exception stays done.
  unfoldable pub append_message : Value → Fields → Option Bytes → Store → Result Ack × Store
  unfolding as_text append_parts
  append_message room_id msg sender_private_key s =
      append_parts (field_of "id" msg) room_id (field_or (int (pos d.now)) "timestamp" msg)
        sender_private_key
        (as_text
          (field_of "username" msg orelse field_of "from" msg orelse str (codes "Anonymous")))
        (as_text (field_of "text" msg orelse field_or (str []) "msg" msg)) s
