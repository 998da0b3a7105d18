-- ===== src/Crypto/Messages.antt =====
-- server/crypto.py: encryption of a text and the signed payload.
use group_chat.Prelude.{
  ◌∙◌, refl, ap, length, ◌==◌, if◌then◌else◌, ◌≡◌, Bool, true, false, Option, none, some, ◌++◌, Str,
  codes, arith, ◌||◌, Bool-cases, inl, inr,
}
use group_chat.Python.{Python, Value, str_of}
use group_chat.Crypto.{Bytes, Crypto, Disk, Keyring, get_master_key}

-- `s.encode('utf-8')`; `none` is a `UnicodeEncodeError`.
utf8 : Crypto → Str → Option Bytes
utf8 cr s = if cr.encodable s then some (cr.encode s) else none

-- Whether `AESGCM(key)` takes the key: on one of another size it raises.
unfoldable pub is_aes_key : Bytes → Bool
is_aes_key key = length key == 16 || length key == 24 || length key == 32

-- `encrypt_message` and `decrypt_message`, with the key given; `none` is an exception.
unfoldable pub encrypt_message : Crypto → Bytes → Bytes → Str → Option (Bytes × Bytes)
unfolding is_aes_key utf8
encrypt_message cr key nonce plaintext =
    if is_aes_key key
    then elim (utf8 cr plaintext) [
      | none ↦ none
      | some plain ↦ some (cr.encrypt key nonce plain, nonce)
    ]
    else none

pub decrypt_message : Crypto → Bytes → Bytes → Bytes → Option Str
unfolding is_aes_key
decrypt_message cr key ciphertext nonce =
    if is_aes_key key
    then elim (cr.decrypt key nonce ciphertext) [ none ↦ none | some plain ↦ cr.decode plain ]
    else none

-- The key of a call: the given one, or the master key.
unfoldable pub key_or_master :
    Python → Crypto → Disk → Bytes → Option Bytes → Keyring → Bytes × Keyring
key_or_master py cr disk random none kr = get_master_key py cr disk random kr
key_or_master py cr disk random (some key) kr = (key, kr)

-- `encrypt_bytes` and `decrypt_bytes`, with the random bytes that a new master key would be; `none` is
-- an exception.
pub encrypt_bytes :
    Python
    → Crypto
    → Disk
    → Bytes
    → Bytes
    → Bytes
    → Option Bytes
    → Keyring
    → Option (Bytes × Bytes) × Keyring
unfolding key_or_master is_aes_key
encrypt_bytes py cr disk random nonce plaintext key kr =
    let (k, kr') = key_or_master py cr disk random key kr in
    (if is_aes_key k then some (cr.encrypt k nonce plaintext, nonce) else none, kr')

decrypt_bytes :
    Python → Crypto → Disk → Bytes → Bytes → Bytes → Option Bytes → Keyring → Option Bytes × Keyring
unfolding key_or_master is_aes_key
decrypt_bytes py cr disk random ciphertext nonce key kr =
    let (k, kr') = key_or_master py cr disk random key kr in
    (if is_aes_key k then cr.decrypt k nonce ciphertext else none, kr')

-- `load_private_key_from_bytes`, which raises unless it is given 32 bytes
load_private_key_from_bytes : Bytes → Option Bytes
load_private_key_from_bytes raw_private =
    if length raw_private == 32 then some raw_private else none

-- What `_to_bytes` and `_to_hex` of server/store.py are given: bytes, or a text.
pub data Stored : Type 0 where
  of_bytes : Bytes → Stored
  of_text : Str → Stored

-- `_to_bytes`: a text that is not hexadecimal stands for itself; `none` is an exception.
unfoldable pub to_bytes : Crypto → Stored → Option Bytes
unfolding utf8
to_bytes cr (of_bytes b) = some b
to_bytes cr (of_text s) = elim (cr.from_hex s) [ none ↦ utf8 cr s | some b ↦ some b ]

-- `_to_hex`
unfoldable pub to_hex_text : Crypto → Stored → Str
to_hex_text cr (of_bytes b) = cr.to_hex b
to_hex_text cr (of_text s) = s

-- The text in front of the payload; the values stand as `str` writes them.
unfoldable pub header : Python → Value → Value → Str → Value → Str
header py msg_id room_id sender timestamp =
    str_of py msg_id
    ++ codes "|"
    ++ str_of py room_id
    ++ codes "|"
    ++ sender
    ++ codes "|"
    ++ str_of py timestamp
    ++ codes "|"

-- `make_signable_payload`; `none` is an exception.
unfoldable pub make_signable_payload :
    Python → Crypto → Value → Value → Str → Value → Bytes → Bytes → Option Bytes
unfolding utf8
make_signable_payload py cr msg_id room_id sender timestamp nonce ciphertext =
    elim (utf8 cr (header py msg_id room_id sender timestamp)) [
      | none ↦ none
      | some start ↦ some (start ++ nonce ++ codes "|" ++ ciphertext)
    ]

-- `sign_message`, `verify_signature`
unfoldable pub sign_message : Crypto → Bytes → Bytes → Bytes
sign_message cr private_key payload = cr.sign private_key payload

unfoldable pub verify_signature : Crypto → Bytes → Bytes → Bytes → Bool
verify_signature cr public_key signature payload = cr.verify public_key signature payload

-- What the libraries document of their primitives.
pub record CryptoLaws (cr : Crypto) : Type 0 where
  pub decode-encode : (s : Str) → cr.encodable s ≡ true → cr.decode (cr.encode s) ≡ some s
  pub from_hex-to_hex : (b : Bytes) → cr.from_hex (cr.to_hex b) ≡ some b
  pub decrypt-encrypt :
      (key nonce data' : Bytes)
      → is_aes_key key ≡ true
      → cr.decrypt key nonce (cr.encrypt key nonce data') ≡ some data'
  pub verify-sign :
      (key payload : Bytes) → cr.verify (cr.public_of key) (cr.sign key payload) payload ≡ true

pub decrypt_message-encrypt_message :
    (cr : Crypto) (key nonce : Bytes) (text : Str) {ciphertext n : Bytes}
    → CryptoLaws cr
    → encrypt_message cr key nonce text ≡ some (ciphertext, n)
    → decrypt_message cr key ciphertext n ≡ some text
unfolding decrypt_message encrypt_message utf8
decrypt_message-encrypt_message cr key nonce text laws e = elim (Bool-cases (is_aes_key key)) [
  | inr bad ↦ absurd (ground arith)
  | inl size ↦ elim (Bool-cases (cr.encodable text)) [
    | inr bad ↦ absurd (ground arith)
    | inl there ↦
        let back = laws.decrypt-encrypt key nonce (cr.encode text) size in
        let read = laws.decode-encode text there in ground arith
  ]
]

pub encrypt_message-returns :
    (cr : Crypto) (key nonce : Bytes) (text : Str)
    → is_aes_key key ≡ true
    → cr.encodable text ≡ true
    → encrypt_message cr key nonce text ≡ some (cr.encrypt key nonce (cr.encode text), nonce)
unfolding encrypt_message utf8
encrypt_message-returns cr key nonce text size there = ground arith

pub encrypt_message-raises :
    (cr : Crypto) (key nonce : Bytes) (text : Str)
    → cr.encodable text ≡ false
    → encrypt_message cr key nonce text ≡ none
unfolding encrypt_message utf8
encrypt_message-raises cr key nonce text bad = ground arith

pub make_signable_payload-returns :
    (py : Python) (cr : Crypto) (i r : Value) (sender : Str) (ts : Value) (nonce ciphertext : Bytes)
    → cr.encodable (header py i r sender ts) ≡ true
    → make_signable_payload py cr i r sender ts nonce ciphertext
      ≡ some (cr.encode (header py i r sender ts) ++ nonce ++ codes "|" ++ ciphertext)
unfolding make_signable_payload utf8
make_signable_payload-returns py cr i r sender ts nonce ciphertext there = ground arith

pub get_master_key-loaded :
    (py : Python) (cr : Crypto) (disk : Disk) (random : Bytes) (kr : Keyring)
    → (get_master_key py cr disk random kr).1.master ≡ some (get_master_key py cr disk random kr).0
unfolding get_master_key
get_master_key-loaded py cr disk random kr = ground arith

-- A master key that is loaded stays the master key.
get_master_key-again :
    (py : Python) (cr : Crypto) (disk : Disk) (random : Bytes) (kr : Keyring) {key : Bytes}
    → kr.master ≡ some key
    → get_master_key py cr disk random kr ≡ (key, kr)
unfolding get_master_key
get_master_key-again py cr disk random kr loaded = ground arith

-- The key of a second call, on what the first one left, is that of the first.
key_or_master-again :
    (py : Python) (cr : Crypto) (disk : Disk) (random random' : Bytes) (key : Option Bytes)
    (kr : Keyring)
    → (key_or_master py cr disk random' key (key_or_master py cr disk random key kr).1).0
      ≡ (key_or_master py cr disk random key kr).0
unfolding key_or_master
key_or_master-again py cr disk random random' (some key) kr = refl
key_or_master-again py cr disk random random' none kr =
    ap (λ p. p.0)
      (get_master_key-again py cr disk random' (get_master_key py cr disk random kr).1
        (get_master_key-loaded py cr disk random kr))

-- Bytes that are held as a hexadecimal text.
abbrev held : Crypto → Bytes → Option Bytes
held cr b = to_bytes cr (of_text (to_hex_text cr (of_bytes b)))

held-same : (cr : Crypto) (b : Bytes) → CryptoLaws cr → held cr b ≡ some b
unfolding to_bytes to_hex_text
held-same cr b laws = let back = laws.from_hex-to_hex b in ground arith

-- What comes back of a private key from what an `encrypt_bytes` returned and left: its two results as
-- hexadecimal texts, turned into bytes, decrypted and loaded.
pub loaded_back :
    Python → Crypto → Disk → Bytes → Option Bytes → Option (Bytes × Bytes) × Keyring → Option Bytes
unfolding decrypt_bytes load_private_key_from_bytes
loaded_back py cr disk random key (none, kr) = none
loaded_back py cr disk random key (some (ciphertext, n), kr) = elim (held cr ciphertext) [
  | none ↦ none
  | some c ↦ elim (held cr n) [
    | none ↦ none
    | some nonce ↦ elim (decrypt_bytes py cr disk random c nonce key kr).0 [
      | none ↦ none
      | some b ↦ load_private_key_from_bytes b
    ]
  ]
]

encrypt_bytes-returns :
    (py : Python) (cr : Crypto) (disk : Disk) (random nonce plaintext : Bytes) (key : Option Bytes)
    (kr : Keyring)
    → is_aes_key (key_or_master py cr disk random key kr).0 ≡ true
    → encrypt_bytes py cr disk random nonce plaintext key kr ≡ (
      some (cr.encrypt (key_or_master py cr disk random key kr).0 nonce plaintext, nonce),
      (key_or_master py cr disk random key kr).1,
    )
unfolding encrypt_bytes
encrypt_bytes-returns py cr disk random nonce plaintext key kr size = rw size refl

decrypt_bytes-again :
    (py : Python) (cr : Crypto) (disk : Disk) (random random' nonce plaintext : Bytes)
    (key : Option Bytes) (kr : Keyring)
    → CryptoLaws cr
    → is_aes_key (key_or_master py cr disk random key kr).0 ≡ true
    → (decrypt_bytes py cr disk random'
        (cr.encrypt (key_or_master py cr disk random key kr).0 nonce plaintext)
        nonce
        key
        (key_or_master py cr disk random key kr).1).0
      ≡ some plaintext
unfolding decrypt_bytes
decrypt_bytes-again py cr disk random random' nonce plaintext key kr laws size =
    let k = (key_or_master py cr disk random key kr).0 in
    ap (λ k'. if is_aes_key k' then cr.decrypt k' nonce (cr.encrypt k nonce plaintext) else none)
      (key_or_master-again py cr disk random random' key kr)
    ∙ rw size (laws.decrypt-encrypt k nonce plaintext size)

load_private_key-sized :
    (key : Bytes) → length key ≡ 32 → load_private_key_from_bytes key ≡ some key
unfolding load_private_key_from_bytes
load_private_key-sized key size = ground arith

-- A private key of 32 bytes, encrypted under a key of 16, 24 or 32 bytes, given or the master key, and
-- held as hexadecimal texts, is what comes back when the texts are turned into bytes, decrypted and loaded,
-- whatever the random bytes of the two calls are: no call raises, and the second call uses the key that
-- the first one made.
pub load_private_key-encrypt_bytes :
    (py : Python) (cr : Crypto) (disk : Disk) (random random' nonce private_key : Bytes)
    (key : Option Bytes) (kr : Keyring)
    → CryptoLaws cr
    → is_aes_key (key_or_master py cr disk random key kr).0 ≡ true
    → length private_key ≡ 32
    → loaded_back py cr disk random' key (encrypt_bytes py cr disk random nonce private_key key kr)
      ≡ some private_key
unfolding loaded_back
load_private_key-encrypt_bytes py cr disk random random' nonce private_key key kr laws size long =
    let k = (key_or_master py cr disk random key kr).0 in
    rw
      (
        encrypt_bytes-returns py cr disk random nonce private_key key kr size,
        loaded_back,
        held-same cr (cr.encrypt k nonce private_key) laws,
        held-same cr nonce laws,
        decrypt_bytes-again py cr disk random random' nonce private_key key kr laws size,
      )
      (load_private_key-sized private_key long)
