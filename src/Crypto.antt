-- ===== src/Crypto.antt =====
-- server/crypto.py: the master key, the senders' keys, encryption and signatures. The primitives are
-- the parameters of `Crypto`; random bytes and what the disk holds are arguments.
pub mod Keys
pub mod Messages
pub mod Sizes
use group_chat.Prelude.{
  ℕ, ◌+◌, ◌==◌, ltb, Bool, true, false, ◌||◌, Option, none, some, List, [], ◌∷◌, ◌++◌, Str, codes,
  Dict, get, put, length, if◌then◌else◌,
}
use group_chat.Python.{Python}
use group_chat.Python.Text.{strip}

-- Bytes are numbers. A private key is its 32 raw bytes.
abbrev pub Bytes : Type 0
Bytes = List ℕ

-- What the `cryptography`, `hmac` and `bytes` libraries give.
pub record Crypto : Type 0 where
  -- whether `s.encode('utf-8')` returns (it raises on a lone surrogate), and what it returns then
  pub encodable : Str → Bool
  pub encode : Str → Bytes
  -- `b.decode('utf-8')`, which may raise
  pub decode : Bytes → Option Str
  -- `b.hex()`, and `bytes.fromhex(s)`, which may raise
  pub to_hex : Bytes → Str
  pub from_hex : Str → Option Bytes
  -- `AESGCM(key).encrypt(nonce, data, None)` for a key of a size that AES has, and `decrypt`, which may
  -- raise
  pub encrypt : Bytes → Bytes → Bytes → Bytes
  pub decrypt : Bytes → Bytes → Bytes → Option Bytes
  -- `hmac.digest(key, msg, 'sha256')`
  pub hmac : Bytes → Bytes → Bytes
  -- `private_key.public_key()`
  pub public_of : Bytes → Bytes
  -- whether `Ed25519PublicKey.from_public_bytes` accepts the bytes
  pub valid_public : Bytes → Bool
  -- `private_key.sign(payload)`
  pub sign : Bytes → Bytes → Bytes
  -- whether `public_key.verify(signature, payload)` returns without an exception
  pub verify : Bytes → Bytes → Bytes → Bool

-- What does not change while the node runs: the variable AES_MASTER_KEY, empty where it is not set,
-- and the key files `data/keys/<name>.key`.
pub record Disk : Type 0 where
  pub aes_master_key : Str
  pub key_file : Str → Option Bytes

abbrev pub KeyPair : Type 0
KeyPair = Bytes × Bytes

-- `_cached_master_key`, `data/master.key` and `_cached_sender_keys`.
pub record Keyring : Type 0 where
  pub master : Option Bytes
  pub master_file : Option Bytes
  pub sender_keys : Dict KeyPair

-- The last resort of `get_master_key`; `random` is `AESGCM.generate_key`.
generate : Bytes → Keyring → Bytes × Keyring
generate random kr = (random, record kr { master = some random; master_file = some random })

use_file : Bytes → Option Bytes → Keyring → Bytes × Keyring
unfolding generate
use_file random none kr = generate random kr
use_file random (some key) kr =
    if length key == 32 then (key, record kr { master = some key }) else generate random kr

use_env : Bytes → Option Bytes → Keyring → Bytes × Keyring
unfolding use_file
use_env random none kr = use_file random kr.master_file kr
use_env random (some key) kr =
    if length key == 32
    then (key, record kr { master = some key })
    else use_file random kr.master_file kr

-- The key of AES_MASTER_KEY, where the variable holds one.
env_key : Crypto → Str → Option Bytes
env_key cr [] = none
env_key cr (c ∷ s) = cr.from_hex (c ∷ s)

unfoldable pub get_master_key : Python → Crypto → Disk → Bytes → Keyring → Bytes × Keyring
unfolding use_env env_key
get_master_key py cr disk random kr = elim kr.master [
  | some key ↦ (key, kr)
  | none ↦ use_env random (env_key cr (strip py.is_space disk.aes_master_key)) kr
]

is_safe : Python → ℕ → Bool
is_safe py c = py.is_alnum c || c == b'_' || c == b'-'

safe_part : Python → Str → Str
unfolding is_safe
safe_part py [] = []
safe_part py (c ∷ s) = let rest = safe_part py s in if is_safe py c then c ∷ rest else rest

or_user : Str → Str
or_user [] = codes "user"
or_user (c ∷ s) = c ∷ s

-- The name under which a user's keys are kept.
unfoldable pub sanitized : Python → Str → Str
unfolding safe_part or_user
sanitized py username = or_user (safe_part py username)

pub pair_of : Crypto → Bytes → KeyPair
pair_of cr private_key = (private_key, cr.public_of private_key)

-- The key file, if it is a key.
unfoldable pub provisioned : Disk → Str → Option Bytes
provisioned disk name = elim (disk.key_file name) [
  | none ↦ none
  | some raw ↦ if length raw == 32 then some raw else none
]

-- The sanitized name has alphanumeric characters, '_' and '-' only, so that it can be encoded.
pub seed_of : Crypto → Bytes → Str → Bytes
seed_of cr master name = cr.hmac master (cr.encode (codes "user-ed25519:" ++ name))

unfoldable pub make_sender_keys : Python → Crypto → Disk → Bytes → Str → Keyring → KeyPair × Keyring
unfolding provisioned seed_of pair_of
make_sender_keys py cr disk random name kr = elim (provisioned disk name) [
  | some raw ↦
      (pair_of cr raw, record kr { sender_keys = put name (pair_of cr raw) kr.sender_keys })
  | none ↦
      let (master, kr') = get_master_key py cr disk random kr in
      let pair : KeyPair = pair_of cr (seed_of cr master name) in
      let kept : Dict KeyPair =
        if ltb 10000 (length kr'.sender_keys) then [] else kr'.sender_keys in
      (pair, record kr' { sender_keys = put name pair kept })
]

unfoldable pub get_or_create_sender_keys :
    Python → Crypto → Disk → Bytes → Str → Keyring → KeyPair × Keyring
unfolding sanitized make_sender_keys
get_or_create_sender_keys py cr disk random username kr =
    let name = sanitized py username in
    elim (get name kr.sender_keys) [
      | some pair ↦ (pair, kr)
      | none ↦ make_sender_keys py cr disk random name kr
    ]

-- `cache_sender_key`
unfoldable cache_sender_key : Python → Crypto → Str → Bytes → Keyring → Keyring
unfolding sanitized pair_of
cache_sender_key py cr username private_key kr = record kr {
  sender_keys = put (sanitized py username) (pair_of cr private_key) kr.sender_keys;
}
