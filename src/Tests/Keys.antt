-- ===== src/Tests/Keys.antt =====
-- Examples for the senders' keys.
use group_chat.Prelude.{◌≡◌, refl, true, none, some, [], ◌∷◌, codes, get}
use group_chat.Crypto.{Bytes, Keyring, sanitized, get_or_create_sender_keys}
use group_chat.Crypto.Keys.{IsDerived, derived, get_or_create_sender_keys-derived}
use group_chat.Crypto.Messages.{
  encrypt_bytes, key_or_master, is_aes_key, loaded_back, load_private_key-encrypt_bytes,
}
use group_chat.Crypto.Sizes.{get_master_key-is_aes_key}
use group_chat.Tests.{fresh_key, transparent-CryptoLaws, ascii, transparent, disk, keyring, master}

keyring-IsDerived : IsDerived transparent disk master keyring
unfolding get
keyring-IsDerived = record { loaded = refl; cached = λ name pair e. cc }

get_or_create_sender_keys-derived_example :
    ((get_or_create_sender_keys ascii transparent disk (3 ∷ []) (codes "Ann") keyring).0
      ≡ derived transparent disk master (sanitized ascii (codes "Ann")))
    × IsDerived transparent disk master
        (get_or_create_sender_keys ascii transparent disk (3 ∷ []) (codes "Ann") keyring).1
get_or_create_sender_keys-derived_example =
    get_or_create_sender_keys-derived transparent disk master ascii (3 ∷ []) (codes "Ann") keyring
      keyring-IsDerived

abbrev private_key : Bytes
private_key =
    1 ∷ 2 ∷ 3 ∷ 4 ∷ 5 ∷ 6 ∷ 7 ∷ 8 ∷ 1 ∷ 2 ∷ 3 ∷ 4 ∷ 5 ∷ 6 ∷ 7 ∷ 8 ∷ 1 ∷ 2 ∷ 3 ∷ 4 ∷ 5 ∷ 6 ∷ 7 ∷ 8
    ∷ 1 ∷ 2 ∷ 3 ∷ 4 ∷ 5 ∷ 6 ∷ 7 ∷ 8 ∷ []

-- A keyring without a master key: the first call makes one, of 32 random bytes.
abbrev no_keys : Keyring
no_keys = record { master = none; master_file = none; sender_keys = [] }

no_keys-is_aes_key :
    is_aes_key (key_or_master ascii transparent disk fresh_key none no_keys).0 ≡ true
unfolding key_or_master
no_keys-is_aes_key =
    get_master_key-is_aes_key ascii transparent disk fresh_key no_keys
      (record { size = λ key e. cc }) refl

load_private_key-encrypt_bytes_example :
    loaded_back ascii transparent disk
      (4 ∷ [])
      none
      (encrypt_bytes ascii transparent disk fresh_key (9 ∷ []) private_key none no_keys)
    ≡ some private_key
load_private_key-encrypt_bytes_example =
    load_private_key-encrypt_bytes ascii transparent disk fresh_key (4 ∷ []) (9 ∷ []) private_key
      none no_keys transparent-CryptoLaws no_keys-is_aes_key refl
