-- ===== src/Crypto/Sizes.antt =====
-- The size of the master key of server/crypto.py: one that AES takes.
use group_chat.Prelude.{
  ◌≡◌, ◌∙◌, sym, true, some, Str, length, arith, Option-cases, inl, inr, ap, get, option_intro,
}
use group_chat.Python.{Python}
use group_chat.Crypto.{
  Bytes, Crypto, Disk, KeyPair, Keyring, sanitized, provisioned, get_master_key, make_sender_keys,
  get_or_create_sender_keys,
}
use group_chat.Crypto.Messages.{is_aes_key, get_master_key-loaded}

-- A master key that is loaded has 32 bytes.
pub record IsSized (kr : Keyring) : Type 0 where
  pub size : (key : Bytes) → kr.master ≡ some key → length key ≡ 32

module _ (py : Python) (cr : Crypto) (disk : Disk) (random : Bytes) where
  length-get_master_key :
      (kr : Keyring)
      → IsSized kr
      → length random ≡ 32
      → length (get_master_key py cr disk random kr).0 ≡ 32
  unfolding get_master_key
  length-get_master_key kr sized new = elim (Option-cases kr.master) [
    | inr (key, e) ↦ let old = sized.size key e in ground arith
    | inl e ↦ ground arith
  ]

  -- The key of a call is one that AES takes.
  pub get_master_key-is_aes_key :
      (kr : Keyring)
      → IsSized kr
      → length random ≡ 32
      → is_aes_key (get_master_key py cr disk random kr).0 ≡ true
  unfolding is_aes_key
  get_master_key-is_aes_key kr sized new =
      let size = length-get_master_key kr sized new in ground arith

  pub get_or_create_sender_keys-IsSized :
      (name : Str) (kr : Keyring)
      → IsSized kr
      → length random ≡ 32
      → IsSized (get_or_create_sender_keys py cr disk random name kr).1
  unfolding get_or_create_sender_keys make_sender_keys
  get_or_create_sender_keys-IsSized name kr sized new =
      option_intro {B = KeyPair × Keyring} (λ p. IsSized p.1)
        (get (sanitized py name) kr.sender_keys)
        (λ _.
          option_intro {B = KeyPair × Keyring} (λ p. IsSized p.1)
            (provisioned disk (sanitized py name))
            (λ _. record {
              size = λ key e.
                  let loaded = get_master_key-loaded py cr disk random kr in
                  let long = length-get_master_key kr sized new in
                  let same : (get_master_key py cr disk random kr).0 ≡ key = cc in
                  ap length (sym same) ∙ long;
            })
            (λ _ _. record { size = sized.size }))
        (λ _ _. sized)
