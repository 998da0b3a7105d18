-- ===== src/Crypto/Keys.antt =====
-- The senders' keys depend on nothing but the master key, the key files and the name.
use group_chat.Prelude.{
  ◌≡◌, refl, none, some, [], Str, Dict, get, put, get-put, str-discrete, length, ltb, arith,
  if◌then◌else◌, if_intro, Option-cases, inl, inr,
}
use group_chat.Python.{Python}
use group_chat.Crypto.{
  Bytes, Crypto, Disk, KeyPair, Keyring, get_master_key, sanitized, pair_of, provisioned, seed_of,
  make_sender_keys, get_or_create_sender_keys,
}

module _ (cr : Crypto) (disk : Disk) (master : Bytes) where
  -- The key pair of a sanitized name.
  pub derived : Str → KeyPair
  unfolding provisioned seed_of pair_of
  derived name = elim (provisioned disk name) [
    | some raw ↦ pair_of cr raw
    | none ↦ pair_of cr (seed_of cr master name)
  ]

  -- The master key is loaded, and what is cached was derived from it.
  pub record IsDerived (kr : Keyring) : Type 0 where
    pub loaded : kr.master ≡ some master
    pub cached :
        (name : Str) (pair : KeyPair) → get name kr.sender_keys ≡ some pair → pair ≡ derived name

  -- Every pair of a dictionary was derived.
  abbrev Derives : Dict KeyPair → Type 0
  Derives d = (name : Str) (pair : KeyPair) → get name d ≡ some pair → pair ≡ derived name

  Derives-put : (name : Str) (d : Dict KeyPair) → Derives d → Derives (put name (derived name) d)
  Derives-put name d h other pair e = elim (str-discrete name other) [
    | yes p ↦ ground (arith, get-put name other (derived name) d)
    | no p ↦ h other pair (ground (arith, get-put name other (derived name) d))
  ]

  Derives-nil : Derives []
  unfolding get
  Derives-nil name pair e = cc

  -- The cached pairs that stay when a new one is made.
  kept : Str → Dict KeyPair → Dict KeyPair
  kept name d = elim (provisioned disk name) [
    | some raw ↦ d
    | none ↦ if ltb 10000 (length d) then [] else d
  ]

  Derives-kept : (name : Str) (d : Dict KeyPair) → Derives d → Derives (kept name d)
  unfolding kept
  Derives-kept name d h = elim (Option-cases (provisioned disk name)) [
    | inl e ↦ rw (e, kept) (if_intro Derives (ltb 10000 (length d)) (λ _. Derives-nil) (λ _. h))
    | inr (raw, e) ↦ rw (e, kept) h
  ]

  module _ (py : Python) (random : Bytes) where
    make_sender_keys-eq :
        (name : Str) (kr : Keyring)
        → kr.master ≡ some master
        → make_sender_keys py cr disk random name kr ≡ (
          derived name,
          record kr { sender_keys = put name (derived name) (kept name kr.sender_keys) },
        )
    unfolding make_sender_keys derived get_master_key kept
    make_sender_keys-eq name kr h = ground arith

    make_sender_keys-IsDerived :
        (name : Str) (kr : Keyring)
        → IsDerived kr
        → ((make_sender_keys py cr disk random name kr).0 ≡ derived name)
          × IsDerived (make_sender_keys py cr disk random name kr).1
    make_sender_keys-IsDerived name kr h = rw (make_sender_keys-eq name kr h.loaded) (
      refl,
      record {
        loaded = h.loaded;
        cached = Derives-put name _ (Derives-kept name kr.sender_keys h.cached);
      },
    )

    -- Where the cached keys were derived from the loaded master key, every request for a user's
    -- keys returns the pair that the master key, the key files and the sanitized name determine,
    -- whatever was asked before, and leaves a cache of derived pairs.
    pub get_or_create_sender_keys-derived :
        (username : Str) (kr : Keyring)
        → IsDerived kr
        → ((get_or_create_sender_keys py cr disk random username kr).0
            ≡ derived (sanitized py username))
          × IsDerived (get_or_create_sender_keys py cr disk random username kr).1
    unfolding get_or_create_sender_keys
    get_or_create_sender_keys-derived username kr h =
        elim (Option-cases (get (sanitized py username) kr.sender_keys)) [
          | inl e ↦
              rw (e, get_or_create_sender_keys)
                (make_sender_keys-IsDerived (sanitized py username) kr h)
          | inr (pair, e) ↦
              rw (e, get_or_create_sender_keys) (h.cached (sanitized py username) pair e, h)
        ]
