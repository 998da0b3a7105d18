-- ===== src/Tamper.antt =====
-- tamper_last.py: a script that flips a bit of the stored ciphertext of the last message.
use Prim.Native.Nat.{◌%◌}
use group_chat.Prelude.{
  ℕ, ◌+◌, ◌-◌, ◌==◌, Option, none, some, List, [], ◌∷◌, Str, ite, str-discrete, leb, if◌then◌else◌,
}
use group_chat.Crypto.{Bytes, Crypto}

-- What the column `ciphertext` holds: a text of hexadecimal digits or bytes.
pub data Cipher : Type 0 where
  hex : Str → Cipher
  raw : Bytes → Cipher

-- A row of the table `messages`.
pub record Row : Type 0 where
  pub id : Str
  pub room_id : Str
  pub sender : Str
  pub ciphertext : Cipher
  pub timestamp : ℕ

-- `b ^= 0x01`
flip_bit : ℕ → ℕ
flip_bit b = if b % 2 == 0 then b + 1 else b - 1

-- `raw_ct[0] ^= 0x01`; `none` is the `IndexError` of an empty one.
flip_first : Bytes → Option Bytes
unfolding flip_bit
flip_first [] = none
flip_first (b ∷ bytes) = some (flip_bit b ∷ bytes)

-- The value that is written back, in the form in which it was read. `none` is an exception.
pub tampered : Crypto → Cipher → Option Cipher
unfolding flip_first
tampered cr (hex s) = elim (cr.from_hex s) [
  | none ↦ none
  | some bytes ↦ elim (flip_first bytes) [
    | none ↦ none
    | some bytes' ↦ some (hex (cr.to_hex bytes'))
  ]
]
tampered cr (raw bytes) = elim (flip_first bytes) [ none ↦ none | some bytes' ↦ some (raw bytes') ]

-- `ORDER BY timestamp DESC LIMIT 1`; of rows with the same time, the first.
latest : List Row → Option Row
latest [] = none
latest (row ∷ rows) = elim (latest rows) [
  | none ↦ some row
  | some other ↦ if leb other.timestamp row.timestamp then some row else some other
]

-- `UPDATE messages SET ciphertext = ? WHERE id = ?`
update : Str → Cipher → List Row → List Row
update msg_id c [] = []
update msg_id c (row ∷ rows) =
    ite (str-discrete row.id msg_id) (record row { ciphertext = c }) row ∷ update msg_id c rows

-- `tamper_last_message`, with a database that is there. Without a row nothing is changed; `none` is an
-- exception.
unfoldable tamper_last_message : Crypto → List Row → Option (List Row)
unfolding latest update tampered
tamper_last_message cr rows = elim (latest rows) [
  | none ↦ some rows
  | some row ↦ elim (tampered cr row.ciphertext) [
    | none ↦ none
    | some c ↦ some (update row.id c rows)
  ]
]
