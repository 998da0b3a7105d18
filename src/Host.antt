-- ===== src/Host.antt =====
-- What a running node has around it: the interpreter, the cryptographic libraries, its disk and its
-- settings; and what one call draws from the clock and the random generators.
use group_chat.Prelude.{ℕ, Str}
use group_chat.Config.{Config}
use group_chat.Crypto.{Bytes, Crypto, Disk}
use group_chat.Python.{Python}

pub record Host : Type 0 where
  pub py : Python
  pub cr : Crypto
  pub disk : Disk
  pub cfg : Config

-- `now` is `time.time()` in milliseconds, `uuid` a `uuid.uuid4()`, `key_bytes` and `nonce` random.
pub record Draw : Type 0 where
  pub now : ℕ
  pub uuid : Str
  pub key_bytes : Bytes
  pub nonce : Bytes
