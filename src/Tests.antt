-- ===== src/Tests.antt =====
-- The concrete runtime of the examples: ASCII case, unary numerals, and a transparent cipher.
mod Cache
mod Writer
mod Keys
mod Rooms
mod Names
mod Session
mod Placement
mod Routes
mod Node
mod Limits
mod Said
mod Moves
mod Lifespan
mod Tools
use group_chat.Prelude.{
  ltb, ◌||◌, ℕ, zero, suc, ◌+◌, ◌≡◌, ◌==◌, ◌&&◌, ◌∙◌, refl, ap, Bool, true, false, Option, none,
  some, List, [], ◌∷◌, ◌++◌, Str, codes, map, ite, if_pos, leb, str-discrete, length, arith,
  if◌then◌else◌, String,
}
use group_chat.Crypto.{Bytes, Crypto, Disk, Keyring}
use group_chat.Crypto.Messages.{CryptoLaws}
use group_chat.Config.{Config}
use group_chat.Host.{Host, Draw}
use group_chat.Python.{Python, Value, Items, Fields, ℤ, pos, negsuc, str}
use group_chat.Server.Names.Unique.{NameLaws}
use group_chat.Store.Cache.Defs.{initial}
use group_chat.Store.Defs.{Store}

abbrev lower_char : ℕ → ℕ
lower_char c = if leb b'A' c && leb c b'Z' then c + 32 else c

abbrev pub lower : Str → Str
lower [] = []
lower (c ∷ s) = lower_char c ∷ lower s

abbrev unary : ℕ → Str
unary zero = []
unary (suc n) = b'1' ∷ unary n

abbrev pub ascii : Python
ascii = record {
  is_space = λ c. c == 32;
  is_alnum = λ c. leb b'0' c;
  lower = lower;
  parse_int = λ s. none;
  str_of_int = λ n. elim n [ pos k ↦ unary k | negsuc k ↦ b'-' ∷ b'1' ∷ unary k ];
  str_of_items = λ l. codes "[]";
  str_of_fields = λ d. codes "{}";
}

lower-append : (s t : Str) → lower (s ++ t) ≡ lower s ++ lower t
lower-append [] t = refl
lower-append (c ∷ s) t = ap (◌∷◌ (lower_char c)) (lower-append s t)

lower-numeral : (n : ℕ) → lower (unary n ++ codes ")") ≡ unary n ++ codes ")"
lower-numeral zero = refl
lower-numeral (suc n) = ap (◌∷◌ b'1') (lower-numeral n)

unary-injective : (m n : ℕ) → unary m ≡ unary n → m ≡ n
unary-injective zero zero h = refl
unary-injective zero (suc n) h = cc
unary-injective (suc m) zero h = cc
unary-injective (suc m) (suc n) h = ap suc (unary-injective m n (cc))

pub ascii-NameLaws : NameLaws ascii
ascii-NameLaws = record {
  str_of_int-injective = unary-injective;
  lower-suffix = λ s n.
      lower-append s (b'(' ∷ (unary n ++ codes ")"))
      ∙ ap (λ t. lower s ++ (b'(' ∷ t)) (lower-numeral n);
}

unwrap : Bytes → Option Bytes
unwrap [] = none
unwrap (c ∷ b) = some b

-- No surrogate stands in the text.
abbrev encodable : Str → Bool
encodable [] = true
encodable (c ∷ s) = (ltb c 55296 || leb 57344 c) && encodable s

abbrev pub fresh_key : Bytes
fresh_key =
    3 ∷ 4 ∷ 3 ∷ 4 ∷ 3 ∷ 4 ∷ 3 ∷ 4 ∷ 3 ∷ 4 ∷ 3 ∷ 4 ∷ 3 ∷ 4 ∷ 3 ∷ 4 ∷ 3 ∷ 4 ∷ 3 ∷ 4 ∷ 3 ∷ 4 ∷ 3 ∷ 4
    ∷ 3 ∷ 4 ∷ 3 ∷ 4 ∷ 3 ∷ 4 ∷ 3 ∷ 4 ∷ []

abbrev pub transparent : Crypto
unfolding unwrap
transparent = record {
  encodable = encodable;
  encode = λ s. s;
  decode = some;
  to_hex = λ b. b;
  from_hex = some;
  encrypt = λ key nonce plain. 7 ∷ plain;
  decrypt = λ key nonce b. unwrap b;
  hmac = λ key b. key ++ b;
  public_of = λ key. key;
  valid_public = λ b. true;
  sign = λ key payload. key ++ payload;
  verify = λ key signature payload. ite (str-discrete signature (key ++ payload)) true false;
}

pub transparent-CryptoLaws : CryptoLaws transparent
unfolding unwrap
transparent-CryptoLaws = record {
  decode-encode = λ s there. refl;
  from_hex-to_hex = λ b. refl;
  decrypt-encrypt = λ key nonce plain size. refl;
  verify-sign =
      λ key payload. if_pos (str-discrete (key ++ payload) (key ++ payload)) refl true false;
}

abbrev pub master : Bytes
master =
    1 ∷ 2 ∷ 1 ∷ 2 ∷ 1 ∷ 2 ∷ 1 ∷ 2 ∷ 1 ∷ 2 ∷ 1 ∷ 2 ∷ 1 ∷ 2 ∷ 1 ∷ 2 ∷ 1 ∷ 2 ∷ 1 ∷ 2 ∷ 1 ∷ 2 ∷ 1 ∷ 2
    ∷ 1 ∷ 2 ∷ 1 ∷ 2 ∷ 1 ∷ 2 ∷ 1 ∷ 2 ∷ []

abbrev pub disk : Disk
disk = record { aes_master_key = []; key_file = λ name. none }

abbrev pub host : Host
host = record {
  py = ascii;
  cr = transparent;
  disk = disk;
  cfg = record {
    server_id = codes "s1";
    port = codes "5000";
    peers = [];
    first_room = codes "general";
    other_rooms = codes "random" ∷ [];
    admin_usernames = codes "admin" ∷ [];
    history_limit = 50;
    idle_timeout_ms = 60000;
  };
}

abbrev pub draw : Draw
draw = record { now = 5000; uuid = codes "u9"; key_bytes = fresh_key; nonce = 4 ∷ [] }

abbrev pub keyring : Keyring
keyring = record { master = some master; master_file = none; sender_keys = [] }

abbrev pub store : Store
store = record {
  cache = initial;
  keyring = keyring;
  user_keys = [];
  priv_keys = [];
  write_queue = some [];
  db_writes = [];
  active_connections = 0;
}

-- A message as a client sends it.
abbrev pub text_of : String → String → Fields
text_of id text =
    Fields.field "id" (str (codes id)) (Fields.field "text" (str (codes text)) Fields.end)
