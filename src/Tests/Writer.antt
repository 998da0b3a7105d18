-- ===== src/Tests/Writer.antt =====
-- Examples for the stored documents and the batch writer.
use group_chat.Prelude.{◌≡◌, refl, none, List, [], ◌∷◌, ◌++◌, codes, arith, get, ℕ_discrete}
use group_chat.Crypto.{sanitized}
use group_chat.Crypto.Keys.{IsDerived, derived}
use group_chat.Python.{Value, int, pos, str, field_or, truth, ◌orelse◌, int_of, hash_of}
use group_chat.Result.{ok}
use group_chat.Store.Append.{Ack, append_message, ack_of, signing_key}
use group_chat.Store.Cache.Defs.{cache_put}
use group_chat.Store.Defs.{Store, Doc}
use group_chat.Store.Sealed.{Queued, append_message-Queued}
use group_chat.Store.Visible.{signing_key_of_other_case}
use group_chat.Store.Writer.{Event, put, woken, begun, done, cancelled, started, run}
use group_chat.Store.Writer.Order.{docs, all_accepted, docs-run}
use group_chat.Crypto.{get_or_create_sender_keys, make_sender_keys, provisioned, get_master_key}
use group_chat.Crypto.Messages.{header}
use group_chat.Python.{str_of}
use group_chat.Tests.{
  host, draw, store, keyring, master, disk, transparent, transparent-CryptoLaws, text_of,
}

abbrev room : Value
room = str (codes "general")

abbrev ack : Ack
ack = ack_of host draw (str (codes "m1")) room (codes "Anonymous") (codes "hi") (int (pos 5000))

-- The store after `append_message`.
abbrev appended : Store
appended = (append_message host draw room (text_of "m1" "hi") none store).1

append_ok : append_message host draw room (text_of "m1" "hi") none store ≡ (ok ack, appended)
unfolding append_message field_or truth ◌orelse◌ cache_put int_of hash_of ℕ_discrete
    get_or_create_sender_keys make_sender_keys provisioned get_master_key header str_of get
    transparent
append_ok = refl

append_message-Queued_example :
    Queued host draw transparent-CryptoLaws
      (signing_key host draw none (codes "Anonymous") store).0
      []
      ack
      appended
append_message-Queued_example =
    append_message-Queued host draw transparent-CryptoLaws room (text_of "m1" "hi") none store []
      refl (omega arith) append_ok

abbrev doc : Doc
doc = record {
  id = str (codes "m1");
  room_id = room;
  sender = codes "ann";
  text_plain = codes "hi";
  ciphertext = [];
  nonce = [];
  signature = [];
  timestamp = int (pos 1);
}

abbrev events : List Event
events = put doc ∷ woken 3 ∷ begun ∷ put doc ∷ done ∷ woken 3 ∷ cancelled ∷ []

docs-run_example : docs (run events started) ≡ docs started ++ all_accepted events started
docs-run_example = docs-run events started

keyring-IsDerived : IsDerived transparent disk master keyring
unfolding get
keyring-IsDerived = record { loaded = refl; cached = λ name pair e. cc }

signing_key_of_other_case_example :
    (signing_key host draw none (codes "ann") (signing_key host draw none (codes "Ann") store).1).0
    ≡ (derived transparent disk master (codes "Ann")).0
unfolding sanitized
signing_key_of_other_case_example =
    signing_key_of_other_case host draw draw (codes "Ann") (codes "ann") master store
      keyring-IsDerived refl (unfold get in refl)
