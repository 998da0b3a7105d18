-- ===== src/Store/Limits.antt =====
-- What a store holds in memory for the feed and for the database: the cache and the write queue, within their bounds.
use mathlib.Core.Path.{subst}
use group_chat.Prelude.{
  ℕ, ◌≡◌, ◌≤◌, refl, ap, Option, none, some, List, [], ◌∷◌, ◌++◌, Str, length, length-append, arith,
  option_intro, get,
}
use group_chat.Batch.{gather, gather-append}
use group_chat.Crypto.{Bytes, get_master_key}
use group_chat.Host.{Host, Draw}
use group_chat.Python.{Value, Fields}
use group_chat.Result.{Result, ok, raise}
use group_chat.Store.Append.{
  append_message, append_parts, append_text, finish_append, signing_key, cached_msg, sealed, Ack,
  enqueue_doc, offer_doc, write_queue_size,
}
use group_chat.Store.Cache.Bounds.{IsBounded, cache_put-IsBounded}
use group_chat.Store.Cache.Defs.{Cache}
use group_chat.Store.Defs.{Doc, Store, insert_one, save_user_public_key}
use group_chat.Store.Writer.{
  Writer, Phase, waiting, pending, inserting, ended, Event, put, woken, begun, begin, done,
  cancelled, step, put_nowait, wake, take_batch, max_batch, insertion_done, cancel, flush,
  init_batch_writer,
}

abbrev pub IsShortQueue : Option (List Doc) → Type 0
IsShortQueue none = Unit
IsShortQueue (some q) = length q ≤ write_queue_size

pub record IsTight (s : Store) : Type 0 where
  pub cache : IsBounded s.cache
  pub documents : IsShortQueue s.write_queue

IsTight-same :
    {s t : Store} → t.cache ≡ s.cache → t.write_queue ≡ s.write_queue → IsTight s → IsTight t
IsTight-same {s} {t} c q tight = record {
  cache = rw c tight.cache;
  documents = rw q tight.documents;
}

length-offer_doc :
    (doc : Doc) (q : List Doc)
    → length q ≤ write_queue_size
    → length (offer_doc doc q) ≤ write_queue_size
unfolding offer_doc
length-offer_doc doc q h = ground (arith, length-append q (doc ∷ []))

enqueue_doc-IsTight : (doc : Doc) (s : Store) → IsTight s → IsTight (enqueue_doc doc s)
unfolding enqueue_doc
enqueue_doc-IsTight doc s tight = go s.write_queue refl
  where
    go :
        (o : Option (List Doc))
        → s.write_queue ≡ o
        → IsTight (elim o as (λ _. Store) [
          | some q ↦ record s { write_queue = some (offer_doc doc q) }
          | none ↦ record s { db_writes = s.db_writes ++ insert_one doc ∷ [] }
        ])
    go none e = IsTight-same refl refl tight
    go (some q) e = record {
      cache = tight.cache;
      documents = length-offer_doc doc q (subst IsShortQueue e tight.documents);
    }

module _ (h : Host) (d : Draw) where
  signing_key-IsTight :
      (key : Option Bytes) (sender : Str) (s : Store)
      → IsTight s
      → IsTight (signing_key h d key sender s).1
  unfolding signing_key
  signing_key-IsTight (some key) sender s tight = tight
  signing_key-IsTight none sender s tight =
      option_intro {B = Bytes × Store} (λ p. IsTight p.1) (get (h.py.lower sender) s.priv_keys)
        (λ _. IsTight-same refl refl tight) (λ _ _. tight)

  finish_append-IsTight :
      (i r : Value) (u t : Str) (ts : Value) (doc : Doc) (s : Store) (put_it : Result Cache)
      → IsTight s
      → ((c : Cache) → put_it ≡ ok c → IsBounded c)
      → IsTight (finish_append h d i r u t ts doc s put_it).1
  unfolding finish_append
  finish_append-IsTight i r u t ts doc s raise tight bounded = tight
  finish_append-IsTight i r u t ts doc s (ok c) tight bounded =
      enqueue_doc-IsTight _ (record s { cache = c })
        (record { cache = bounded c refl; documents = tight.documents })

  append_text-IsTight :
      (i r : Value) (u t : Str) (ts : Value) (priv : Bytes) (s : Store)
      → IsTight s
      → IsTight (append_text h d i r u t ts priv s).1
  unfolding append_text
  append_text-IsTight i r u t ts priv s tight =
      option_intro {B = Result Ack × Store} (λ p. IsTight p.1)
        (sealed h d i r u t ts (get_master_key h.py h.cr h.disk d.key_bytes s.keyring).0 priv)
        (λ _. IsTight-same refl refl tight)
        (λ doc _. finish_append-IsTight i r u t ts doc _ _ (IsTight-same refl refl tight) (λ c e.
          cache_put-IsBounded h.py d.now r (cached_msg h d i r u t ts) s.cache tight.cache e))

  append_parts-IsTight :
      (i r ts : Value) (key : Option Bytes) (sender text : Result Str) (s : Store)
      → IsTight s
      → IsTight (append_parts h d i r ts key sender text s).1
  unfolding append_parts
  append_parts-IsTight i r ts key raise text s tight = tight
  append_parts-IsTight i r ts key (ok sender) raise s tight =
      IsTight-same refl refl (signing_key-IsTight key sender s tight)
  append_parts-IsTight i r ts key (ok sender) (ok text) s tight =
      append_text-IsTight i r sender text ts _ _ (signing_key-IsTight key sender s tight)

  pub append_message-IsTight :
      (room : Value) (msg : Fields) (key : Option Bytes) (s : Store)
      → IsTight s
      → IsTight (append_message h d room msg key s).1
  unfolding append_message
  append_message-IsTight room msg key s tight = append_parts-IsTight _ room _ key _ _ s tight

pub save_user_public_key-IsTight :
    (h : Host) (username : Str) (key : Bytes) (s : Store)
    → IsTight s
    → IsTight (save_user_public_key h username key s)
unfolding save_user_public_key
save_user_public_key-IsTight h username key s tight =
    option_intro IsTight (get (h.py.lower username) s.user_keys) (λ _. IsTight-same refl refl tight)
      (λ _ _. tight)

-- The batch writer takes documents out of the queue, and never lets it pass its bound.
length-take_batch :
    (rounds : ℕ) (q : List Doc) (w : Writer)
    → length q ≤ write_queue_size
    → length w.queue ≤ write_queue_size
    → length (take_batch rounds q w).queue ≤ write_queue_size
unfolding take_batch
length-take_batch rounds [] w hq hw = hw
length-take_batch rounds (doc ∷ q) w hq hw =
    let (batch, rest) = gather rounds (max_batch q) (doc ∷ []) q in
    let all : length (batch ++ rest) ≡ length ((doc ∷ []) ++ q) =
      ap length (gather-append rounds (max_batch q) (doc ∷ []) q) in
    omega (arith, length-append batch rest)

length-wake :
    (rounds : ℕ) (w : Writer)
    → length w.queue ≤ write_queue_size
    → length (wake rounds w).queue ≤ write_queue_size
unfolding wake
length-wake rounds w h = go w.phase
  where
    go :
        (p : Phase)
        → length
            (elim p as (λ _. Writer) [
              | waiting ↦ take_batch rounds w.queue w
              | pending batch ↦ w
              | inserting batch ↦ w
              | ended lost ↦ w
            ]).queue
          ≤ write_queue_size
    go waiting = length-take_batch rounds w.queue w h h
    go (pending batch) = h
    go (inserting batch) = h
    go (ended lost) = h

length-begin :
    (w : Writer) → length w.queue ≤ write_queue_size → length (begin w).queue ≤ write_queue_size
unfolding begin
length-begin w h = ground arith

length-insertion_done :
    (w : Writer)
    → length w.queue ≤ write_queue_size
    → length (insertion_done w).queue ≤ write_queue_size
unfolding insertion_done
length-insertion_done w h = ground arith

length-flush :
    (q : List Doc) (w : Writer)
    → length w.queue ≤ write_queue_size
    → length (flush q w).queue ≤ write_queue_size
unfolding flush
length-flush [] w h = h
length-flush (doc ∷ q) w h = omega arith

length-cancel :
    (w : Writer) → length w.queue ≤ write_queue_size → length (cancel w).queue ≤ write_queue_size
unfolding cancel
length-cancel w h = ground (arith, length-flush w.queue w h)

pub length-step :
    (e : Event) (w : Writer)
    → length w.queue ≤ write_queue_size
    → length (step e w).queue ≤ write_queue_size
unfolding step put_nowait
length-step (put doc) w h = length-offer_doc doc w.queue h
length-step (woken rounds) w h = length-wake rounds w h
length-step begun w h = length-begin w h
length-step done w h = length-insertion_done w h
length-step cancelled w h = length-cancel w h

pub init_batch_writer-IsTight : (s : Store) → IsTight s → IsTight (init_batch_writer s)
unfolding init_batch_writer
init_batch_writer-IsTight s tight =
    option_intro IsTight s.write_queue
      (λ _. record { cache = tight.cache; documents = omega arith }) (λ _ _. tight)
