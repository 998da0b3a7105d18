-- ===== src/Store/Cache/Log.antt =====
-- The cache as a log: after any puts, the queue is the end of the history without duplicates.
use group_chat.Prelude.{
  ℕ, ◌+◌, ◌≤◌, ◌≡◌, ◌∙◌, refl, ap, inl, inr, Option, none, some, List, [], ◌∷◌, ◌++◌, length, arith,
  Bool-cases, if◌then◌else◌, Option-cases,
}
use mathlib.Core.List.{append_assoc, append-nil}
use group_chat.Python.{
  Python, Value, Fields, Key, int, pos, truth, ◌orelse◌, field_of, int_of, hash_of,
}
use group_chat.Result.{or_else}
use group_chat.Ring.{append_max, newest, append_max-newest}
use group_chat.Store.Cache.Dedup.{insert-messages, insert-known, ids-insert}
use group_chat.Store.Cache.Defs.{
  Message, Cache, msg_cache_size, contains, insert, compact, cache_put, initial,
}

-- One call of `_cache_put`: the clock, the room and the dictionary.
pub record Put : Type 0 where
  pub now : ℕ
  pub room : Value
  pub msg : Fields

module _ (py : Python) where
  -- The history: a put that has an id, a timestamp and a key.
  pub entry : Put → Option (Key × Message)
  entry p =
      if truth (field_of "id" p.msg)
      then elim (int_of py (field_of "timestamp" p.msg orelse int (pos p.now))) [
        | none ↦ none
        | some ts ↦ elim (hash_of (field_of "id" p.msg)) [
          | none ↦ none
          | some k ↦ some (k, compact py (field_of "id" p.msg) p.room p.msg ts)
        ]
      ]
      else none

  -- The messages whose key is new, in order.
  pub firsts : List Key → List Put → List Message
  firsts seen [] = []
  firsts seen (p ∷ ps) = elim (entry p) [
    | none ↦ firsts seen ps
    | some (k, m) ↦ if contains k seen then firsts seen ps else m ∷ firsts (k ∷ seen) ps
  ]

  -- The puts one after the other; a caller keeps the cache where one raises.
  after_put : Put → Cache → Cache
  after_put p c = or_else (cache_put py p.now p.room p.msg c) c

  pub puts : List Put → Cache → Cache
  puts [] c = c
  puts (p ∷ ps) c = puts ps (after_put p c)

  after_put-none : (p : Put) (c : Cache) → entry p ≡ none → after_put p c ≡ c
  unfolding cache_put entry after_put
  after_put-none p c h = ground arith

  after_put-some :
      (p : Put) (c : Cache) (k : Key) (m : Message)
      → entry p ≡ some (k, m)
      → after_put p c ≡ insert k m c
  unfolding cache_put entry after_put
  after_put-some p c k m h = ground arith

  module _ (p : Put) (ps : List Put) (seen : List Key) where
    firsts-none : entry p ≡ none → firsts seen (p ∷ ps) ≡ firsts seen ps
    unfolding firsts
    firsts-none e = rw (e, firsts)

    firsts-some :
        (k : Key) (m : Message)
        → entry p ≡ some (k, m)
        → firsts seen (p ∷ ps)
          ≡ (if contains k seen then firsts seen ps else m ∷ firsts (k ∷ seen) ps)
    unfolding firsts
    firsts-some k m e = rw (e, firsts)

  puts-newest :
      (ps : List Put) (c : Cache) (history : List Message)
      → c.messages ≡ newest msg_cache_size history
      → length c.ids + length ps ≤ msg_cache_size + 2000
      → (puts ps c).messages ≡ newest msg_cache_size (history ++ firsts c.ids ps)
  unfolding puts
  puts-newest [] c history h room = unfold firsts in rw (append-nil) h
  puts-newest (p ∷ ps) c history h room = elim (Option-cases (entry p)) [
    | inl e ↦
        rw (after_put-none p c e, puts, firsts-none p ps c.ids e)
          (puts-newest ps c history h (omega arith))
    | inr ((k, m), e) ↦
        rw (after_put-some p c k m e, puts, firsts-some p ps c.ids k m e)
          (elim (Bool-cases (contains k c.ids)) [
            | inl old ↦ rw (insert-known k m c old, old) (puts-newest ps c history h (omega arith))
            | inr new ↦
                let ids : (insert k m c).ids ≡ k ∷ c.ids = ids-insert k m c (omega arith) new in
                rw (new, ← ids, ← append_assoc history (m ∷ []) (firsts (insert k m c).ids ps))
                  (puts-newest ps (insert k m c) (history ++ m ∷ [])
                    (insert-messages k m c new
                      ∙ ap (λ ms. append_max msg_cache_size ms m) h
                      ∙ append_max-newest msg_cache_size history m)
                    (rw ids (omega arith)))
          ])
  ]

-- Up to 22000 puts into a fresh cache, of whatever dictionaries, leave in the queue exactly the
-- newest 20000 of the messages whose id had not been put before, oldest first, where a put that
-- raises or that has no id counts for nothing.
pub puts-log :
    (py : Python) (ps : List Put)
    → length ps ≤ msg_cache_size + 2000
    → (puts py ps initial).messages ≡ newest msg_cache_size (firsts py [] ps)
unfolding newest
puts-log py ps h = puts-newest py ps initial [] refl (omega arith)
