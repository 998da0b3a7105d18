-- ===== src/LoadGenerator/Requests.antt =====
-- The requests of the load generator, at a node: app.py's `post_message` accepts them.
use group_chat.Prelude.{
  ℕ, ◌+◌, ◌≤◌, ◌≡◌, refl, Bool, true, false, List, [], ◌∷◌, Str, length, ltb, arith, All, if_intro,
}
use group_chat.App.Defs.{accepted, answer, post_message, msg_text, request_id, request_room}
use group_chat.Host.{Host, Draw}
use group_chat.LoadGenerator.{Stats, Turn, random_message, payload, is_ok, record_one, virtual_user}
use group_chat.LoadGenerator.Messages.{length-random_message}
use group_chat.Node.Accepted.{IsRequest, message_of, post_message-IsPublished, cache_put-message_of}
use group_chat.Python.{Fields, Key, str, truth, hash_of, field_or, ◌orelse◌}
use group_chat.Server.Defs.{Server}

truth-filled : (s : Str) → 1 ≤ length s → truth (str s) ≡ true
unfolding truth
truth-filled [] h = absurd (omega arith)
truth-filled (c ∷ s) h = refl

pub record_one-total :
    (latency : ℕ) (ok : Bool) (s : Stats)
    → (record_one latency ok s).success + (record_one latency ok s).errors
      ≡ s.success + s.errors + 1
unfolding record_one
record_one-total latency true s = omega arith
record_one-total latency false s = omega arith

-- A message of two characters at least is asked for, and no more than the most.
abbrev IsTurn : ℕ → Turn → Type 0
IsTurn max_len t = (2 ≤ t.target) × (t.target ≤ max_len)

module _ (h : Host) (d : Draw) (max_len : ℕ) (username : Str) where
  filled-IsRequest :
      (m : Str)
      → 1 ≤ length m
      → 1 ≤ length d.uuid
      → IsRequest h d
          (Fields.field "client-name" (str username) (Fields.field "msg" (str m) Fields.end))
          Fields.end
          h.cfg.first_room
          (Key.word d.uuid)
  unfolding msg_text request_id request_room field_or ◌orelse◌ truth hash_of
  filled-IsRequest [] filled new = absurd (omega arith)
  filled-IsRequest (c ∷ m) filled new = record {
    text = refl;
    room = refl;
    named = truth-filled d.uuid new;
    key = refl;
  }

  payload-IsRequest :
      (t : Turn)
      → IsTurn max_len t
      → 1 ≤ length d.uuid
      → IsRequest h d (payload max_len username t) Fields.end h.cfg.first_room (Key.word d.uuid)
  unfolding payload
  payload-IsRequest t turn new =
      let long = (length-random_message 2 max_len t.target t.next turn.0 turn.1).2 in
      filled-IsRequest (random_message t.target max_len t.next) (omega (arith, long)) new

  payload-accepted :
      (t : Turn) (s : Server)
      → IsTurn max_len t
      → 1 ≤ length d.uuid
      → (post_message h d (payload max_len username t) Fields.end s).0
        ≡ accepted (answer h (message_of h d (payload max_len username t) Fields.end))
  payload-accepted t s turn new =
      let request = payload-IsRequest t turn new in
      (post_message-IsPublished h d (payload max_len username t) Fields.end h.cfg.first_room
        (Key.word d.uuid) s request
        (cache_put-message_of h d (payload max_len username t) Fields.end h.cfg.first_room
          (Key.word d.uuid) s.store.cache request)).0

  -- Whatever the state of a node is, and with an id from the node that is not empty, it accepts
  -- every request of a virtual user whose turns draw a target of at least two and at most
  -- `max_len` characters: none is refused, and none raises. Whatever the responses are, the
  -- statistics count one request more for each payload that the user posts.
  pub virtual_user-accepted :
      (end_time : ℕ) (ts : List Turn) (stats : Stats) (s : Server)
      → All (IsTurn max_len) ts
      → 1 ≤ length d.uuid
      → All
          (λ body.
            (post_message h d body Fields.end s).0
            ≡ accepted (answer h (message_of h d body Fields.end)))
          (virtual_user max_len username end_time ts stats).0
        × ((virtual_user max_len username end_time ts stats).1.success
              + (virtual_user max_len username end_time ts stats).1.errors
            ≡ stats.success
              + stats.errors
              + length (virtual_user max_len username end_time ts stats).0)
  unfolding virtual_user
  virtual_user-accepted end_time [] stats s turns new = (tt, omega arith)
  virtual_user-accepted end_time (t ∷ ts) stats s turns new =
      let stats' = record_one t.latency (is_ok t.status) stats in
      let later = virtual_user-accepted end_time ts stats' s turns.1 new in
      let total = record_one-total t.latency (is_ok t.status) stats in
      if_intro {A = List Fields × Stats}
        (λ p.
          All
            (λ body.
              (post_message h d body Fields.end s).0
              ≡ accepted (answer h (message_of h d body Fields.end)))
            p.0
          × (p.1.success + p.1.errors ≡ stats.success + stats.errors + length p.0))
        (ltb t.now end_time)
        (λ _. ((payload-accepted t s turns.0 new, later.0), omega (arith, total, later.1)))
        (λ _. (tt, omega arith))
