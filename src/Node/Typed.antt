-- ===== src/Node/Typed.antt =====
-- What app.py's `post_message` makes of the values of a request, whatever their types are.
use group_chat.Prelude.{
  ◌≡◌, ◌≤◌, ◌∙◌, refl, sym, ap, true, some, Str, length, length-take-le, arith, Bool-cases, inl,
  inr,
}
use group_chat.App.Defs.{
  server_error, bad_request, accepted, answer, post_message, post_body, publish_post, post_obj,
  post_cached, msg_text, request_id, request_room, request_time, client_name, broadcast_value,
  count_in,
}
use group_chat.Config.{max_username_len, max_message_len}
use group_chat.Gossip.Welcome.{is_lookup}
use group_chat.Host.{Host, Draw}
use group_chat.Node.Accepted.{message_of}
use group_chat.Node.Limits.{broadcast_value-is_lookup, post_cached-hash_of}
use group_chat.Python.{Value, Fields, Key, ℤ, int, str, truth, hash_of, field_of, field_or}
use group_chat.Result.{Result-cases}
use group_chat.Server.Defs.{Frame, Server}
use group_chat.Server.Handlers.{cache_message}

-- The types of a message: an id that is empty or can be hashed, a name and a text within their limits, a
-- room that can be looked up, and an integer for the time.
pub record IsTyped (m : Fields) : Type 0 where
  pub id : truth (field_of "id" m) ≡ true → (k : Key) × (hash_of (field_of "id" m) ≡ some k)
  pub username : (u : Str) × (field_of "username" m ≡ str u) × (length u ≤ max_username_len)
  pub text : (t : Str) × (field_of "text" m ≡ str t) × (length t ≤ max_message_len)
  pub room : is_lookup (field_of "room" m) ≡ true
  pub time : (ts : ℤ) × (field_of "timestamp" m ≡ int ts)

accepted-injective : (a b : Fields) → accepted a ≡ accepted b → a ≡ b
accepted-injective a b e = cc

module _ (h : Host) (d : Draw) where
  post_obj-IsTyped :
      (i name text room : Value) (ts : ℤ)
      → (truth i ≡ true → (k : Key) × (hash_of i ≡ some k))
      → is_lookup room ≡ true
      → IsTyped (post_obj h i name text room ts)
  unfolding post_obj field_or
  post_obj-IsTyped i name text room ts hashed found = record {
    id = hashed;
    username = (_, refl, length-take-le max_username_len _);
    text = (_, refl, length-take-le max_message_len _);
    room = found;
    time = (ts, refl);
  }

  answer-IsTyped : (msg : Fields) → IsTyped msg → IsTyped (answer h msg)
  unfolding answer field_or
  answer-IsTyped msg typed = record {
    id = typed.id;
    username = typed.username;
    text = typed.text;
    room = typed.room;
    time = typed.time;
  }

  publish_post-accepted :
      (room : Value) (msg : Fields) (s : Server) (m : Fields)
      → (publish_post h d room msg s).0 ≡ accepted m
      → (m ≡ answer h msg)
        × (is_lookup room ≡ true)
        × (truth (field_of "id" msg) ≡ true → (k : Key) × (hash_of (field_of "id" msg) ≡ some k))
  unfolding publish_post
  publish_post-accepted room msg s m e =
      elim (Result-cases (cache_message h d room (post_cached h msg) s)) [
        | inr p ↦ absurd (let failed : server_error ≡ accepted m = ground arith in cc)
        | inl (s₁, p) ↦ elim (Result-cases (broadcast_value room (Frame.message msg) s₁)) [
          | inr q ↦ absurd (let failed : server_error ≡ accepted m = ground arith in cc)
          | inl (s₂, q) ↦ (
            accepted-injective m (answer h msg) (ground arith),
            broadcast_value-is_lookup h room (Frame.message msg) s₁ q,
            post_cached-hash_of h d room msg s p,
          )
        ]
      ]

  post_body-publish_post :
      (body query : Fields) (s : Server)
      → truth (msg_text h body query) ≡ true
      → post_body h d body query s
        ≡ publish_post h d
            (request_room h body query)
            (post_obj h
              (request_id h d body query)
              (client_name h body query)
              (msg_text h body query)
              (request_room h body query)
              (request_time h d body query))
            s
  unfolding post_body
  post_body-publish_post body query s p = rw p refl

  -- The message of an accepted request has the types of a message, whatever the request holds: its room
  -- can be looked up, its id is empty or can be hashed, its name and text are texts within their limits,
  -- and its time is an integer. The answer is made of this message, and so has these types too.
  pub post_message-IsTyped :
      (body query : Fields) (s : Server) (m : Fields)
      → (post_message h d body query s).0 ≡ accepted m
      → IsTyped (message_of h d body query) × IsTyped m × (m ≡ answer h (message_of h d body query))
  unfolding post_message post_obj field_or post_body
  post_message-IsTyped body query s m e = elim (Bool-cases (truth (msg_text h body query))) [
    | inr p ↦ absurd (let failed : bad_request ≡ accepted m = ground arith in cc)
    | inl p ↦
        let msg = message_of h d body query in
        let sent = ap (λ q. q.0) (post_body-publish_post body query (count_in h s) p) in
        let (same, found, hashed) = publish_post-accepted _ msg (count_in h s) m (sym sent ∙ e) in
        let typed : IsTyped msg =
          post_obj-IsTyped (request_id h d body query) _ _ _ _ hashed found in
        (typed, rw same (answer-IsTyped msg typed), same)
  ]
