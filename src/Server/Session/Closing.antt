-- ===== src/Server/Session/Closing.antt =====
-- The shutdown of server/ws_server.py leaves no connection open.
use mathlib.Core.Option
use group_chat.Prelude.{
  ℕ, ◌≡◌, ◌≢◌, ◌⊎◌, ◌∙◌, refl, sym, ap, false, Option, none, some, List, [], ◌∷◌, Str, codes, Dict,
  get, put, get-put, get-cons_ne, keys, arith, if_pos, if_neg, str-discrete, inl, inr, Option-cases,
  Bool-cases,
}
use group_chat.Server.Defs.{Client, Frame, Server, close_ws, send, send_each, broadcast_to_all}
use group_chat.Server.Session.{close_all, shutdown}

-- The client, marked as gone.
abbrev pub gone : Client → Client
gone c = record c { connected = false }

clients-send_each :
    (cids : List Str) (frame : Frame) (s : Server) → (send_each cids frame s).clients ≡ s.clients
unfolding send_each send
clients-send_each [] frame s = refl
clients-send_each (cid ∷ cids) frame s =
    clients-send_each cids frame (send cid frame s) ∙ ground arith

-- What `_close_ws` does to a client: it marks it, unless it was marked before.
clients-close_ws :
    (cid : Str) (code : ℕ) (s : Server) {c : Client}
    → get cid s.clients ≡ some c
    → ((close_ws cid code s).clients ≡ put cid (gone c) s.clients)
      ⊎ (((close_ws cid code s).clients ≡ s.clients) × (c.connected ≡ false))
unfolding close_ws
clients-close_ws cid code s {c} e = elim (Bool-cases c.connected) [
  | inl on ↦ inl (ground arith)
  | inr off ↦ inr (ground arith, off)
]

gone-same : (c : Client) → c.connected ≡ false → some c ≡ some (gone c)
gone-same c off = ap (λ b. some (record c { connected = b })) off

map-gone_twice : (o : Option Client) → Option.map gone (Option.map gone o) ≡ Option.map gone o
map-gone_twice none = refl
map-gone_twice (some c) = refl

get-close_ws_self :
    (cid : Str) (code : ℕ) (s : Server)
    → get cid (close_ws cid code s).clients ≡ Option.map gone (get cid s.clients)
get-close_ws_self cid code s = elim (Option-cases (get cid s.clients)) [
  | inl e ↦
      (let same : (close_ws cid code s).clients ≡ s.clients = unfold close_ws in ground arith in
        rw (same, e) refl)
  | inr (c, e) ↦ elim (clients-close_ws cid code s e) [
    | inl new ↦
        rw (new, e) (get-put cid cid (gone c) s.clients ∙ if_pos (str-discrete cid cid) refl _ _)
    | inr (same, off) ↦ rw (same, e) (gone-same c off)
  ]
]

get-close_ws_ne :
    (cid j : Str) (code : ℕ) (s : Server)
    → cid ≢ j
    → get j (close_ws cid code s).clients ≡ get j s.clients
get-close_ws_ne cid j code s ne = elim (Option-cases (get cid s.clients)) [
  | inl e ↦
      (let same : (close_ws cid code s).clients ≡ s.clients = unfold close_ws in ground arith in
        rw same refl)
  | inr (c, e) ↦ elim (clients-close_ws cid code s e) [
    | inl new ↦ rw new (get-put cid j (gone c) s.clients ∙ if_neg (str-discrete cid j) ne _ _)
    | inr (same, off) ↦ rw same refl
  ]
]

-- A client that is marked stays so.
close_all-gone :
    (cids : List Str) (j : Str) (s : Server) (o : Option Client)
    → get j s.clients ≡ Option.map gone o
    → get j (close_all cids s).clients ≡ Option.map gone o
unfolding close_all
close_all-gone [] j s o e = e
close_all-gone (cid ∷ cids) j s o e =
    close_all-gone cids j (close_ws cid 1001 s) o (elim (str-discrete cid j) [
      | yes p ↦
          ap (λ i. get i (close_ws cid 1001 s).clients) (sym p)
          ∙ (get-close_ws_self cid 1001 s
              ∙ ap (Option.map gone) (ap (λ i. get i s.clients) p ∙ e)
              ∙ map-gone_twice o)
      | no p ↦ get-close_ws_ne cid j 1001 s p ∙ e
    ])

-- Every client whose id is a key is marked.
close_all-keys :
    (d : Dict Client) (j : Str) (s : Server)
    → (get j d ≡ none → get j s.clients ≡ none)
    → get j (close_all (keys d) s).clients ≡ Option.map gone (get j s.clients)
unfolding close_all keys get
close_all-keys [] j s h = rw (h refl) refl
close_all-keys ((k, c) ∷ d) j s h = elim (str-discrete k j) [
  | yes p ↦ close_all-gone (keys d) j (close_ws k 1001 s) (get j s.clients) (
      ap (λ i. get i (close_ws k 1001 s).clients) (sym p)
      ∙ get-close_ws_self k 1001 s
      ∙ ap (λ i. Option.map gone (get i s.clients)) p)
  | no p ↦
      close_all-keys d j (close_ws k 1001 s)
        (λ e. get-close_ws_ne k j 1001 s p ∙ h (get-cons_ne k j c d p ∙ e))
      ∙ ap (Option.map gone) (get-close_ws_ne k j 1001 s p)
]

-- The shutdown marks every client as gone, and changes nothing else of it; no client is added or removed.
pub shutdown-closes :
    (s : Server) (j : Str) → get j (shutdown s).clients ≡ Option.map gone (get j s.clients)
unfolding shutdown broadcast_to_all
shutdown-closes s j =
    let last : Frame =
      Frame.system_shutdown (codes "Server is shutting down. You will be disconnected.") in
    close_all-keys (broadcast_to_all last s).clients j (broadcast_to_all last s) (λ e. e)
    ∙ ap (λ d. Option.map gone (get j d)) (clients-send_each (keys s.clients) last s)
