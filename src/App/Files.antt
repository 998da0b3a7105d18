-- ===== src/App/Files.antt =====
-- app.py: the routes around the messages: /health, /metrics, /ws and the files of the browser client. The
-- file system, the clock and the load of the machine are arguments.
use group_chat.Prelude.{
  ℕ, ◌-◌, ◌≡◌, ◌∙◌, refl, ap, Bool, true, Option, [], ◌∷◌, ◌++◌, Str, arith, if◌then◌else◌,
}
use Prim.Native.Nat.{◌/◌}
use group_chat.App.Defs.{count_in, count_out}
use group_chat.Gossip.{starts_with}
use group_chat.Host.{Host, Draw}
use group_chat.Python.{Value}
use group_chat.Server.Defs.{Server}
use group_chat.Server.Session.{connect, disconnect}
use group_chat.Store.Defs.{Store}

-- What `static_file` answers: 403, a file, or the start page.
pub data FileAnswer : Type 0 where
  forbidden : FileAnswer
  file : Str → FileAnswer
  start_page : FileAnswer

-- `static_file`: `resolve` is `(_PUBLIC / filename).resolve()` as a text, `root` that of `_PUBLIC`.
unfoldable static_file : (Str → Str) → (Str → Bool) → Str → Str → FileAnswer
static_file resolve is_file root filename =
    if starts_with root (resolve filename)
    then (if is_file (resolve filename) then file (resolve filename) else start_page)
    else forbidden

-- `get_metrics`, with the load of the processor and of the memory in percent, and `metrics`.
pub record Metrics : Type 0 where
  pub cpu_pct : ℕ
  pub mem_pct : ℕ
  pub active_connections : ℕ
  pub uptime_sec : ℕ
  pub server_id : Str

unfoldable metrics : Host → ℕ → ℕ → ℕ → ℕ → Store → Metrics
metrics h cpu mem started now s = record {
  cpu_pct = cpu;
  mem_pct = mem;
  active_connections = s.active_connections;
  uptime_sec = (now - started) / 1000;
  server_id = h.cfg.server_id;
}

-- `ws_route`: the connection is counted from before its start to after its end.
unfoldable ws_opened : Host → Draw → Value → Option Str → Server → Server
unfolding count_in
ws_opened h d room username s = connect h d room username (count_in h s)

unfoldable ws_closed : Host → Str → Server → Server
unfolding count_out
ws_closed h cid s = count_out h (disconnect h cid s)

starts_with-append : (p s : Str) → starts_with p s ≡ true → (rest : Str) × (s ≡ p ++ rest)
unfolding starts_with
starts_with-append [] s e = (s, refl)
starts_with-append (a ∷ p) [] e = absurd (cc)
starts_with-append (a ∷ p) (b ∷ s) e =
    let same : a ≡ b = ground arith in
    let (rest, split) = starts_with-append p s (ground arith) in
    (rest, rw same (ap (λ l. b ∷ l) split))

-- A file that is served has a path that begins with the text of the directory's path. This is not the
-- directory itself: a path of a sibling, whose name continues the directory's, passes too.
static_file-root :
    (resolve : Str → Str) (is_file : Str → Bool) (root filename path : Str)
    → static_file resolve is_file root filename ≡ file path
    → (rest : Str) × (path ≡ root ++ rest)
unfolding static_file
static_file-root resolve is_file root filename path e =
    let passed : starts_with root (resolve filename) ≡ true = ground arith in
    let served : path ≡ resolve filename = ground arith in
    let (rest, split) = starts_with-append root (resolve filename) passed in (rest, served ∙ split)
