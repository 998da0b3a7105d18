-- ===== src/Config/Load.antt =====
-- The module variables of server/config.py: what an import of it reads, and when it raises.
use mathlib.Core.Path.{subst, fun_ext}
use group_chat.Prelude.{
  ◌≡◌, Option, none, some, List, [], ◌∷◌, Str, String, codes, Dict, get, arith,
}
use group_chat.Config.{csv, peers_of, admins_of}
use group_chat.Config.Env.{
  EnvFile, load_dotenv, or_later, first_value, read_lines, load_dotenv-first,
}
use group_chat.Python.{Python, ℤ}
use group_chat.Result.{Result, ok, checked, ◌>>=◌}

-- The variables that are read from the environment.
pub record Loaded : Type 0 where
  pub port : ℤ
  pub server_id : Str
  pub peers : List Str
  pub uvicorn_workers : ℤ
  pub default_rooms : List Str
  pub admin_usernames : List Str
  pub history_limit : ℤ
  pub heartbeat_interval_ms : ℤ
  pub idle_timeout_ms : ℤ

-- `os.environ.get(name, fallback)`
unfoldable env_or : String → String → Dict Str → Str
env_or name fallback env = elim (get (codes name) env) [ none ↦ codes fallback | some v ↦ v ]

-- `int(os.environ.get(name, fallback))`, which may raise a `ValueError`
unfoldable env_int : Python → String → String → Dict Str → Result ℤ
unfolding env_or
env_int py name fallback env = checked (py.parse_int (env_or name fallback env))

-- The assignments of the module, in an environment
unfoldable pub read_settings : Python → Dict Str → Result Loaded
unfolding env_or env_int peers_of admins_of csv
read_settings py env = do
  port ← env_int py "PORT" "5000" env
  uvicorn_workers ← env_int py "UVICORN_WORKERS" "1" env
  history_limit ← env_int py "HISTORY_LIMIT" "50" env
  heartbeat_interval_ms ← env_int py "HEARTBEAT_INTERVAL_MS" "30000" env
  idle_timeout_ms ← env_int py "IDLE_TIMEOUT_MS" "300000" env
  ok (record {
    port = port;
    server_id = env_or "SERVER_ID" "backend-unknown" env;
    peers = peers_of py (get (codes "PEERS") env) (get (codes "BACKENDS") env);
    uvicorn_workers = uvicorn_workers;
    default_rooms =
        csv py (get (codes "DEFAULT_ROOMS") env)
          (codes "general" ∷ codes "random" ∷ codes "tech" ∷ []);
    admin_usernames = admins_of py (get (codes "ADMIN_USERNAMES") env);
    history_limit = history_limit;
    heartbeat_interval_ms = heartbeat_interval_ms;
    idle_timeout_ms = idle_timeout_ms;
  })

-- The whole module: the files' variables, and then the assignments.
unfoldable pub load : Python → List (Option EnvFile) → Dict Str → Result Loaded
unfolding read_settings
load py files env = read_settings py (load_dotenv py files env)

-- The value of a setting that has a fallback.
abbrev given : Option Str → String → Str
given v fallback = elim v [ none ↦ codes fallback | some s ↦ s ]

-- The variables are those that these values of the environment give.
pub record AreFrom (py : Python) (value : String → Option Str) (r : Loaded) : Type 0 where
  pub port : py.parse_int (given (value "PORT") "5000") ≡ some r.port
  pub server_id : r.server_id ≡ given (value "SERVER_ID") "backend-unknown"
  pub peers : r.peers ≡ peers_of py (value "PEERS") (value "BACKENDS")
  pub uvicorn_workers : py.parse_int (given (value "UVICORN_WORKERS") "1") ≡ some r.uvicorn_workers
  pub default_rooms :
      r.default_rooms
      ≡ csv py (value "DEFAULT_ROOMS") (codes "general" ∷ codes "random" ∷ codes "tech" ∷ [])
  pub admin_usernames : r.admin_usernames ≡ admins_of py (value "ADMIN_USERNAMES")
  pub history_limit : py.parse_int (given (value "HISTORY_LIMIT") "50") ≡ some r.history_limit
  pub heartbeat_interval_ms :
      py.parse_int (given (value "HEARTBEAT_INTERVAL_MS") "30000") ≡ some r.heartbeat_interval_ms
  pub idle_timeout_ms :
      py.parse_int (given (value "IDLE_TIMEOUT_MS") "300000") ≡ some r.idle_timeout_ms

read_settings-AreFrom :
    (py : Python) (env : Dict Str) (r : Loaded)
    → read_settings py env ≡ ok r
    → AreFrom py (λ k. get (codes k) env) r
unfolding read_settings env_int env_or
read_settings-AreFrom py env r e = record {
  port = ground arith;
  server_id = ground arith;
  peers = ground arith;
  uvicorn_workers = ground arith;
  default_rooms = ground arith;
  admin_usernames = ground arith;
  history_limit = ground arith;
  heartbeat_interval_ms = ground arith;
  idle_timeout_ms = ground arith;
}

-- An import that does not raise reads every setting from the value that the environment had before, if it was
-- set, otherwise from the first line that assigns it in the files up to the first one that was read to its
-- end, and otherwise from its fallback: the five numbers are the integers that `int` makes of these
-- texts, and the lists are their parts.
pub load-AreFrom :
    (py : Python) (files : List (Option EnvFile)) (env : Dict Str) (r : Loaded)
    → load py files env ≡ ok r
    → AreFrom py (λ k. or_later (get (codes k) env) (first_value py (codes k) (read_lines files))) r
unfolding load
load-AreFrom py files env r e =
    subst (λ value. AreFrom py value r) (fun_ext (λ k. load_dotenv-first py (codes k) files env))
      (read_settings-AreFrom py (load_dotenv py files env) r e)
