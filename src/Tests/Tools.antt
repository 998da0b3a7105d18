-- ===== src/Tests/Tools.antt =====
-- Examples for the settings and the tools.
use group_chat.Prelude.{
  Dict, put, ◌*◌, ◌-◌, Str, ◌<◌, ◌==◌, if◌then◌else◌, ◌≡◌, str-discrete, ◌≤◌, ◌+◌, refl, true,
  false, none, some, List, [], ◌∷◌, codes, ℕ, Bool, length, arith, All, get,
}
use group_chat.App.Defs.{accepted, answer, post_message}
use group_chat.Config.Env.{EnvFile, load_dotenv, or_later, first_value, read_lines}
use group_chat.Config.Load.{Loaded, AreFrom, load, read_settings, load-AreFrom}
use group_chat.Config.Lists.{IsName}
use group_chat.LoadGenerator.{Turn, no_stats, pick_words, random_message, virtual_user}
use group_chat.LoadGenerator.Messages.{spent, length-random_message}
use group_chat.LoadGenerator.Requests.{virtual_user-accepted}
use group_chat.LoadGenerator.Run.{Settings, RunEvent, run_load_test}
use group_chat.LoadGenerator.Users.{turns_of, posts_up_to, run_load_test-alone}
use group_chat.Node.Accepted.{message_of}
use group_chat.Python.{Python, Fields, pos}
use group_chat.Result.{ok}
use group_chat.Python.Text.{strip}
use group_chat.Tests.{ascii, host, draw}
use group_chat.Tests.Node.{node}

two_rooms-IsName : All (IsName ascii) (codes "general" ∷ codes "random" ∷ [])
unfolding strip
two_rooms-IsName = (
  record {
    stripped = refl;
    filled = λ e. cc;
    free = (refl, (refl, (refl, (refl, (refl, (refl, (refl, tt)))))));
  },
  (
    record {
      stripped = refl;
      filled = λ e. cc;
      free = (refl, (refl, (refl, (refl, (refl, (refl, tt))))));
    },
    tt,
  ),
)

abbrev env_file : EnvFile
env_file = record { lines = codes "PORT=1 # one" ∷ codes "PORT=2" ∷ []; complete = true }

-- The number that digits are.
decimal : ℕ → Str → ℕ
decimal n [] = n
decimal n (c ∷ s) = decimal (n * 10 + (c - 48)) s

abbrev digits : Python
digits = record ascii { parse_int = λ s. some (pos (decimal 0 s)) }

-- The port is the file's, and the limit the environment's.
abbrev given_limit : Dict Str
given_limit = (codes "HISTORY_LIMIT", codes "7") ∷ []

abbrev settings_read : Loaded
settings_read = record {
  port = pos 1;
  server_id = codes "backend-unknown";
  peers = [];
  uvicorn_workers = pos 1;
  default_rooms = codes "general" ∷ codes "random" ∷ codes "tech" ∷ [];
  admin_usernames = codes "admin" ∷ [];
  history_limit = pos 7;
  heartbeat_interval_ms = pos 30000;
  idle_timeout_ms = pos 300000;
}

settings_loaded : load digits (none ∷ some env_file ∷ []) given_limit ≡ ok settings_read
unfolding load read_settings load_dotenv get put decimal str-discrete strip
settings_loaded = refl

load-AreFrom_example :
    AreFrom digits
      (λ k.
        or_later
          (get (codes k) given_limit)
          (first_value digits (codes k) (read_lines (none ∷ some env_file ∷ []))))
      settings_read
load-AreFrom_example =
    load-AreFrom digits (none ∷ some env_file ∷ []) given_limit settings_read settings_loaded

length-random_message_example :
    (3 ≤ spent (pick_words 3 3 0 (λ i. codes "fox") 0))
    × (length (random_message 3 5 (λ i. codes "fox")) ≤ 5)
    × (2 ≤ length (random_message 3 5 (λ i. codes "fox")) + 1)
length-random_message_example =
    length-random_message 2 5 3 (λ i. codes "fox") (omega arith) (omega arith)

abbrev results : List (ℕ × Bool)
results = (9, true) ∷ (4, true) ∷ (100, false) ∷ []

abbrev turn : Turn
turn = record { now = 1; target = 4; next = λ i. codes "fox"; status = some 200; latency = 7 }

virtual_user-accepted_example :
    All
      (λ body.
        (post_message host draw body Fields.end node).0
        ≡ accepted (answer host (message_of host draw body Fields.end)))
      (virtual_user 20 (codes "user_1_100") 9 (turn ∷ []) no_stats).0
    × ((virtual_user 20 (codes "user_1_100") 9 (turn ∷ []) no_stats).1.success
          + (virtual_user 20 (codes "user_1_100") 9 (turn ∷ []) no_stats).1.errors
        ≡ 0 + 0 + length (virtual_user 20 (codes "user_1_100") 9 (turn ∷ []) no_stats).0)
virtual_user-accepted_example =
    virtual_user-accepted host draw 20 (codes "user_1_100") 9 (turn ∷ []) no_stats node
      ((omega arith, omega arith), tt) (omega arith)

abbrev settings : Settings
settings = record {
  num_users = 2;
  duration = 9;
  end_time = 9;
  msg_max_len = 20;
  username = λ uid. if uid == 0 then codes "user_0_100" else codes "user_1_200";
}

-- The two users take turns, and the clock of the second one reaches the end.
abbrev events : List RunEvent
events =
    RunEvent.turn 1 turn
    ∷ RunEvent.turn 0 turn
    ∷ RunEvent.tick 5
    ∷ RunEvent.turn 1 (record turn { now = 9 })
    ∷ RunEvent.turn 0 turn
    ∷ []

run_load_test-alone_example :
    ((uid : ℕ)
      → uid < 2
      → (run_load_test settings events 9).0.posts uid
        ≡ (virtual_user 20 (settings.username uid) 9 (turns_of uid events) no_stats).0)
    × ((run_load_test settings events 9).1.total
        ≡ posts_up_to 2 (run_load_test settings events 9).0.posts)
run_load_test-alone_example = run_load_test-alone settings events 9
