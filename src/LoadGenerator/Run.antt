-- ===== src/LoadGenerator/Run.antt =====
-- A run of the load generator: `run_load_test`, the users of `main`'s stages and the tasks that run side by
-- side. A task goes on from one wait to the next, so a run is a sequence of events: a request of a user
-- that has ended (with the clock that the loop read before it), a tick of the reporter, an answer for
-- the scraper. The choices of `random` and the clock are part of the events.
use group_chat.Prelude.{
  ℕ, ◌+◌, ◌*◌, ◌==◌, Bool, true, false, Option, List, [], ◌∷◌, ◌++◌, Str, ltb, if◌then◌else◌,
}
use group_chat.LoadGenerator.{
  Stats, no_stats, record_one, Quotient, quotient, Snapshot, snapshot, Turn, payload, is_ok,
}
use group_chat.LoadGenerator.Reports.{Sample, sample, Scraped, scrape}
use group_chat.Python.{Fields}

-- The parameters of a run that its tasks use; `end_time` is `start_time + duration`.
pub record Settings : Type 0 where
  pub num_users : ℕ
  pub duration : ℕ
  pub end_time : ℕ
  pub msg_max_len : ℕ
  pub username : ℕ → Str

-- `ramp_delay`
unfoldable ramp_delay : ℕ → ℕ → ℕ → Quotient
ramp_delay num_users ramp_up uid =
    if ltb 0 ramp_up then quotient (uid * ramp_up) num_users else quotient 0 1

-- `interval` of the reporter
abbrev pub interval : ℕ
interval = 5

-- What the run holds: which users are still in their loops and what each has posted, the measures, the
-- reporter's time series and whether it goes on, and the scraper's history.
pub record Run : Type 0 where
  pub active : ℕ → Bool
  pub posts : ℕ → List Fields
  pub stats : Stats
  pub timeseries : List Sample
  pub reporting : Bool
  pub history : List Fields

abbrev pub start : Run
start = record {
  active = λ _. true;
  posts = λ _. [];
  stats = no_stats;
  timeseries = [];
  reporting = true;
  history = [];
}

pub data RunEvent : Type 0 where
  turn : ℕ → Turn → RunEvent
  tick : ℕ → RunEvent
  answer : Option Scraped → RunEvent

-- The value of one user is another.
unfoldable pub at_user : {A : Type 0} → ℕ → A → (ℕ → A) → ℕ → A
at_user uid x f j = if j == uid then x else f j

-- A round of `virtual_user`: its condition, its request and its measure.
unfoldable pub user_turn : Settings → ℕ → Turn → Run → Run
unfolding at_user
user_turn c uid t r =
    if ltb t.now c.end_time
    then (record r {
      posts = at_user uid (r.posts uid ++ payload c.msg_max_len (c.username uid) t ∷ []) r.posts;
      stats = record_one t.latency (is_ok t.status) r.stats;
    })
    else record r { active = at_user uid false r.active }

-- A round of `reporter`.
unfoldable pub report : Settings → ℕ → Run → Run
report c elapsed r =
    if ltb (c.duration + interval) elapsed
    then (record r { reporting = false })
    else record r { timeseries = r.timeseries ++ sample elapsed r.stats ∷ [] }

-- One event; there are `num_users` users, and a task that has ended does nothing.
unfoldable pub happen : Settings → RunEvent → Run → Run
unfolding user_turn report
happen c (turn uid t) r =
    if ltb uid c.num_users then if r.active uid then user_turn c uid t r else r else r
happen c (tick elapsed) r = if r.reporting then report c elapsed r else r
happen c (answer a) r = record r { history = scrape a r.history }

unfoldable pub run_events : Settings → List RunEvent → Run → Run
unfolding happen
run_events c [] r = r
run_events c (e ∷ es) r = run_events c es (happen c e r)

-- `run_load_test`: the measures after the events, and the report on them.
unfoldable pub run_load_test : Settings → List RunEvent → ℕ → Run × Snapshot
unfolding run_events
run_load_test c es elapsed = let r = run_events c es start in (r, snapshot elapsed r.stats)

-- The numbers of users of `main`'s runs.
unfoldable stages : Bool → ℕ → List ℕ
stages scale_test users = if scale_test then 200 ∷ 500 ∷ 1000 ∷ 2000 ∷ [] else users ∷ []
