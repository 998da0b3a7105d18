-- ===== src/LoadGenerator/Reports.antt =====
-- What the load generator collects beside the latencies, and what it writes: the scraper of /metrics, the
-- reporter's time series and the rows of the CSV files. Formatting and files are not modelled.
use group_chat.Prelude.{
  ℕ, suc, ◌+◌, ◌≤◌, ◌≡◌, ◌∙◌, refl, ap, Bool, Option, none, some, List, [], ◌∷◌, ◌++◌, Str, String,
  codes, length, map, ltb, ◌==◌, All, arith, if_intro, if◌then◌else◌,
}
use text.Mathlib.Text.{◌==◌ as name_eq}
use group_chat.Ring.{newest}
use group_chat.LoadGenerator.{Stats, Quotient, no_stats, snapshot}
use group_chat.LoadGenerator.Measures.{records, good, records-Counts}
use group_chat.Python.{Value, Fields, str, obj, int, pos, field_or}

-- An entry of `timeseries`.
pub record Sample : Type 0 where
  pub elapsed : ℕ
  pub tput_rps : Quotient
  pub errors : ℕ
  pub success : ℕ

pub sample : ℕ → Stats → Sample
sample elapsed s =
    let shot = snapshot elapsed s in
    record {
      elapsed = elapsed;
      tput_rps = shot.tput_rps;
      errors = shot.errors;
      success = shot.success;
    }

-- `reporter`: what it appends to the time series, where each wait ends at the given time and finds the
-- given measures.
unfoldable reporter : ℕ → ℕ → List (ℕ × Stats) → List Sample
unfolding sample
reporter total_duration interval [] = []
reporter total_duration interval ((elapsed, s) ∷ ticks) =
    let later = reporter total_duration interval ticks in
    if ltb (total_duration + interval) elapsed then [] else sample elapsed s ∷ later

-- `data[k] = v`
unfoldable set_field : String → Value → Fields → Fields
set_field k v Fields.end = Fields.field k v Fields.end
set_field k v (Fields.field j w d) =
    if name_eq j k then Fields.field j v d else Fields.field j w (set_field k v d)

-- A response of /metrics: its status, its body where that is JSON, and the clock after it.
pub record Scraped : Type 0 where
  pub status : ℕ
  pub body : Option Value
  pub now : ℕ

-- A round of `MetricsScraper.run`: `none` is a request that raises, and a body that is no object raises
-- too; both are passed over.
unfoldable pub scrape : Option Scraped → List Fields → List Fields
unfolding set_field
scrape none history = history
scrape (some r) history =
    if r.status == 200
    then elim r.body [
      | some (obj d) ↦ history ++ set_field "_t" (int (pos r.now)) d ∷ []
      | _ ↦ history
    ]
    else history

-- The first column of the file of latencies; `shown` is `f'{lat:.2f}'`.
unfoldable latency_rows : (ℕ → Str) → Stats → List Str
latency_rows shown s = codes "latency_ms" ∷ map shown s.latencies

-- The row of an entry of the scraper's history, without `str` of its values.
unfoldable metrics_row : Fields → List Value
metrics_row entry =
    map (λ k. field_or (str []) k entry) ("_t" ∷ "lb_requests" ∷ "lb_errors" ∷ "uptime_sec" ∷ [])

-- Every entry of the time series is from within the run and one interval after it.
reporter-in_time :
    (total_duration interval : ℕ) (ticks : List (ℕ × Stats))
    → All (λ x. x.elapsed ≤ total_duration + interval) (reporter total_duration interval ticks)
unfolding reporter sample
reporter-in_time total_duration interval [] = tt
reporter-in_time total_duration interval ((elapsed, s) ∷ ticks) =
    if_intro (All (λ x. x.elapsed ≤ total_duration + interval))
      (ltb (total_duration + interval) elapsed) (λ _. tt)
      (λ e. (ground arith, reporter-in_time total_duration interval ticks))

length-map : (shown : ℕ → Str) (l : List ℕ) → length (map shown l) ≡ length l
length-map shown [] = refl
length-map shown (x ∷ l) = ap suc (length-map shown l)

-- The file has a row for each request that went well, below its head.
length-latency_rows :
    (shown : ℕ → Str) (rs : List (ℕ × Bool))
    → length (latency_rows shown (records rs no_stats)) ≡ suc (length (good rs))
unfolding latency_rows newest
length-latency_rows shown rs =
    let counts =
      records-Counts rs [] 0 no_stats
        (record { latencies = refl; success = refl; total = refl; window = refl }) in
    ap suc (length-map shown (records rs no_stats).latencies ∙ ap length counts.latencies)
