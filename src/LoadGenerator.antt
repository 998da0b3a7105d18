-- ===== src/LoadGenerator.antt =====
-- load_generator/load_gen.py: the virtual users, their messages and the measures. What `random` and the
-- clock give is an argument, and a time is a natural number.
pub mod Messages
pub mod Measures
pub mod Requests
pub mod Reports
pub mod Run
pub mod Users
use group_chat.Prelude.{
  ℕ, zero, suc, ◌+◌, ◌*◌, ◌==◌, Bool, true, false, Option, none, some, List, [], ◌∷◌, ◌++◌, Str,
  codes, length, take, ltb, leb, if◌then◌else◌,
}
use Prim.Native.Nat.{◌/◌}
use group_chat.Python.{Python, Fields, str, pos}
use group_chat.Ring.{append_max}

-- `while total < target`, with `next` the choices of `random.choice`; there is fuel for the rounds.
pub pick_words : ℕ → ℕ → ℕ → (ℕ → Str) → ℕ → List Str
pick_words zero target total next i = []
pick_words (suc fuel) target total next i =
    let rest = pick_words fuel target (total + length (next i) + 1) next (suc i) in
    if ltb total target then next i ∷ rest else []

-- `' '.join(words)`
pub spaced : List Str → Str
spaced [] = []
spaced (w ∷ []) = w
spaced (w ∷ w' ∷ ws) = w ++ b' ' ∷ spaced (w' ∷ ws)

-- `random_message`, with the target that `random.randint` drew. A round adds 1 at least, so that as many
-- rounds as the target are enough.
pub random_message : ℕ → ℕ → (ℕ → Str) → Str
unfolding pick_words spaced
random_message target max_len next = take max_len (spaced (pick_words target target 0 next 0))

-- `random_username`, with the number that `random.randint` drew
unfoldable random_username : Python → ℕ → ℕ → Str
random_username py user_id number =
    codes "user_" ++ py.str_of_int (pos user_id) ++ codes "_" ++ py.str_of_int (pos number)

-- `Stats`; the time series is the reporter's.
pub record Stats : Type 0 where
  pub latencies : List ℕ
  pub errors : ℕ
  pub success : ℕ
  pub window : List ℕ

abbrev pub window_size : ℕ
window_size = 1000

abbrev pub no_stats : Stats
no_stats = record { latencies = []; errors = 0; success = 0; window = [] }

-- `Stats.record`
pub record_one : ℕ → Bool → Stats → Stats
record_one latency ok s =
    if ok
    then (record s {
      success = s.success + 1;
      latencies = s.latencies ++ latency ∷ [];
      window = append_max window_size s.window latency;
    })
    else record s { errors = s.errors + 1 }

-- `sorted(lats)`
pub insert_number : ℕ → List ℕ → List ℕ
insert_number x [] = x ∷ []
insert_number x (y ∷ l) = if leb x y then x ∷ y ∷ l else y ∷ insert_number x l

pub sort_numbers : List ℕ → List ℕ
unfolding insert_number
sort_numbers [] = []
sort_numbers (x ∷ l) = insert_number x (sort_numbers l)

-- `sl[i]`; the index is always in the list, and 0.0 stands for an empty one.
pub at : ℕ → List ℕ → ℕ
at i [] = 0
at zero (x ∷ l) = x
at (suc i) (x ∷ l) = at i l

-- `sl[int(len(sl) * p)]` for p in percent
pub percentile : ℕ → List ℕ → ℕ
unfolding at
percentile p l = at (length l * p / 100) l

-- A quotient of the report: 0 where the divisor is not positive.
pub record Quotient : Type 0 where
  pub dividend : ℕ
  pub divisor : ℕ

pub quotient : ℕ → ℕ → Quotient
quotient a b =
    if ltb 0 b then (record { dividend = a; divisor = b }) else record { dividend = 0; divisor = 1 }

-- The dictionary of `snapshot`.
pub record Snapshot : Type 0 where
  pub elapsed : ℕ
  pub total : ℕ
  pub success : ℕ
  pub errors : ℕ
  pub tput_rps : Quotient
  pub err_rate_pct : Quotient
  pub p50 : ℕ
  pub p95 : ℕ
  pub p99 : ℕ

pub snapshot : ℕ → Stats → Snapshot
unfolding quotient percentile sort_numbers
snapshot elapsed s =
    let total = s.success + s.errors in
    let sl = sort_numbers s.window in
    record {
      elapsed = elapsed;
      total = total;
      success = s.success;
      errors = s.errors;
      tput_rps = quotient total elapsed;
      err_rate_pct = quotient (s.errors * 100) total;
      p50 = percentile 50 sl;
      p95 = percentile 95 sl;
      p99 = percentile 99 sl;
    }

-- A round of a virtual user: the clock at its start, the choices for its message, the status of the
-- response, `none` where the request raises, and the time that it took.
pub record Turn : Type 0 where
  pub now : ℕ
  pub target : ℕ
  pub next : ℕ → Str
  pub status : Option ℕ
  pub latency : ℕ

-- `payload`
pub payload : ℕ → Str → Turn → Fields
unfolding random_message
payload max_len username t =
    Fields.field "client-name" (str username)
      (Fields.field "msg" (str (random_message t.target max_len t.next)) Fields.end)

-- `resp.status < 500`
pub is_ok : Option ℕ → Bool
is_ok none = false
is_ok (some status) = ltb status 500

-- The loop of `virtual_user`: the payloads that it posts, and the measures.
pub virtual_user : ℕ → Str → ℕ → List Turn → Stats → List Fields × Stats
unfolding payload is_ok record_one
virtual_user max_len username end_time [] s = ([], s)
virtual_user max_len username end_time (t ∷ ts) s =
    let (posts, s') =
      virtual_user max_len username end_time ts (record_one t.latency (is_ok t.status) s) in
    if ltb t.now end_time then (payload max_len username t ∷ posts, s') else ([], s)
