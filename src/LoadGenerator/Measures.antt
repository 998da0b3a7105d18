-- ===== src/LoadGenerator/Measures.antt =====
-- The measures of the load generator: what the counters and the window hold after any requests, and the
-- order of the percentiles.
use mathlib.Core.Path.{subst}
use mathlib.Core.List.{Mem, mem-cons_self, mem-cons_of_mem, append_assoc, append-nil}
use Prim.Native.Nat.{◌/◌}
use native.Mathlib.Nat.{add-zero}
use group_chat.Prelude.{
  All, if_intro, ℕ, zero, suc, ◌+◌, ◌-◌, ◌*◌, ◌≤◌, ◌<◌, ◌≡◌, ◌∙◌, refl, ap, Bool, true, false, List,
  [], ◌∷◌, ◌++◌, length, leb, arith, if◌then◌else◌, length-append, length-drop,
}
use group_chat.LoadGenerator.{
  Stats, no_stats, window_size, record_one, insert_number, sort_numbers, at, percentile, snapshot,
  Snapshot,
}
use group_chat.Ring.{append_max, newest, append_max-newest}

-- The results of requests, one after the other.
pub records : List (ℕ × Bool) → Stats → Stats
records [] s = s
records ((latency, ok) ∷ rs) s = records rs (record_one latency ok s)

-- The latencies of those that went well.
pub good : List (ℕ × Bool) → List ℕ
good [] = []
good ((latency, ok) ∷ rs) = if ok then latency ∷ good rs else good rs

-- The statistics agree with these latencies and this number of requests.
pub record Counts (lats : List ℕ) (n : ℕ) (s : Stats) : Type 0 where
  pub latencies : s.latencies ≡ lats
  pub success : s.success ≡ length lats
  pub total : s.success + s.errors ≡ n
  pub window : s.window ≡ newest window_size lats

record_one-Counts :
    (latency : ℕ) (ok : Bool) (lats : List ℕ) (n : ℕ) (s : Stats)
    → Counts lats n s
    → Counts (if ok then lats ++ latency ∷ [] else lats) (n + 1) (record_one latency ok s)
unfolding record_one
record_one-Counts latency true lats n s h = record {
  latencies = ap (λ l. l ++ latency ∷ []) h.latencies;
  success = omega (arith, h.success, length-append lats (latency ∷ []));
  total = omega (arith, h.total);
  window =
      ap (λ w. append_max window_size w latency) h.window
      ∙ append_max-newest window_size lats latency;
}
record_one-Counts latency false lats n s h = record {
  latencies = h.latencies;
  success = h.success;
  total = omega (arith, h.total);
  window = h.window;
}

pub records-Counts :
    (rs : List (ℕ × Bool)) (lats : List ℕ) (n : ℕ) (s : Stats)
    → Counts lats n s
    → Counts (lats ++ good rs) (n + length rs) (records rs s)
unfolding records good
records-Counts [] lats n s h = rw (append-nil lats, add-zero) h
records-Counts ((latency, true) ∷ rs) lats n s h =
    rw (← append_assoc lats (latency ∷ []) (good rs)) (
      let count : n + 1 + length rs ≡ n + suc (length rs) = omega arith in
      rw (← count) (
        records-Counts rs (lats ++ latency ∷ []) (n + 1) (record_one latency true s)
          (record_one-Counts latency true lats n s h)))
records-Counts ((latency, false) ∷ rs) lats n s h =
    let count : n + 1 + length rs ≡ n + suc (length rs) = omega arith in
    rw (← count) (
      records-Counts rs lats (n + 1) (record_one latency false s)
        (record_one-Counts latency false lats n s h))

-- The numbers stand in order.
abbrev Ordered : List ℕ → Type 0
Ordered [] = Unit
Ordered (x ∷ l) = All (λ y. x ≤ y) l × Ordered l

module _ (P : ℕ → Type 0) where
  All-insert_number : (x : ℕ) (l : List ℕ) → P x → All P l → All P (insert_number x l)
  unfolding insert_number
  All-insert_number x [] hx h = (hx, tt)
  All-insert_number x (y ∷ l) hx h =
      if_intro (All P) (leb x y) (λ _. (hx, h)) (λ _. (h.0, All-insert_number x l hx h.1))

  All-sort_numbers : (l : List ℕ) → All P l → All P (sort_numbers l)
  unfolding sort_numbers
  All-sort_numbers [] h = tt
  All-sort_numbers (x ∷ l) h = All-insert_number x (sort_numbers l) h.0 (All-sort_numbers l h.1)

  All-at : (i : ℕ) (l : List ℕ) → i < length l → All P l → P (at i l)
  unfolding at
  All-at i [] small h = absurd (omega arith)
  All-at zero (x ∷ l) small h = h.0
  All-at (suc i) (x ∷ l) small h = All-at i l (omega arith) h.1

All-le : (x y : ℕ) (l : List ℕ) → x ≤ y → All (λ z. y ≤ z) l → All (λ z. x ≤ z) l
All-le x y [] le h = tt
All-le x y (z ∷ l) le h = (omega (arith, h.0), All-le x y l le h.1)

insert_number-Ordered : (x : ℕ) (l : List ℕ) → Ordered l → Ordered (insert_number x l)
unfolding insert_number
insert_number-Ordered x [] h = (tt, tt)
insert_number-Ordered x (y ∷ l) h =
    if_intro Ordered (leb x y) (λ e. ((ground arith, All-le x y l (ground arith) h.0), h))
      (λ e. (All-insert_number (λ z. y ≤ z) x l (ground arith) h.0, insert_number-Ordered x l h.1))

sort_numbers-Ordered : (l : List ℕ) → Ordered (sort_numbers l)
unfolding sort_numbers
sort_numbers-Ordered [] = tt
sort_numbers-Ordered (x ∷ l) = insert_number-Ordered x (sort_numbers l) (sort_numbers-Ordered l)

at_le : (i j : ℕ) (l : List ℕ) → i ≤ j → j < length l → Ordered l → at i l ≤ at j l
unfolding at
at_le i j [] le small h = absurd (omega arith)
at_le zero zero (x ∷ l) le small h = omega arith
at_le zero (suc j) (x ∷ l) le small h = All-at (λ z. x ≤ z) j l (omega arith) h.0
at_le (suc i) zero (x ∷ l) le small h = absurd (omega arith)
at_le (suc i) (suc j) (x ∷ l) le small h = at_le i j l (omega arith) (omega arith) h.1

length-insert_number : (x : ℕ) (l : List ℕ) → length (insert_number x l) ≡ suc (length l)
unfolding insert_number
length-insert_number x [] = refl
length-insert_number x (y ∷ l) = ground (arith, length-insert_number x l)

length-sort_numbers : (l : List ℕ) → length (sort_numbers l) ≡ length l
unfolding sort_numbers
length-sort_numbers [] = refl
length-sort_numbers (x ∷ l) =
    omega (arith, length-sort_numbers l, length-insert_number x (sort_numbers l))

All-mem : (l : List ℕ) → All (λ x. Mem x l) l
All-mem [] = tt
All-mem (x ∷ l) = (mem-cons_self, weaken l (All-mem l))
  where
    weaken : (m : List ℕ) → All (λ y. Mem y l) m → All (λ y. Mem y (x ∷ l)) m
    weaken [] h = tt
    weaken (y ∷ m) h = (mem-cons_of_mem x h.0, weaken m h.1)

-- The three percentiles are in order, and are latencies of the list.
pub record ArePercentiles (lats : List ℕ) (s : Snapshot) : Type 0 where
  pub low : s.p50 ≤ s.p95
  pub high : s.p95 ≤ s.p99
  pub p50_of : Mem s.p50 lats
  pub p95_of : Mem s.p95 lats
  pub p99_of : Mem s.p99 lats

snapshot-ArePercentiles :
    (elapsed : ℕ) (s : Stats) → 0 < length s.window → ArePercentiles s.window (snapshot elapsed s)
unfolding snapshot percentile
snapshot-ArePercentiles elapsed s some_there =
    let n = length (sort_numbers s.window) in
    let same : n ≡ length s.window = length-sort_numbers s.window in
    let order = sort_numbers-Ordered s.window in
    let all = All-sort_numbers (λ x. Mem x s.window) s.window (All-mem s.window) in
    record {
      low =
          at_le (n * 50 / 100) (n * 95 / 100) (sort_numbers s.window) (omega arith)
            (omega (arith, same)) order;
      high =
          at_le (n * 95 / 100) (n * 99 / 100) (sort_numbers s.window) (omega arith)
            (omega (arith, same)) order;
      p50_of =
          All-at (λ x. Mem x s.window) (n * 50 / 100) (sort_numbers s.window) (omega (arith, same))
            all;
      p95_of =
          All-at (λ x. Mem x s.window) (n * 95 / 100) (sort_numbers s.window) (omega (arith, same))
            all;
      p99_of =
          All-at (λ x. Mem x s.window) (n * 99 / 100) (sort_numbers s.window) (omega (arith, same))
            all;
    }

-- After any results of requests, of any users and in any order: the statistics hold the latencies of all
-- that went well, in order; the successes and the errors add up to the number of requests; the window
-- holds the newest 1000 latencies; and the snapshot at any time, where one request went well, shows these
-- numbers, and three percentiles that are latencies of the window and in order.
snapshot-records :
    (rs : List (ℕ × Bool)) (elapsed : ℕ)
    → 0 < length (good rs)
    → Counts (good rs) (length rs) (records rs no_stats)
      × ((snapshot elapsed (records rs no_stats)).total ≡ length rs)
      × ArePercentiles (newest window_size (good rs)) (snapshot elapsed (records rs no_stats))
unfolding snapshot newest
snapshot-records rs elapsed some_good =
    let counts =
      records-Counts rs [] 0 no_stats
        (record { latencies = refl; success = refl; total = refl; window = refl }) in
    let counts' : Counts (good rs) (length rs) (records rs no_stats) =
      subst (λ n. Counts (good rs) n (records rs no_stats)) (omega arith) counts in
    let filled : 0 < length (records rs no_stats).window = omega (
      arith,
      some_good,
      ap length counts'.window,
      length-drop (length (good rs) - window_size) (good rs),
    ) in
    (
      counts',
      counts'.total,
      subst (λ w. ArePercentiles w (snapshot elapsed (records rs no_stats))) counts'.window
          (snapshot-ArePercentiles elapsed (records rs no_stats) filled),
    )
