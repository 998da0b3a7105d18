-- ===== src/LoadGenerator/Users.antt =====
-- The users of a run of the load generator: what each of them posts, and what is counted.
use mathlib.Core.Path.{subst}
use mathlib.Core.List.{append_assoc, append-nil}
use group_chat.Prelude.{
  ℕ, zero, suc, ◌+◌, ◌<◌, ◌==◌, ◌≡◌, ◌≢◌, ◌∙◌, refl, sym, ap, Bool, true, false, List, [], ◌∷◌,
  ◌++◌, length, ltb, arith, if◌then◌else◌, length-append, if_intro, inl, inr, ◌⊎◌, ℕ_discrete,
}
use group_chat.LoadGenerator.{
  Stats, no_stats, Turn, payload, is_ok, record_one, virtual_user, snapshot,
}
use group_chat.LoadGenerator.Requests.{record_one-total}
use group_chat.LoadGenerator.Run.{
  Settings, Run, RunEvent, start, interval, at_user, user_turn, report, happen, run_events,
  run_load_test,
}
use group_chat.Python.{Fields}

-- The requests of a user among the events.
abbrev pub turns_of : ℕ → List RunEvent → List Turn
turns_of uid [] = []
turns_of uid (RunEvent.turn v t ∷ es) = if uid == v then t ∷ turns_of uid es else turns_of uid es
turns_of uid (_ ∷ es) = turns_of uid es

-- The posts of the first users.
abbrev pub posts_up_to : ℕ → (ℕ → List Fields) → ℕ
posts_up_to zero posts = 0
posts_up_to (suc n) posts = posts_up_to n posts + length (posts n)

eq-cases : (a b : ℕ) → ((a ≡ b) × (a == b ≡ true)) ⊎ ((a ≢ b) × (a == b ≡ false))
eq-cases a b = elim (ℕ_discrete a b) [
  | yes p ↦ inl (p, ground arith)
  | no p ↦ inr (p, ground arith)
]

arrange :
    {A : Type 0} (a b : Bool) (p l : List A) (x : A)
    → (p ++ (if a then if b then x ∷ [] else [] else []))
        ++ (if if a then b else false then l else [])
      ≡ p ++ (if a then if b then x ∷ l else [] else [])
arrange true true p l x = append_assoc p (x ∷ []) l
arrange true false p l x = append-nil (p ++ [])
arrange false b p l x = append-nil (p ++ [])

module _ (c : Settings) where
  -- What a user posts on its own in these rounds.
  abbrev alone : ℕ → List Turn → List Fields
  alone uid ts = (virtual_user c.msg_max_len (c.username uid) c.end_time ts no_stats).0

  virtual_user-posts :
      (uid : ℕ) (ts : List Turn) (s : Stats)
      → (virtual_user c.msg_max_len (c.username uid) c.end_time ts s).0 ≡ alone uid ts
  unfolding virtual_user
  virtual_user-posts uid [] s = refl
  virtual_user-posts uid (t ∷ ts) s = ground (
    arith,
    virtual_user-posts uid ts (record_one t.latency (is_ok t.status) s),
    virtual_user-posts uid ts (record_one t.latency (is_ok t.status) no_stats),
  )

  -- The event of another user, and of another task, leaves a user as it was.
  record IsSame (uid : ℕ) (r r' : Run) : Type 0 where
    active : r'.active uid ≡ r.active uid
    posts : r'.posts uid ≡ r.posts uid

  happen-others :
      (uid v : ℕ) (t : Turn) (r : Run)
      → uid == v ≡ false
      → IsSame uid r (happen c (RunEvent.turn v t) r)
  unfolding happen user_turn at_user
  happen-others uid v t r other = record { active = ground arith; posts = ground arith }

  -- What a user has posted, and what it will.
  abbrev in_all : ℕ → Run → List RunEvent → List Fields
  in_all uid r es = r.posts uid ++ (if r.active uid then alone uid (turns_of uid es) else [])

  alone-turn :
      (uid : ℕ) (t : Turn) (ts : List Turn)
      → alone uid (t ∷ ts) ≡ (
          if ltb t.now c.end_time
          then payload c.msg_max_len (c.username uid) t ∷ alone uid ts
          else [])
  unfolding virtual_user
  alone-turn uid t ts =
      ground (arith, virtual_user-posts uid ts (record_one t.latency (is_ok t.status) no_stats))

  -- The round of a user that has not ended.
  happen-own_active :
      (uid : ℕ) (t : Turn) (r : Run)
      → uid < c.num_users
      → (happen c (RunEvent.turn uid t) r).active uid
        ≡ (if r.active uid then ltb t.now c.end_time else false)
  unfolding happen user_turn at_user
  happen-own_active uid t r there = ground arith

  happen-own_posts :
      (uid : ℕ) (t : Turn) (r : Run)
      → uid < c.num_users
      → (happen c (RunEvent.turn uid t) r).posts uid
        ≡ r.posts uid
          ++ (if r.active uid
              then if ltb t.now c.end_time
                then payload c.msg_max_len (c.username uid) t ∷ []
                else []
              else [])
  unfolding happen user_turn at_user
  happen-own_posts uid t r there = ground (arith, append-nil (r.posts uid))

  happen-own :
      (uid : ℕ) (t : Turn) (es : List RunEvent) (r : Run)
      → uid < c.num_users
      → in_all uid (happen c (RunEvent.turn uid t) r) es ≡ in_all uid r (RunEvent.turn uid t ∷ es)
  happen-own uid t es r there =
      let turns : turns_of uid (RunEvent.turn uid t ∷ es) ≡ t ∷ turns_of uid es = ground arith in
      rw (happen-own_active uid t r there, happen-own_posts uid t r there)
        (arrange (r.active uid) (ltb t.now c.end_time) (r.posts uid) (alone uid (turns_of uid es))
            (payload c.msg_max_len (c.username uid) t)
          ∙ ap (λ l. r.posts uid ++ (if r.active uid then l else []))
              (sym (ap (alone uid) turns ∙ alone-turn uid t (turns_of uid es))))

  happen-in_all :
      (uid : ℕ) (e : RunEvent) (es : List RunEvent) (r : Run)
      → uid < c.num_users
      → in_all uid (happen c e r) es ≡ in_all uid r (e ∷ es)
  happen-in_all uid (RunEvent.turn v t) es r there = elim (eq-cases uid v) [
    | inl (same, _) ↦
        subst
          (λ w.
            in_all uid (happen c (RunEvent.turn w t) r) es ≡ in_all uid r (RunEvent.turn w t ∷ es))
          same (happen-own uid t es r there)
    | inr (_, other) ↦
        let kept = happen-others uid v t r other in rw (other, kept.active, kept.posts) refl
  ]
  happen-in_all uid (RunEvent.tick elapsed) es r there = unfold happen report in (ground arith)
  happen-in_all uid (RunEvent.answer a) es r there = unfold happen in refl

  run_events-posts :
      (uid : ℕ) (es : List RunEvent) (r : Run)
      → uid < c.num_users
      → (run_events c es r).posts uid ≡ in_all uid r es
  unfolding run_events virtual_user
  run_events-posts uid [] r there = ground (arith, append-nil (r.posts uid))
  run_events-posts uid (e ∷ es) r there =
      run_events-posts uid es (happen c e r) there ∙ happen-in_all uid e es r there

  posts_up_to-same :
      (n : ℕ) (f g : ℕ → List Fields)
      → ((k : ℕ) → k < n → g k ≡ f k)
      → posts_up_to n g ≡ posts_up_to n f
  posts_up_to-same zero f g same = refl
  posts_up_to-same (suc n) f g same = omega (
    arith,
    posts_up_to-same n f g (λ k lt. same k (omega arith)),
    ap length (same n (omega arith)),
  )

  -- One user's posts are one more.
  posts_up_to-one :
      (n uid : ℕ) (f g : ℕ → List Fields)
      → uid < n
      → length (g uid) ≡ length (f uid) + 1
      → ((k : ℕ) → k == uid ≡ false → g k ≡ f k)
      → posts_up_to n g ≡ posts_up_to n f + 1
  posts_up_to-one zero uid f g lt one others = absurd (omega arith)
  posts_up_to-one (suc n) uid f g lt one others = elim (eq-cases n uid) [
    | inl (same, _) ↦
        let before = posts_up_to-same n f g (λ k small. others k (ground arith)) in
        let here : length (g n) ≡ length (f n) + 1 =
          subst (λ w. length (g w) ≡ length (f w) + 1) (sym same) one in
        omega (arith, before, here)
    | inr (ne, other) ↦
        let before = posts_up_to-one n uid f g (omega arith) one others in
        omega (arith, before, ap length (others n other))
  ]

  -- The measures count the posts.
  abbrev IsCounted : Run → Type 0
  IsCounted r = r.stats.success + r.stats.errors ≡ posts_up_to c.num_users r.posts

  user_turn-IsCounted :
      (uid : ℕ) (t : Turn) (r : Run)
      → uid < c.num_users
      → IsCounted r
      → IsCounted (user_turn c uid t r)
  unfolding user_turn at_user
  user_turn-IsCounted uid t r there h =
      if_intro IsCounted (ltb t.now c.end_time)
        (λ _.
          let post = payload c.msg_max_len (c.username uid) t in
          let one : length (at_user uid (r.posts uid ++ post ∷ []) r.posts uid)
              ≡ length (r.posts uid) + 1 =
            ground (arith, length-append (r.posts uid) (post ∷ [])) in
          omega (
            arith,
            h,
            record_one-total t.latency (is_ok t.status) r.stats,
            posts_up_to-one c.num_users uid r.posts (at_user uid (r.posts uid ++ post ∷ []) r.posts)
                there one (λ k other. ground arith),
          ))
        (λ _. h)

  happen-IsCounted : (e : RunEvent) (r : Run) → IsCounted r → IsCounted (happen c e r)
  unfolding happen
  happen-IsCounted (RunEvent.turn uid t) r h =
      if_intro IsCounted (ltb uid c.num_users)
        (λ there.
          if_intro IsCounted (r.active uid) (λ _. user_turn-IsCounted uid t r (ground arith) h)
            (λ _. h))
        (λ _. h)
  happen-IsCounted (RunEvent.tick elapsed) r h =
      if_intro IsCounted r.reporting
        (λ _.
          unfold report in
          (if_intro IsCounted (ltb (c.duration + interval) elapsed) (λ _. h) (λ _. h)))
        (λ _. h)
  happen-IsCounted (RunEvent.answer a) r h = h

  run_events-IsCounted :
      (es : List RunEvent) (r : Run) → IsCounted r → IsCounted (run_events c es r)
  unfolding run_events
  run_events-IsCounted [] r h = h
  run_events-IsCounted (e ∷ es) r h =
      run_events-IsCounted es (happen c e r) (happen-IsCounted e r h)

  -- For every order of the events of a run: each of its users has posted what it posts on its own in its
  -- rounds, whatever the other users, the reporter and the scraper do between them; and the total of the
  -- report is the number of the posts of all users.
  pub run_load_test-alone :
      (es : List RunEvent) (elapsed : ℕ)
      → ((uid : ℕ)
          → uid < c.num_users
          → (run_load_test c es elapsed).0.posts uid
            ≡ (virtual_user c.msg_max_len (c.username uid) c.end_time (turns_of uid es) no_stats).0)
        × ((run_load_test c es elapsed).1.total
            ≡ posts_up_to c.num_users (run_load_test c es elapsed).0.posts)
  unfolding run_load_test snapshot
  run_load_test-alone es elapsed = (
    λ uid there. run_events-posts uid es start there,
    run_events-IsCounted es start (no_posts c.num_users),
  )
    where
      no_posts : (n : ℕ) → 0 ≡ posts_up_to n (λ _. [])
      no_posts zero = refl
      no_posts (suc n) = omega (arith, no_posts n)
