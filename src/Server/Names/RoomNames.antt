-- ===== src/Server/Names/RoomNames.antt =====
-- Which texts are room names.
use group_chat.Prelude.{
  ℕ, zero, suc, ◌≤◌, ◌≡◌, ◌∙◌, refl, ap, true, ◌⊎◌, inl, inr, ◌↔◌, [], ◌∷◌, ◌++◌, Str, All, length,
  arith, Bool-cases,
}
use group_chat.Server.Names.{is_word, at_end, match_up_to, match_room_name}

-- A word of at most `n` characters, alone or with a line feed behind it.
abbrev IsWordUpTo : ℕ → Str → Type 0
IsWordUpTo n s =
    (w : Str) × All (λ c. is_word c ≡ true) w × (length w ≤ n) × ((s ≡ w) ⊎ (s ≡ w ++ 10 ∷ []))

at_end_sound : (n : ℕ) (s : Str) → at_end s ≡ true → IsWordUpTo n s
unfolding at_end
at_end_sound n [] h = ([], tt, omega arith, inl refl)
at_end_sound n (c ∷ []) h = ([], tt, omega arith, inr (ground arith))
at_end_sound n (c ∷ d ∷ s) h = cc

cons_word : (n c : ℕ) (s : Str) → is_word c ≡ true → IsWordUpTo n s → IsWordUpTo (suc n) (c ∷ s)
cons_word n c s h (w, all, short, inl e) = (c ∷ w, (h, all), omega arith, inl (ap (◌∷◌ c) e))
cons_word n c s h (w, all, short, inr e) = (c ∷ w, (h, all), omega arith, inr (ap (◌∷◌ c) e))

match_up_to_sound : (n : ℕ) (s : Str) → match_up_to n s ≡ true → IsWordUpTo n s
unfolding match_up_to
match_up_to_sound n [] h = ([], tt, omega arith, inl refl)
match_up_to_sound zero (c ∷ s) h = at_end_sound 0 (c ∷ s) h
match_up_to_sound (suc n) (c ∷ s) h = elim (Bool-cases (is_word c)) [
  | inl word ↦ cons_word n c s word (match_up_to_sound n s (ground arith))
  | inr other ↦ at_end_sound (suc n) (c ∷ s) (ground arith)
]

-- A line feed is no word character.
line_feed_ends : (n : ℕ) → match_up_to n (10 ∷ []) ≡ true
unfolding match_up_to at_end is_word
line_feed_ends zero = refl
line_feed_ends (suc n) = refl

match_up_to-cons :
    (n c : ℕ) (s : Str) → is_word c ≡ true → match_up_to (suc n) (c ∷ s) ≡ match_up_to n s
unfolding match_up_to
match_up_to-cons n c s h = rw h

match_up_to_complete :
    (n : ℕ) (w : Str)
    → All (λ c. is_word c ≡ true) w
    → length w ≤ n
    → (match_up_to n w ≡ true) × (match_up_to n (w ++ 10 ∷ []) ≡ true)
match_up_to_complete n [] h short = (unfold match_up_to in refl, line_feed_ends n)
match_up_to_complete zero (c ∷ w) h short = absurd (omega arith)
match_up_to_complete (suc n) (c ∷ w) h short =
    let (word, line) = match_up_to_complete n w h.1 (omega arith) in
    (match_up_to-cons n c w h.0 ∙ word, match_up_to-cons n c (w ++ 10 ∷ []) h.0 ∙ line)

-- What the pattern accepts: a name of 1 to 24 word characters, alone or with a line feed behind it.
abbrev pub IsRoomName : Str → Type 0
IsRoomName s =
    (w : Str) × All (λ c. is_word c ≡ true) w
    × (1 ≤ length w)
    × (length w ≤ 24)
    × ((s ≡ w) ⊎ (s ≡ w ++ 10 ∷ []))

match_room_name_sound : (s : Str) → match_room_name s ≡ true → IsRoomName s
unfolding match_room_name
match_room_name_sound [] h = cc
match_room_name_sound (c ∷ s) h = named (match_up_to_sound 23 s (ground arith))
  where
    word : is_word c ≡ true
    word = ground arith

    named : IsWordUpTo 23 s → IsRoomName (c ∷ s)
    named (w, all, short, inl e) =
        (c ∷ w, (word, all), omega arith, omega arith, inl (ap (◌∷◌ c) e))
    named (w, all, short, inr e) =
        (c ∷ w, (word, all), omega arith, omega arith, inr (ap (◌∷◌ c) e))

match_room_name_complete :
    (w : Str)
    → All (λ c. is_word c ≡ true) w
    → 1 ≤ length w
    → length w ≤ 24
    → (match_room_name w ≡ true) × (match_room_name (w ++ 10 ∷ []) ≡ true)
unfolding match_room_name
match_room_name_complete [] h long short = absurd (omega arith)
match_room_name_complete (c ∷ w) h long short =
    let (word, line) = match_up_to_complete 23 w h.1 (omega arith) in (rw h.0 word, rw h.0 line)

-- A text is taken for a room name exactly if it is 1 to 24 letters, digits, "_" or "-", or such a name
-- with one line feed behind it, which `$` lets through.
pub match_room_name_iff : (s : Str) → (match_room_name s ≡ true) ↔ IsRoomName s
match_room_name_iff s = (match_room_name_sound s, complete)
  where
    complete : IsRoomName s → match_room_name s ≡ true
    complete (w, all, long, short, inl e) = rw e (match_room_name_complete w all long short).0
    complete (w, all, long, short, inr e) = rw e (match_room_name_complete w all long short).1
