-- ===== src/LoadGenerator/Messages.antt =====
-- The messages of the load generator: the loop ends, and how long they are.
use group_chat.Prelude.{
  ℕ, zero, suc, ◌+◌, ◌≤◌, ◌≡◌, refl, List, [], ◌∷◌, Str, length, take, arith, length-append,
  length-take-le, inl, inr, ◌⊎◌,
}
use group_chat.LoadGenerator.{pick_words, spaced, random_message}

-- What the loop counts of its words.
pub spent : List Str → ℕ
spent [] = 0
spent (w ∷ ws) = length w + 1 + spent ws

-- With the fuel the loop goes on until its condition is false.
pick_words-spent :
    (fuel target total : ℕ) (next : ℕ → Str) (i : ℕ)
    → target ≤ fuel + total
    → target ≤ total + spent (pick_words fuel target total next i)
unfolding pick_words spent
pick_words-spent zero target total next i h = omega arith
pick_words-spent (suc fuel) target total next i h =
    ground
      (arith, pick_words-spent fuel target (total + length (next i) + 1) next (suc i) (omega arith))

spent-spaced : (ws : List Str) → spent ws ≤ length (spaced ws) + 1
unfolding spent spaced
spent-spaced [] = omega arith
spent-spaced (w ∷ []) = omega arith
spent-spaced (w ∷ w' ∷ ws) =
    omega (arith, spent-spaced (w' ∷ ws), length-append w (b' ' ∷ spaced (w' ∷ ws)))

length-take_cases : (n : ℕ) (s : Str) → (length (take n s) ≡ n) ⊎ (length (take n s) ≡ length s)
length-take_cases zero s = inl refl
length-take_cases (suc n) [] = inr refl
length-take_cases (suc n) (c ∷ s) = ground (arith, length-take_cases n s)

-- For a target between the two bounds, whatever words are chosen, the loop adds words until the target is
-- reached, and the message has at most `max_len` characters and at least `min_len` less one.
pub length-random_message :
    (min_len max_len target : ℕ) (next : ℕ → Str)
    → min_len ≤ target
    → target ≤ max_len
    → (target ≤ spent (pick_words target target 0 next 0))
      × (length (random_message target max_len next) ≤ max_len)
      × (min_len ≤ length (random_message target max_len next) + 1)
unfolding random_message
length-random_message min_len max_len target next low high =
    let enough = pick_words-spent target target 0 next 0 (omega arith) in
    let words = pick_words target target 0 next 0 in
    (
      omega (arith, enough),
      length-take-le max_len (spaced words),
      ground (arith, enough, spent-spaced words, length-take_cases max_len (spaced words)),
    )
