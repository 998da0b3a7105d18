-- ===== src/Python/Text.antt =====
-- `strip`, and the Unicode facts that the proofs use, as hypotheses on the runtime.
use group_chat.Prelude.{ℕ, Bool, true, false, [], ◌∷◌, Str, if◌then◌else◌}

-- `s.lstrip()`
lstrip : (ℕ → Bool) → Str → Str
lstrip is_space [] = []
lstrip is_space (c ∷ s) = let rest = lstrip is_space s in if is_space c then rest else c ∷ s

keep : Bool → ℕ → Str → Str
keep true c [] = []
keep false c [] = c ∷ []
keep b c (d ∷ s) = c ∷ d ∷ s

-- `s.rstrip()`
rstrip : (ℕ → Bool) → Str → Str
unfolding keep
rstrip is_space [] = []
rstrip is_space (c ∷ s) = keep (is_space c) c (rstrip is_space s)

-- `s.strip()`
unfoldable pub strip : (ℕ → Bool) → Str → Str
unfolding lstrip rstrip
strip is_space s = rstrip is_space (lstrip is_space s)
