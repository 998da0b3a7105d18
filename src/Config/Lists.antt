-- ===== src/Config/Lists.antt =====
-- The list settings: what `csv` of server/config.py makes of names with commas between them.
use group_chat.Prelude.{
  ℕ, ◌==◌, ◌≡◌, ◌≢◌, ◌∙◌, refl, ap, true, false, some, List, [], ◌∷◌, ◌++◌, Str, map, All,
}
use group_chat.Config.{csv, split, cons_first, nonempty}
use group_chat.Python.{Python}
use group_chat.Python.Text.{strip}

-- The names with `sep` between them.
pub joined : ℕ → List Str → Str
joined sep [] = []
joined sep (name ∷ []) = name
joined sep (name ∷ next ∷ names) = name ++ sep ∷ joined sep (next ∷ names)

-- A text without the character.
abbrev IsFree : ℕ → Str → Type 0
IsFree sep s = All (λ c. (c == sep) ≡ false) s

-- A name that a list setting can hold.
pub record IsName (py : Python) (name : Str) : Type 0 where
  pub stripped : strip py.is_space name ≡ name
  pub filled : name ≢ []
  pub free : IsFree b',' name

split-free : (sep : ℕ) (s : Str) → IsFree sep s → split sep s ≡ s ∷ []
unfolding split cons_first
split-free sep [] h = refl
split-free sep (c ∷ s) h = rw (h.0, split-free sep s h.1) refl

split-append :
    (sep : ℕ) (s t : Str)
    → (sep == sep) ≡ true
    → IsFree sep s
    → split sep (s ++ sep ∷ t) ≡ s ∷ split sep t
unfolding split cons_first
split-append sep [] t same h = rw same refl
split-append sep (c ∷ s) t same h = rw (h.0, split-append sep s t same h.1) refl

split-joined :
    (py : Python) (name : Str) (names : List Str)
    → All (IsName py) (name ∷ names)
    → split b',' (joined b',' (name ∷ names)) ≡ name ∷ names
unfolding joined
split-joined py name [] h = split-free b',' name h.0.free
split-joined py name (next ∷ names) h =
    split-append b',' name (joined b',' (next ∷ names)) refl h.0.free
    ∙ ap (◌∷◌ name) (split-joined py next names h.1)

nonempty-names :
    (py : Python) (names : List Str)
    → All (IsName py) names
    → nonempty (map (strip py.is_space) names) ≡ names
unfolding nonempty
nonempty-names py [] h = refl
nonempty-names py ([] ∷ names) h = elim (h.0.filled refl) [ ]
nonempty-names py ((c ∷ s) ∷ names) h =
    rw h.0.stripped (ap (λ l. (c ∷ s) ∷ l) (nonempty-names py names h.1))

-- The names of a list setting, written with commas between them, are read back in order: for one name or
-- more, each without a comma, not empty, and without blanks around it. The fallback is not used.
csv-joined :
    (py : Python) (name : Str) (names fallback : List Str)
    → All (IsName py) (name ∷ names)
    → csv py (some (joined b',' (name ∷ names))) fallback ≡ name ∷ names
unfolding csv split
csv-joined py name names fallback h = go (joined b',' (name ∷ names)) refl
  where
    parts : split b',' (joined b',' (name ∷ names)) ≡ name ∷ names
    parts = split-joined py name names h

    go : (raw : Str) → raw ≡ joined b',' (name ∷ names) → csv py (some raw) fallback ≡ name ∷ names
    go [] e =
        let one : [] ∷ [] ≡ name ∷ names = ap (split b',') e ∙ parts in elim (h.0.filled (cc)) [ ]
    go (c ∷ raw) e =
        ap (λ l. nonempty (map (strip py.is_space) l)) (ap (split b',') e ∙ parts)
        ∙ nonempty-names py (name ∷ names) h
