-- ===== src/Config/Env.antt =====
-- server/config.py: `_load_dotenv`, which sets what the environment lacks from a file `.env`.
use group_chat.Prelude.{
  ℕ, ◌==◌, ◌≡◌, ◌∙◌, refl, sym, ap, Bool-cases, Bool, true, ◌||◌, Option, none, some, List, [], ◌∷◌,
  ◌++◌, Str, Dict, get, put, get-put, ite, str-discrete, arith, if◌then◌else◌, Option-cases, inl,
  inr,
}
use group_chat.Python.{Python}
use group_chat.Python.Text.{strip}

-- A file `.env`: the lines that the loop works off, and whether it reaches the end without an exception.
-- A line at which it raises sets nothing, and does not count.
pub record EnvFile : Type 0 where
  pub lines : List Str
  pub complete : Bool

-- `s.split(sep, 1)` where the separator stands in the text
split_once : ℕ → Str → Option (Str × Str)
split_once sep [] = none
split_once sep (c ∷ s) =
    if c == sep
    then some ([], s)
    else elim (split_once sep s) [ none ↦ none | some (a, b) ↦ some (c ∷ a, b) ]

-- `v.split('#', 1)[0]`, where there is a '#'
without_comment : Str → Str
unfolding split_once
without_comment v = elim (split_once b'#' v) [ none ↦ v | some (a, b) ↦ a ]

is_comment : Str → Bool
is_comment [] = true
is_comment (c ∷ s) = c == b'#'

is_quote : ℕ → Bool
is_quote c = c == b'\'' || c == b'"'

-- The variable that a line names and its value.
assignment : Python → Str → Option (Str × Str)
unfolding without_comment split_once is_comment is_quote
assignment py line =
    let l = strip py.is_space line in
    if is_comment l then none else elim (split_once b'=' l) [
      | none ↦ none
      | some (k, v) ↦ elim (strip py.is_space k) [
        | [] ↦ none
        | c ∷ name ↦ some (c ∷ name, strip is_quote (strip py.is_space (without_comment v)))
      ]
    ]

-- `if k and k not in os.environ: os.environ[k] = v`
set_missing : Option (Str × Str) → Dict Str → Dict Str
set_missing none env = env
set_missing (some (k, v)) env = elim (get k env) [ none ↦ put k v env | some _ ↦ env ]

load_lines : Python → List Str → Dict Str → Dict Str
unfolding set_missing assignment
load_lines py [] env = env
load_lines py (line ∷ lines) env = load_lines py lines (set_missing (assignment py line) env)

-- `_load_dotenv`: a candidate that is not there is `none`; a complete one ends the search.
unfoldable pub load_dotenv : Python → List (Option EnvFile) → Dict Str → Dict Str
unfolding load_lines
load_dotenv py [] env = env
load_dotenv py (none ∷ files) env = load_dotenv py files env
load_dotenv py (some f ∷ files) env =
    let env' = load_lines py f.lines env in
    let rest = load_dotenv py files env' in if f.complete then env' else rest

-- The lines that are worked off.
pub read_lines : List (Option EnvFile) → List Str
read_lines [] = []
read_lines (none ∷ files) = read_lines files
read_lines (some f ∷ files) =
    let rest = read_lines files in if f.complete then f.lines else f.lines ++ rest

pub or_later : Option Str → Option Str → Option Str
or_later none later = later
or_later (some v) later = some v

-- The value of `k` in an assignment, and the first one in the lines.
value_of : Str → Option (Str × Str) → Option Str
value_of k none = none
value_of k (some (j, v)) = ite (str-discrete j k) (some v) none

pub first_value : Python → Str → List Str → Option Str
first_value py k [] = none
first_value py k (line ∷ lines) =
    or_later (value_of k (assignment py line)) (first_value py k lines)

or_later-none : (a : Option Str) → or_later a none ≡ a
unfolding or_later
or_later-none none = refl
or_later-none (some v) = refl

or_later_assoc : (a b c : Option Str) → or_later (or_later a b) c ≡ or_later a (or_later b c)
unfolding or_later
or_later_assoc none b c = refl
or_later_assoc (some v) b c = refl

module _ (j v : Str) (env : Dict Str) where
  set_missing-none : get j env ≡ none → set_missing (some (j, v)) env ≡ put j v env
  unfolding set_missing
  set_missing-none e = ground arith

  set_missing-some : {w : Str} → get j env ≡ some w → set_missing (some (j, v)) env ≡ env
  unfolding set_missing
  set_missing-some e = ground arith

get-set_missing :
    (k : Str) (a : Option (Str × Str)) (env : Dict Str)
    → get k (set_missing a env) ≡ or_later (get k env) (value_of k a)
unfolding value_of or_later
get-set_missing k none env = unfold set_missing in sym (or_later-none (get k env))
get-set_missing k (some (j, v)) env = elim (Option-cases (get j env)) [
  | inl e ↦
      rw (set_missing-none j v env e, get-put j k v env)
        (elim (str-discrete j k)
          as (λ x. ite x (some v) (get k env) ≡ or_later (get k env) (ite x (some v) none)) [
            | yes p ↦ sym (ap (λ o. or_later o (some v)) (sym (ap (λ i. get i env) p) ∙ e))
            | no p ↦ sym (or_later-none (get k env))
          ])
  | inr (w, e) ↦
      rw (set_missing-some j v env e)
        (elim (str-discrete j k) as (λ x. get k env ≡ or_later (get k env) (ite x (some v) none)) [
          | yes p ↦ (let set : get k env ≡ some w = sym (ap (λ i. get i env) p) ∙ e in rw set refl)
          | no p ↦ sym (or_later-none (get k env))
        ])
]

get-load_lines :
    (py : Python) (k : Str) (lines : List Str) (env : Dict Str)
    → get k (load_lines py lines env) ≡ or_later (get k env) (first_value py k lines)
unfolding load_lines first_value
get-load_lines py k [] env = sym (or_later-none (get k env))
get-load_lines py k (line ∷ lines) env =
    let a = assignment py line in
    get-load_lines py k lines (set_missing a env)
    ∙ ap (λ o. or_later o (first_value py k lines)) (get-set_missing k a env)
    ∙ or_later_assoc (get k env) (value_of k a) (first_value py k lines)

first_value-append :
    (py : Python) (k : Str) (l l' : List Str)
    → first_value py k (l ++ l') ≡ or_later (first_value py k l) (first_value py k l')
unfolding first_value or_later
first_value-append py k [] l' = refl
first_value-append py k (line ∷ l) l' =
    ap (or_later (value_of k (assignment py line))) (first_value-append py k l l')
    ∙ sym (
        or_later_assoc (value_of k (assignment py line)) (first_value py k l) (first_value py k l'))

-- After `_load_dotenv` a variable has the value that it had before, if it was set, and otherwise that of the
-- first line that assigns it, in the files up to the first one that was read to its end; a variable
-- that no such line assigns stays unset.
pub load_dotenv-first :
    (py : Python) (k : Str) (files : List (Option EnvFile)) (env : Dict Str)
    → get k (load_dotenv py files env) ≡ or_later (get k env) (first_value py k (read_lines files))
unfolding load_dotenv read_lines
load_dotenv-first py k [] env = unfold first_value in sym (or_later-none (get k env))
load_dotenv-first py k (none ∷ files) env = load_dotenv-first py k files env
load_dotenv-first py k (some f ∷ files) env = elim (Bool-cases f.complete) [
  | inl e ↦ rw e (get-load_lines py k f.lines env)
  | inr e ↦ rw e (
      load_dotenv-first py k files (load_lines py f.lines env)
      ∙ ap (λ o. or_later o (first_value py k (read_lines files))) (get-load_lines py k f.lines env)
      ∙ or_later_assoc (get k env) (first_value py k f.lines) (first_value py k (read_lines files))
      ∙ ap (or_later (get k env)) (sym (first_value-append py k f.lines (read_lines files))))
]
