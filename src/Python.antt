-- ===== src/Python.antt =====
-- What the backend uses of Python and of its `json` module: the values of a parsed document, their
-- truth, `str`, `int` and hashing, and the text methods `strip`, `lower` and `isalnum`.
pub mod Text
use text.Mathlib.Text.{◌==◌ as name_eq}
use group_chat.Prelude.{
  ℕ, ◌≡◌, refl, ap, Bool, true, false, not, Option, none, some, String, Str, codes, ℕ_discrete, ite,
  str-discrete, [], ◌∷◌, if◌then◌else◌,
}

-- `negsuc n` is -(n + 1).
pub data ℤ : Type 0 where
  pos : ℕ → ℤ
  negsuc : ℕ → ℤ

-- What the program can see of a float: whether it is 0.0, the integer that it equals, if any, the
-- result of `int`, and that of `str`.
pub record Floating : Type 0 where
  pub is_zero : Bool
  pub equals : Option ℤ
  pub truncated : Option ℤ
  pub text : Str

-- A value of `json.loads`. An object's keys differ.
mutual
  pub data Value : Type 0 where
    null : Value
    bool : Bool → Value
    int : ℤ → Value
    float : Floating → Value
    str : Str → Value
    arr : Items → Value
    obj : Fields → Value

  pub data Fields : Type 0 where
    end : Fields
    field : String → Value → Fields → Fields

  pub data Items : Type 0 where
    nil : Items
    cons : Value → Items → Items

-- The parts of Python's runtime that rest on the Unicode tables or on number formats.
pub record Python : Type 0 where
  -- `c.isspace()` and `c.isalnum()` of a code point
  pub is_space : ℕ → Bool
  pub is_alnum : ℕ → Bool
  -- `s.lower()`
  pub lower : Str → Str
  -- `int(s)`; `none` is a `ValueError`
  pub parse_int : Str → Option ℤ
  -- `str(n)` of an integer, `str(l)` of a list and `str(d)` of a dictionary
  pub str_of_int : ℤ → Str
  pub str_of_items : Items → Str
  pub str_of_fields : Fields → Str

-- `if v`
unfoldable pub truth : Value → Bool
truth null = false
truth (bool b) = b
truth (int (pos n)) = ite (ℕ_discrete n 0) false true
truth (int (negsuc n)) = true
truth (float x) = not x.is_zero
truth (str []) = false
truth (str (c ∷ s)) = true
truth (arr nil) = false
truth (arr (cons v l)) = true
truth (obj end) = false
truth (obj (field k v d)) = true

-- `a or b`
infixr 30 ◌orelse◌
unfoldable pub ◌orelse◌ : Value → Value → Value
unfolding truth
a orelse b = if truth a then a else b

-- `d.get(k)` with its default `None`, and with a default for an absent key only.
unfoldable pub field_or : Value → String → Fields → Value
field_or default k end = default
field_or default k (field j v d) = if name_eq j k then v else field_or default k d

abbrev pub field_of : String → Fields → Value
field_of = field_or null

-- `str(v)`
unfoldable pub str_of : Python → Value → Str
str_of py null = codes "None"
str_of py (bool true) = codes "True"
str_of py (bool false) = codes "False"
str_of py (int n) = py.str_of_int n
str_of py (float x) = x.text
str_of py (str s) = s
str_of py (arr l) = py.str_of_items l
str_of py (obj d) = py.str_of_fields d

-- `int(v)`; `none` is the exception
unfoldable pub int_of : Python → Value → Option ℤ
int_of py (bool true) = some (pos 1)
int_of py (bool false) = some (pos 0)
int_of py (int n) = some n
int_of py (float x) = x.truncated
int_of py (str s) = py.parse_int s
int_of py _ = none

-- What `==` and `hash` see of a value that can be hashed: numbers are equal by value.
pub data Key : Type 0 where
  nothing : Key
  number : ℤ → Key
  fraction : Str → Key
  word : Str → Key

numeric : Option ℤ → Str → Key
numeric (some n) s = number n
numeric none s = fraction s

-- `hash(v)`; `none` is the `TypeError` of a list or a dictionary
unfoldable pub hash_of : Value → Option Key
unfolding numeric
hash_of null = some nothing
hash_of (bool true) = some (number (pos 1))
hash_of (bool false) = some (number (pos 0))
hash_of (int n) = some (number n)
hash_of (float x) = some (numeric x.equals x.text)
hash_of (str s) = some (word s)
hash_of (arr l) = none
hash_of (obj d) = none

decide_along {ℓ κ} :
    {A : Type ℓ} {B : Type κ} (f : A → B) {a b : A}
    → (f a ≡ f b → a ≡ b)
    → Dec (a ≡ b)
    → Dec (f a ≡ f b)
decide_along f injective (yes p) = yes (ap f p)
decide_along f injective (no p) = no (λ e. p (injective e))

int-discrete : Discrete ℤ
unfolding ℕ_discrete decide_along
int-discrete (pos a) (pos b) = decide_along pos (λ e. cc) (ℕ_discrete a b)
int-discrete (negsuc a) (negsuc b) = decide_along negsuc (λ e. cc) (ℕ_discrete a b)
int-discrete _ _ = no (λ e. cc)

-- Equality of keys.
unfoldable pub key-discrete : Discrete Key
unfolding int-discrete str-discrete decide_along
key-discrete nothing nothing = yes refl
key-discrete (number a) (number b) = decide_along number (λ e. cc) (int-discrete a b)
key-discrete (fraction a) (fraction b) = decide_along fraction (λ e. cc) (str-discrete a b)
key-discrete (word a) (word b) = decide_along word (λ e. cc) (str-discrete a b)
key-discrete _ _ = no (λ e. cc)
