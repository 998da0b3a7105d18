-- ===== src/Result.antt =====
-- Exceptions as values. No handler of the backend looks at the class of an exception.
use group_chat.Prelude.{◌≡◌, refl, ◌⊎◌, inl, inr, Option, none, some}

pub data Result {ℓ} (A : Type ℓ) : Type ℓ where
  ok : A → Result A
  raise : Result A

infixl 5 ◌>>=◌
abbrev pub ◌>>=◌ {ℓ κ} : {A : Type ℓ} {B : Type κ} → Result A → (A → Result B) → Result B
ok a >>= f = f a
raise >>= f = raise

-- A primitive that raises where it has no result.
abbrev pub checked {ℓ} : {A : Type ℓ} → Option A → Result A
checked none = raise
checked (some a) = ok a

-- `except Exception: pass`
abbrev pub or_else {ℓ} : {A : Type ℓ} → Result A → A → A
or_else (ok a) d = a
or_else raise d = d

pub Result-cases {ℓ} : {A : Type ℓ} (r : Result A) → ((a : A) × (r ≡ ok a)) ⊎ (r ≡ raise)
Result-cases (ok a) = inl (a, refl)
Result-cases raise = inr refl

pub ok_path {ℓ} : {A : Type ℓ} {a b : A} → ok a ≡ ok b → a ≡ b
ok_path e = cc
