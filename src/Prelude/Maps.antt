-- ===== src/Prelude/Maps.antt =====
-- Python's `dict` with text keys, in insertion order, and `set` as a list without repetitions.
use mathlib.Core.Path.{◌≡◌, refl, subst}
use mathlib.Core.Logic.{ite, if_pos, if_neg, ◌≢◌}
use mathlib.Core.List.{List, [], ◌∷◌}
use mathlib.Core.Option.{Option, none, some, some-injective}
use native.Mathlib.Omega.{arith}
use group_chat.Prelude.Lists.{Str, str-discrete, All}

abbrev pub Dict {ℓ} : Type ℓ → Type ℓ
Dict V = List (Str × V)

module _ {ℓ} {V : Type ℓ} where
  -- d.get(k)
  unfoldable pub get : Str → Dict V → Option V
  get k [] = none
  get k ((j, v) ∷ d) = ite (str-discrete j k) (some v) (get k d)

  -- d[k] = v: an old key keeps its place, a new one comes last.
  unfoldable pub put : Str → V → Dict V → Dict V
  put k v [] = (k, v) ∷ []
  put k v ((j, w) ∷ d) = ite (str-discrete j k) ((k, v) ∷ d) ((j, w) ∷ put k v d)

  -- d.pop(k, None)
  unfoldable pub pop : Str → Dict V → Dict V
  pop k [] = []
  pop k ((j, w) ∷ d) = let rest = pop k d in ite (str-discrete j k) rest ((j, w) ∷ rest)

  pub get-cons_self : (k : Str) (v : V) (d : Dict V) → get k ((k, v) ∷ d) ≡ some v
  unfolding get
  get-cons_self k v d = if_pos (str-discrete k k) refl _ _

  pub get-cons_ne : (k j : Str) (v : V) (d : Dict V) → k ≢ j → get j ((k, v) ∷ d) ≡ get j d
  unfolding get
  get-cons_ne k j v d h = if_neg (str-discrete k j) h _ _

  pub get-put :
      (k j : Str) (v : V) (d : Dict V)
      → get j (put k v d) ≡ ite (str-discrete k j) (some v) (get j d)
  unfolding get put
  get-put k j v [] = ground arith
  get-put k j v ((i, w) ∷ d) = ground (arith, get-put k j v d)

  pub get-pop : (k j : Str) (d : Dict V) → get j (pop k d) ≡ ite (str-discrete k j) none (get j d)
  unfolding get pop
  get-pop k j [] = ground arith
  get-pop k j ((i, w) ∷ d) = ground (arith, get-pop k j d)

module _ {ℓ} {V : Type ℓ} where
  -- No key stands twice.
  abbrev pub IsDict : Dict V → Type ℓ
  IsDict [] = Unit
  IsDict ((k, v) ∷ d) = (get k d ≡ none) × IsDict d

  pub put-IsDict : (k : Str) (v : V) (d : Dict V) → IsDict d → IsDict (put k v d)
  unfolding get put
  put-IsDict k v [] h = (refl, tt)
  put-IsDict k v ((j, w) ∷ d) h =
      elim (str-discrete j k) as (λ x. IsDict (ite x ((k, v) ∷ d) ((j, w) ∷ put k v d))) [
        | yes p ↦ (rw (← p) h.0, h.1)
        | no p ↦ (ground (arith, h.0, get-put k j v d), put-IsDict k v d h.1)
      ]

  pop-IsDict : (k : Str) (d : Dict V) → IsDict d → IsDict (pop k d)
  unfolding get pop
  pop-IsDict k [] h = tt
  pop-IsDict k ((j, w) ∷ d) h =
      elim (str-discrete j k) as (λ x. IsDict (ite x (pop k d) ((j, w) ∷ pop k d))) [
        | yes p ↦ pop-IsDict k d h.1
        | no p ↦ (ground (arith, h.0, get-pop k j d), pop-IsDict k d h.1)
      ]

module _ {ℓ κ} {V : Type ℓ} (P : V → Type κ) where
  -- A predicate of every value.
  abbrev pub AllValues : Dict V → Type κ
  AllValues d = All (λ e. P e.1) d

  pub put-AllValues : (k : Str) (v : V) (d : Dict V) → P v → AllValues d → AllValues (put k v d)
  unfolding put
  put-AllValues k v [] hv h = (hv, tt)
  put-AllValues k v ((j, w) ∷ d) hv h =
      elim (str-discrete j k) as (λ x. AllValues (ite x ((k, v) ∷ d) ((j, w) ∷ put k v d))) [
        | yes p ↦ (hv, h.1)
        | no p ↦ (h.0, put-AllValues k v d hv h.1)
      ]

  pub get-AllValues : (k : Str) (v : V) (d : Dict V) → AllValues d → get k d ≡ some v → P v
  unfolding get
  get-AllValues k v [] h e = cc
  get-AllValues k v ((j, w) ∷ d) h e =
      elim (str-discrete j k) as (λ x. ite x (some w) (get k d) ≡ some v → P v) [
        | yes p ↦ λ q. subst P (some-injective w v q) h.0
        | no p ↦ λ q. get-AllValues k v d h.1 q
      ]
        e

-- d.keys() and d.values()
unfoldable pub keys {ℓ} : {V : Type ℓ} → Dict V → List Str
keys [] = []
keys ((k, v) ∷ d) = k ∷ keys d

unfoldable pub values {ℓ} : {V : Type ℓ} → Dict V → List V
values [] = []
values ((k, v) ∷ d) = v ∷ values d
