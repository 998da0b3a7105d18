-- ===== src/Ring.antt =====
-- A bounded queue that drops its oldest items, `collections.deque(maxlen=n)`, and what it holds.
use native.Mathlib.Nat.{zero-add, suc-add}
use mathlib.Core.List.{Mem, mem-append, mem-cons_self}
use mathlib.Core.Logic.Or
use group_chat.Prelude.{
  ℕ, zero, suc, ◌+◌, ◌-◌, ◌≤◌, ◌<◌, ◌≡◌, refl, sym, List, [], ◌∷◌, ◌++◌, length, drop,
  length-append, length-drop, arith, All, All-append, All-drop,
}

-- `deque(maxlen=n).append(x)`
unfoldable pub append_max {ℓ} : {A : Type ℓ} → ℕ → List A → A → List A
append_max n xs x = drop (length (xs ++ x ∷ []) - n) (xs ++ x ∷ [])

-- `l[-n:]` of a history
unfoldable pub newest {ℓ} : {A : Type ℓ} → ℕ → List A → List A
newest n xs = drop (length xs - n) xs

module _ {ℓ} {A : Type ℓ} where
  drop-append : (n : ℕ) (xs ys : List A) → n ≤ length xs → drop n (xs ++ ys) ≡ drop n xs ++ ys
  drop-append zero xs ys h = refl
  drop-append (suc n) [] ys h = absurd (omega arith)
  drop-append (suc n) (x ∷ xs) ys h = drop-append n xs ys (omega arith)

  drop-drop : (m n : ℕ) (xs : List A) → drop m (drop n xs) ≡ drop (n + m) xs
  drop-drop m zero xs = rw zero-add
  drop-drop zero (suc n) [] = rw (suc-add) refl
  drop-drop (suc m) (suc n) [] = rw (suc-add) refl
  drop-drop m (suc n) (x ∷ xs) = rw (suc-add) (drop-drop m n xs)

  -- The bounded queue needs only the newest elements.
  pub append_max-newest :
      (n : ℕ) (xs : List A) (x : A) → append_max n (newest n xs) x ≡ newest n (xs ++ x ∷ [])
  unfolding append_max newest
  append_max-newest n xs x =
      let k = length xs - n in
      let ys = xs ++ x ∷ [] in
      let regroup : drop k xs ++ x ∷ [] ≡ drop k ys =
        sym (drop-append k xs (x ∷ []) (omega arith)) in
      let total : k + (length (drop k ys) - n) ≡ length ys - n =
        omega (arith, length-drop k ys, length-append xs (x ∷ [])) in
      rw (regroup, drop-drop, total)

pub length-append_max {ℓ} :
    {A : Type ℓ} (n : ℕ) (xs : List A) (x : A) → length (append_max n xs x) ≤ n
unfolding append_max
length-append_max n xs x = omega (arith, length-drop (length (xs ++ x ∷ []) - n) (xs ++ x ∷ []))

pub All-append_max {ℓ κ} :
    {A : Type ℓ} (P : A → Type κ) (n : ℕ) (xs : List A) (x : A)
    → All P xs
    → P x
    → All P (append_max n xs x)
unfolding append_max
All-append_max P n xs x h hx =
    All-drop P (length (xs ++ x ∷ []) - n) (xs ++ x ∷ []) (All-append P xs (x ∷ []) h (hx, tt))

pub mem-append_max : {A : Type 0} (n : ℕ) (xs : List A) (x : A) → 0 < n → Mem x (append_max n xs x)
unfolding append_max
mem-append_max n xs x h =
    rw
      (drop-append (length (xs ++ x ∷ []) - n) xs (x ∷ [])
        (omega (arith, length-append xs (x ∷ []))))
      (mem-append.1 (Or.inr mem-cons_self))

pub length-newest {ℓ} : {A : Type ℓ} (n : ℕ) (xs : List A) → length (newest n xs) ≤ n
unfolding newest
length-newest n xs = omega (arith, length-drop (length xs - n) xs)
