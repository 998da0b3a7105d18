-- ===== src/Batch.antt =====
-- The loop that gathers a micro-batch, as the batch writer and the gossip workers have it: take items
-- without waiting until the batch is full, the time is over or the queue is empty.
use group_chat.Prelude.{
  ℕ, zero, suc, ◌≤◌, ◌≡◌, refl, List, [], ◌∷◌, ◌++◌, length, length-append, arith, ltb, if_intro,
  if◌then◌else◌,
}
use mathlib.Core.List.{append_assoc}

module _ {ℓ} {A : Type ℓ} where
  -- `rounds` is the number of rounds that the clock allows.
  unfoldable pub gather : ℕ → ℕ → List A → List A → List A × List A
  gather zero max_batch batch queue = (batch, queue)
  gather (suc rounds) max_batch batch [] = (batch, [])
  gather (suc rounds) max_batch batch (x ∷ queue) =
      let rest = gather rounds max_batch (batch ++ x ∷ []) queue in
      if ltb (length batch) max_batch then rest else (batch, x ∷ queue)

  -- Gathering loses nothing, doubles nothing and keeps the order.
  pub gather-append :
      (rounds max_batch : ℕ) (batch queue : List A)
      → (gather rounds max_batch batch queue).0 ++ (gather rounds max_batch batch queue).1
        ≡ batch ++ queue
  unfolding gather
  gather-append zero max_batch batch queue = refl
  gather-append (suc rounds) max_batch batch [] = refl
  gather-append (suc rounds) max_batch batch (x ∷ queue) =
      if_intro {A = List A × List A} (λ p. p.0 ++ p.1 ≡ batch ++ x ∷ queue)
        (ltb (length batch) max_batch)
        (λ _.
          rw (gather-append rounds max_batch (batch ++ x ∷ []) queue)
            (append_assoc batch (x ∷ []) queue))
        (λ _. refl)

  -- A batch that starts within the bound stays within it, and never shrinks.
  pub gather_bounds :
      (rounds max_batch : ℕ) (batch queue : List A)
      → length batch ≤ max_batch
      → (length (gather rounds max_batch batch queue).0 ≤ max_batch)
        × (length batch ≤ length (gather rounds max_batch batch queue).0)
  unfolding gather
  gather_bounds zero max_batch batch queue h = (h, omega arith)
  gather_bounds (suc rounds) max_batch batch [] h = (h, omega arith)
  gather_bounds (suc rounds) max_batch batch (x ∷ queue) h =
      ground (
        arith,
        length-append batch (x ∷ []),
        gather_bounds rounds max_batch (batch ++ x ∷ []) queue,
      )
