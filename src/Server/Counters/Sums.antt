-- ===== src/Server/Counters/Sums.antt =====
-- How a sum over the threads of src/Server changes when one of them moves.
use multithreaded_network_jo.Prelude.{ℕ, zero, suc, ◌+◌, ◌≤◌, ◌<◌, ◌≡◌, refl, arith, dec_lt}
use multithreaded_network_jo.Server.System.{update}
use multithreaded_network_jo.Server.Counters.{total}

module _ {ℓ} {A : Type ℓ} (weight : A → ℕ) where
  pub total-above :
      (count : ℕ) (threads : ℕ → A) (place : ℕ) (moved : A)
      → count ≤ place
      → total weight count (update threads place moved) ≡ total weight count threads
  unfolding total
  total-above zero threads place moved above = refl
  total-above (suc count) threads place moved above =
      ground (arith, total-above count threads place moved)

  pub total-update :
      (count : ℕ) (threads : ℕ → A) (place : ℕ) (moved : A)
      → place < count
      → total weight count (update threads place moved) + weight (threads place)
        ≡ total weight count threads + weight moved
  unfolding total
  total-update zero threads place moved inside = absurd (omega arith)
  total-update (suc count) threads place moved inside = elim (dec_lt place count) [
    | yes below ↦ ground (arith, total-update count threads place moved below)
    | no last ↦ ground (arith, total-above count threads place moved)
  ]

  pub total-le :
      (count : ℕ) (threads : ℕ → A)
      → ((state : A) → weight state ≤ 1)
      → total weight count threads ≤ count
  unfolding total
  total-le zero threads small = omega arith
  total-le (suc count) threads small =
      omega (arith, small (threads count), total-le count threads small)

  pub total-none : (count : ℕ) (state : A) → weight state ≡ 0 → total weight count (λ _. state) ≡ 0
  unfolding total
  total-none zero state light = refl
  total-none (suc count) state light = omega (arith, total-none count state light)

  -- One thread more.
  pub total-suc :
      (count : ℕ) (threads : ℕ → A) (moved : A)
      → total weight (suc count) (update threads count moved)
        ≡ total weight count threads + weight moved
  unfolding total
  total-suc count threads moved =
      ground (arith, total-above count threads count moved (omega arith))

  pub total-member :
      (count : ℕ) (threads : ℕ → A) (place : ℕ)
      → place < count
      → weight (threads place) ≤ total weight count threads
  unfolding total
  total-member zero threads place inside = absurd (omega arith)
  total-member (suc count) threads place inside = elim (dec_lt place count) [
    | yes below ↦ omega (arith, total-member count threads place below)
    | no last ↦ let same : place ≡ count = omega arith in rw same (omega arith)
  ]

  pub total-zero :
      (count : ℕ) (threads : ℕ → A)
      → ((i : ℕ) → weight (threads i) ≡ 0)
      → total weight count threads ≡ 0
  unfolding total
  total-zero zero threads light = refl
  total-zero (suc count) threads light = omega (arith, light count, total-zero count threads light)
