-- ===== src/Server/Orderly/Schedules.antt =====
-- A test for runs by a schedule in which no controller is at a method of the waiting buffer with no
-- mutex.
use multithreaded_network_jo.Prelude.{
  ℕ, zero, suc, ◌<◌, ◌≡◌, refl, arith, List, [], ◌∷◌, Bool, true, false, ok, >>=-eq-ok, ltb,
  if◌then◌else◌, inl, inr, Bool-cases,
}
use multithreaded_network_jo.Server.State.{ThreadId, main_thread, controller_thread, worker_thread}
use multithreaded_network_jo.Server.Choice.{Choice}
use multithreaded_network_jo.Server.Births.{Births, Reach-Births}
use multithreaded_network_jo.Server.System.{System, Reach, start, next, run, thread_step, initial}
use multithreaded_network_jo.Server.Runs.{run-Reach}
use multithreaded_network_jo.Server.Orderly.{controller_unlocked, Undisturbed, Orderly}

abbrev none_below : (ℕ → Bool) → ℕ → Bool
none_below p zero = true
none_below p (suc n) = if p n then false else none_below p n

none_below-lt : (p : ℕ → Bool) (n i : ℕ) → none_below p n ≡ true → i < n → p i ≡ false
none_below-lt p zero i h lt = ground arith
none_below-lt p (suc n) i h lt = ground (arith, none_below-lt p n i)

abbrev pub is_calm : System → Bool
is_calm y = none_below (λ i. controller_unlocked (y.controllers i).pc) y.accepted

calm-Undisturbed : (y : System) → Births y → is_calm y ≡ true → Undisturbed y
calm-Undisturbed y b h main_thread u ne e = cc
calm-Undisturbed y b h (worker_thread k) u ne e = cc
calm-Undisturbed y b h (controller_thread i) u ne e = elim (Bool-cases (ltb i y.accepted)) [
  | inl born ↦
      absurd (
        ground
          (arith, none_below-lt (λ i. controller_unlocked (y.controllers i).pc) y.accepted i h))
  | inr unborn ↦ absurd (ground (arith, b.unborn_controllers i))
]

pub initial-Undisturbed : (n w : ℕ) → Undisturbed (initial n w)
unfolding initial
initial-Undisturbed n w =
    calm-Undisturbed (initial n w) (Reach-Births (start {y = initial n w} refl)) refl

unfoldable pub is_calm_run : List (ThreadId × Choice) → System → Bool
is_calm_run [] x = true
is_calm_run ((t, ch) ∷ moves) x = elim (thread_step t ch x) [
  | ok z ↦ if is_calm z then is_calm_run moves z else false
  | _ ↦ false
]

both_calm :
    (z : System) (moves : List (ThreadId × Choice))
    → (if is_calm z then is_calm_run moves z else false) ≡ true
    → (is_calm z ≡ true) × (is_calm_run moves z ≡ true)
both_calm z moves h = elim (Bool-cases (is_calm z)) [
  | inl yes_calm ↦ (yes_calm, rw yes_calm at h)
  | inr busy ↦ absurd (ground (arith, rw busy at h))
]

pub run-Orderly :
    {n w : ℕ} (moves : List (ThreadId × Choice)) {x y : System} (r : Reach n w x)
    (h : run moves x ≡ ok y)
    → Orderly r
    → is_calm_run moves x ≡ true
    → Orderly (run-Reach moves r h).1
unfolding run-Reach run is_calm_run
run-Orderly [] r h o c = o
run-Orderly ((t, ch) ∷ moves) {x} r h o c =
    let (z, e, f) = >>=-eq-ok (thread_step t ch x) (run moves) h in
    let here : (is_calm z ≡ true) × (is_calm_run moves z ≡ true) =
      both_calm z moves (rw (e, is_calm_run) at c) in
    run-Orderly moves (next t ch r e) f
      (calm-Undisturbed z (Reach-Births (next t ch r e)) here.0, o) here.1
