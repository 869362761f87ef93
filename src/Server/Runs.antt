-- ===== src/Server/Runs.antt =====
-- Runs by a schedule lead to reachable states.
use multithreaded_network_jo.Prelude.{ℕ, List, [], ◌∷◌, ◌≡◌, ok, >>=-eq-ok}
use multithreaded_network_jo.Server.State.{ThreadId}
use multithreaded_network_jo.Server.Choice.{Choice}
use multithreaded_network_jo.Server.System.{System, thread_step, Reach, next, run}
use multithreaded_network_jo.Server.Induction.{Along}

unfoldable pub run-Reach :
    {n w : ℕ} (moves : List (ThreadId × Choice)) {x y : System}
    → Reach n w x
    → run moves x ≡ ok y
    → (z : System) × Reach n w z × (z ≡ y)
unfolding run
run-Reach [] {x} r h = (x, r, cc)
run-Reach ((t, ch) ∷ moves) {x} r h =
    let (z, e, f) = >>=-eq-ok (thread_step t ch x) (run moves) h in
    run-Reach moves (next t ch r e) f

abbrev pub Answers {ι} : (A : Choice → Type ι) → List (ThreadId × Choice) → Type ι
Answers A [] = Unit
Answers A ((t, ch) ∷ moves) = A ch × Answers A moves

pub run-Along {ι} :
    (A : Choice → Type ι) {n w : ℕ} (moves : List (ThreadId × Choice)) {x y : System}
    (r : Reach n w x) (h : run moves x ≡ ok y)
    → Along A r
    → Answers A moves
    → Along A (run-Reach moves r h).1
unfolding run-Reach run
run-Along A [] r h a none_left = a
run-Along A ((t, ch) ∷ moves) {x} r h a (here, later) =
    let (z, e, f) = >>=-eq-ok (thread_step t ch x) (run moves) h in
    run-Along A moves (next t ch r e) f (here, a) later
