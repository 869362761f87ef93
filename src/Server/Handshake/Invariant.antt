-- ===== src/Server/Handshake/Invariant.antt =====
-- The state of the handshake in every reachable state.
use multithreaded_network_jo.Prelude.{
  ℕ, suc, ◌<◌, ◌≡◌, refl, arith, ok, true, false, inl, inr, ◌==◌, Bool-cases, dec_lt, ap,
}
use multithreaded_network_jo.Server.State.{
  controller_thread, worker_thread, Server, lock, unlock, cond_wait, wake, broadcast,
}
use multithreaded_network_jo.Server.Choice.{Choice}
use multithreaded_network_jo.Server.Controller
use multithreaded_network_jo.Server.Controller.{Controller, step_at}
use multithreaded_network_jo.Server.Worker
use multithreaded_network_jo.Server.Worker.{worker_step}
use multithreaded_network_jo.Server.Births.{
  Births, Keeps-Births, Reach-Births, step_at-born, main-controllers_change,
}
use multithreaded_network_jo.Server.Induction.{Keeps, Reach-Keeps, after_controller, after_worker}
use multithreaded_network_jo.Server.System.{
  System, MainPc, listen, create_controller, main_step_at, Reach, initial, unborn_controller,
}
use multithreaded_network_jo.Server.Handshake.{released, Sane, awaits}
use multithreaded_network_jo.Server.Handshake.Steps.{controller-flag, worker-flag}

pub record Handshake (y : System) : Type 0 where
  pub births : Births y
  pub sane : (i : ℕ) → Sane (y.controllers i)
  pub older : (i : ℕ) → suc i < y.accepted → released (y.controllers i) ≡ true
  pub newest :
      (i : ℕ) → suc i ≡ y.accepted → awaits y.main ≡ false → released (y.controllers i) ≡ true
  pub flag :
      (i : ℕ)
      → suc i ≡ y.accepted
      → awaits y.main ≡ true
      → y.server.continue_execution ≡ released (y.controllers i)
  pub cleared : y.main ≡ create_controller → y.server.continue_execution ≡ false

module _ (i : ℕ) (ch : Choice) (y : System) (r : Server × Controller)
    (h : step_at (y.controllers i).pc ch (controller_thread i) y.server (y.controllers i) ≡ ok r)
    (k : Handshake y) where
  f : record {
    keeps : released (y.controllers i) ≡ true → released r.1 ≡ true;
    quiet :
        released (y.controllers i) ≡ true → r.0.continue_execution ≡ y.server.continue_execution;
    waits : released r.1 ≡ false → r.0.continue_execution ≡ y.server.continue_execution;
    sets : released (y.controllers i) ≡ false → released r.1 ≡ true → r.0.continue_execution ≡ true;
    sane : Sane r.1;
  }
  f = controller-flag ch (controller_thread i) y.server (y.controllers i) h (k.sane i)

  -- Only a controller that `run` has created moves.
  pub created : i < y.accepted
  created = elim (dec_lt i y.accepted) [
    | yes lt ↦ lt
    | no ge ↦ absurd (
        step_at-born ch (controller_thread i) y.server (y.controllers i) h
          (ap (λ c. c.pc) (k.births.unborn_controllers i (omega arith))))
  ]

  controller-Handshake : Handshake (after_controller y i r)
  controller-Handshake = record {
    births = Keeps-Births.controller i ch y r h k.births;
    sane = λ j. elim (Bool-cases (i == j)) [ inl e ↦ rw e f.sane | inr e ↦ rw e (k.sane j) ];
    older = λ j lt. ground (arith, f, k.older j lt);
    newest = λ j e quiet. ground (arith, f, k.newest j e quiet);
    flag = λ j e waits. ground (arith, f, created, k.flag j e waits, k.older i);
    cleared = λ e. ground (arith, f, created, k.cleared e, k.older i, k.newest i);
  }

abbrev started_controller : Controller
started_controller = record unborn_controller { pc = Controller.start }

released-start : released started_controller ≡ false
unfolding released
released-start = refl

Sane-start : Sane started_controller
unfolding Sane
Sane-start = ground arith

Sane-unborn : Sane unborn_controller
unfolding Sane
Sane-unborn = ground arith

main-Sane :
    (ch : Choice) (y : System) {z : System}
    → main_step_at y.main ch y ≡ ok z
    → Handshake y
    → (i : ℕ) → Sane (z.controllers i)
main-Sane ch y h k i = elim (main-controllers_change y.main ch y h k.births i) [
  | inl same ↦ rw same (k.sane i)
  | inr (old, new) ↦ rw new Sane-start
]

main-order :
    (pc : MainPc) (ch : Choice) (y : System) {z : System}
    → main_step_at pc ch y ≡ ok z
    → y.main ≡ pc
    → Handshake y
    → (i : ℕ)
    → record {
      older : suc i < z.accepted → released (z.controllers i) ≡ true;
      newest : suc i ≡ z.accepted → awaits z.main ≡ false → released (z.controllers i) ≡ true;
      flag :
          suc i ≡ z.accepted
          → awaits z.main ≡ true
          → z.server.continue_execution ≡ released (z.controllers i);
      cleared : z.main ≡ create_controller → z.server.continue_execution ≡ false;
    }
unfolding main_step_at lock unlock cond_wait wake broadcast
main-order listen ch y h e k i =
    ground (arith, k.older i, k.newest i, k.flag i, k.cleared, released-start)
main-order _ ch y h e k i =
    ground (arith, k.older i, k.newest i, k.flag i, k.cleared, released-start)

main-Handshake :
    (ch : Choice) (y z : System) → main_step_at y.main ch y ≡ ok z → Handshake y → Handshake z
main-Handshake ch y z h k =
    let o = main-order y.main ch y h refl k in
    record {
      births = Keeps-Births.main ch y z h k.births;
      sane = main-Sane ch y h k;
      older = λ i. (o i).older;
      newest = λ i. (o i).newest;
      flag = λ i. (o i).flag;
      cleared = (o 0).cleared;
    }

worker-Handshake :
    (i : ℕ) (ch : Choice) (y : System) (r : Server × Worker.Pc)
    → worker_step (y.workers i) ch (worker_thread i) y.server ≡ ok r
    → Handshake y
    → Handshake (after_worker y i r)
worker-Handshake i ch y r h k =
    let w = worker-flag (y.workers i) ch (worker_thread i) y.server h in
    record {
      births = Keeps-Births.worker i ch y r h k.births;
      sane = k.sane;
      older = k.older;
      newest = k.newest;
      flag = λ j e waits. ground (arith, w, k.flag j e waits);
      cleared = λ e. ground (arith, w, k.cleared e);
    }

pub Keeps-Handshake : Keeps Handshake
Keeps-Handshake = record {
  main = main-Handshake;
  controller = λ i ch y r h k. controller-Handshake i ch y r h k;
  worker = worker-Handshake;
}

pub initial-Handshake : (n w : ℕ) → Handshake (initial n w)
unfolding initial
initial-Handshake n w = record {
  births = Reach-Births (Reach.start refl);
  sane = λ i. Sane-unborn;
  older = λ i lt. absurd (omega arith);
  newest = λ i e q. absurd (omega arith);
  flag = λ i e q. absurd (omega arith);
  cleared = λ e. cc;
}

-- In every reachable state at most the newest controller has not let the main thread go on, and that
-- one only while the main thread waits for it; and `continueExecution` says then whether it has.
pub Reach-Handshake : {n w : ℕ} {y : System} → Reach n w y → Handshake y
Reach-Handshake {n} {w} = Reach-Keeps Keeps-Handshake (initial-Handshake n w)
