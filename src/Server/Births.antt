-- ===== src/Server/Births.antt =====
-- A thread of src/Server does nothing before it is created.
use multithreaded_network_jo.Prelude.{
  ℕ, ◌≤◌, ◌≡◌, ◌≢◌, refl, arith, ok, ◌⊎◌, inl, inr, Bool-cases, ◌==◌, ltb,
}
use multithreaded_network_jo.Server.State.{
  unlock_own, ThreadId, controller_thread, worker_thread, Server, lock, wake,
}
use multithreaded_network_jo.Server.Choice.{Choice, creates}
use multithreaded_network_jo.Server.Controller
use multithreaded_network_jo.Server.Controller.{Controller, step_at}
use multithreaded_network_jo.Server.Worker
use multithreaded_network_jo.Server.Worker.{worker_step}
use multithreaded_network_jo.Server.Induction.{Keeps, Reach-Keeps}
use multithreaded_network_jo.Server.System.{
  System, MainPc, spawn_worker, listen, create_controller, main_step_at, Reach, initial,
  unborn_controller,
}

pub step_at-born :
    (ch : Choice) (t : ThreadId) (s : Server) (c : Controller) {pc : Controller.Pc}
    {r : Server × Controller}
    → step_at pc ch t s c ≡ ok r
    → pc ≢ Controller.unborn
unfolding step_at
step_at-born ch t s c h e = ground arith

pub worker_step-born :
    (ch : Choice) (t : ThreadId) (s : Server) {pc : Worker.Pc} {r : Server × Worker.Pc}
    → worker_step pc ch t s ≡ ok r
    → pc ≢ Worker.unborn
unfolding worker_step unlock_own
worker_step-born ch t s h e = ground arith

pub record Births (y : System) : Type 0 where
  pub unborn_controllers : (i : ℕ) → y.accepted ≤ i → y.controllers i ≡ unborn_controller
  pub unborn_workers : (i j : ℕ) → y.main ≡ spawn_worker i → i ≤ j → y.workers j ≡ Worker.unborn

main-controllers :
    (pc : MainPc) (ch : Choice) (y : System) {z : System}
    → main_step_at pc ch y ≡ ok z
    → (i : ℕ) → (y.accepted ≤ i → y.controllers i ≡ unborn_controller)
    → z.accepted ≤ i
    → z.controllers i ≡ unborn_controller
unfolding main_step_at lock wake
main-controllers listen ch y h i u le = ground arith
main-controllers _ ch y h i u le = ground arith

main-workers :
    (pc : MainPc) (ch : Choice) (y : System) {z : System}
    → main_step_at pc ch y ≡ ok z
    → ((i j : ℕ) → pc ≡ spawn_worker i → i ≤ j → y.workers j ≡ Worker.unborn)
    → (i j : ℕ) → z.main ≡ spawn_worker i
    → i ≤ j
    → z.workers j ≡ Worker.unborn
unfolding main_step_at lock wake
main-workers (spawn_worker k) ch y h u i j e le = ground (arith, u k j refl)
main-workers _ ch y h u i j e le = ground arith

-- In every reachable state the controllers that `run` has not created yet, and while it creates the
-- workers those that are still to come, have not begun.
pub Keeps-Births : Keeps Births
Keeps-Births = record {
  main = λ ch y z h b. record {
    unborn_controllers = λ i. main-controllers y.main ch y h i (b.unborn_controllers i);
    unborn_workers = main-workers y.main ch y h b.unborn_workers;
  };
  controller = λ i ch y r h b. record {
    unborn_controllers = λ j le. ground (
      arith,
      step_at-born ch (controller_thread i) y.server (y.controllers i) h,
      b.unborn_controllers i,
      b.unborn_controllers j,
    );
    unborn_workers = b.unborn_workers;
  };
  worker = λ i ch y r h b. record {
    unborn_controllers = b.unborn_controllers;
    unborn_workers = λ k j e le. ground (
      arith,
      worker_step-born ch (worker_thread i) y.server h,
      b.unborn_workers k i e,
      b.unborn_workers k j e,
    );
  };
}

pub Reach-Births : {n w : ℕ} {y : System} → Reach n w y → Births y
unfolding initial
Reach-Births =
    Reach-Keeps Keeps-Births
      (record { unborn_controllers = λ i le. refl; unborn_workers = λ i j e le. refl })

-- A step of `run` leaves each controller alone, or creates it.
pub main-controllers_change :
    (pc : MainPc) (ch : Choice) (y : System) {z : System}
    → main_step_at pc ch y ≡ ok z
    → Births y
    → (i : ℕ)
    → (z.controllers i ≡ y.controllers i)
      ⊎ ((y.controllers i ≡ unborn_controller)
          × (z.controllers i ≡ record unborn_controller { pc = Controller.start }))
unfolding main_step_at lock wake
main-controllers_change create_controller creates y h b i = elim (Bool-cases (y.accepted == i)) [
  | inl new ↦ inr (b.unborn_controllers i (ground arith), ground arith)
  | inr old ↦ inl (ground arith)
]
main-controllers_change listen ch y h b i = inl (ground arith)
main-controllers_change _ ch y h b i = inl (ground arith)

-- A step of `run` leaves each worker alone, or creates it.
pub main-workers_change :
    (pc : MainPc) (ch : Choice) (y : System) {z : System}
    → main_step_at pc ch y ≡ ok z
    → ((i j : ℕ) → pc ≡ spawn_worker i → i ≤ j → y.workers j ≡ Worker.unborn)
    → (i : ℕ)
    → (z.workers i ≡ y.workers i)
      ⊎ ((y.workers i ≡ Worker.unborn) × (z.workers i ≡ Worker.idle_lock))
unfolding main_step_at lock wake
main-workers_change (spawn_worker k) creates y h b i = elim (Bool-cases (k == i)) [
  | inl new ↦ elim (Bool-cases (ltb k y.server.thread_pool_size)) [
    | inl room ↦ inr (b k i refl (ground arith), ground arith)
    | inr full ↦ inl (ground arith)
  ]
  | inr old ↦ inl (ground arith)
]
main-workers_change listen ch y h b i = inl (ground arith)
main-workers_change _ ch y h b i = inl (ground arith)
