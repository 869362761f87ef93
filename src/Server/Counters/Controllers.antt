-- ===== src/Server/Counters/Controllers.antt =====
-- Sums over the controllers of src/Server, and how a step of `run` changes them.
use multithreaded_network_jo.Prelude.{ℕ, suc, ◌+◌, ◌<◌, ◌≡◌, arith, ap, ok, ◌⊎◌, inl, inr, dec_lt}
use multithreaded_network_jo.Server.State.{controller_thread, Server, lock, wake}
use multithreaded_network_jo.Server.Choice.{Choice, creates}
use multithreaded_network_jo.Server.Controller
use multithreaded_network_jo.Server.Controller.{Controller, step_at, controller_step}
use multithreaded_network_jo.Server.System.{
  System, MainPc, listen, create_controller, main_step_at, unborn_controller,
}
use multithreaded_network_jo.Server.Births.{step_at-born}
use multithreaded_network_jo.Server.Counters.{total}
use multithreaded_network_jo.Server.Counters.Sums.{total-suc}
use multithreaded_network_jo.Server.Counters.Pool.{Pool}

-- The sum over the controllers, of a weight on the places in their code.
abbrev pub controllers_total : (Controller.Pc → ℕ) → System → ℕ
controllers_total f y = total (λ (c : Controller). f c.pc) y.accepted y.controllers

-- A step of `run` creates no controller, or one.
pub main-controllers_total :
    (f : Controller.Pc → ℕ) (pc : MainPc) (ch : Choice) (y : System) {z : System}
    → main_step_at pc ch y ≡ ok z
    → ((z.accepted ≡ y.accepted) × (controllers_total f z ≡ controllers_total f y))
      ⊎ ((z.accepted ≡ suc y.accepted)
          × (controllers_total f z ≡ controllers_total f y + f Controller.start))
unfolding main_step_at lock wake
main-controllers_total f create_controller creates y h = inr (
  ground arith,
  ground (
    arith,
    total-suc (λ (c : Controller). f c.pc) y.accepted y.controllers
        (record unborn_controller { pc = Controller.start }),
  ),
)
main-controllers_total f listen ch y h = inl (ground arith, ground arith)
main-controllers_total f _ ch y h = inl (ground arith, ground arith)

-- A controller that moves has been accepted.
pub controller-inside :
    (w i : ℕ) (ch : Choice) (y : System) {r : Server × Controller}
    → step_at (y.controllers i).pc ch (controller_thread i) y.server (y.controllers i) ≡ ok r
    → Pool w y
    → i < y.accepted
controller-inside w i ch y h p = elim (dec_lt i y.accepted) [
  | yes lt ↦ lt
  | no ge ↦ absurd (
      step_at-born ch (controller_thread i) y.server (y.controllers i) h
        (ap (λ (c : Controller). c.pc) (p.births.unborn_controllers i (omega arith))))
]
