-- ===== src/Server/Shutdown/Waiting.antt =====
-- The condition variables of src/Server against the places where its threads stand.
use multithreaded_network_jo.Prelude.{ℕ, ◌+◌, ◌≡◌, arith, refl, ok}
use multithreaded_network_jo.Server.State.{
  ThreadId, controller_thread, worker_thread, CondName, Server, lock, unlock, unlock_own, cond_wait,
  wake, signal, broadcast,
}
use multithreaded_network_jo.Server.Choice.{Choice}
use multithreaded_network_jo.Server.Controller
use multithreaded_network_jo.Server.Controller.{Controller, step_at}
use multithreaded_network_jo.Server.Worker
use multithreaded_network_jo.Server.Worker.{worker_step}
use multithreaded_network_jo.Server.System.{System, MainPc, listen, main_step_at, Reach, initial}
use multithreaded_network_jo.Server.Induction.{Keeps, Reach-Keeps}
use multithreaded_network_jo.Server.Counters.{total}
use multithreaded_network_jo.Server.Counters.Sums.{total-update, total-none}
use multithreaded_network_jo.Server.Counters.Pool.{
  Pool, Keeps-Pool, initial-Pool, main-total, worker-inside,
}
use multithreaded_network_jo.Server.Counters.Controllers.{
  controllers_total, main-controllers_total, controller-inside,
}
use multithreaded_network_jo.Server.Shutdown.{main_waits, controller_waits, worker_waits}

controller-waits :
    (v : CondName) (pc : Controller.Pc) (ch : Choice) (t : ThreadId) (s : Server) (c : Controller)
    {r : Server × Controller}
    → step_at pc ch t s c ≡ ok r
    → (r.0.cond v).waiting + controller_waits v pc ≡ (s.cond v).waiting + controller_waits v r.1.pc
unfolding step_at lock unlock cond_wait wake signal broadcast
controller-waits v Controller.unborn ch t s c h = ground arith
controller-waits v _ ch t s c h = ground arith

worker-waits :
    (v : CondName) (pc : Worker.Pc) (ch : Choice) (t : ThreadId) (s : Server)
    {r : Server × Worker.Pc}
    → worker_step pc ch t s ≡ ok r
    → (r.0.cond v).waiting + worker_waits v pc ≡ (s.cond v).waiting + worker_waits v r.1
unfolding worker_step unlock_own lock unlock cond_wait wake signal
worker-waits v Worker.unborn ch t s h = ground arith
worker-waits v _ ch t s h = ground arith

main-waits :
    (v : CondName) (pc : MainPc) (ch : Choice) (y : System) {z : System}
    → main_step_at pc ch y ≡ ok z
    → (z.server.cond v).waiting + main_waits v pc ≡ (y.server.cond v).waiting + main_waits v z.main
unfolding main_step_at lock unlock cond_wait wake broadcast
main-waits v listen ch y h = ground arith
main-waits v _ ch y h = ground arith

-- The books of one condition variable, with `w` workers.
record Counted (v : CondName) (w : ℕ) (y : System) : Type 0 where
  pool : Pool w y
  exact :
      (y.server.cond v).waiting
      ≡ main_waits v y.main
        + (controllers_total (controller_waits v) y + total (worker_waits v) w y.workers)

no_wait_at_birth :
    (v : CondName)
    → (controller_waits v Controller.start ≡ 0)
      × (worker_waits v Worker.idle_lock ≡ worker_waits v Worker.unborn)
no_wait_at_birth v = ground arith

Keeps-Counted : (v : CondName) (w : ℕ) → Keeps (Counted v w)
Keeps-Counted v w = record {
  main = λ ch y z h k. record {
    pool = (Keeps-Pool w).main ch y z h k.pool;
    exact = ground (
      arith,
      k.exact,
      main-waits v y.main ch y h,
      no_wait_at_birth v,
      main-controllers_total (controller_waits v) y.main ch y h,
      main-total (worker_waits v) w y.main ch y h refl (no_wait_at_birth v).1 k.pool,
    );
  };
  controller = λ i ch y r h k. record {
    pool = (Keeps-Pool w).controller i ch y r h k.pool;
    exact = omega (
      arith,
      k.exact,
      controller-waits v (y.controllers i).pc ch (controller_thread i) y.server (y.controllers i) h,
      total-update (λ (c : Controller). controller_waits v c.pc) y.accepted y.controllers i r.1
          (controller-inside w i ch y h k.pool),
    );
  };
  worker = λ i ch y r h k. record {
    pool = (Keeps-Pool w).worker i ch y r h k.pool;
    exact = omega (
      arith,
      k.exact,
      worker-waits v (y.workers i) ch (worker_thread i) y.server h,
      total-update (worker_waits v) w y.workers i r.1 (worker-inside w i ch y h k.pool),
    );
  };
}

initial-Counted : (v : CondName) (n w : ℕ) → Counted v w (initial n w)
unfolding initial total
initial-Counted v n w = record {
  pool = initial-Pool n w;
  exact = ground (arith, total-none (worker_waits v) w Worker.unborn (ground arith));
}

-- In every reachable state the number of threads that a condition variable counts as waiting is the
-- number of threads that stand between the two halves of a wait on it.
pub Reach-waiting :
    {n w : ℕ} {y : System}
    → Reach n w y
    → (v : CondName)
    → (y.server.cond v).waiting
      ≡ main_waits v y.main
        + (total (λ c. controller_waits v c.pc) y.accepted y.controllers
            + total (worker_waits v) w y.workers)
Reach-waiting {n} {w} r v = (Reach-Keeps (Keeps-Counted v w) (initial-Counted v n w) r).exact
