-- ===== src/Server/Counters/Pool.antt =====
-- The workers of src/Server are those that `run` has created, as many as the thread pool holds.
use multithreaded_network_jo.Prelude.{ℕ, ◌≤◌, ◌<◌, ◌≡◌, refl, arith, ok, dec_lt}
use multithreaded_network_jo.Server.State.{
  ThreadId, controller_thread, worker_thread, Server, lock, unlock, unlock_own, cond_wait, wake,
  signal, broadcast, send_message,
}
use multithreaded_network_jo.Server.Choice.{Choice}
use multithreaded_network_jo.Server.Controller
use multithreaded_network_jo.Server.Controller.{Controller, step_at}
use multithreaded_network_jo.Server.Worker
use multithreaded_network_jo.Server.Worker.{worker_step}
use multithreaded_network_jo.Server.Births.{Births, Keeps-Births, Reach-Births, worker_step-born}
use multithreaded_network_jo.Server.Induction.{Keeps}
use multithreaded_network_jo.Server.System.{
  System, MainPc, spawn_worker, listen, main_step_at, Reach, initial,
}
use multithreaded_network_jo.Server.Counters.{total}
use multithreaded_network_jo.Server.Counters.Sums.{total-update}

pub controller-counters :
    (pc : Controller.Pc) (ch : Choice) (t : ThreadId) (s : Server) (c : Controller)
    {r : Server × Controller}
    → step_at pc ch t s c ≡ ok r
    → (r.0.busy_workers ≡ s.busy_workers)
      × (r.0.running_jobs ≡ s.running_jobs)
      × (r.0.thread_pool_size ≡ s.thread_pool_size)
unfolding step_at lock unlock cond_wait wake signal broadcast send_message
controller-counters Controller.unborn ch t s c h = ground arith
controller-counters _ ch t s c h = ground arith

pub worker-pool :
    (pc : Worker.Pc) (ch : Choice) (t : ThreadId) (s : Server) {r : Server × Worker.Pc}
    → worker_step pc ch t s ≡ ok r
    → r.0.thread_pool_size ≡ s.thread_pool_size
unfolding worker_step unlock_own lock unlock cond_wait wake signal send_message
worker-pool Worker.unborn ch t s h = ground arith
worker-pool _ ch t s h = ground arith

pub record Pool (w : ℕ) (y : System) : Type 0 where
  pub births : Births y
  pub pool : y.server.thread_pool_size ≡ w
  pub outside : (i : ℕ) → w ≤ i → y.workers i ≡ Worker.unborn

main-outside :
    (w : ℕ) (pc : MainPc) (ch : Choice) (y : System) {z : System}
    → main_step_at pc ch y ≡ ok z
    → y.server.thread_pool_size ≡ w
    → (i : ℕ) → w ≤ i
    → y.workers i ≡ Worker.unborn
    → z.workers i ≡ Worker.unborn
unfolding main_step_at lock wake
main-outside w listen ch y h e i le o = ground arith
main-outside w _ ch y h e i le o = ground arith

pub main-counters :
    (pc : MainPc) (ch : Choice) (y : System) {z : System}
    → main_step_at pc ch y ≡ ok z
    → (z.server.busy_workers ≡ y.server.busy_workers)
      × (z.server.running_jobs ≡ y.server.running_jobs)
      × (z.server.thread_pool_size ≡ y.server.thread_pool_size)
unfolding main_step_at lock unlock cond_wait wake broadcast
main-counters listen ch y h = ground arith
main-counters _ ch y h = ground arith

-- A worker that moves is one of the pool.
pub worker-inside :
    (w i : ℕ) (ch : Choice) (y : System) {r : Server × Worker.Pc}
    → worker_step (y.workers i) ch (worker_thread i) y.server ≡ ok r
    → Pool w y
    → i < w
worker-inside w i ch y h k = elim (dec_lt i w) [
  | yes lt ↦ lt
  | no ge ↦ absurd (worker_step-born ch (worker_thread i) y.server h (k.outside i (omega arith)))
]

pub Keeps-Pool : (w : ℕ) → Keeps (Pool w)
Keeps-Pool w = record {
  main = λ ch y z h k. record {
    births = Keeps-Births.main ch y z h k.births;
    pool = ground (arith, k.pool, main-counters y.main ch y h);
    outside = λ i le. main-outside w y.main ch y h k.pool i le (k.outside i le);
  };
  controller = λ i ch y r h k. record {
    births = Keeps-Births.controller i ch y r h k.births;
    pool = ground (
      arith,
      k.pool,
      controller-counters (y.controllers i).pc ch (controller_thread i) y.server (y.controllers i)
          h,
    );
    outside = k.outside;
  };
  worker = λ i ch y r h k. record {
    births = Keeps-Births.worker i ch y r h k.births;
    pool = ground (arith, k.pool, worker-pool (y.workers i) ch (worker_thread i) y.server h);
    outside = λ j le. ground (arith, worker-inside w i ch y h k, k.outside j le);
  };
}

pub initial-Pool : (n w : ℕ) → Pool w (initial n w)
unfolding initial
initial-Pool n w = record {
  births = Reach-Births (Reach.start refl);
  pool = refl;
  outside = λ i le. refl;
}

-- A weight that a new worker adds nothing to has the same sum after a step of `run`.
pub main-total :
    (f : Worker.Pc → ℕ) (w : ℕ) (pc : MainPc) (ch : Choice) (y : System) {z : System}
    → main_step_at pc ch y ≡ ok z
    → y.main ≡ pc
    → f Worker.idle_lock ≡ f Worker.unborn
    → Pool w y
    → total f w z.workers ≡ total f w y.workers
unfolding main_step_at lock wake
main-total f w (spawn_worker i) ch y h e same k = ground (
  arith,
  same,
  k.pool,
  total-update f w y.workers i Worker.idle_lock,
  k.births.unborn_workers i i e,
)
main-total f w _ ch y h e same k = ground arith
