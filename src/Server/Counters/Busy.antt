-- ===== src/Server/Counters/Busy.antt =====
-- `busyWorkers` of src/Server counts the workers that are busy.
use multithreaded_network_jo.Prelude.{ℕ, ◌+◌, ◌%◌, ◌^◌, ◌≤◌, ◌<◌, ◌≡◌, refl, sym, arith, ok}
use multithreaded_network_jo.Server.State.{
  ThreadId, controller_thread, worker_thread, Server, lock, unlock, unlock_own, cond_wait, wake,
  signal, send_message,
}
use multithreaded_network_jo.Server.Choice.{Choice}
use multithreaded_network_jo.Server.Worker
use multithreaded_network_jo.Server.Worker.{worker_step}
use multithreaded_network_jo.Server.Induction.{Keeps, Reach-Keeps}
use multithreaded_network_jo.Server.System.{System, Reach, initial, update}
use multithreaded_network_jo.Server.Counters.{total, busy}
use multithreaded_network_jo.Server.Counters.Pool.{
  Pool, Keeps-Pool, initial-Pool, controller-counters, main-counters, main-total, worker-inside,
}
use multithreaded_network_jo.Server.Counters.Sums.{total-update, total-le, total-none}

-- What one step of a worker does to the counter, modulo 2^32.
pub worker-busy :
    (pc : Worker.Pc) (ch : Choice) (t : ThreadId) (s : Server) {r : Server × Worker.Pc}
    → worker_step pc ch t s ≡ ok r
    → ((r.0.busy_workers + busy pc) % 2 ^ 32 ≡ (s.busy_workers + busy r.1) % 2 ^ 32)
      × (s.busy_workers < 2 ^ 32 → r.0.busy_workers < 2 ^ 32)
unfolding worker_step unlock_own lock unlock cond_wait wake signal send_message
worker-busy Worker.unborn ch t s h = ground arith
worker-busy _ ch t s h = ground arith

record Counted (w : ℕ) (y : System) : Type 0 where
  pool : Pool w y
  exact : y.server.busy_workers ≡ total busy w y.workers

busy-le : (p : Worker.Pc) → busy p ≤ 1
busy-le p = ground arith

Keeps-Counted : (w : ℕ) → w < 2 ^ 32 → Keeps (Counted w)
Keeps-Counted w small = record {
  main = λ ch y z h k. record {
    pool = (Keeps-Pool w).main ch y z h k.pool;
    exact = ground (
      arith,
      k.exact,
      main-counters y.main ch y h,
      main-total busy w y.main ch y h refl refl k.pool,
    );
  };
  controller = λ i ch y r h k. record {
    pool = (Keeps-Pool w).controller i ch y r h k.pool;
    exact = ground (
      arith,
      k.exact,
      controller-counters (y.controllers i).pc ch (controller_thread i) y.server (y.controllers i)
          h,
    );
  };
  worker = λ i ch y r h k. record {
    pool = (Keeps-Pool w).worker i ch y r h k.pool;
    exact =
        let (changed, bound) = worker-busy (y.workers i) ch (worker_thread i) y.server h in
        omega (
          arith,
          k.exact,
          changed,
          bound (omega (arith, k.exact, total-le busy w y.workers busy-le)),
          total-update busy w y.workers i r.1 (worker-inside w i ch y h k.pool),
          total-le busy w y.workers busy-le,
          total-le busy w (update y.workers i r.1) busy-le,
        );
  };
}

-- `busyWorkers` is in every reachable state exactly the number of workers that stand between its
-- increase and its decrease, and so never more than the size of the thread pool (a 32-bit number).
pub Reach-busy_workers :
    {n w : ℕ} {y : System}
    → w < 2 ^ 32
    → Reach n w y
    → (y.server.busy_workers ≡ total busy w y.workers) × (y.server.busy_workers ≤ w)
unfolding initial
Reach-busy_workers {n} {w} {y} small r =
    let k =
      Reach-Keeps (Keeps-Counted w small)
        (record { pool = initial-Pool n w; exact = sym (total-none busy w Worker.unborn refl) })
        r in
    (k.exact, omega (arith, k.exact, total-le busy w y.workers busy-le))
