-- ===== src/Server/Counters/Running.antt =====
-- `runningJobs` of src/Server counts the running jobs, as long as every job gets its process.
use multithreaded_network_jo.Prelude.{ℕ, ◌+◌, ◌-◌, ◌%◌, ◌^◌, ◌<◌, ◌≡◌, ◌≢◌, arith, ok}
use multithreaded_network_jo.Commands.{JobTriplate}
use multithreaded_network_jo.Server.State.{
  ThreadId, Server, lock, unlock, unlock_own, cond_wait, wake, signal, send_message,
}
use multithreaded_network_jo.Server.Choice.{Choice, spawn_fails}
use multithreaded_network_jo.Server.Worker
use multithreaded_network_jo.Server.Worker.{worker_step}
use multithreaded_network_jo.Server.System.{System}
use multithreaded_network_jo.Server.Counters.{total, runs_job}
use multithreaded_network_jo.Server.Counters.Pool.{Pool}

-- What one step of a worker does to the counter, modulo 2^32, unless a process is refused.
pub worker-running :
    (pc : Worker.Pc) (ch : Choice) (t : ThreadId) (s : Server) {r : Server × Worker.Pc}
    → worker_step pc ch t s ≡ ok r
    → ch ≢ spawn_fails
    → ((r.0.running_jobs + runs_job pc) % 2 ^ 32 ≡ (s.running_jobs + runs_job r.1) % 2 ^ 32)
      × (s.running_jobs < 2 ^ 32 → r.0.running_jobs < 2 ^ 32)
unfolding worker_step unlock_own lock unlock cond_wait wake signal send_message
worker-running Worker.unborn ch t s h ne = ground arith
worker-running _ ch t s h ne = ground arith

-- Where a process is refused the job is not counted, and yet it is discounted when the worker is
-- through with it: from zero the counter falls to the largest `unsigned int`.
pub refused_process_underflows :
    (j : JobTriplate) (ch ch' : Choice) (t : ThreadId) (s : Server) {r r' r'' : Server × Worker.Pc}
    → s.running_jobs ≡ 0
    → worker_step (Worker.execute j) spawn_fails t s ≡ ok r
    → worker_step r.1 ch t r.0 ≡ ok r'
    → worker_step r'.1 ch' t r'.0 ≡ ok r''
    → r''.0.running_jobs ≡ 2 ^ 32 - 1
unfolding worker_step unlock_own lock
refused_process_underflows j ch ch' t s e h h' h'' = ground arith

record Tallied (w : ℕ) (y : System) : Type 0 where
  pool : Pool w y
  exact : y.server.running_jobs ≡ total runs_job w y.workers
