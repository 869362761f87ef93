-- ===== src/Server/Counters.antt =====
-- The two counters of src/Server against the places where the worker threads stand.
pub mod Sums
pub mod Pool
pub mod Controllers
pub mod Busy
pub mod Running
use multithreaded_network_jo.Prelude.{ℕ, zero, suc, ◌+◌}
use multithreaded_network_jo.Server.Worker

-- The sum of a weight over the first `n` threads of a family.
unfoldable pub total {ℓ} : {A : Type ℓ} → (A → ℕ) → ℕ → (ℕ → A) → ℕ
total w zero f = 0
total w (suc n) f = total w n f + w (f n)

-- A worker between `busyWorkers++` and `busyWorkers--`.
abbrev pub busy : Worker.Pc → ℕ
busy (Worker.execute _) = 1
busy (Worker.running _) = 1
busy (Worker.responding _ _) = 1
busy Worker.finish_lock = 1
busy Worker.finish = 1
busy Worker.finish_busy = 1
busy _ = 0

-- A worker between the fork of its job and `runningJobs--`.
abbrev pub runs_job : Worker.Pc → ℕ
runs_job (Worker.running _) = 1
runs_job (Worker.responding _ _) = 1
runs_job Worker.finish_lock = 1
runs_job Worker.finish = 1
runs_job _ = 0
