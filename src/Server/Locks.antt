-- ===== src/Server/Locks.antt =====
-- Which mutex a thread of src/Server holds at each place of its code: the one that it has locked and
-- not yet unlocked or given up by a wait. No thread ever holds two.
pub mod Threads
pub mod Exclusion
pub mod Release
use multithreaded_network_jo.Prelude.{ℕ, Option, none, some, ◌≡◌, ◌≢◌, ◌↔◌}
use multithreaded_network_jo.Server.State.{
  ThreadId, main_thread, controller_thread, worker_thread, MutexName, mutex_controller,
  mutex_worker, mutex_job_insertion, mutex_server_continue, mutex_all_jobs_done, Server,
}
use multithreaded_network_jo.Server.Controller
use multithreaded_network_jo.Server.Worker
use multithreaded_network_jo.Server.System.{
  System, MainPc, wait_check, wait_unlock, stop_broadcast, stop_unlock,
}

abbrev pub controller_holds : Controller.Pc → Option MutexName
controller_holds Controller.continue_set = some mutex_server_continue
controller_holds Controller.continue_unlock = some mutex_server_continue
controller_holds Controller.full_check = some mutex_controller
controller_holds Controller.full_sleep = some mutex_controller
controller_holds Controller.full_stop_check = some mutex_controller
controller_holds Controller.cancel_respond = some mutex_controller
controller_holds Controller.cancel_text = some mutex_controller
controller_holds Controller.cancel_unlock = some mutex_controller
controller_holds Controller.full_unlock = some mutex_controller
controller_holds (Controller.insert _) = some mutex_job_insertion
controller_holds (Controller.insert_unlock _) = some mutex_job_insertion
controller_holds (Controller.level_signal _ _) = some mutex_worker
controller_holds (Controller.level_unlock _ _) = some mutex_worker
controller_holds (Controller.stop_notify _) = some mutex_controller
controller_holds (Controller.notify_size _) = some mutex_controller
controller_holds (Controller.notify_text _) = some mutex_controller
controller_holds Controller.stop_unlock = some mutex_controller
controller_holds Controller.exit_broadcast = some mutex_controller
controller_holds Controller.exit_unlock = some mutex_controller
controller_holds Controller.jobs_check = some mutex_all_jobs_done
controller_holds Controller.jobs_sleep = some mutex_all_jobs_done
controller_holds Controller.jobs_unlock = some mutex_all_jobs_done
controller_holds Controller.exit_continue_set = some mutex_server_continue
controller_holds Controller.exit_continue_unlock = some mutex_server_continue
controller_holds _ = none

abbrev pub worker_holds : Worker.Pc → Option MutexName
worker_holds Worker.idle_check = some mutex_worker
worker_holds Worker.idle_sleep = some mutex_worker
worker_holds Worker.stop_check = some mutex_worker
worker_holds Worker.stop_unlock = some mutex_worker
worker_holds Worker.idle_unlock = some mutex_worker
worker_holds Worker.take = some mutex_job_insertion
worker_holds (Worker.take_unlock _) = some mutex_job_insertion
worker_holds (Worker.notify _) = some mutex_worker
worker_holds (Worker.notify_unlock _) = some mutex_worker
worker_holds Worker.finish = some mutex_worker
worker_holds Worker.finish_busy = some mutex_worker
worker_holds Worker.finish_unlock = some mutex_worker
worker_holds _ = none

abbrev pub main_holds : MainPc → Option MutexName
main_holds wait_check = some mutex_server_continue
main_holds wait_unlock = some mutex_server_continue
main_holds stop_broadcast = some mutex_worker
main_holds stop_unlock = some mutex_worker
main_holds _ = none

abbrev pub holds : System → ThreadId → Option MutexName
holds y main_thread = main_holds y.main
holds y (controller_thread i) = controller_holds (y.controllers i).pc
holds y (worker_thread i) = worker_holds (y.workers i)

-- The thread `t` is the owner of the mutex `m` exactly if it holds `m`.
abbrev pub Owns : Server → ThreadId → Option MutexName → MutexName → Type 0
Owns s t held m = (s.owner m ≡ some t) ↔ (held ≡ some m)

-- A step of `t` from `s` to `s'` changes nothing about what the other threads own.
abbrev pub Frame : ThreadId → Server → Server → MutexName → Type 0
Frame t s s' m = (u : ThreadId) → u ≢ t → (s'.owner m ≡ some u) ↔ (s.owner m ≡ some u)
