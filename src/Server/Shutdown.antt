-- ===== src/Server/Shutdown.antt =====
-- The end of the server: `destroy` of src/Server/server.cpp, and the threads that wait on a condition
-- variable then.
pub mod Waiting
pub mod Destroyed
use multithreaded_network_jo.Prelude.{
  ℕ, ltb, if◌then◌else◌, none, some, Outcome, ok, fault, destroys_used, ◌>>=◌,
}
use multithreaded_network_jo.Server.State.{
  ThreadId, main_thread, controller_thread, worker_thread, MutexName, mutex_controller,
  mutex_worker, mutex_job_insertion, mutex_server_continue, mutex_all_jobs_done, CondName,
  cond_controller, cond_worker, cond_server_continue, cond_all_jobs_done, Server,
}
use multithreaded_network_jo.Server.Controller
use multithreaded_network_jo.Server.Worker
use multithreaded_network_jo.Server.System.{System, MainPc, wait_wait}

-- `pthread_mutex_destroy` of a mutex that a thread has, and `pthread_cond_destroy` of a condition
-- variable that a thread waits on, are undefined.
abbrev destroy_mutex : MutexName → Server → Outcome Server
destroy_mutex m s = elim (s.owner m) [ none ↦ ok s | some t ↦ fault destroys_used ]

abbrev destroy_cond : CondName → Server → Outcome Server
destroy_cond c s = if ltb 0 (s.cond c).waiting then fault destroys_used else ok s

delete_server_mutexes : Server → Outcome Server
delete_server_mutexes s =
    destroy_mutex mutex_controller s
    >>= destroy_mutex mutex_worker
    >>= destroy_mutex mutex_job_insertion
    >>= destroy_mutex mutex_server_continue
    >>= destroy_mutex mutex_all_jobs_done

delete_server_condition_variables : Server → Outcome Server
delete_server_condition_variables s =
    destroy_cond cond_controller s
    >>= destroy_cond cond_worker
    >>= destroy_cond cond_server_continue
    >>= destroy_cond cond_all_jobs_done

unfoldable pub destroy : Server → Outcome Server
unfolding delete_server_mutexes delete_server_condition_variables
destroy s = delete_server_mutexes s >>= delete_server_condition_variables

-- One for a thread between the two halves of its wait on the condition variable.
abbrev pub main_waits : CondName → MainPc → ℕ
main_waits cond_server_continue wait_wait = 1
main_waits _ _ = 0

abbrev pub controller_waits : CondName → Controller.Pc → ℕ
controller_waits cond_controller Controller.full_wait = 1
controller_waits cond_all_jobs_done Controller.jobs_wait = 1
controller_waits _ _ = 0

abbrev pub worker_waits : CondName → Worker.Pc → ℕ
worker_waits cond_worker Worker.idle_wait = 1
worker_waits _ _ = 0

abbrev pub waits : CondName → System → ThreadId → ℕ
waits c y main_thread = main_waits c y.main
waits c y (controller_thread i) = controller_waits c (y.controllers i).pc
waits c y (worker_thread i) = worker_waits c (y.workers i)
