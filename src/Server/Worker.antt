-- ===== src/Server/Worker.antt =====
-- The worker threads: `Process::WorkerThread` of src/Server/server.cpp, and `receiveJobFromBuffer`,
-- `createOutputResponse`, `sendJobOutputToClient` and the parent's part of `executeJob` of
-- src/Server/Threads/workerThread.cpp.
use multithreaded_network_jo.Prelude.{
  ◌+◌, ◌-◌, ◌%◌, ◌^◌, ◌++◌, ◌==◌, ◌||◌, if◌then◌else◌, Bytes, codes, Outcome, ok, blocked, fault,
  null_text, ◌>>=◌,
}
use multithreaded_network_jo.Commands.{JobTriplate}
use multithreaded_network_jo.Tools.WaitingBufferQueue.{get_job_triplate, is_empty}
use multithreaded_network_jo.Server.State.{
  ThreadId, mutex_worker, mutex_job_insertion, cond_controller, cond_worker, cond_all_jobs_done,
  Server, lock, unlock, unlock_own, cond_wait, wake, signal, increase_running_jobs, c_str,
  send_size, send_text,
}
use multithreaded_network_jo.Server.Choice.{
  Choice, spawns, spawn_fails, send_fails, output_missing, outputs, is_spurious,
}

-- Where a worker thread stands, with the triplate that it has taken.
pub data Pc : Type 0 where
  unborn idle_lock idle_check idle_sleep idle_wait stop_check stop_unlock second_unlock exited
        idle_unlock take_lock take :
      Pc
  take_unlock notify_lock notify notify_unlock count_busy execute running : JobTriplate → Pc
  responding : JobTriplate → Bytes → Pc
  finish_lock finish finish_busy finish_unlock finish_signal : Pc

-- `createOutputResponse`; `%s` reads its arguments up to their first zero byte.
unfoldable pub create_output_response : Bytes → Bytes → Bytes
create_output_response job_output job_id =
    (codes "-----" ++ c_str job_id ++ codes " output start------")
    ++ codes "\n"
    ++ c_str job_output
    ++ codes "\n"
    ++ (codes "-----" ++ c_str job_id ++ codes " output end------")

abbrev goto : Pc → Server → Outcome (Server × Pc)
goto pc s = ok (s, pc)

-- `pipe` and `fork`: where one fails the job is given up before it is counted as running.
executes : JobTriplate → Choice → Server → Outcome (Server × Pc)
executes j spawn_fails s = goto finish_lock s
executes j spawns s = goto (running j) (increase_running_jobs s)
executes j _ s = blocked

-- The job is given its file, runs to its end, and its output goes to the client. `readFile` returns a
-- null pointer where the output cannot be read, and that is formatted all the same.
runs : JobTriplate → Choice → Server → Outcome (Server × Pc)
runs j send_fails s = goto finish_lock s
runs j output_missing s = fault null_text
runs j (outputs output) s =
    let response = create_output_response output j.job_id in
    goto (responding j response) (send_size j.socket_id response s)
runs j _ s = blocked

-- One step of the thread `t` at its program counter. A worker that finds the server stopping unlocks
-- the mutex, leaves the inner loop and unlocks the mutex a second time.
unfoldable pub worker_step : Pc → Choice → ThreadId → Server → Outcome (Server × Pc)
unfolding executes runs
worker_step unborn ch t s = blocked
worker_step idle_lock ch t s = lock mutex_worker t s >>= goto idle_check
worker_step idle_check ch t s =
    if is_empty s.queue || (s.running_jobs == s.concurrency)
    then goto idle_sleep s
    else goto idle_unlock s
worker_step idle_sleep ch t s = goto idle_wait (cond_wait cond_worker mutex_worker s)
worker_step idle_wait ch t s =
    wake (is_spurious ch) cond_worker mutex_worker t s >>= goto stop_check
worker_step stop_check ch t s = if s.should_stop then goto stop_unlock s else goto idle_check s
worker_step stop_unlock ch t s = goto second_unlock (unlock mutex_worker s)
worker_step second_unlock ch t s = unlock_own mutex_worker t s >>= goto exited
worker_step exited ch t s = blocked
worker_step idle_unlock ch t s = goto take_lock (unlock mutex_worker s)
worker_step take_lock ch t s = lock mutex_job_insertion t s >>= goto take
worker_step take ch t s =
    get_job_triplate s.queue >>= λ r. goto (take_unlock r.0) (record s { queue = r.1 })
worker_step (take_unlock j) ch t s = goto (notify_lock j) (unlock mutex_job_insertion s)
worker_step (notify_lock j) ch t s = lock mutex_worker t s >>= goto (notify j)
worker_step (notify j) ch t s = goto (notify_unlock j) (signal cond_controller s)
worker_step (notify_unlock j) ch t s = goto (count_busy j) (unlock mutex_worker s)
worker_step (count_busy j) ch t s =
    goto (execute j) (record s { busy_workers = (s.busy_workers + 1) % 2 ^ 32 })
worker_step (execute j) ch t s = executes j ch s
worker_step (running j) ch t s = runs j ch s
worker_step (responding j response) ch t s = goto finish_lock (send_text j.socket_id response s)
worker_step finish_lock ch t s = lock mutex_worker t s >>= goto finish
worker_step finish ch t s =
    goto finish_busy (record s { running_jobs = (s.running_jobs + 2 ^ 32 - 1) % 2 ^ 32 })
worker_step finish_busy ch t s =
    goto finish_unlock (record s { busy_workers = (s.busy_workers + 2 ^ 32 - 1) % 2 ^ 32 })
worker_step finish_unlock ch t s = goto finish_signal (unlock mutex_worker s)
worker_step finish_signal ch t s = goto idle_lock (signal cond_all_jobs_done s)
