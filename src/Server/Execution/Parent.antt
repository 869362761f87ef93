-- ===== src/Server/Execution/Parent.antt =====
-- The parent's part of `executeJob` against the steps of a worker thread.
use multithreaded_network_jo.Prelude.{
  ℕ, Option, none, some, ◌≡◌, arith, Bytes, c_string, Outcome, ok, ◌>>=◌, if◌then◌else◌,
}
use multithreaded_network_jo.Commands.{JobTriplate}
use multithreaded_network_jo.Server.State.{ThreadId, Server, send_message}
use multithreaded_network_jo.Server.Choice.{
  Choice, proceeds, spawns, spawn_fails, send_fails, output_missing, outputs,
}
use multithreaded_network_jo.Server.Worker
use multithreaded_network_jo.Server.Worker.{worker_step}
use multithreaded_network_jo.Server.Files.{read_file}
use multithreaded_network_jo.Server.Execution.{
  ParentCalls, path_array, execute_job, send_data_to_child_process,
}

-- What the two steps of a worker are told of the calls: of the pipe and the fork, and of the rest.
spawn_answer : ParentCalls → Choice
spawn_answer calls =
    if calls.pipes
    then (elim calls.forks [ none ↦ spawn_fails | some pid ↦ spawns ])
    else spawn_fails

output_answer : Option (ℕ × Bytes) → Outcome Choice
output_answer none = ok output_missing
output_answer (some (size, memory)) = c_string memory >>= λ output. ok (outputs output)

job_answer : (ℕ → Bytes) → ℕ → ParentCalls → ℕ → Outcome Choice
job_answer fresh fuel calls pid =
    let heard : Outcome Choice = c_string (path_array fresh pid) >>= λ name.
    read_file fresh fuel (calls.file_at name) >>= output_answer in
    if calls.writes then heard else ok send_fails

-- A worker that has sent the size of its response sends the text.
text_sent : ThreadId → Server × Worker.Pc → Outcome (Server × Worker.Pc)
text_sent t (s, Worker.responding j response) =
    worker_step (Worker.responding j response) proceeds t s
text_sent t r = ok r

-- The steps of a worker thread from the triplate to the end of the job.
unfoldable pub worker_executes :
    (ℕ → Bytes) → ℕ → ParentCalls → JobTriplate → ThreadId → Server → Outcome (Server × Worker.Pc)
unfolding spawn_answer job_answer output_answer text_sent
worker_executes fresh fuel calls j t s =
    worker_step (Worker.execute j) (spawn_answer calls) t s >>= λ r. elim (calls.forks) [
      | none ↦ ok r
      | some pid ↦
          let rest : Outcome (Server × Worker.Pc) = job_answer fresh fuel calls pid >>= λ ch.
          worker_step (Worker.running j) ch t r.0 >>= text_sent t in
          if calls.pipes then rest else ok r
    ]

-- For all answers of the system calls, `executeJob` in the parent does to the server exactly what the
-- steps of the worker thread do that begin with the pipe and the fork and end before the worker locks
-- its mutex again; where one faults so does the other.
pub execute_job-worker_executes :
    (fresh : ℕ → Bytes) (fuel : ℕ) (calls : ParentCalls) (j : JobTriplate) (t : ThreadId)
    (s : Server)
    → (execute_job fresh fuel calls j s >>= λ r. ok (r.1, Worker.finish_lock))
      ≡ worker_executes fresh fuel calls j t s
unfolding execute_job send_data_to_child_process worker_executes worker_step send_message
execute_job-worker_executes fresh fuel calls j t s = ground arith
