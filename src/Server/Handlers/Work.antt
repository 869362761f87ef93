-- ===== src/Server/Handlers/Work.antt =====
-- A worker thread of src/Server/server.cpp from one wait for a job to the next.
use multithreaded_network_jo.Prelude.{
  ℕ, ◌+◌, ◌%◌, ◌<◌, ◌≢◌, ◌^◌, ◌≡◌, arith, List, ◌∷◌, ◌++◌, none, Bytes, length, replicate,
}
use multithreaded_network_jo.Commands.{JobTriplate}
use multithreaded_network_jo.Tools.WaitingBufferQueue.{get_job_triplate}
use multithreaded_network_jo.Tools.WaitingBufferQueue.Search.{queue_of}
use multithreaded_network_jo.Server.State.{
  ThreadId, MutexName, mutex_worker, mutex_job_insertion, Server, lock, unlock, signal,
  send_message,
}
use multithreaded_network_jo.Server.Choice.{Choice, proceeds, spawns, outputs}
use multithreaded_network_jo.Server.Worker
use multithreaded_network_jo.Server.Worker.{worker_step, create_output_response}
use multithreaded_network_jo.Server.Handlers.{
  works, works-append, Returns, Returns->>=, Free, message, send_all-append,
}

-- The answers to a worker whose job is run and has this output.
abbrev pub job_runs : Bytes → List Choice
job_runs output = replicate 10 proceeds ++ (spawns ∷ outputs output ∷ replicate 6 proceeds)

-- A worker with a job in its hands, counted as busy.
record Took (n : ℕ) (j : JobTriplate) (xs : List JobTriplate) (s : Server) (r : Server × Worker.Pc)
    : Type 0 where
  at_execute : r.1 ≡ Worker.execute j
  queue : r.0.queue ≡ queue_of n xs
  silent : r.0.sent ≡ s.sent
  running : r.0.running_jobs ≡ s.running_jobs
  busy : r.0.busy_workers ≡ (s.busy_workers + 1) % 2 ^ 32
  free : (m : MutexName) → r.0.owner m ≡ none

works-Took :
    (t : ThreadId) (s : Server) (n : ℕ) (j : JobTriplate) (xs : List JobTriplate)
    → Free s
    → s.running_jobs ≢ s.concurrency
    → length (j ∷ xs) < 2 ^ 32
    → Returns
        (works
          (replicate 10 proceeds)
          t
          (record s { queue = queue_of n (j ∷ xs) })
          Worker.idle_lock)
        (Took n j xs s)
unfolding works worker_step lock unlock signal get_job_triplate
works-Took t s n j xs free idle short =
    ground (arith, free mutex_worker, free mutex_job_insertion, free)

-- What the job of a worker comes to, from a server with so many running jobs and busy workers.
abbrev pub Worked :
    ℕ → JobTriplate → List JobTriplate → Bytes → Server → Server × Worker.Pc → Type 0
Worked n j xs output s r = record {
  back : r.1 ≡ Worker.idle_lock;
  taken : r.0.queue ≡ queue_of n xs;
  told : r.0.sent ≡ s.sent ++ message j.socket_id (create_output_response output j.job_id);
  running : r.0.running_jobs ≡ s.running_jobs;
  busy : r.0.busy_workers ≡ s.busy_workers;
  free : (m : MutexName) → r.0.owner m ≡ none;
}

works-Worked :
    (t : ThreadId) (s : Server) (n : ℕ) (j : JobTriplate) (xs : List JobTriplate) (output : Bytes)
    → s.running_jobs < 2 ^ 32
    → s.busy_workers < 2 ^ 32
    → (r : Server × Worker.Pc) → Took n j xs s r
    → Returns
        (works (spawns ∷ outputs output ∷ replicate 6 proceeds) t r.0 r.1)
        (Worked n j xs output s)
unfolding works worker_step lock unlock signal send_message
works-Worked t s n j xs output small few (s', pc) took = ground (
  arith,
  took.free mutex_worker,
  took.free,
  send_all-append s.sent (message j.socket_id (create_output_response output j.job_id)),
)

-- A worker that looks for a job while one waits and the number of running jobs is not the
-- concurrency, with no other thread moving and no mutex taken, and whose process is started and
-- ends with an output: it takes the first job and no other, sends the response to that job's
-- client, and is back where it was; the counters are as before, and no mutex stays taken.
pub worker_runs_job :
    (t : ThreadId) (s : Server) (n : ℕ) (j : JobTriplate) (xs : List JobTriplate) (output : Bytes)
    → Free s
    → s.running_jobs ≢ s.concurrency
    → s.running_jobs < 2 ^ 32
    → s.busy_workers < 2 ^ 32
    → length (j ∷ xs) < 2 ^ 32
    → Returns
        (works (job_runs output) t (record s { queue = queue_of n (j ∷ xs) }) Worker.idle_lock)
        (Worked n j xs output s)
worker_runs_job t s n j xs output free idle small few short =
    rw
      (works-append (replicate 10 proceeds) (spawns ∷ outputs output ∷ replicate 6 proceeds) t
        (record s { queue = queue_of n (j ∷ xs) }) Worker.idle_lock)
      (Returns->>= (Took n j xs s) (Worked n j xs output s) _ _
        (works-Took t s n j xs free idle short) (works-Worked t s n j xs output small few))
