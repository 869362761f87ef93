-- ===== src/Server/Races/Concurrency.antt =====
-- Two workers of src/Server/server.cpp that both find the last free place among the running jobs.
use multithreaded_network_jo.Prelude.{
  ℕ, ◌+◌, ◌%◌, ◌<◌, subst, ◌^◌, ◌≡◌, ◌≢◌, sym, arith, ◌∙◌, List, [], ◌∷◌, ◌++◌, none, replicate,
}
use multithreaded_network_jo.Commands.{JobTriplate}
use multithreaded_network_jo.Tools.WaitingBufferQueue.{get_job_triplate}
use multithreaded_network_jo.Server.State.{
  mutex_worker, mutex_job_insertion, Server, lock, unlock, signal,
}
use multithreaded_network_jo.Server.Choice.{Choice, proceeds, spawns}
use multithreaded_network_jo.Server.Worker
use multithreaded_network_jo.Server.Worker.{worker_step}
use multithreaded_network_jo.Server.System.{System, run}
use multithreaded_network_jo.Server.Induction.{update_same, update_other}
use multithreaded_network_jo.Server.Handlers.{Returns}
use multithreaded_network_jo.Server.Races.{many, worker_at, worker_moves, run-then, worker-run}

-- From the end of the wait to the process of the job.
abbrev pub starts_job : List Choice
starts_job = replicate 7 proceeds ++ spawns ∷ []

-- The worker has taken the first job and runs it.
record Started (s : Server) (j : JobTriplate) (rest : List JobTriplate) (r : Server × Worker.Pc)
    : Type 0 where
  runs : r.1 ≡ Worker.running j
  left : r.0.queue.buffer ≡ rest
  running : r.0.running_jobs ≡ (s.running_jobs + 1) % 2 ^ 32
  concurrency : r.0.concurrency ≡ s.concurrency
  enters : r.0.owner mutex_job_insertion ≡ none
  works : r.0.owner mutex_worker ≡ none

starts-Started :
    (i : ℕ) (s : Server) (j : JobTriplate) (rest : List JobTriplate)
    → s.queue.buffer ≡ j ∷ rest
    → s.owner mutex_job_insertion ≡ none
    → s.owner mutex_worker ≡ none
    → Returns (many (worker_at i) starts_job s Worker.take_lock) (Started s j rest)
unfolding many worker_step lock unlock signal get_job_triplate
starts-Started i s j rest e enters works = ground arith

-- Two workers that have both seen one free place among the running jobs, and stand before the
-- removal of a job: when each has run to the start of its process, one more job runs than the
-- concurrency allows.
pub concurrency_exceeded :
    (i k : ℕ) (y : System) (first second : JobTriplate) (rest : List JobTriplate)
    → i ≢ k
    → y.workers i ≡ Worker.take_lock
    → y.workers k ≡ Worker.take_lock
    → y.server.queue.buffer ≡ first ∷ second ∷ rest
    → y.server.owner mutex_job_insertion ≡ none
    → y.server.owner mutex_worker ≡ none
    → y.server.running_jobs + 1 ≡ y.server.concurrency
    → y.server.concurrency + 1 < 2 ^ 32
    → Returns (run (worker_moves i starts_job ++ worker_moves k starts_job) y) (λ z.
      (z.workers i ≡ Worker.running first)
      × (z.workers k ≡ Worker.running second)
      × (z.server.concurrency ≡ y.server.concurrency)
      × (z.server.running_jobs ≡ z.server.concurrency + 1))
concurrency_exceeded i k y first second rest ne at_i at_k waiting enters works one_place few =
    let Mid : System → Type 0 = λ z.
      Started y.server first (second ∷ rest) (z.server, z.workers i)
      × (z.workers k ≡ Worker.take_lock) in
    let End : System → Type 0 = λ z.
      (z.workers i ≡ Worker.running first)
      × (z.workers k ≡ Worker.running second)
      × (z.server.concurrency ≡ y.server.concurrency)
      × (z.server.running_jobs ≡ z.server.concurrency + 1) in
    run-then Mid End (worker_moves i starts_job) (worker_moves k starts_job) y
      (worker-run (Started y.server first (second ∷ rest)) Mid i starts_job y
        (rw at_i (starts-Started i y.server first (second ∷ rest) waiting enters works))
        (λ r one. (
          subst (λ pc. Started y.server first (second ∷ rest) (r.0, pc))
              (sym (update_same y.workers i r.1)) one,
          update_other y.workers i k r.1 (λ e. ne (sym e)) ∙ at_k,
        )))
      (λ z mid.
        let one = mid.0 in
        worker-run (Started z.server second rest) End k starts_job z
          (rw mid.1 (starts-Started k z.server second rest one.left one.enters one.works))
          (λ r two. (
            update_other z.workers k i r.1 ne ∙ one.runs,
            update_same z.workers k r.1 ∙ two.runs,
            two.concurrency ∙ one.concurrency,
            ground (arith, two.running, two.concurrency, one.running, one.concurrency),
          )))
