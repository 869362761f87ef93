-- ===== src/Server/Races/Removal.antt =====
-- Two workers of src/Server/server.cpp after the same job.
use multithreaded_network_jo.Prelude.{
  ℕ, ◌≡◌, ◌≢◌, sym, arith, ◌∙◌, [], ◌∷◌, ◌++◌, none, fault, empty_front, replicate,
}
use multithreaded_network_jo.Commands.{JobTriplate}
use multithreaded_network_jo.Tools.WaitingBufferQueue.{get_job_triplate}
use multithreaded_network_jo.Server.State.{mutex_job_insertion, Server, lock, unlock}
use multithreaded_network_jo.Server.Choice.{proceeds}
use multithreaded_network_jo.Server.Worker
use multithreaded_network_jo.Server.Worker.{worker_step}
use multithreaded_network_jo.Server.System.{System, run}
use multithreaded_network_jo.Server.Induction.{update_other}
use multithreaded_network_jo.Server.Handlers.{Returns}
use multithreaded_network_jo.Server.Races.{
  run-then_fault, worker-run, worker-run_fault, many, worker_at, worker_moves,
}

-- The buffer is empty and may be entered.
abbrev Emptied : Server → Type 0
Emptied s = (s.queue.buffer ≡ []) × (s.owner mutex_job_insertion ≡ none)

takes-Emptied :
    (i : ℕ) (s : Server) (j : JobTriplate)
    → s.queue.buffer ≡ j ∷ []
    → s.owner mutex_job_insertion ≡ none
    → Returns (many (worker_at i) (replicate 3 proceeds) s Worker.take_lock) (λ r. Emptied r.0)
unfolding many worker_step lock unlock get_job_triplate
takes-Emptied i s j e free = ground arith

take_faults :
    (i : ℕ) (s : Server)
    → Emptied s
    → many (worker_at i) (replicate 2 proceeds) s Worker.take_lock ≡ fault empty_front
unfolding many worker_step lock get_job_triplate
take_faults i s empty = ground arith

-- Two workers that have both left their wait for one and the same job (each has seen a buffer that
-- was not empty, and neither has taken from it): the one that comes second takes the front of an
-- empty vector.
pub second_removal_faults :
    (i k : ℕ) (y : System) (j : JobTriplate)
    → i ≢ k
    → y.workers i ≡ Worker.take_lock
    → y.workers k ≡ Worker.take_lock
    → y.server.queue.buffer ≡ j ∷ []
    → y.server.owner mutex_job_insertion ≡ none
    → run (worker_moves i (replicate 3 proceeds) ++ worker_moves k (replicate 2 proceeds)) y
      ≡ fault empty_front
second_removal_faults i k y j ne at_i at_k one free =
    let Mid : System → Type 0 = λ z. Emptied z.server × (z.workers k ≡ Worker.take_lock) in
    run-then_fault empty_front Mid (worker_moves i (replicate 3 proceeds))
      (worker_moves k (replicate 2 proceeds)) y
      (worker-run (λ r. Emptied r.0) Mid i (replicate 3 proceeds) y
        (rw at_i (takes-Emptied i y.server j one free))
        (λ r empty. (empty, update_other y.workers i k r.1 (λ e. ne (sym e)) ∙ at_k)))
      (λ z mid.
        worker-run_fault empty_front k (replicate 2 proceeds) z
          (rw mid.1 (take_faults k z.server mid.0)))
