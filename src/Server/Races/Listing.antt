-- ===== src/Server/Races/Listing.antt =====
-- The answer to `poll` of src/Server/Threads/controllerThread.cpp while a worker takes a job out of
-- the waiting buffer.
use multithreaded_network_jo.Prelude.{
  ℕ, ◌<◌, ◌≡◌, refl, arith, List, [], ◌∷◌, ◌++◌, none, get_elem?, length, fault, out_of_range,
  replicate,
}
use multithreaded_network_jo.Commands.{JobTriplate}
use multithreaded_network_jo.Tools.WaitingBufferQueue.{get_job_triplate, at}
use multithreaded_network_jo.Server.State.{mutex_job_insertion, Server, lock}
use multithreaded_network_jo.Server.Choice.{proceeds}
use multithreaded_network_jo.Server.Controller
use multithreaded_network_jo.Server.Controller.{Controller, controller_step, step_at}
use multithreaded_network_jo.Server.Worker
use multithreaded_network_jo.Server.Worker.{worker_step}
use multithreaded_network_jo.Server.System.{System, run}
use multithreaded_network_jo.Server.Handlers.{Returns}
use multithreaded_network_jo.Server.Races.{
  many, controller_at, worker_at, controller_moves, worker_moves, run-then_fault,
  controller-run_fault, worker-run,
}

get_elem?-length {ℓ} : {A : Type ℓ} (xs : List A) → get_elem? xs (length xs) ≡ none
get_elem?-length [] = refl
get_elem?-length (x ∷ xs) = get_elem?-length xs

takes-first :
    (k : ℕ) (s : Server) (j : JobTriplate) (xs : List JobTriplate)
    → s.queue.buffer ≡ j ∷ xs
    → s.owner mutex_job_insertion ≡ none
    → Returns
        (many (worker_at k) (replicate 2 proceeds) s Worker.take_lock)
        (λ r. r.0.queue.buffer ≡ xs)
unfolding many worker_step lock get_job_triplate
takes-first k s j xs e free = ground arith

lists-past_end :
    (i n : ℕ) (s : Server) (c : Controller) (xs : List JobTriplate)
    → c.pc ≡ Controller.poll_loop (length xs) n
    → length xs < n
    → s.queue.buffer ≡ xs
    → many (controller_at i) (proceeds ∷ []) s c ≡ fault out_of_range
unfolding many controller_step step_at at
lists-past_end i n s c xs here more e = ground (arith, get_elem?-length xs)

-- A controller lists the waiting buffer and has come to the last job, of as many as it has counted,
-- when a worker takes a job: the place is past the end of the buffer now, `at` throws, and nobody
-- catches it.
pub poll_runs_past_end :
    (i k n : ℕ) (y : System) (j : JobTriplate) (xs : List JobTriplate)
    → (y.controllers i).pc ≡ Controller.poll_loop (length xs) n
    → length xs < n
    → y.workers k ≡ Worker.take_lock
    → y.server.queue.buffer ≡ j ∷ xs
    → y.server.owner mutex_job_insertion ≡ none
    → run (worker_moves k (replicate 2 proceeds) ++ controller_moves i (proceeds ∷ [])) y
      ≡ fault out_of_range
poll_runs_past_end i k n y j xs at_i more at_k waiting free =
    let Mid : System → Type 0 = λ z.
      (z.server.queue.buffer ≡ xs) × ((z.controllers i).pc ≡ Controller.poll_loop (length xs) n) in
    run-then_fault out_of_range Mid (worker_moves k (replicate 2 proceeds))
      (controller_moves i (proceeds ∷ [])) y
      (worker-run (λ r. r.0.queue.buffer ≡ xs) Mid k (replicate 2 proceeds) y
        (rw at_k (takes-first k y.server j xs waiting free)) (λ r taken. (taken, at_i)))
      (λ z mid.
        controller-run_fault out_of_range i (proceeds ∷ []) z
          (lists-past_end i n z.server (z.controllers i) xs mid.1 more mid.0))
