-- ===== src/Server/Races/Wakeups.antt =====
-- Signals of src/Server that come between the test of a condition and the wait for it. The
-- condition is changed under another mutex than the one that the thread tests it under, and the
-- signal is lost.
use multithreaded_network_jo.Prelude.{
  ℕ, ◌<◌, ◌^◌, List, length, length-append, ◌≡◌, refl, arith, ap, ◌∙◌, [], ◌∷◌, ◌++◌, false, none,
  blocked, replicate,
}
use multithreaded_network_jo.Commands.{JobTriplate}
use multithreaded_network_jo.Tools.WaitingBufferQueue.{insert_job_triplate}
use multithreaded_network_jo.Tools.WaitingBufferQueue.Search.{queue_of}
use multithreaded_network_jo.Server.State.{
  controller_thread, worker_thread, mutex_worker, mutex_job_insertion, cond_worker,
  cond_all_jobs_done, CondVar, Server, lock, unlock, cond_wait, wake, signal, send_message,
}
use multithreaded_network_jo.Server.Choice.{Choice, proceeds, is_spurious}
use multithreaded_network_jo.Server.Controller
use multithreaded_network_jo.Server.Controller.{Controller, controller_step, step_at}
use multithreaded_network_jo.Server.Worker
use multithreaded_network_jo.Server.Worker.{worker_step}
use multithreaded_network_jo.Server.System.{System, thread_step, run}
use multithreaded_network_jo.Server.Induction.{update_same}
use multithreaded_network_jo.Server.Handlers.{Returns}
use multithreaded_network_jo.Server.Races.{
  many, controller_at, worker_at, controller_moves, worker_moves, run-then, controller-run,
  worker-run,
}

abbrev pub nobody : CondVar
nobody = record { waiting = 0; wakeups = 0 }

-- The job is in the buffer, its controller is through, and nobody heard the signal.
record Unheard (n : ℕ) (xs : List JobTriplate) (r : Server × Controller) : Type 0 where
  queue : r.0.queue ≡ queue_of n xs
  finished : r.1.pc ≡ Controller.finished
  nobody_woken : r.0.cond cond_worker ≡ nobody

insert-Unheard :
    (i n : ℕ) (xs : List JobTriplate) (s : Server) (c : Controller) (j : JobTriplate)
    → s.queue ≡ queue_of n xs
    → length xs < n
    → n < 2 ^ 32
    → c.pc ≡ Controller.insert_lock j
    → s.owner mutex_job_insertion ≡ none
    → s.cond cond_worker ≡ nobody
    → Returns (many (controller_at i) (replicate 6 proceeds) s c) (Unheard n (xs ++ j ∷ []))
unfolding many controller_step step_at lock unlock signal send_message insert_job_triplate
insert-Unheard i n xs s c j held room small at free none_waits =
    ground (arith, length-append xs (j ∷ []))

-- The worker waits, and its next step is not possible.
abbrev Asleep : ℕ → Choice → Server → Server × Worker.Pc → Type 0
Asleep k ch s r =
    (r.0.queue ≡ s.queue)
    × (r.1 ≡ Worker.idle_wait)
    × (worker_step r.1 ch (worker_thread k) r.0 ≡ blocked)

sleep-Asleep :
    (k : ℕ) (s : Server) (ch : Choice)
    → s.cond cond_worker ≡ nobody
    → is_spurious ch ≡ false
    → Returns (many (worker_at k) (proceeds ∷ []) s Worker.idle_sleep) (Asleep k ch s)
unfolding many worker_step cond_wait unlock wake
sleep-Asleep k s ch none_waits regular = ground arith

-- A worker has seen an empty buffer and stands before its wait, and nobody else waits for jobs. A
-- controller whose job the buffer has room for inserts it, signals and is through, and then the
-- worker waits: the job is the last in the buffer, and the worker cannot go on unless its wait ends
-- without a signal.
pub job_left_waiting :
    (i k n : ℕ) (y : System) (xs : List JobTriplate) (j : JobTriplate) (ch : Choice)
    → (y.controllers i).pc ≡ Controller.insert_lock j
    → y.workers k ≡ Worker.idle_sleep
    → y.server.queue ≡ queue_of n xs
    → length xs < n
    → n < 2 ^ 32
    → y.server.owner mutex_job_insertion ≡ none
    → y.server.cond cond_worker ≡ nobody
    → is_spurious ch ≡ false
    → Returns
        (run (controller_moves i (replicate 6 proceeds) ++ worker_moves k (proceeds ∷ [])) y)
        (λ z.
          (z.server.queue ≡ queue_of n (xs ++ j ∷ []))
          × ((z.controllers i).pc ≡ Controller.finished)
          × (z.workers k ≡ Worker.idle_wait)
          × (thread_step (worker_thread k) ch z ≡ blocked))
unfolding thread_step
job_left_waiting i k n y xs j ch at_i at_k held room small free none_waits regular =
    let filled : List JobTriplate = xs ++ j ∷ [] in
    let Mid : System → Type 0 =
      λ z. Unheard n filled (z.server, z.controllers i) × (z.workers k ≡ Worker.idle_sleep) in
    let End : System → Type 0 = λ z.
      (z.server.queue ≡ queue_of n filled)
      × ((z.controllers i).pc ≡ Controller.finished)
      × (z.workers k ≡ Worker.idle_wait)
      × (thread_step (worker_thread k) ch z ≡ blocked) in
    run-then Mid End (controller_moves i (replicate 6 proceeds)) (worker_moves k (proceeds ∷ [])) y
      (controller-run (Unheard n filled) Mid i (replicate 6 proceeds) y
        (insert-Unheard i n xs y.server (y.controllers i) j held room small at_i free none_waits)
        (λ r unheard. (rw (update_same y.controllers i r.1) unheard, at_k)))
      (λ z mid.
        worker-run (Asleep k ch z.server) End k (proceeds ∷ []) z
          (rw mid.1 (sleep-Asleep k z.server ch mid.0.nobody_woken regular))
          (λ r asleep. (
            asleep.0 ∙ mid.0.queue,
            mid.0.finished,
            update_same z.workers k r.1 ∙ asleep.1,
            rw (update_same z.workers k r.1, asleep.2) refl,
          )))

-- The last job has ended, and nobody heard the signal.
record Ended (r : Server × Worker.Pc) : Type 0 where
  idle : r.1 ≡ Worker.idle_lock
  none_runs : r.0.running_jobs ≡ 0
  nobody_woken : r.0.cond cond_all_jobs_done ≡ nobody

finish-Ended :
    (k : ℕ) (s : Server)
    → s.owner mutex_worker ≡ none
    → s.running_jobs ≡ 1
    → s.cond cond_all_jobs_done ≡ nobody
    → Returns (many (worker_at k) (replicate 5 proceeds) s Worker.finish_lock) Ended
unfolding many worker_step lock unlock signal
finish-Ended k s free last none_waits = ground arith

abbrev Stalled : ℕ → Choice → Server → Server × Controller → Type 0
Stalled i ch s r =
    (r.0.running_jobs ≡ s.running_jobs)
    × (r.1.pc ≡ Controller.jobs_wait)
    × (controller_step ch (controller_thread i) r.0 r.1 ≡ blocked)

sleep-Stalled :
    (i : ℕ) (s : Server) (c : Controller) (ch : Choice)
    → c.pc ≡ Controller.jobs_sleep
    → s.cond cond_all_jobs_done ≡ nobody
    → is_spurious ch ≡ false
    → Returns (many (controller_at i) (proceeds ∷ []) s c) (Stalled i ch s)
unfolding many controller_step step_at cond_wait unlock wake
sleep-Stalled i s c ch at none_waits regular = ground arith

-- The controller of `exit` stands before its wait for the running jobs, and nobody else waits for
-- them. The worker of the last one ends its job and signals, and then the controller waits: no job
-- runs, and the controller cannot go on unless its wait ends without a signal.
pub exit_left_waiting :
    (i k : ℕ) (y : System) (ch : Choice)
    → (y.controllers i).pc ≡ Controller.jobs_sleep
    → y.workers k ≡ Worker.finish_lock
    → y.server.owner mutex_worker ≡ none
    → y.server.running_jobs ≡ 1
    → y.server.cond cond_all_jobs_done ≡ nobody
    → is_spurious ch ≡ false
    → Returns
        (run (worker_moves k (replicate 5 proceeds) ++ controller_moves i (proceeds ∷ [])) y)
        (λ z.
          (z.server.running_jobs ≡ 0)
          × (z.workers k ≡ Worker.idle_lock)
          × ((z.controllers i).pc ≡ Controller.jobs_wait)
          × (thread_step (controller_thread i) ch z ≡ blocked))
unfolding thread_step
exit_left_waiting i k y ch at_i at_k free last none_waits regular =
    let Mid : System → Type 0 =
      λ z. Ended (z.server, z.workers k) × ((z.controllers i).pc ≡ Controller.jobs_sleep) in
    let End : System → Type 0 = λ z.
      (z.server.running_jobs ≡ 0)
      × (z.workers k ≡ Worker.idle_lock)
      × ((z.controllers i).pc ≡ Controller.jobs_wait)
      × (thread_step (controller_thread i) ch z ≡ blocked) in
    run-then Mid End (worker_moves k (replicate 5 proceeds)) (controller_moves i (proceeds ∷ [])) y
      (worker-run Ended Mid k (replicate 5 proceeds) y
        (rw at_k (finish-Ended k y.server free last none_waits))
        (λ r ended. (rw (update_same y.workers k r.1) ended, at_i)))
      (λ z mid.
        controller-run (Stalled i ch z.server) End i (proceeds ∷ []) z
          (sleep-Stalled i z.server (z.controllers i) ch mid.1 mid.0.nobody_woken regular)
          (λ r stalled. (
            stalled.0 ∙ mid.0.none_runs,
            mid.0.idle,
            ap (λ c. c.pc) (update_same z.controllers i r.1) ∙ stalled.1,
            rw (update_same z.controllers i r.1, stalled.2) refl,
          )))
