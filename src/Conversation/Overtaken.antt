-- ===== src/Conversation/Overtaken.antt =====
-- The answer to `issueJob` of src/Server/Threads/controllerThread.cpp and the output that
-- src/Server/Threads/workerThread.cpp sends to the same client: nothing orders the two.
use mathlib.Core.Path.{fun_ext}
use multithreaded_network_jo.Client.Process.{cancellation}
use multithreaded_network_jo.Prelude.{
  ℕ, ◌<◌, ◌^◌, ◌≡◌, ◌≢◌, refl, sym, ap, subst, ◌∙◌, arith, List, [], ◌∷◌, ◌++◌, false, Bytes, codes,
  same_text, IsAllocator, ◌>>=◌, replicate,
}
use multithreaded_network_jo.Commands.{JobTriplate, issue_job, get_client_command_mode}
use multithreaded_network_jo.Tools.WaitingBufferQueue.Search.{queue_of}
use multithreaded_network_jo.Server.State.{worker_thread, Server, c_str, signal, send_message}
use multithreaded_network_jo.Server.Choice.{Choice, proceeds}
use multithreaded_network_jo.Server.Controller
use multithreaded_network_jo.Server.Controller.{Controller, controller_step, step_at}
use multithreaded_network_jo.Server.Worker
use multithreaded_network_jo.Server.Worker.{create_output_response, worker_step}
use multithreaded_network_jo.Server.System.{System, run}
use multithreaded_network_jo.Server.Induction.{update_same}
use multithreaded_network_jo.Server.Handlers.{works, Returns, Free, message, send_all-append}
use multithreaded_network_jo.Server.Handlers.Work.{job_runs, Worked, worker_runs_job}
use multithreaded_network_jo.Server.Races.{
  many, controller_at, worker_at, controller_moves, worker_moves, run-then, controller-run,
  worker-run,
}
use multithreaded_network_jo.Server.Messages.{submit_message}
use multithreaded_network_jo.Conversation.{
  packets_for, Prints, Arrives, two_messages_printed, packets_of_job,
}

-- A worker's steps by themselves, in the two ways of writing them.
many-works :
    (k : ℕ) (chs : List Choice) (s : Server) (pc : Worker.Pc)
    → many (worker_at k) chs s pc ≡ works chs (worker_thread k) s pc
unfolding many works
many-works k [] s pc = refl
many-works k (ch ∷ chs) s pc =
    ap (λ f. worker_step pc ch (worker_thread k) s >>= f) (fun_ext (λ r. many-works k chs r.0 r.1))

response-not_cancelled :
    (output job_id : Bytes)
    → same_text (c_str (create_output_response output job_id)) cancellation ≡ false
unfolding create_output_response c_str same_text
response-not_cancelled output job_id = refl

answers-told :
    (i : ℕ) (s : Server) (c : Controller) (j : JobTriplate)
    → c.pc ≡ Controller.submit_respond j
    → Returns (many (controller_at i) (replicate 3 proceeds) s c) (λ r.
      (r.1.pc ≡ Controller.finished)
      × (r.0.sent ≡ s.sent ++ message j.socket_id (submit_message j)))
unfolding many controller_step step_at signal send_message
answers-told i s c j at =
    ground (arith, send_all-append s.sent (message j.socket_id (submit_message j)))

-- A controller has put its job into the buffer and not answered yet. A worker takes the job and
-- runs it to the end before the controller goes on: the client then prints the output of the job
-- first, where it reads the answer, and that its job is submitted last, where it reads the output.
pub output_overtakes_answer :
    (fresh : ℕ → Bytes) (i k : ℕ) (y : System) (n : ℕ) (j : JobTriplate) (command output : Bytes)
    → IsAllocator fresh
    → get_client_command_mode command ≡ issue_job
    → (y.controllers i).pc ≡ Controller.submit_respond j
    → y.workers k ≡ Worker.idle_lock
    → Free y.server
    → y.server.queue ≡ queue_of n (j ∷ [])
    → packets_for j.socket_id y.server.sent ≡ []
    → y.server.running_jobs ≢ y.server.concurrency
    → y.server.running_jobs < 2 ^ 32
    → y.server.busy_workers < 2 ^ 32
    → Returns
        (run (worker_moves k (job_runs output) ++ controller_moves i (replicate 3 proceeds)) y)
        (λ z.
          ((z.controllers i).pc ≡ Controller.finished)
          × Prints fresh command j.socket_id
              (c_str (create_output_response output j.job_id)
                ∷ c_str (codes "JOB <" ++ j.job_id ++ codes ", " ++ j.job ++ codes "> SUBMITTED")
                ∷ [])
              (z.server, z.workers k))
output_overtakes_answer fresh i k y n j command output alloc mode at_i at_k free room silent idle
      few busy =
    let response : Bytes = create_output_response output j.job_id in
    let lines : List Bytes = c_str response ∷ c_str (submit_message j) ∷ [] in
    let Mid : System → Type 0 = λ z.
      (z.server.sent ≡ y.server.sent ++ message j.socket_id response)
      × ((z.controllers i).pc ≡ Controller.submit_respond j) in
    let End : System → Type 0 = λ z.
      ((z.controllers i).pc ≡ Controller.finished)
      × Prints fresh command j.socket_id lines (z.server, z.workers k) in
    run-then Mid End (worker_moves k (job_runs output)) (controller_moves i (replicate 3 proceeds))
      y
      (worker-run (Worked n j [] output y.server) Mid k (job_runs output) y
        (rw (at_k, many-works k (job_runs output) y.server Worker.idle_lock)
          (subst
            (λ q.
              Returns
                (works (job_runs output) (worker_thread k) (record (y.server) { queue = q })
                  Worker.idle_lock)
                (Worked n j [] output y.server))
            (sym room)
            (worker_runs_job (worker_thread k) y.server n j [] output free idle few busy
              (omega arith))))
        (λ r worked. (worked.told, at_i)))
      (λ z mid.
        controller-run
          (λ r.
            (r.1.pc ≡ Controller.finished)
            × (r.0.sent ≡ z.server.sent ++ message j.socket_id (submit_message j)))
          End i (replicate 3 proceeds) z (answers-told i z.server (z.controllers i) j mid.1)
          (λ r told. (
            ap (λ c. c.pc) (update_same z.controllers i r.1) ∙ told.0,
            λ reads arrives.
                two_messages_printed fresh command response (submit_message j) reads alloc mode
                  (response-not_cancelled output j.job_id)
                  (subst (λ ps. Arrives ps (reads.first_answer ∷ reads.second_answer ∷ []))
                    (packets_of_job j.socket_id y.server.sent z.server.sent r.0.sent response
                      (submit_message j) silent mid.0 told.1)
                    arrives),
          )))
