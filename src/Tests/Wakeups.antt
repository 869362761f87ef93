-- ===== src/Tests/Wakeups.antt =====
-- The orders of moves in src/Server in which a signal is lost, a job too many is started or a list
-- runs past its end, from states that a run reaches.
use multithreaded_network_jo.Prelude.{
  ◌+◌, ◌≡◌, ◌++◌, refl, arith, List, [], ◌∷◌, codes, replicate, blocked, fault, out_of_range,
}
use multithreaded_network_jo.Commands.{JobTriplate}
use multithreaded_network_jo.Tools.WaitingBufferQueue.Search.{queue_of}
use multithreaded_network_jo.Server.State.{ThreadId, main_thread, controller_thread, worker_thread}
use multithreaded_network_jo.Server.Choice.{Choice, proceeds, creates, accepts, receives, outputs}
use multithreaded_network_jo.Server.Controller
use multithreaded_network_jo.Server.Worker
use multithreaded_network_jo.Server.System.{System, thread_step, run}
use multithreaded_network_jo.Server.Handlers.{Returns}
use multithreaded_network_jo.Server.Races.{worker_moves, controller_moves}
use multithreaded_network_jo.Server.Races.Listing.{poll_runs_past_end}
use multithreaded_network_jo.Server.Races.Wakeups.{job_left_waiting, exit_left_waiting}
use multithreaded_network_jo.Server.Races.Concurrency.{starts_job, concurrency_exceeded}
use multithreaded_network_jo.Tests.Scenario.{
  end_from, end_of, main_moves, client_moves, one_client, one_job,
}

-- The worker has seen the empty buffer, and the controller has made its triplate.
abbrev not_asleep_yet : List (ThreadId × Choice)
not_asleep_yet =
    one_client (codes "issueJob ls") ++ (client_moves 0 7 ++ worker_moves 0 (replicate 2 proceeds))

abbrev job_made : System
job_made = end_of not_asleep_yet

abbrev made : JobTriplate
made = record { job_id = codes "job_1"; job = codes "ls"; socket_id = 7 }

job_left_waiting_example :
    Returns
      (run (controller_moves 0 (replicate 6 proceeds) ++ worker_moves 0 (proceeds ∷ [])) job_made)
      (λ z.
        (z.server.queue ≡ queue_of 2 (made ∷ []))
        × ((z.controllers 0).pc ≡ Controller.finished)
        × (z.workers 0 ≡ Worker.idle_wait)
        × (thread_step (worker_thread 0) proceeds z ≡ blocked))
unfolding end_of
job_left_waiting_example =
    job_left_waiting 0 0 2 job_made [] made proceeds refl refl refl (omega arith) (omega arith) refl
      refl refl

-- A second client comes.
abbrev second_client : List (ThreadId × Choice)
second_client =
    main_moves 4
    ++ ((main_thread, accepts 8) ∷ (main_thread, proceeds) ∷ (main_thread, creates) ∷ [])

-- One job runs, and a second client sends `exit`.
abbrev exit_with_job : List (ThreadId × Choice)
exit_with_job =
    one_job
    ++ (second_client
        ++ ((controller_thread 1, proceeds) ∷ (controller_thread 1, receives (codes "exit")) ∷ [])
        ++ client_moves 1 7
        ++ ((worker_thread 0, outputs (codes "a.txt")) ∷ (worker_thread 0, proceeds) ∷ []))

abbrev exiting : System
exiting = end_of exit_with_job

exit_left_waiting_example :
    Returns
      (run (worker_moves 0 (replicate 5 proceeds) ++ controller_moves 1 (proceeds ∷ [])) exiting)
      (λ z.
        (z.server.running_jobs ≡ 0)
        × (z.workers 0 ≡ Worker.idle_lock)
        × ((z.controllers 1).pc ≡ Controller.jobs_wait)
        × (thread_step (controller_thread 1) proceeds z ≡ blocked))
unfolding end_of
exit_left_waiting_example = exit_left_waiting 1 0 exiting proceeds refl refl refl refl refl refl

-- Two clients and two workers, which have both left their wait for a job.
abbrev two_jobs : List (ThreadId × Choice)
two_jobs =
    ((main_thread, creates) ∷ [])
    ++ (one_client (codes "issueJob ls")
        ++ client_moves 0 13
        ++ second_client
        ++ ((controller_thread 1, proceeds)
            ∷ (controller_thread 1, receives (codes "issueJob date"))
            ∷ [])
        ++ client_moves 1 13
        ++ worker_moves 0 (replicate 3 proceeds)
        ++ worker_moves 1 (replicate 3 proceeds))

abbrev both_go_on : System
both_go_on = end_from 2 2 two_jobs

abbrev also_made : JobTriplate
also_made = record { job_id = codes "job_2"; job = codes "date"; socket_id = 8 }

concurrency_exceeded_example :
    Returns (run (worker_moves 0 starts_job ++ worker_moves 1 starts_job) both_go_on) (λ z.
      (z.workers 0 ≡ Worker.running made)
      × (z.workers 1 ≡ Worker.running also_made)
      × (z.server.concurrency ≡ both_go_on.server.concurrency)
      × (z.server.running_jobs ≡ z.server.concurrency + 1))
unfolding end_from
concurrency_exceeded_example =
    concurrency_exceeded 0 1 both_go_on made also_made [] (omega arith) refl refl refl refl refl
      refl (omega arith)

-- A client has put in one job, which the worker has seen, and a second one polls.
abbrev polling : List (ThreadId × Choice)
polling =
    one_client (codes "issueJob ls")
    ++ (client_moves 0 13
        ++ second_client
        ++ ((controller_thread 1, proceeds) ∷ (controller_thread 1, receives (codes "poll")) ∷ [])
        ++ client_moves 1 4
        ++ worker_moves 0 (replicate 3 proceeds))

abbrev listing : System
listing = end_of polling

poll_runs_past_end_example :
    run (worker_moves 0 (replicate 2 proceeds) ++ controller_moves 1 (proceeds ∷ [])) listing
    ≡ fault out_of_range
unfolding end_of
poll_runs_past_end_example =
    poll_runs_past_end 1 0 1 listing made [] refl (omega arith) refl refl refl
