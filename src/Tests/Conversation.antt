-- ===== src/Tests/Conversation.antt =====
-- A client and the server at concrete inputs.
use multithreaded_network_jo.Prelude.{
  ◌≡◌, ◌++◌, refl, arith, List, [], ◌∷◌, replicate, codes, ◌>>=◌, length,
}
use multithreaded_network_jo.Commands.{issue_job, JobTriplate}
use multithreaded_network_jo.Tools.WaitingBufferQueue.Search.{queue_of}
use multithreaded_network_jo.Server.State.{
  controller_thread, worker_thread, c_str, ThreadId, size, text,
}
use multithreaded_network_jo.Server.System.{initial, System, run}
use multithreaded_network_jo.Server.Worker
use multithreaded_network_jo.Server.Worker.{create_output_response}
use multithreaded_network_jo.Server.Handlers.{solo, works, Returns, Free, begins}
use multithreaded_network_jo.Server.Handlers.Issue.{next_job}
use multithreaded_network_jo.Server.Handlers.Work.{job_runs}
use multithreaded_network_jo.Server.Choice.{Choice, proceeds, spawns, outputs}
use multithreaded_network_jo.Server.Controller
use multithreaded_network_jo.Server.Races.{worker_moves, controller_moves}
use multithreaded_network_jo.Conversation.Overtaken.{output_overtakes_answer}
use multithreaded_network_jo.Tests.Scenario.{
  idle_server, idle_server-Free, is_issue, one_client, client_moves, end_of,
}
use multithreaded_network_jo.Server.Messages.{submit_message}
use multithreaded_network_jo.Conversation.Mixed.{messages_mixed}
use multithreaded_network_jo.Conversation.{packets_for, Arrives, Prints, submitted_job_printed}
use multithreaded_network_jo.Tests.Execution.{zeros, zeros-IsAllocator}

submitted_job_printed_example :
    let j = next_job idle_server.jobs_entered 7 (codes "issueJob ls") in
    Returns
      (solo 13
          (controller_thread 0)
          (record idle_server { queue = queue_of 2 [] })
          (begins 7 (codes "issueJob ls") issue_job)
        >>= λ c. works (job_runs (codes "total 0")) (worker_thread 0) c.0 Worker.idle_lock)
      (Prints zeros (codes "issueJob ls") 7 (
        c_str (codes "JOB <" ++ j.job_id ++ codes ", " ++ j.job ++ codes "> SUBMITTED")
        ∷ c_str (create_output_response (codes "total 0") j.job_id)
        ∷ []))
unfolding initial
submitted_job_printed_example =
    submitted_job_printed zeros (controller_thread 0) (worker_thread 0) idle_server 2 7
      (codes "issueJob ls") (codes "total 0") zeros-IsAllocator is_issue idle_server-Free refl
      (omega arith) (omega arith) (omega arith) (omega arith) (omega arith)

-- The controller has put its job into the buffer, and has not answered yet.
abbrev not_answered : List (ThreadId × Choice)
not_answered = one_client (codes "issueJob ls") ++ client_moves 0 10

abbrev inserted : System
inserted = end_of not_answered

abbrev ls_job : JobTriplate
ls_job = record { job_id = codes "job_1"; job = codes "ls"; socket_id = 7 }

inserted-Free : Free inserted.server
unfolding end_of
inserted-Free m = ground arith

output_overtakes_answer_example :
    Returns
      (run
        (worker_moves 0 (job_runs (codes "a.txt")) ++ controller_moves 0 (replicate 3 proceeds))
        inserted)
      (λ z.
        ((z.controllers 0).pc ≡ Controller.finished)
        × Prints zeros
            (codes "issueJob ls")
            7
            (c_str (create_output_response (codes "a.txt") (codes "job_1"))
              ∷ c_str (
                  codes "JOB <" ++ codes "job_1" ++ codes ", " ++ codes "ls" ++ codes "> SUBMITTED")
              ∷ [])
            (z.server, z.workers 0))
unfolding end_of
output_overtakes_answer_example =
    output_overtakes_answer zeros 0 0 inserted 2 ls_job (codes "issueJob ls") (codes "a.txt")
      zeros-IsAllocator is_issue refl refl inserted-Free refl refl (omega arith) (omega arith)
      (omega arith)

-- A worker runs the job before the controller has answered.
abbrev run_unanswered : List (ThreadId × Choice)
run_unanswered = not_answered ++ (worker_moves 0 (replicate 10 proceeds ++ spawns ∷ []))

abbrev unanswered : System
unanswered = end_of run_unanswered

messages_mixed_example :
    let answer = c_str (submit_message ls_job) in
    let response = c_str (create_output_response (codes "a.txt") (codes "job_1")) in
    Returns
      (run
        (controller_moves 0 (proceeds ∷ [])
          ++ (worker_moves 0 (outputs (codes "a.txt") ∷ proceeds ∷ [])
              ++ controller_moves 0 (proceeds ∷ [])))
        unanswered)
      (λ z.
        (packets_for 7 z.server.sent
          ≡ size (length answer) ∷ size (length response) ∷ text response ∷ text answer ∷ [])
        × (¬ (Arrives (packets_for 7 z.server.sent) [])))
unfolding end_of
messages_mixed_example =
    messages_mixed 0 0 unanswered ls_job ls_job (codes "a.txt") [] refl refl refl refl
