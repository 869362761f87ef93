-- ===== src/Tests/Answers.antt =====
-- A client's command, its controller and its answer at concrete inputs.
use multithreaded_network_jo.Prelude.{
  ◌+◌, ◌*◌, ◌-◌, ◌≡◌, refl, arith, [], ◌∷◌, codes, to_string, some, same_text, true, ◌>>=◌, length,
}
use multithreaded_network_jo.Commands.{JobTriplate, get_client_command_mode, issue_job, exit}
use multithreaded_network_jo.Tools.WaitingBufferQueue.Fifo.{extract}
use multithreaded_network_jo.Tools.WaitingBufferQueue.Search.{queue_of}
use multithreaded_network_jo.Server.State.{controller_thread, c_str, Server}
use multithreaded_network_jo.Server.Messages.{
  submit_message, removed_message, drain_message, stop_message,
}
use multithreaded_network_jo.Server.System.{initial}
use multithreaded_network_jo.Server.Handlers.{solo, Returns, Free, begins, message}
use multithreaded_network_jo.Client.Process.{join_words, send_command}
use multithreaded_network_jo.Conversation.{Prints}
use multithreaded_network_jo.Conversation.Level.{PrintsLevel, level_printed}
use multithreaded_network_jo.Conversation.Listing.{PrintsPoll, poll_printed}
use multithreaded_network_jo.Conversation.Ending.{Others, PrintsExit, exit_printed}
use multithreaded_network_jo.Conversation.Cancelled.{CancelledOnly, cancelled_job_printed}
use multithreaded_network_jo.Conversation.Removed.{PrintsStop, removed_job_printed}
use multithreaded_network_jo.Tests.Execution.{zeros, zeros-IsAllocator}
use multithreaded_network_jo.Tests.Scenario.{idle_server, idle_server-Free, is_issue}

level_printed_example :
    let command = (send_command (join_words (codes "setConcurrency" ∷ to_string 4 ∷ []))).1 in
    Returns
      (solo
        (7 + 4 * (4 - idle_server.busy_workers))
        (controller_thread 0)
        idle_server
        (begins 9 command (get_client_command_mode command)))
      (PrintsLevel zeros 9 4 0)
unfolding initial zeros to_string
level_printed_example =
    level_printed zeros (controller_thread 0) idle_server 9 4 0 (zeros 20) idle_server-Free
      (omega arith) (omega arith) refl refl refl

abbrev ls_job : JobTriplate
ls_job = record { job_id = codes "job_1"; job = codes "ls"; socket_id = 7 }

abbrev other_job : JobTriplate
other_job = record { job_id = codes "job_2"; job = codes "date"; socket_id = 8 }

-- One job has been submitted, and its client told so.
abbrev told_server : Server
told_server = record idle_server { sent = message 7 (submit_message ls_job) }

told_server-Free : Free told_server
unfolding initial
told_server-Free m = refl

ls_found : (extract (codes "job_1") (ls_job ∷ [])).0 ≡ some ls_job
unfolding extract same_text
ls_found = refl

removed_job_printed_example :
    let command = (send_command (join_words (codes "stop" ∷ codes "job_1" ∷ []))).1 in
    Returns
      (solo 11
        (controller_thread 1)
        (record told_server { queue = queue_of 2 (ls_job ∷ []) })
        (begins 9 command (get_client_command_mode command)))
      (λ r.
        PrintsStop zeros 9 (codes "job_1") (stop_message (codes "job_1") (some ls_job)) 0 r
        × Prints zeros
            (codes "issueJob ls")
            7
            (c_str (submit_message ls_job) ∷ c_str removed_message ∷ [])
            r)
unfolding zeros
removed_job_printed_example =
    removed_job_printed zeros (controller_thread 1) told_server 2 9 0 (ls_job ∷ []) ls_job
      (codes "job_1") (codes "issueJob ls") (zeros 17) zeros-IsAllocator told_server-Free
      (omega arith) (ground arith) ls_found (omega arith) refl refl is_issue refl refl

poll_printed_example :
    let command = (send_command (join_words (codes "poll" ∷ []))).1 in
    Returns
      (solo
        (5 + 2 * length (ls_job ∷ []))
        (controller_thread 1)
        (record told_server { queue = queue_of 2 (ls_job ∷ []) })
        (begins 9 command (get_client_command_mode command)))
      (PrintsPoll zeros 9 (ls_job ∷ []))
poll_printed_example =
    poll_printed zeros (controller_thread 1) told_server 2 9 (ls_job ∷ []) zeros-IsAllocator
      told_server-Free (omega arith) refl

exit_printed_example :
    let command = (send_command (join_words (codes "exit" ∷ []))).1 in
    Returns
      (solo
        (14 + 4 * length (ls_job ∷ []))
        (controller_thread 1)
        (record told_server { queue = queue_of 2 (ls_job ∷ []) })
        (begins 9 command (get_client_command_mode command)))
      (λ r.
        (r.0.should_stop ≡ true)
        × PrintsExit zeros 9 0 r
        × Prints zeros
            (codes "issueJob ls")
            7
            (c_str (submit_message ls_job) ∷ c_str drain_message ∷ [])
            r)
unfolding zeros initial
exit_printed_example =
    exit_printed zeros (controller_thread 1) told_server 2 9 0 [] [] ls_job (codes "issueJob ls")
      (zeros 17) zeros-IsAllocator told_server-Free (omega arith) refl ((λ same. omega arith), tt)
      tt tt refl refl is_issue refl refl

nobody_told : Others 7 (other_job ∷ [])
nobody_told = ((λ same. omega arith), tt)

cancelled_job_printed_example :
    Returns
      (solo 6
          (controller_thread 0)
          (record idle_server { queue = queue_of 1 (other_job ∷ []) })
          (begins 7 (codes "issueJob ls") issue_job)
        >>= λ a.
            solo
              (14 + 4 * length (other_job ∷ []))
              (controller_thread 1)
              a.0
              (begins 9 (codes "exit") exit)
            >>= λ b. solo 5 (controller_thread 0) b.0 a.1)
      (CancelledOnly zeros (codes "issueJob ls") 7 1)
unfolding initial
cancelled_job_printed_example =
    cancelled_job_printed zeros (controller_thread 0) (controller_thread 1) idle_server 1 7 9
      (other_job ∷ []) (codes "issueJob ls") (codes "exit") zeros-IsAllocator is_issue
      idle_server-Free refl (omega arith) refl nobody_told (omega arith) refl
